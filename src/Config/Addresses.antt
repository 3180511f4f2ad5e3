-- ===== src/Config/Addresses.antt =====
-- `ConfigUtils::is_valid_ip_address` of config_manager.cpp.
use zero_trust_secure_sessio.Common.{
  ℕ, zero, suc, ◌+◌, ◌-◌, ◌*◌, ◌≤◌, ◌≡◌, refl, sym, ap, subst, ◌∙◌, ◌↔◌, ◌⊎◌, inl, inr, Bool, true,
  false, not, ◌&&◌, ◌||◌, List, [], ◌∷◌, ◌++◌, String, arith, string_eq, nat_eq, ◌==◌, ltb, leb,
  if◌then◌else◌, length, codes, dot, Bool-cases,
}

-- `std::count` of the dots.
unfoldable pub count_dots : List ℕ → ℕ
count_dots [] = 0
count_dots (c ∷ cs) = (if c == dot then 1 else 0) + count_dots cs

abbrev pub prepend : ℕ → List (List ℕ) → List (List ℕ)
prepend c [] = (c ∷ []) ∷ []
prepend c (s ∷ ss) = (c ∷ s) ∷ ss

-- What `std::getline` reads with the delimiter '.': nothing behind a dot that ends the text.
unfoldable pub segments : List ℕ → List (List ℕ)
segments [] = []
segments (c ∷ cs) = let rest = segments cs in if c == dot then [] ∷ rest else prepend c rest

abbrev pub is_digit : ℕ → Bool
is_digit c = leb 48 c && leb c 57

abbrev pub all_digits : List ℕ → Bool
all_digits [] = true
all_digits (c ∷ cs) = is_digit c && all_digits cs

-- `std::stoi` on a text of digits.
abbrev pub value_from : ℕ → List ℕ → ℕ
value_from n [] = n
value_from n (c ∷ cs) = value_from (n * 10 + (c - 48)) cs

abbrev pub is_octet : List ℕ → Bool
is_octet s = not (length s == 0 || ltb 3 (length s)) && all_digits s && leb (value_from 0 s) 255

unfoldable pub all_octets : List (List ℕ) → Bool
all_octets [] = true
all_octets (s ∷ ss) = is_octet s && all_octets ss

unfoldable pub is_valid_ip_address : String → Bool
unfolding count_dots segments all_octets
is_valid_ip_address ip =
    if ip == "" || ip == "0.0.0.0"
    then true
    else if not (count_dots (codes ip) == 3)
    then false
    else all_octets (segments (codes ip))

abbrev IsDigit : ℕ → Type 0
IsDigit c = (48 ≤ c) × (c ≤ 57)

-- One to three digits that stand for at most 255.
abbrev pub IsOctet : List ℕ → Type 0
IsOctet [] = false ≡ true
IsOctet (a ∷ []) = IsDigit a
IsOctet (a ∷ b ∷ []) = IsDigit a × IsDigit b
IsOctet (a ∷ b ∷ c ∷ []) =
    IsDigit a × IsDigit b × IsDigit c × (100 * (a - 48) + 10 * (b - 48) + (c - 48) ≤ 255)
IsOctet (a ∷ b ∷ c ∷ d ∷ rest) = false ≡ true

-- So many octets, each followed by a dot, and then one more or nothing.
abbrev pub Octets : ℕ → List ℕ → Type 0
Octets zero cs = (cs ≡ []) ⊎ IsOctet cs
Octets (suc n) cs =
    (octet : List ℕ) × (rest : List ℕ) × (cs ≡ octet ++ dot ∷ rest) × IsOctet octet × Octets n rest

is_octet_iff : (s : List ℕ) → (is_octet s ≡ true) ↔ IsOctet s
is_octet_iff [] = ground arith
is_octet_iff (a ∷ []) = ground arith
is_octet_iff (a ∷ b ∷ []) = ground arith
is_octet_iff (a ∷ b ∷ c ∷ []) = ground arith
is_octet_iff (a ∷ b ∷ c ∷ d ∷ rest) = ground arith

-- A text with a dot, cut at the first one.
first_dot :
    (n : ℕ) (cs : List ℕ)
    → count_dots cs ≡ suc n
    → (before : List ℕ) × (rest : List ℕ) × (cs ≡ before ++ dot ∷ rest)
      × (segments cs ≡ before ∷ segments rest)
      × (count_dots rest ≡ n)
unfolding count_dots segments
first_dot n [] h = absurd (ground (arith, h))
first_dot n (c ∷ cs) h = elim (Bool-cases (c == dot)) [
  | inl e ↦ ([], cs, ground (arith, nat_eq.equal_iff c dot), rw (e, segments) refl, ground arith)
  | inr e ↦
      let (before, rest, cut, pieces, counted) = first_dot n cs (ground arith) in
      (c ∷ before, rest, ap (λ s. c ∷ s) cut, rw (e, pieces, segments) refl, counted)
]

no_dot : (cs : List ℕ) → count_dots cs ≡ 0 → (cs ≡ []) ⊎ (segments cs ≡ cs ∷ [])
unfolding count_dots segments
no_dot [] h = inl refl
no_dot (c ∷ cs) h =
    let other : (c == dot) ≡ false = ground arith in
    elim (no_dot cs (ground arith)) [
      | inl e ↦ inr (rw (other, e, segments) refl)
      | inr e ↦ inr (rw (other, e, segments) refl)
    ]

-- An octet has no dot, so it is one segment.
octet_cut :
    (s : List ℕ) (rest : List ℕ)
    → all_digits s ≡ true
    → (segments (s ++ dot ∷ rest) ≡ s ∷ segments rest)
      × (count_dots (s ++ dot ∷ rest) ≡ suc (count_dots rest))
unfolding count_dots segments
octet_cut [] rest h = (refl, ground arith)
octet_cut (c ∷ s) rest h =
    let (pieces, counted) = octet_cut s rest (ground arith) in
    let other : (c == dot) ≡ false = ground (arith, nat_eq.equal_iff c dot) in
    (rw (other, pieces, segments) refl, ground arith)

octet_alone : (s : List ℕ) → all_digits s ≡ true → (count_dots s ≡ 0)
unfolding count_dots
octet_alone [] h = refl
octet_alone (c ∷ s) h = ground (arith, octet_alone s, nat_eq.equal_iff c dot)

all_octets_sound :
    (n : ℕ) (cs : List ℕ) → count_dots cs ≡ n → all_octets (segments cs) ≡ true → Octets n cs
unfolding all_octets
all_octets_sound zero cs h a = elim (no_dot cs h) [
  | inl e ↦ inl e
  | inr e ↦ inr ((is_octet_iff cs).0 (ground (arith, ap all_octets e)))
]
all_octets_sound (suc n) cs h a =
    let (before, rest, cut, pieces, counted) = first_dot n cs h in
    let both : (is_octet before && all_octets (segments rest)) ≡ true =
      sym (ap all_octets pieces) ∙ a in
    (
      before,
      rest,
      cut,
      (is_octet_iff before).0 (ground (arith, both)),
      all_octets_sound n rest counted (ground (arith, both)),
    )

all_octets_complete :
    (n : ℕ) (cs : List ℕ) → Octets n cs → (count_dots cs ≡ n) × (all_octets (segments cs) ≡ true)
unfolding all_octets count_dots segments
all_octets_complete zero cs (inl e) = rw e (refl, refl)
all_octets_complete zero cs (inr o) =
    let accepted : is_octet cs ≡ true = (is_octet_iff cs).1 o in
    let none_in : count_dots cs ≡ 0 = octet_alone cs (ground (arith, accepted)) in
    (
      none_in,
      elim (no_dot cs none_in) [
        | inl e ↦ ap (λ c. all_octets (segments c)) e
        | inr e ↦ rw (e, all_octets) (ground (arith, accepted))
      ],
    )
all_octets_complete (suc n) cs (octet, rest, cut, o, more) =
    let (counted, good) = all_octets_complete n rest more in
    let accepted : is_octet octet ≡ true = (is_octet_iff octet).1 o in
    let (pieces, count) = octet_cut octet rest (ground (arith, accepted)) in
    (
      ap count_dots cut ∙ count ∙ ap suc counted,
      rw (cut, pieces, all_octets) (ground (arith, accepted, good)),
    )

zero-IsDigit : IsDigit 48
zero-IsDigit = (omega arith, omega arith)

any_address : Octets 3 (codes "0.0.0.0")
any_address = (
  48 ∷ [],
  codes "0.0.0",
  refl,
  zero-IsDigit,
  (
    48 ∷ [],
    codes "0.0",
    refl,
    zero-IsDigit,
    (48 ∷ [], codes "0", refl, zero-IsDigit, inr zero-IsDigit),
  ),
)

-- An address is accepted exactly if it is empty, or is three numbers with a dot behind each and then
-- a fourth or nothing, each number of one to three digits and at most 255: "10.0.0." passes too.
pub is_valid_ip_address_iff :
    (ip : String) → (is_valid_ip_address ip ≡ true) ↔ ((ip ≡ "") ⊎ Octets 3 (codes ip))
unfolding is_valid_ip_address
is_valid_ip_address_iff ip = (
  λ h. elim (Bool-cases (ip == "")) [
    | inl e ↦ inl ((string_eq.equal_iff ip "").0 e)
    | inr e ↦ inr (elim (Bool-cases (ip == "0.0.0.0")) [
      | inl z ↦
          subst (λ t. Octets 3 (codes t)) (sym ((string_eq.equal_iff ip "0.0.0.0").0 z)) any_address
      | inr z ↦
          all_octets_sound 3 (codes ip) (ground (arith, nat_eq.equal_iff (count_dots (codes ip)) 3))
            (ground arith)
    ])
  ],
  λ h. elim h [
    | inl e ↦ ground (arith, string_eq.equal_iff ip "")
    | inr o ↦
        let (counted, good) = all_octets_complete 3 (codes ip) o in ground (arith, counted, good)
  ],
)
