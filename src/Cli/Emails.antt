-- ===== src/Cli/Emails.antt =====
-- `CLIUtils::is_valid_email` of cli_interface.cpp.
use zero_trust_secure_sessio.Common.{
  ℕ, zero, suc, ◌+◌, ◌-◌, ◌≤◌, ◌≡◌, refl, sym, ap, subst, ◌∙◌, ◌↔◌, inl, inr, Bool, true, false,
  ◌&&◌, ◌||◌, List, [], ◌∷◌, ◌++◌, String, Option, none, some, arith, nat_eq, ◌==◌, ltb,
  if◌then◌else◌, All, length, length-append, codes, dot, Bool-cases, Option-cases,
}

-- `std::string::find` of a character; `none` is npos.
abbrev pub shift : ℕ → Option ℕ → Option ℕ
shift n none = none
shift n (some i) = some (n + i)

unfoldable pub find : ℕ → List ℕ → Option ℕ
find c [] = none
find c (d ∷ cs) = let later = shift 1 (find c cs) in if d == c then some 0 else later

abbrev pub behind_first : ℕ → List ℕ → List ℕ
behind_first zero cs = cs
behind_first (suc n) [] = []
behind_first (suc n) (c ∷ cs) = behind_first n cs

unfoldable pub find_from : ℕ → List ℕ → ℕ → Option ℕ
unfolding find
find_from c cs n = shift n (find c (behind_first n cs))

abbrev pub at_sign : ℕ
at_sign = 64

abbrev pub is_domain : ℕ → ℕ → Option ℕ → Bool
is_domain n at none = false
is_domain n at (some point) = ltb (at + 1) point && ltb point (n - 1)

abbrev pub is_placed : ℕ → ℕ → Option ℕ → Bool
is_placed n at point = if at == 0 || at == n - 1 then false else is_domain n at point

abbrev pub is_address : List ℕ → Option ℕ → Bool
is_address cs none = false
is_address cs (some at) = is_placed (length cs) at (find_from dot cs at)

unfoldable pub is_valid_email : String → Bool
unfolding find_from
is_valid_email email = is_address (codes email) (find at_sign (codes email))

abbrev Lacks : ℕ → List ℕ → Type 0
Lacks c cs = All (λ d. (d == c) ≡ false) cs

find_split :
    (c : ℕ) (cs : List ℕ) (i : ℕ)
    → find c cs ≡ some i
    → (before : List ℕ) × (after : List ℕ) × (cs ≡ before ++ c ∷ after)
      × (length before ≡ i)
      × Lacks c before
unfolding find
find_split c [] i h = absurd (ground (arith, h))
find_split c (d ∷ cs) i h = elim (Bool-cases (d == c)) [
  | inl e ↦ ([], cs, ap (λ x. x ∷ cs) ((nat_eq.equal_iff d c).0 e), ground (arith, e, h), tt)
  | inr e ↦ elim (Option-cases (find c cs)) [
    | inl f ↦ absurd (ground (arith, e, f, h))
    | inr (j, f) ↦
        let (before, after, cut, count, lacks) = find_split c cs j f in
        (d ∷ before, after, ap (λ x. d ∷ x) cut, ground (arith, e, f, h, count), (e, lacks))
  ]
]

find_first :
    (c : ℕ) (before after : List ℕ)
    → Lacks c before
    → find c (before ++ c ∷ after) ≡ some (length before)
unfolding find
find_first c [] after h = rw ((nat_eq.equal_iff c c).1 refl) refl
find_first c (d ∷ before) after (e, h) = rw (e, find_first c before after h, find) (ground arith)

behind_first-append :
    (before after : List ℕ) → behind_first (length before) (before ++ after) ≡ after
behind_first-append [] after = refl
behind_first-append (c ∷ before) after = behind_first-append before after

-- The search for the dot begins at the '@'.
find_from-append :
    (name after : List ℕ)
    → find_from dot (name ++ at_sign ∷ after) (length name)
      ≡ shift (length name) (shift 1 (find dot after))
unfolding find_from
find_from-append name after = rw (behind_first-append name (at_sign ∷ after), find_from) refl

-- A name, an '@', a host and what follows its first dot.
abbrev pub IsAddress : List ℕ → Type 0
IsAddress cs =
    (name : List ℕ) × (host : List ℕ) × (domain : List ℕ) × (cs
      ≡ name ++ at_sign ∷ (host ++ dot ∷ domain))
    × Lacks at_sign name
    × Lacks dot host
    × (1 ≤ length name)
    × (1 ≤ length host)
    × (1 ≤ length domain)

is_placed_iff :
    (a k d : ℕ)
    → (is_placed (a + suc (k + suc d)) a (some (a + (1 + k))) ≡ true)
      ↔ ((1 ≤ a) × (1 ≤ k) × (1 ≤ d))
is_placed_iff a k d = (λ h. ground (arith, h), λ (p, q, r). ground (arith, p, q, r))

is_address-append :
    (name host domain : List ℕ)
    → Lacks dot host
    → is_address (name ++ at_sign ∷ (host ++ dot ∷ domain)) (some (length name))
      ≡ is_placed
          (length name + suc (length host + suc (length domain)))
          (length name)
          (some (length name + (1 + length host)))
is_address-append name host domain lacks =
    rw
      (
        find_from-append name (host ++ dot ∷ domain),
        find_first dot host domain lacks,
        length-append name (at_sign ∷ (host ++ dot ∷ domain)),
        length-append host (dot ∷ domain),
      )
      refl

-- With no dot behind the '@' there is no position, else one that the lengths decide.
is_address-split :
    (name after : List ℕ) (o : Option ℕ)
    → find dot after ≡ o
    → Lacks at_sign name
    → is_address (name ++ at_sign ∷ after) (some (length name)) ≡ true
    → IsAddress (name ++ at_sign ∷ after)
is_address-split name after none e lacks h =
    absurd (ground (arith, rw (find_from-append name after, e) at h))
is_address-split name after (some k) e lacks h =
    let (host, domain, cut, count, lacks') = find_split dot after k e in
    let placed = (is_placed_iff (length name) (length host) (length domain)).0 (
      sym (is_address-append name host domain lacks')
      ∙ subst (λ t. is_address (name ++ at_sign ∷ t) (some (length name)) ≡ true) cut h) in
    (
      name,
      host,
      domain,
      ap (λ t. name ++ at_sign ∷ t) cut,
      lacks,
      lacks',
      placed.0,
      placed.1,
      placed.2,
    )

is_address_sound :
    (cs : List ℕ) (o : Option ℕ) → find at_sign cs ≡ o → is_address cs o ≡ true → IsAddress cs
is_address_sound cs none found h = absurd (ground (arith, h))
is_address_sound cs (some i) found h =
    let (name, after, cut, count, lacks) = find_split at_sign cs i found in
    subst IsAddress (sym cut) (
      is_address-split name after (find dot after) refl lacks (
        subst (λ t. is_address t (some (length name)) ≡ true) cut
          (subst (λ n. is_address cs (some n) ≡ true) (sym count) h)))

-- An e-mail address is accepted exactly if it is a name, the first '@', a host up to the first dot
-- behind it, and more, none of the three empty.
pub is_valid_email_iff : (email : String) → (is_valid_email email ≡ true) ↔ IsAddress (codes email)
unfolding is_valid_email
is_valid_email_iff email = (
  λ h. is_address_sound (codes email) (find at_sign (codes email)) refl h,
  λ (name, host, domain, cut, lacks, lacks', n, k, d).
      let found : find at_sign (codes email) ≡ some (length name) =
        ap (find at_sign) cut ∙ find_first at_sign name (host ++ dot ∷ domain) lacks in
      rw (found, is_valid_email)
        (subst (λ t. is_address t (some (length name)) ≡ true) (sym cut)
          (is_address-append name host domain lacks'
            ∙ (is_placed_iff (length name) (length host) (length domain)).1 (n, k, d))),
)
