-- ===== src/Connection/Delimiters.antt =====
-- Where a list of messages with their delimiters is cut (the reads of connection.cpp).
use mathlib.Core.List.{append_assoc}
use zero_trust_secure_sessio.Common.{
  ℕ, zero, suc, ◌+◌, ◌-◌, ◌≤◌, ◌≡◌, refl, sym, ap, ◌∙◌, ◌&&◌, List, [], ◌∷◌, ◌++◌, Option, none,
  some, nat_eq, ◌==◌, if◌then◌else◌, arith, length, All, Bool-cases, Option-cases, inl, inr,
}
use zero_trust_secure_sessio.Auth.{take, drop}
use zero_trust_secure_sessio.Connection.Wire.{message_delimiter}

-- The number of bytes up to the end of the first delimiter.
abbrev pub end_of_first : List ℕ → Option ℕ
end_of_first [] = none
end_of_first (a ∷ []) = none
end_of_first (a ∷ b ∷ cs) =
    if a == 10 && b == 10
    then some 2
    else elim (end_of_first (b ∷ cs)) [ none ↦ none | some n ↦ some (suc n) ]

-- A text that can be sent as a message: the delimiter behind it is the first one.
abbrev pub IsMessage : List ℕ → Type 0
IsMessage m = end_of_first (m ++ message_delimiter) ≡ some (length m + 2)

abbrev pub sent : List (List ℕ) → List ℕ
sent [] = []
sent (m ∷ ms) = m ++ (message_delimiter ++ sent ms)

end_of_first-append :
    (xs ys : List ℕ) (n : ℕ) → end_of_first xs ≡ some n → end_of_first (xs ++ ys) ≡ some n
end_of_first-append [] ys n h = absurd (ground (arith, h))
end_of_first-append (a ∷ []) ys n h = absurd (ground (arith, h))
end_of_first-append (a ∷ b ∷ cs) ys n h = elim (Bool-cases (a == 10 && b == 10)) [
  | inl e ↦ ground (arith, e, h)
  | inr e ↦ elim (Option-cases (end_of_first (b ∷ cs))) [
    | inl f ↦ absurd (ground (arith, e, f, h))
    | inr (k, f) ↦ ground (arith, e, f, h, end_of_first-append (b ∷ cs) ys k f)
  ]
]

end_of_first-length : (xs : List ℕ) (n : ℕ) → end_of_first xs ≡ some n → n ≤ length xs
end_of_first-length [] n h = absurd (ground (arith, h))
end_of_first-length (a ∷ []) n h = absurd (ground (arith, h))
end_of_first-length (a ∷ b ∷ cs) n h = elim (Bool-cases (a == 10 && b == 10)) [
  | inl e ↦ ground (arith, e, h)
  | inr e ↦ elim (Option-cases (end_of_first (b ∷ cs))) [
    | inl f ↦ absurd (ground (arith, e, f, h))
    | inr (k, f) ↦ ground (arith, e, f, h, end_of_first-length (b ∷ cs) k f)
  ]
]

take-append : (n : ℕ) (xs ys : List ℕ) → n ≤ length xs → take n (xs ++ ys) ≡ take n xs
take-append zero xs ys h = refl
take-append (suc n) [] ys h = absurd (omega (arith, h))
take-append (suc n) (x ∷ xs) ys h = ap (λ t. x ∷ t) (take-append n xs ys (omega (arith, h)))

drop-append : (n : ℕ) (xs ys : List ℕ) → n ≤ length xs → drop n (xs ++ ys) ≡ drop n xs ++ ys
drop-append zero xs ys h = refl
drop-append (suc n) [] ys h = absurd (omega (arith, h))
drop-append (suc n) (x ∷ xs) ys h = drop-append n xs ys (omega (arith, h))

take-length : (xs ys : List ℕ) → take (length xs) (xs ++ ys) ≡ xs
take-length [] ys = refl
take-length (x ∷ xs) ys = ap (λ t. x ∷ t) (take-length xs ys)

drop-length : (xs ys : List ℕ) (k : ℕ) → drop (length xs + k) (xs ++ ys) ≡ drop k ys
drop-length [] ys k = ap (λ n. drop n ys) (omega arith)
drop-length (x ∷ xs) ys k =
    let size : length (x ∷ xs) + k ≡ suc (length xs + k) = omega arith in
    ap (λ n. drop n (x ∷ xs ++ ys)) size ∙ drop-length xs ys k

-- The first message of a stream of which the buffer holds a part with a delimiter.
first_message :
    (xs later m rest : List ℕ) (n : ℕ)
    → IsMessage m
    → end_of_first xs ≡ some n
    → xs ++ later ≡ m ++ (message_delimiter ++ rest)
    → (take (n - 2) xs ≡ m) × (drop n xs ++ later ≡ rest)
first_message xs later m rest n framed counted e =
    let assoc : (m ++ message_delimiter) ++ rest ≡ m ++ (message_delimiter ++ rest) =
      append_assoc m message_delimiter rest in
    let long : some n ≡ some (length m + 2) =
      sym (end_of_first-append xs later n counted)
      ∙ ap end_of_first (e ∙ sym assoc)
      ∙ end_of_first-append (m ++ message_delimiter) rest (length m + 2) framed in
    let size : n ≡ length m + 2 = ground (arith, long) in
    let fits : n ≤ length xs = end_of_first-length xs n counted in
    (
      sym (take-append (n - 2) xs later (omega (arith, fits)))
          ∙ ap (take (n - 2)) e
          ∙ ap (λ k. take k (m ++ (message_delimiter ++ rest))) (omega (arith, size))
          ∙ take-length m (message_delimiter ++ rest),
      sym (drop-append n xs later fits)
          ∙ ap (drop n) e
          ∙ ap (λ k. drop k (m ++ (message_delimiter ++ rest))) size
          ∙ drop-length m (message_delimiter ++ rest) 2,
    )

pub All-after : (xs ys : List (List ℕ)) → All IsMessage (xs ++ ys) → All IsMessage ys
All-after [] ys all = all
All-after (x ∷ xs) ys (here, all) = All-after xs ys all

pub took_message :
    (b later : List ℕ) (n : ℕ) (ms : List (List ℕ))
    → All IsMessage ms
    → end_of_first b ≡ some n
    → b ++ later ≡ sent ms
    → (rest : List (List ℕ)) × (ms ≡ take (n - 2) b ∷ rest) × (drop n b ++ later ≡ sent rest)
took_message b later n [] framed counted e =
    absurd (ground (arith, end_of_first-append b later n counted, ap end_of_first e))
took_message b later n (m ∷ ms) (here, framed) counted e =
    let (message, rest) = first_message b later m (sent ms) n here counted e in
    (ms, ap (λ t. t ∷ ms) (sym message), rest)
