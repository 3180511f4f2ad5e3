-- ===== src/Cli/Trim.antt =====
-- `CLIUtils::trim` of cli_interface.cpp, with the positions that the source computes.
use Prim.Native.Char.{Char, code}
use Prim.Native.String.{◌++◌ as ◌<>◌}
use text.Mathlib.TextLemmas.{nil-append, cons-append, head-eq_of_cons-eq}
use zero_trust_secure_sessio.Common.{
  ℕ, zero, suc, ◌+◌, ◌-◌, ◌≡◌, refl, sym, ap, ◌∙◌, inl, inr, Bool, true, false, ◌||◌, String,
  Option, none, some, arith, nat_eq, ◌==◌, if◌then◌else◌, Bool-cases, Option-cases,
}

-- The characters " \t\n\r".
abbrev pub is_blank : Char → Bool
is_blank c = code c == 32 || code c == 9 || code c == 10 || code c == 13

abbrev pub next : Option ℕ → Option ℕ
next none = none
next (some i) = some (suc i)

-- `std::string::find_first_not_of`; `none` is npos.
unfoldable pub find_first_not_blank : String → Option ℕ
find_first_not_blank String.[] = none
find_first_not_blank (String.◌∷◌ c s) =
    let later = next (find_first_not_blank s) in if is_blank c then later else some 0

-- `std::string::find_last_not_of`.
unfoldable pub find_last_not_blank : String → Option ℕ
find_last_not_blank String.[] = none
find_last_not_blank (String.◌∷◌ c s) = elim (find_last_not_blank s) [
  | some i ↦ some (suc i)
  | none ↦ if is_blank c then none else some 0
]

-- `std::string::substr`, from a position that is not behind the end.
abbrev pub substr : String → ℕ → ℕ → String
substr String.[] i n = ""
substr (String.◌∷◌ c s) (suc i) n = substr s i n
substr (String.◌∷◌ c s) zero zero = ""
substr (String.◌∷◌ c s) zero (suc n) = String.◌∷◌ c (substr s zero n)

abbrev pub between : String → Option ℕ → Option ℕ → String
between s none last = ""
between s (some first) none = ""
between s (some first) (some last) = substr s first (last - first + 1)

unfoldable pub trim : String → String
unfolding find_first_not_blank find_last_not_blank
trim s = between s (find_first_not_blank s) (find_last_not_blank s)

abbrev pub AllBlank : String → Type 0
AllBlank String.[] = Unit
AllBlank (String.◌∷◌ c s) = (is_blank c ≡ true) × AllBlank s

abbrev LastShows : Char → String → Type 0
LastShows c String.[] = is_blank c ≡ false
LastShows c (String.◌∷◌ d s) = LastShows d s

-- Empty, or without a blank at either end.
abbrev pub IsTrimmed : String → Type 0
IsTrimmed String.[] = Unit
IsTrimmed (String.◌∷◌ c s) = (is_blank c ≡ false) × LastShows c s

no_last : (s : String) → find_last_not_blank s ≡ none → AllBlank s
unfolding find_last_not_blank
no_last String.[] h = tt
no_last (String.◌∷◌ c s) h = elim (Option-cases (find_last_not_blank s)) [
  | inl e ↦ elim (Bool-cases (is_blank c)) [
    | inl b ↦ (b, no_last s e)
    | inr b ↦ absurd (ground (arith, e, b, h))
  ]
  | inr (i, e) ↦ absurd (ground (arith, e, h))
]

no_first : (s : String) → find_first_not_blank s ≡ none → AllBlank s
unfolding find_first_not_blank
no_first String.[] h = tt
no_first (String.◌∷◌ c s) h = elim (Bool-cases (is_blank c)) [
  | inl b ↦ elim (Option-cases (find_first_not_blank s)) [
    | inl e ↦ (b, no_first s e)
    | inr (i, e) ↦ absurd (ground (arith, e, b, h))
  ]
  | inr b ↦ absurd (ground (arith, b, h))
]

-- With a first position there is a last one.
last_of_first :
    (s : String) (i : ℕ)
    → find_first_not_blank s ≡ some i
    → (j : ℕ) × (find_last_not_blank s ≡ some j)
unfolding find_first_not_blank find_last_not_blank
last_of_first String.[] i h = absurd (ground (arith, h))
last_of_first (String.◌∷◌ c s) i h = elim (Option-cases (find_last_not_blank s)) [
  | inr (j, e) ↦ (suc j, rw (e, find_last_not_blank) refl)
  | inl e ↦ elim (Bool-cases (is_blank c)) [
    | inr b ↦ (0, rw (e, b, find_last_not_blank) refl)
    | inl b ↦ elim (Option-cases (find_first_not_blank s)) [
      | inl f ↦ absurd (ground (arith, f, b, h))
      | inr (k, f) ↦ let (j, found) = last_of_first s k f in absurd (ground (arith, found, e))
    ]
  ]
]

abbrev EndShows : String → Type 0
EndShows String.[] = false ≡ true
EndShows (String.◌∷◌ c s) = LastShows c s

EndShows-cons : (c : Char) (s : String) → EndShows s → LastShows c s
EndShows-cons c String.[] h = absurd (ground (arith, h))
EndShows-cons c (String.◌∷◌ d s) h = h

substr_zero : (s : String) → substr s 0 0 ≡ ""
substr_zero String.[] = refl
substr_zero (String.◌∷◌ c s) = refl

-- A text is cut behind its last position.
cut_end :
    (s : String) (j : ℕ)
    → find_last_not_blank s ≡ some j
    → (after : String) × (s ≡ substr s 0 (suc j) <> after)
      × AllBlank after
      × EndShows (substr s 0 (suc j))
unfolding find_last_not_blank
cut_end String.[] j h = absurd (ground (arith, h))
cut_end (String.◌∷◌ c s) j h = elim (Option-cases (find_last_not_blank s)) [
  | inr (i, e) ↦
      let (after, cut, blank, shows) = cut_end s i e in
      let at : j ≡ suc i = ground (arith, e, h) in
      rw at (
        after,
        ap (String.◌∷◌ c) cut ∙ sym (cons-append c _ after),
        blank,
        EndShows-cons c (substr s 0 (suc i)) shows,
      )
  | inl e ↦ elim (Bool-cases (is_blank c)) [
    | inl b ↦ absurd (ground (arith, e, b, h))
    | inr b ↦
        let at : j ≡ 0 = ground (arith, e, b, h) in
        rw (at, substr_zero s)
          (s, ap (String.◌∷◌ c) (sym (nil-append s)) ∙ sym (cons-append c "" s), no_last s e, b)
  ]
]

EndShows-IsTrimmed :
    (c : Char) (s t rest : String)
    → is_blank c ≡ false
    → EndShows t
    → String.◌∷◌ c s ≡ t <> rest
    → IsTrimmed t
EndShows-IsTrimmed c s String.[] rest b h cut = tt
EndShows-IsTrimmed c s (String.◌∷◌ d t) rest b h cut =
    (rw (head-eq_of_cons-eq (cut ∙ cons-append d t rest)) at b, h)

trim-blank : (c : Char) (s : String) → is_blank c ≡ true → trim (String.◌∷◌ c s) ≡ trim s
unfolding trim
trim-blank c s b = elim (Option-cases (find_first_not_blank s)) [
  | inl e ↦ rw (b, e, trim) refl
  | inr (i, e) ↦
      let (j, f) = last_of_first s i e in
      let shift : suc j - suc i + 1 ≡ j - i + 1 = omega arith in rw (b, e, f, trim) (rw shift refl)
]

trim-shows :
    (c : Char) (s : String)
    → is_blank c ≡ false
    → (j : ℕ) × (find_last_not_blank (String.◌∷◌ c s) ≡ some j)
      × (trim (String.◌∷◌ c s) ≡ substr (String.◌∷◌ c s) 0 (suc j))
unfolding trim
trim-shows c s b =
    let first : find_first_not_blank (String.◌∷◌ c s) ≡ some 0 =
      rw (b, find_first_not_blank) refl in
    let (j, f) = last_of_first (String.◌∷◌ c s) 0 first in
    let count : j - 0 + 1 ≡ suc j = omega arith in (j, f, rw (first, f, trim) (rw count refl))

-- A text is blanks, then what `trim` gives, then blanks, and what `trim` gives is empty or has no
-- blank at either end: exactly the blanks around it are taken away.
pub trim_lem :
    (s : String)
    → (before : String) × (after : String) × (s ≡ before <> (trim s <> after))
      × AllBlank before
      × AllBlank after
      × IsTrimmed (trim s)
unfolding trim
trim_lem String.[] = ("", "", rw (nil-append, nil-append) refl, tt, tt, tt)
trim_lem (String.◌∷◌ c s) = elim (Bool-cases (is_blank c)) [
  | inl b ↦
      let (before, after, cut, left, right, trimmed) = trim_lem s in
      rw (trim-blank c s b) (
        String.◌∷◌ c before,
        after,
        ap (String.◌∷◌ c) cut ∙ sym (cons-append c before (trim s <> after)),
        (b, left),
        right,
        trimmed,
      )
  | inr b ↦
      let (j, f, e) = trim-shows c s b in
      let (after, cut, right, shows) = cut_end (String.◌∷◌ c s) j f in
      let t = substr (String.◌∷◌ c s) 0 (suc j) in
      rw e (
        "",
        after,
        cut ∙ sym (nil-append (t <> after)),
        tt,
        right,
        EndShows-IsTrimmed c s t after b shows cut,
      )
]
