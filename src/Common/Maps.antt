-- ===== src/Common/Maps.antt =====
-- `std::unordered_map` and `std::map` as association lists. A walk over the map is a walk over
-- the list; `m[k] = v` replaces the value in place or adds the key at the end.
use Prim.Native.Nat.{ℕ, ◌+◌}
use mathlib.Core.Path.{◌≡◌}
use mathlib.Core.Bool.{Bool, true, false}
use mathlib.Core.Option.{Option, none, some}
use mathlib.Core.List.{List, [], ◌∷◌}
use zero_trust_secure_sessio.Common.Tests.{Comparable, ◌==◌, if◌then◌else◌}

abbrev pub Map {ℓ κ} : Type ℓ → Type κ → Type (ℓ ⊔ κ)
Map K V = List (K × V)

abbrev pub is_some {ℓ} : {A : Type ℓ} → Option A → Bool
is_some none = false
is_some (some a) = true

module _ {ℓ κ} {K : Type ℓ} {V : Type κ} where
  abbrev pub values : Map K V → List V
  values [] = []
  values ((k, v) ∷ m) = v ∷ values m

  abbrev pub keys : Map K V → List K
  keys [] = []
  keys ((k, v) ∷ m) = k ∷ keys m

  -- The loop that erases each entry whose value fails a test.
  abbrev pub retain : (V → Bool) → Map K V → Map K V
  retain p [] = []
  retain p ((k, v) ∷ m) = if p v then (k, v) ∷ retain p m else retain p m

  -- The loop that counts the entries whose values pass a test.
  abbrev pub count : (V → Bool) → Map K V → ℕ
  count p [] = 0
  count p ((k, v) ∷ m) = (if p v then 1 else 0) + count p m

module _ {ℓ κ} {K : Type ℓ} {V : Type κ} ⦃e : Comparable K⦄ where
  unfoldable pub lookup : K → Map K V → Option V
  lookup key [] = none
  lookup key ((i, v) ∷ rest) = if i == key then some v else lookup key rest

  unfoldable pub insert : K → V → Map K V → Map K V
  insert key new [] = (key, new) ∷ []
  insert key new ((i, v) ∷ rest) =
      if i == key then (i, new) ∷ rest else (i, v) ∷ insert key new rest

  unfoldable pub erase : K → Map K V → Map K V
  erase key [] = []
  erase key ((i, v) ∷ rest) = if i == key then erase key rest else (i, v) ∷ erase key rest

  -- No key is bound twice.
  abbrev pub IsUnique : Map K V → Type κ
  IsUnique [] = Unit
  IsUnique ((k, v) ∷ m) = (lookup k m ≡ none) × IsUnique m

  abbrev pub has_key : K → Map K V → Bool
  has_key k m = is_some (lookup k m)
