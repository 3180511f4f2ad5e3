-- ===== src/Common/MapLaws.antt =====
-- Laws of the association lists.
use Prim.Native.Nat.{◌+◌, ◌≤◌}
use mathlib.Core.Path.{◌≡◌, refl, ap, ◌∙◌}
use mathlib.Core.Logic.{inl, inr, ◌≢◌}
use mathlib.Core.Bool.{Bool, true}
use mathlib.Core.Option.{Option, none, some}
use mathlib.Core.List.{[], ◌∷◌}
use native.Mathlib.Omega.{arith}
use zero_trust_secure_sessio.Common.Tests.{Comparable, ◌==◌, if◌then◌else◌, Bool-cases}
use zero_trust_secure_sessio.Common.Lists.{count_if}
use zero_trust_secure_sessio.Common.Maps.{
  Map, values, retain, count, lookup, insert, erase, IsUnique,
}

module _ {ℓ} {K : Type ℓ} ⦃e : Comparable K⦄ where
  pub eq_refl : (k : K) → (k == k) ≡ true
  eq_refl k = (e.equal_iff k k).1 refl

-- The value that passes the test, if there is one.
abbrev pub only {κ} : {V : Type κ} → (V → Bool) → Option V → Option V
only p none = none
only p (some v) = if p v then some v else none

module _ {ℓ κ} {K : Type ℓ} {V : Type κ} ⦃e : Comparable K⦄ where
  pub lookup-insert :
      (key other : K) (new : V) (entries : Map K V)
      → lookup other (insert key new entries)
        ≡ (if key == other then some new else lookup other entries)
  unfolding lookup insert
  lookup-insert key other new [] = refl
  lookup-insert key other new ((i, v) ∷ rest) = ground (
    arith,
    lookup-insert key other new rest,
    e.equal_iff key other,
    e.equal_iff i key,
    e.equal_iff i other,
  )

  pub insert-insert : (k : K) (v w : V) (m : Map K V) → insert k v (insert k w m) ≡ insert k v m
  unfolding insert
  insert-insert k v w [] = ground (arith, eq_refl k)
  insert-insert k v w ((i, u) ∷ m) = ground (arith, insert-insert k v w m)

  pub lookup-insert_self : (k : K) (v : V) (m : Map K V) → lookup k (insert k v m) ≡ some v
  lookup-insert_self k v m = rw (lookup-insert k k v m, eq_refl k)

  pub lookup-insert_ne :
      (k j : K) (v : V) (m : Map K V) → j ≢ k → lookup j (insert k v m) ≡ lookup j m
  lookup-insert_ne k j v m h = ground (arith, lookup-insert k j v m, e.equal_iff k j)

  pub lookup-erase :
      (k j : K) (m : Map K V) → lookup j (erase k m) ≡ (if k == j then none else lookup j m)
  unfolding lookup erase
  lookup-erase k j [] = elim (Bool-cases (k == j)) [ inl h ↦ rw h | inr h ↦ rw h ]
  lookup-erase k j ((i, w) ∷ m) =
      ground (arith, e.equal_iff k j, e.equal_iff i k, e.equal_iff i j, lookup-erase k j m)

  pub lookup-erase_self : (k : K) (m : Map K V) → lookup k (erase k m) ≡ none
  lookup-erase_self k m = rw (lookup-erase k k m, eq_refl k)

  pub lookup-erase_ne : (k j : K) (m : Map K V) → j ≢ k → lookup j (erase k m) ≡ lookup j m
  lookup-erase_ne k j m h = ground (arith, lookup-erase k j m, e.equal_iff k j)

  lookup-retain-none :
      (p : V → Bool) (k : K) (m : Map K V) → lookup k m ≡ none → lookup k (retain p m) ≡ none
  unfolding lookup
  lookup-retain-none p k [] h = refl
  lookup-retain-none p k ((i, w) ∷ m) h = ground (arith, lookup-retain-none p k m)

  pub lookup-retain :
      (p : V → Bool) (k : K) (m : Map K V)
      → IsUnique m
      → lookup k (retain p m) ≡ only p (lookup k m)
  unfolding lookup
  lookup-retain p k [] u = refl
  lookup-retain p k ((i, w) ∷ m) (h, u) = ground (
    arith,
    e.equal_iff i k,
    lookup-retain p k m u,
    lookup-retain-none p i m h,
    ap (λ j. lookup j m) {x = i} {y = k},
    ap (λ j. lookup j (retain p m)) {x = i} {y = k},
  )

  pub insert-IsUnique : (k : K) (v : V) (m : Map K V) → IsUnique m → IsUnique (insert k v m)
  unfolding insert lookup
  insert-IsUnique k v [] u = (refl, tt)
  insert-IsUnique k v ((i, w) ∷ m) (h, u) = elim (Bool-cases (i == k)) [
    | inl same ↦ rw same (h, u)
    | inr other ↦ rw other (
      lookup-insert k i v m ∙ ground (arith, e.equal_iff i k, e.equal_iff k i),
      insert-IsUnique k v m u,
    )
  ]

  pub erase-IsUnique : (k : K) (m : Map K V) → IsUnique m → IsUnique (erase k m)
  unfolding erase
  erase-IsUnique k [] u = tt
  erase-IsUnique k ((i, w) ∷ m) (h, u) = elim (Bool-cases (i == k)) [
    | inl same ↦ rw same (erase-IsUnique k m u)
    | inr other ↦ rw other (
      lookup-erase k i m ∙ ground (arith, e.equal_iff i k, e.equal_iff k i),
      erase-IsUnique k m u,
    )
  ]

  pub retain-IsUnique : (p : V → Bool) (m : Map K V) → IsUnique m → IsUnique (retain p m)
  retain-IsUnique p [] u = tt
  retain-IsUnique p ((i, w) ∷ m) (h, u) =
      ground (arith, lookup-retain-none p i m h, retain-IsUnique p m u)

  -- Counting after a change.
  pub count-insert_fresh :
      (p : V → Bool) (k : K) (v : V) (m : Map K V)
      → lookup k m ≡ none
      → count p (insert k v m) ≡ count p m + (if p v then 1 else 0)
  unfolding insert lookup
  count-insert_fresh p k v [] h = omega arith
  count-insert_fresh p k v ((i, w) ∷ m) h = ground (arith, count-insert_fresh p k v m)

  pub count-insert_le :
      (p : V → Bool) (k : K) (v w : V) (m : Map K V)
      → lookup k m ≡ some v
      → (p w ≡ true → p v ≡ true)
      → count p (insert k w m) ≤ count p m
  unfolding insert lookup
  count-insert_le p k v w [] h i = cc
  count-insert_le p k v w ((j, u) ∷ m) h i = ground (arith, count-insert_le p k v w m)

  pub count-erase_le : (p : V → Bool) (k : K) (m : Map K V) → count p (erase k m) ≤ count p m
  unfolding erase
  count-erase_le p k [] = omega arith
  count-erase_le p k ((j, u) ∷ m) = ground (arith, count-erase_le p k m)

module _ {ℓ κ} {K : Type ℓ} {V : Type κ} where
  pub count-retain_le : (p q : V → Bool) (m : Map K V) → count p (retain q m) ≤ count p m
  count-retain_le p q [] = omega arith
  count-retain_le p q ((j, u) ∷ m) = ground (arith, count-retain_le p q m)

  -- A weaker test counts at least as many.
  pub count_mono :
      (p q : V → Bool) (m : Map K V) → ((v : V) → p v ≡ true → q v ≡ true) → count p m ≤ count q m
  count_mono p q [] h = omega arith
  count_mono p q ((j, u) ∷ m) h = ground (arith, h u, count_mono p q m h)

  pub count-eq-count_if : (p : V → Bool) (m : Map K V) → count p m ≡ count_if p (values m)
  count-eq-count_if p [] = refl
  count-eq-count_if p ((j, u) ∷ m) = ap (◌+◌ (if p u then 1 else 0)) (count-eq-count_if p m)
