-- ===== src/Common/MapOrder.antt =====
-- Maps that have the same entries, in whatever order: what a walk over them may depend on.
use Prim.Native.Nat.{◌+◌}
use mathlib.Core.Path.{◌≡◌, refl, sym, ap, ◌∙◌}
use mathlib.Core.Logic.{inl, inr}
use mathlib.Core.Bool.{Bool}
use mathlib.Core.Option.{none, some}
use mathlib.Core.List.{[], ◌∷◌}
use native.Mathlib.Omega.{arith}
use zero_trust_secure_sessio.Common.Tests.{Comparable, ◌==◌, if◌then◌else◌, Bool-cases}
use zero_trust_secure_sessio.Common.Maps.{Map, count, retain, lookup, insert, erase, IsUnique}
use zero_trust_secure_sessio.Common.MapLaws.{
  eq_refl, erase-IsUnique, lookup-insert, lookup-erase, lookup-retain,
}

module _ {ℓ κ} {K : Type ℓ} {V : Type κ} ⦃e : Comparable K⦄ where
  -- The same look-ups.
  abbrev pub Agree : Map K V → Map K V → Type (ℓ ⊔ κ)
  Agree m n = (k : K) → lookup k m ≡ lookup k n

  pub insert-Agree :
      (k : K) (v : V) (m n : Map K V) → Agree m n → Agree (insert k v m) (insert k v n)
  insert-Agree k v m n h j = rw (lookup-insert k j v m, lookup-insert k j v n, h j)

  pub erase-Agree : (k : K) (m n : Map K V) → Agree m n → Agree (erase k m) (erase k n)
  erase-Agree k m n h j = rw (lookup-erase k j m, lookup-erase k j n, h j)

  pub retain-Agree :
      (p : V → Bool) (m n : Map K V)
      → IsUnique m
      → IsUnique n
      → Agree m n
      → Agree (retain p m) (retain p n)
  retain-Agree p m n u w h j = rw (lookup-retain p j m u, lookup-retain p j n w, h j)

  erase_absent : (k : K) (m : Map K V) → lookup k m ≡ none → erase k m ≡ m
  unfolding lookup erase
  erase_absent k [] h = refl
  erase_absent k ((i, v) ∷ m) h = ground (arith, erase_absent k m)

  -- An entry counts for itself beside the others.
  count-erase :
      (p : V → Bool) (k : K) (v : V) (m : Map K V)
      → IsUnique m
      → lookup k m ≡ some v
      → count p m ≡ (if p v then 1 else 0) + count p (erase k m)
  unfolding lookup erase
  count-erase p k v [] u h = absurd (ground (arith, h))
  count-erase p k v ((i, w) ∷ m) (fresh, u) h = elim (Bool-cases (i == k)) [
    | inl same ↦
        let absent : lookup k m ≡ none =
          ap (λ j. lookup j m) (sym ((e.equal_iff i k).0 same)) ∙ fresh in
        ground (arith, same, h, erase_absent k m absent)
    | inr other ↦ ground (arith, other, h, count-erase p k v m u)
  ]

  first : (k : K) (v : V) (m : Map K V) → lookup k ((k, v) ∷ m) ≡ some v
  unfolding lookup
  first k v m = ground (arith, eq_refl k)

  Agree-empty : (n : Map K V) → Agree [] n → n ≡ []
  unfolding lookup
  Agree-empty [] h = refl
  Agree-empty ((i, v) ∷ n) h = absurd (ground (arith, h i, eq_refl i))

  Agree-tail :
      (k : K) (v : V) (m n : Map K V)
      → lookup k m ≡ none
      → Agree ((k, v) ∷ m) n
      → Agree m (erase k n)
  unfolding lookup
  Agree-tail k v m n fresh h j = elim (Bool-cases (k == j)) [
    | inl same ↦
        ap (λ i. lookup i m) (sym ((e.equal_iff k j).0 same))
        ∙ fresh
        ∙ sym (lookup-erase k j n ∙ ground (arith, same))
    | inr other ↦ ground (arith, other, h j, lookup-erase k j n)
  ]

  -- A count does not depend on the order.
  pub count-Agree :
      (p : V → Bool) (m n : Map K V) → IsUnique m → IsUnique n → Agree m n → count p m ≡ count p n
  count-Agree p [] n u w h = ap (count p) (sym (Agree-empty n h))
  count-Agree p ((k, v) ∷ m) n (fresh, u) w h =
      let found : lookup k n ≡ some v = sym (h k) ∙ first k v m in
      ap (λ c. (if p v then 1 else 0) + c)
        (count-Agree p m (erase k n) u (erase-IsUnique k n w) (Agree-tail k v m n fresh h))
      ∙ sym (count-erase p k v n w found)
