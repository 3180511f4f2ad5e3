-- ===== src/Rbac/Sets.antt =====
-- `std::set` as a sorted list (authorizer.cpp).
use zero_trust_secure_sessio.Common.{
  ℕ, ◌≡◌, refl, ◌≤◌, ◌<◌, false, not, ◌&&◌, ◌||◌, List, [], ◌∷◌, arith, nat_eq, ◌==◌, All,
}
use zero_trust_secure_sessio.Types.{role_eq}
use zero_trust_secure_sessio.Rbac.{set_insert, set_erase, set_contains}

-- `std::set`, for any rank.
module _ {ℓ} {A : Type ℓ} (rank_of : A → ℕ) where
  abbrev pub IsSorted : List A → Type 0
  IsSorted [] = Unit
  IsSorted (x ∷ xs) = All (λ y. rank_of x < rank_of y) xs × IsSorted xs

  pub contains-set_insert :
      (a b : A) (xs : List A)
      → set_contains rank_of (set_insert rank_of a xs) b
        ≡ (rank_of a == rank_of b || set_contains rank_of xs b)
  contains-set_insert a b [] = ground arith
  contains-set_insert a b (x ∷ xs) = ground (arith, contains-set_insert a b xs)

  contains_above :
      (a : A) (n : ℕ) (xs : List A)
      → rank_of a ≤ n
      → All (λ y. n < rank_of y) xs
      → set_contains rank_of xs a ≡ false
  contains_above a n [] le h = refl
  contains_above a n (x ∷ xs) le (lt, h) = ground (arith, contains_above a n xs le h)

  pub contains-set_erase :
      (a b : A) (xs : List A)
      → IsSorted xs
      → set_contains rank_of (set_erase rank_of a xs) b
        ≡ (not (rank_of a == rank_of b) && set_contains rank_of xs b)
  contains-set_erase a b [] s = ground arith
  contains-set_erase a b (x ∷ xs) (h, s) =
      ground (arith, contains-set_erase a b xs s, contains_above b (rank_of x) xs)

  All-above :
      (m n : ℕ) (xs : List A) → m ≤ n → All (λ y. n < rank_of y) xs → All (λ y. m < rank_of y) xs
  All-above m n [] le h = tt
  All-above m n (x ∷ xs) le (lt, h) = (omega arith, All-above m n xs le h)

  insert_above :
      (a : A) (n : ℕ) (xs : List A)
      → n < rank_of a
      → All (λ y. n < rank_of y) xs
      → All (λ y. n < rank_of y) (set_insert rank_of a xs)
  insert_above a n [] lt h = (lt, tt)
  insert_above a n (x ∷ xs) lt (p, h) = ground (arith, insert_above a n xs lt h)

  erase_above :
      (a : A) (n : ℕ) (xs : List A)
      → All (λ y. n < rank_of y) xs
      → All (λ y. n < rank_of y) (set_erase rank_of a xs)
  erase_above a n [] h = tt
  erase_above a n (x ∷ xs) (p, h) = ground (arith, erase_above a n xs h)

  pub set_insert-IsSorted : (a : A) (xs : List A) → IsSorted xs → IsSorted (set_insert rank_of a xs)
  set_insert-IsSorted a [] s = (tt, tt)
  set_insert-IsSorted a (x ∷ xs) (h, s) = ground (
    arith,
    set_insert-IsSorted a xs s,
    insert_above a (rank_of x) xs,
    All-above (rank_of a) (rank_of x) xs,
  )

  pub set_erase-IsSorted : (a : A) (xs : List A) → IsSorted xs → IsSorted (set_erase rank_of a xs)
  set_erase-IsSorted a [] s = tt
  set_erase-IsSorted a (x ∷ xs) (h, s) =
      ground (arith, set_erase-IsSorted a xs s, erase_above a (rank_of x) xs h)
