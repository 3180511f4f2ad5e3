-- ===== src/Session/Uniqueness.antt =====
-- The collision loop of `create_session` (session_manager.cpp): it ends, with an unused identifier.
use zero_trust_secure_sessio.Common.{
  ℕ, zero, suc, ◌+◌, ◌≤◌, ◌<◌, ◌≡◌, refl, ap, ◌≢◌, true, List, [], ◌∷◌, String, none, some, arith,
  length, All, Map, Comparable, string_eq, Bool-cases, Option-cases, inl, inr, has_key, lookup,
  erase, lookup-erase,
}
use zero_trust_secure_sessio.Types.{Session}
use zero_trust_secure_sessio.Session.Ids.{generate_session_id, fresh_id, session_id_size}

pub fresh_id_sound :
    (draw : ℕ → ℕ) (m : Map String Session) (fuel position : ℕ) {id : String} {q : ℕ}
    → fresh_id draw m fuel position ≡ some (id, q)
    → lookup id m ≡ none
unfolding fresh_id
fresh_id_sound draw m zero position h = cc
fresh_id_sound draw m (suc fuel) position {id} {q} h =
    ground (arith, fresh_id_sound draw m fuel (position + session_id_size) {id = id} {q = q})

-- Of more distinct keys than entries, one is not bound.
abbrev pub Distinct {ℓ} : {A : Type ℓ} → List A → Type ℓ
Distinct [] = Unit
Distinct (x ∷ xs) = All (λ y. x ≢ y) xs × Distinct xs

module _ {ℓ κ} {K : Type ℓ} {V : Type κ} ⦃e : Comparable K⦄ where
  length-erase_le : (k : K) (m : Map K V) → length (erase k m) ≤ length m
  unfolding erase
  length-erase_le k [] = omega arith
  length-erase_le k ((j, w) ∷ m) = ground (arith, length-erase_le k m)

  length-erase_lt :
      (k : K) (v : V) (m : Map K V) → lookup k m ≡ some v → length (erase k m) < length m
  unfolding lookup erase
  length-erase_lt k v [] h = cc
  length-erase_lt k v ((j, w) ∷ m) h = ground (arith, length-erase_lt k v m, length-erase_le k m)

  erase-keeps :
      (k : K) (m : Map K V) (ks : List K)
      → All (λ j. k ≢ j) ks
      → All (λ j. has_key j m ≡ true) ks
      → All (λ j. has_key j (erase k m) ≡ true) ks
  erase-keeps k m [] apart bound = tt
  erase-keeps k m (j ∷ ks) (ne, apart) (b, bound) =
      (ground (arith, lookup-erase k j m, e.equal_iff k j), erase-keeps k m ks apart bound)

  pub bound-le-length :
      (ks : List K) (m : Map K V)
      → Distinct ks
      → All (λ j. has_key j m ≡ true) ks
      → length ks ≤ length m
  bound-le-length [] m d b = omega arith
  bound-le-length (k ∷ ks) m (apart, d) (b, bound) = elim (Option-cases (lookup k m)) [
    | inl e ↦ absurd (ground arith)
    | inr (v, found) ↦ omega (
      arith,
      length-erase_lt k v m found,
      bound-le-length ks (erase k m) d (erase-keeps k m ks apart bound),
    )
  ]

-- The identifiers that the loop draws from `position` on.
abbrev pub attempts : (ℕ → ℕ) → ℕ → ℕ → List String
attempts draw position zero = []
attempts draw position (suc n) =
    generate_session_id draw position ∷ attempts draw (position + session_id_size) n

length-attempts : (draw : ℕ → ℕ) (position n : ℕ) → length (attempts draw position n) ≡ n
length-attempts draw position zero = refl
length-attempts draw position (suc n) = ap suc (length-attempts draw (position + session_id_size) n)

fresh_id-none :
    (draw : ℕ → ℕ) (m : Map String Session) (fuel position : ℕ)
    → fresh_id draw m fuel position ≡ none
    → All (λ id. has_key id m ≡ true) (attempts draw position fuel)
unfolding fresh_id
fresh_id-none draw m zero position h = tt
fresh_id-none draw m (suc fuel) position h =
    elim (Bool-cases (has_key (generate_session_id draw position) m)) [
      | inl used ↦
          (used, fresh_id-none draw m fuel (position + session_id_size) (rw (used, fresh_id) at h))
      | inr unused ↦ absurd (ground arith)
    ]

-- With more attempts than sessions, none of them drawn twice, the loop finds an identifier.
pub fresh_id_total :
    (draw : ℕ → ℕ) (m : Map String Session) (fuel position : ℕ)
    → Distinct (attempts draw position fuel)
    → length m < fuel
    → (id : String) × (q : ℕ) × (fresh_id draw m fuel position ≡ some (id, q))
fresh_id_total draw m fuel position d lt = elim (Option-cases (fresh_id draw m fuel position)) [
  | inl e ↦ absurd (
      omega (
        arith,
        length-attempts draw position fuel,
        bound-le-length (attempts draw position fuel) m d (fresh_id-none draw m fuel position e),
      ))
  | inr ((id, q), e) ↦ (id, q, e)
]
