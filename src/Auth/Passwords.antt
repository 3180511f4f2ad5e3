-- ===== src/Auth/Passwords.antt =====
-- The hashes of passwords (authenticator.cpp).
use zero_trust_secure_sessio.Common.{
  ℕ, zero, suc, ◌+◌, ◌≡◌, refl, ap, ◌↔◌, inl, inr, true, List, [], ◌∷◌, ◌++◌, String, arith, nat_eq,
  if◌then◌else◌, ltb, length,
}
use zero_trust_secure_sessio.Types.{ok, Result-cases}
use zero_trust_secure_sessio.Auth.{External, verify_password, compare_hash, bytes_equal, take, drop}

bytes_equal_iff : (xs ys : List ℕ) → (bytes_equal xs ys ≡ true) ↔ (xs ≡ ys)
bytes_equal_iff [] [] = (λ h. refl, λ h. refl)
bytes_equal_iff [] (y ∷ ys) = (λ h. absurd (ground (arith, h)), λ h. absurd (ground (arith, h)))
bytes_equal_iff (x ∷ xs) [] = (λ h. absurd (ground (arith, h)), λ h. absurd (ground (arith, h)))
bytes_equal_iff (x ∷ xs) (y ∷ ys) = ground (arith, bytes_equal_iff xs ys, nat_eq.equal_iff x y)

length-take-drop :
    (n : ℕ) (bs : List ℕ)
    → (length (take n bs) + length (drop n bs) ≡ length bs) × (take n bs ++ drop n bs ≡ bs)
length-take-drop zero bs = (omega arith, refl)
length-take-drop (suc n) [] = (omega arith, refl)
length-take-drop (suc n) (b ∷ bs) =
    let (l, e) = length-take-drop n bs in (omega (arith, l), ap (λ r. b ∷ r) e)

length-take :
    (n : ℕ) (bs : List ℕ) → length (take n bs) ≡ (if ltb (length bs) n then length bs else n)
length-take zero bs = ground arith
length-take (suc n) [] = ground arith
length-take (suc n) (b ∷ bs) = ground (arith, length-take n bs)

compare_hash_iff :
    (x : External) (password : String) (size : ℕ) (salt stored : List ℕ)
    → length salt ≡ (if ltb size 16 then size else 16)
    → length salt + length stored ≡ size
    → (compare_hash x password size salt stored ≡ ok true)
      ↔ ((size ≡ 48) × (x.digest (salt ++ x.bytes password) ≡ ok stored))
unfolding compare_hash
compare_hash_iff x password size salt stored l t =
    elim (Result-cases (x.digest (salt ++ x.bytes password))) [
      | inl (computed, e) ↦
          ground
            (arith, l, t, bytes_equal_iff stored computed, ap length {x = stored} {y = computed})
      | inr (error, e) ↦ ground (arith, l, t)
    ]

-- A password is accepted exactly if the stored text decodes to 48 bytes, of which the last 32 are
-- the digest of the 16 before them, the salt, followed by the password.
pub verify_password_iff :
    (x : External) (password hash : String)
    → (verify_password x password hash ≡ ok true) ↔ (
        (length (x.base64_decode hash) ≡ 48)
        × (x.digest (take 16 (x.base64_decode hash) ++ x.bytes password)
            ≡ ok (drop 16 (x.base64_decode hash))))
unfolding verify_password
verify_password_iff x password hash =
    compare_hash_iff x password (length (x.base64_decode hash)) (take 16 (x.base64_decode hash))
      (drop 16 (x.base64_decode hash)) (length-take 16 (x.base64_decode hash))
      (length-take-drop 16 (x.base64_decode hash)).0
