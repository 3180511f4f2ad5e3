-- ===== src/Auth/State.antt =====
-- The state of authenticator.cpp, what it takes from elsewhere, and the parts of byte strings.
use zero_trust_secure_sessio.Common.{
  ℕ, zero, suc, Bool, true, false, ◌&&◌, List, [], ◌∷◌, String, string_eq, nat_eq, ◌==◌, Map,
  seconds,
}
use zero_trust_secure_sessio.Types.{User, Result}

pub record RateInfo : Type 0 where
  pub attempts : ℕ
  pub window_start : ℕ

-- A revoked token is kept with the second after which it may be forgotten; the code keeps that
-- number as its decimal text.
pub record AuthenticationManager : Type 0 where
  pub users : Map String User
  pub revoked_tokens : Map String ℕ
  pub blocked_users : Map String ℕ
  pub rate_limits : Map String RateInfo

abbrev pub token_expiry_time : ℕ
token_expiry_time = seconds 3600

-- What the code takes from elsewhere. `digest` is the SHA-256 of the bytes, or the call of OpenSSL
-- that fails; `payload` and `header` are the JSON texts in base64, and `sign` the signature;
-- `parse_payload` decodes a payload and reads the expiry in seconds (a negative one as 0) and the
-- name in it, or has the exception's text.
pub record External : Type 0 where
  pub is_valid_username : String → Bool
  pub is_valid_password_format : String → Bool
  pub should_block : RateInfo → Bool
  pub new_rate_info : ℕ → RateInfo
  pub bytes : String → List ℕ
  pub base64_encode : List ℕ → String
  pub base64_decode : String → List ℕ
  pub digest : List ℕ → Result (List ℕ)
  pub header : String
  pub payload : User → ℕ → String
  pub sign : String → String
  pub parse_payload : String → Result (ℕ × String)

abbrev pub bytes_equal : List ℕ → List ℕ → Bool
bytes_equal [] [] = true
bytes_equal [] (b ∷ bs) = false
bytes_equal (a ∷ xs) [] = false
bytes_equal (a ∷ xs) (b ∷ bs) = a == b && bytes_equal xs bs

abbrev pub take : ℕ → List ℕ → List ℕ
take zero bs = []
take (suc n) [] = []
take (suc n) (b ∷ bs) = b ∷ take n bs

abbrev pub drop : ℕ → List ℕ → List ℕ
drop zero bs = bs
drop (suc n) [] = []
drop (suc n) (b ∷ bs) = drop n bs
