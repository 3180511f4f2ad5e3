-- ===== src/Session/Ids.antt =====
-- `generate_session_id`, and the loop of `create_session` that draws again after a collision.
pub mod Lengths
use Prim.Native.String
use zero_trust_secure_sessio.Common.{
  ℕ, zero, suc, ◌+◌, ◌/◌, ◌%◌, List, [], ◌∷◌, String, Option, none, some, string_eq, if◌then◌else◌,
  Map, has_key,
}
use zero_trust_secure_sessio.Types.{Session}

abbrev hex_digits : List String
hex_digits =
    "0" ∷ "1" ∷ "2" ∷ "3" ∷ "4" ∷ "5" ∷ "6" ∷ "7" ∷ "8" ∷ "9" ∷ "a" ∷ "b" ∷ "c" ∷ "d" ∷ "e" ∷ "f"
    ∷ []

hex_digit : List String → ℕ → String
hex_digit [] i = ""
hex_digit (d ∷ ds) zero = d
hex_digit (d ∷ ds) (suc i) = hex_digit ds i

-- A byte in hexadecimal, filled to two digits.
unfoldable pub hex_byte : ℕ → String
unfolding hex_digit
hex_byte b = String.◌++◌ (hex_digit hex_digits (b / 16)) (hex_digit hex_digits (b % 16))

unfoldable pub hex_draws : (ℕ → ℕ) → ℕ → ℕ → String
unfolding hex_byte
hex_draws draw position zero = ""
hex_draws draw position (suc n) =
    String.◌++◌ (hex_byte (draw position)) (hex_draws draw (position + 1) n)

abbrev pub session_id_size : ℕ
session_id_size = 32

unfoldable pub generate_session_id : (ℕ → ℕ) → ℕ → String
unfolding hex_draws
generate_session_id draw position = hex_draws draw position session_id_size

-- The first generated identifier that is not in use, and the position behind it.
unfoldable pub fresh_id : (ℕ → ℕ) → Map String Session → ℕ → ℕ → Option (String × ℕ)
fresh_id draw m zero position = none
fresh_id draw m (suc fuel) position =
    let again = fresh_id draw m fuel (position + session_id_size) in
    if has_key (generate_session_id draw position) m
    then again
    else some (generate_session_id draw position, position + session_id_size)
