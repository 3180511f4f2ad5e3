-- ===== src/Auth/Tests.antt =====
-- The theorems about authenticator.cpp at concrete inputs.
use zero_trust_secure_sessio.Common.{
  ℕ, zero, suc, ◌≡◌, ◌↔◌, ◌⊎◌, refl, true, false, List, [], ◌∷◌, String, string_eq, lookup, insert,
  length, some, none,
}
use zero_trust_secure_sessio.Types.{User, new_user, viewer, invalid_token_format, ok, err}
use zero_trust_secure_sessio.Auth.{
  AuthenticationManager, External, authenticate, check_user, count_attempt, verify_password,
  compare_hash, new_token, validate_token, is_valid_jwt_structure, drop,
}
use zero_trust_secure_sessio.Auth.Users.{MayLogIn, authenticate_sound}
use zero_trust_secure_sessio.Auth.Passwords.{verify_password_iff}
use zero_trust_secure_sessio.Auth.Secrets.{
  Hmac, Dump, generate_token, generate_jwt_signature, create_jwt_payload, token_with,
  generate_token-issued,
}

repeat : ℕ → ℕ → List ℕ
repeat zero b = []
repeat (suc n) b = b ∷ repeat n b

-- Every text decodes to 48 zero bytes, and every digest is 32 zero bytes.
abbrev external : External
external = record {
  is_valid_username = λ name. true;
  is_valid_password_format = λ password. true;
  should_block = λ info. false;
  new_rate_info = λ now. record { attempts = 0; window_start = now };
  bytes = λ text. [];
  base64_encode = λ bytes. "";
  base64_decode = λ text. repeat 48 0;
  digest = λ bytes. ok (repeat 32 0);
  header = "h";
  payload = λ user now. "p";
  sign = λ text. "s";
  parse_payload = λ text. ok (0, "kim");
}

abbrev kim : User
kim = new_user "kim" "hash" viewer 0

abbrev manager : AuthenticationManager
manager = record {
  users = ("kim", kim) ∷ [];
  revoked_tokens = [];
  blocked_users = [];
  rate_limits = [];
}

authenticate_sound_example :
    (true ≡ true)
    × (true ≡ true)
    × ((count_attempt external manager 5 "kim").1 ≡ false)
    × ((user : User) × MayLogIn external manager "kim" "pw" user
        × ("h.p.s" ≡ new_token external user 5))
unfolding authenticate count_attempt check_user verify_password compare_hash repeat lookup insert
    new_token
authenticate_sound_example = authenticate_sound external manager 5 "kim" "pw" "h.p.s" refl

verify_password_iff_example :
    (verify_password external "pw" "hash" ≡ ok true)
    ↔ ((length (repeat 48 0) ≡ 48) × (ok (repeat 32 0) ≡ ok (drop 16 (repeat 48 0))))
verify_password_iff_example = verify_password_iff external "pw" "hash"

-- A text without a second dot, and one whose middle part is empty, are no tokens.
malformed : validate_token manager "a.b" ≡ err invalid_token_format
unfolding validate_token is_valid_jwt_structure
malformed = refl

malformed_middle : validate_token manager "a..b" ≡ err invalid_token_format
unfolding validate_token is_valid_jwt_structure
malformed_middle = refl

-- The second HMAC fails.
abbrev half_failed : Hmac
half_failed = record { first = λ key message. some (repeat 32 0); second = λ key message. none }

abbrev dump : Dump
dump = λ user now later. ok "p"

generate_token-issued_example :
    (payload : String) × (create_jwt_payload dump kim 5 6 ≡ ok payload)
    × (("h.p." ≡ token_with external (λ text. text) payload "")
        ⊎ ("h.p." ≡ token_with external (λ text. text) payload ""))
unfolding generate_token generate_jwt_signature create_jwt_payload repeat
generate_token-issued_example =
    generate_token-issued external half_failed (repeat 32 1) dump (λ text. text) kim 5 6 "h.p." refl
