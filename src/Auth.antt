-- ===== src/Auth.antt =====
-- src/auth/authenticator.cpp and include/zerossg/auth/authenticator.ixx: users, logins, and tokens.
-- `m_rate_limits` and the functions `is_valid_username`, `is_valid_password_format`, `should_block`
-- and `detect_suspicious_activity` are declared nowhere in the repository; the first is read as a
-- map with the two fields that the code sets, the last is left out, and the others are parameters.
-- So is what OpenSSL and the JSON library do.
mod State
pub mod Users
pub mod Passwords
pub mod Tokens
pub mod Secrets
pub mod Startup
pub mod Tests
pub use State.{
  RateInfo, AuthenticationManager, token_expiry_time, External, bytes_equal, take, drop,
}
use Prim.Native.String
use zero_trust_secure_sessio.Common.{
  codes, dot, ℕ, zero, suc, ◌+◌, ◌-◌, ◌/◌, Bool, true, false, not, ◌&&◌, List, [], ◌∷◌, ◌++◌,
  String, Option, none, some, ltb, leb, string_eq, nat_eq, Comparable, ◌==◌, if◌then◌else◌, length,
  Map, values, lookup, insert, erase, retain, count, has_key, seconds,
}
use zero_trust_secure_sessio.Types.{
  User, Error, user_already_exists, user_not_found, invalid_credentials, user_inactive,
  invalid_username_format, password_policy_violation, account_locked, account_blocked,
  authentication_failed, invalid_token_format, invalid_token_signature, token_revoked,
  token_expired, invalid_token_payload, user_not_found_prefix, jwt_payload_parse_failed,
  hash_too_short, invalid_hash_format, salt_generation_failed, Result, ok, err,
}

abbrev pub and_then {ℓ κ} : {A : Type ℓ} {B : Type κ} → Result A → (A → Result B) → Result B
and_then (ok a) f = f a
and_then (err e) f = err e

unfoldable pub hash_password : External → Option (List ℕ) → String → Result String
hash_password x none password = err salt_generation_failed
hash_password x (some salt) password =
    and_then (x.digest (salt ++ x.bytes password)) (λ hash. ok (x.base64_encode (salt ++ hash)))

-- The checks of the decoded text, of the given size, that is split into salt and hash.
unfoldable pub compare_hash : External → String → ℕ → List ℕ → List ℕ → Result Bool
compare_hash x password size salt stored =
    if ltb size (16 + 32)
    then err hash_too_short
    else if not (length salt == 16)
    then err invalid_hash_format
    else if not (length stored == 32)
    then err invalid_hash_format
    else and_then (x.digest (salt ++ x.bytes password)) (λ computed.
      if not (length stored == length computed) then ok false else ok (bytes_equal stored computed))

unfoldable pub verify_password : External → String → String → Result Bool
unfolding compare_hash
verify_password x password hash =
    let decoded = x.base64_decode hash in
    compare_hash x password (length decoded) (take 16 decoded) (drop 16 decoded)

unfoldable pub add_user : AuthenticationManager → User → AuthenticationManager × Result (Unit {0})
add_user m user =
    if has_key user.user_name m.users
    then (m, err user_already_exists)
    else (record m { users = insert user.user_name user m.users }, ok tt)

unfoldable pub update_user :
    AuthenticationManager → String → User → AuthenticationManager × Result (Unit {0})
update_user m name user =
    if has_key name m.users
    then (record m { users = insert name user m.users }, ok tt)
    else (m, err user_not_found)

unfoldable pub delete_user :
    AuthenticationManager → String → AuthenticationManager × Result (Unit {0})
delete_user m name =
    if has_key name m.users
    then (record m { users = erase name m.users }, ok tt)
    else (m, err user_not_found)

unfoldable pub get_user : AuthenticationManager → String → Option User
get_user m name = lookup name m.users

abbrev pub list_users : AuthenticationManager → List User
list_users m = values m.users

abbrev pub get_active_user_count : AuthenticationManager → ℕ
get_active_user_count m = count (λ (u : User). u.active) m.users

abbrev pub get_blocked_user_count : AuthenticationManager → ℕ
get_blocked_user_count m = length (values m.blocked_users)

-- The attempt as `authenticate` counts it; `none` if the user is locked out. `m[k]` makes the entry
-- in either case.
unfoldable pub count_attempt :
    External → AuthenticationManager → ℕ → String → AuthenticationManager × Bool
count_attempt x m now name =
    let info = elim (lookup name m.rate_limits) as (λ o. RateInfo) [
      | none ↦ x.new_rate_info now
      | some i ↦ i
    ] in
    if x.should_block info
    then (record m { rate_limits = insert name info m.rate_limits }, true)
    else (
      record m {
        rate_limits =
            insert name (record { attempts = info.attempts + 1; window_start = now }) m.rate_limits;
      },
      false,
    )

unfoldable pub new_token : External → User → ℕ → String
new_token x user now =
    let header_payload = String.◌++◌ (String.◌++◌ x.header ".") (x.payload user now) in
    String.◌++◌ (String.◌++◌ header_payload ".") (x.sign header_payload)

-- The checks from the block list on.
unfoldable pub check_user : External → AuthenticationManager → ℕ → String → String → Result String
unfolding verify_password new_token
check_user x m now name password =
    if has_key name m.blocked_users then err account_blocked else elim (lookup name m.users) [
      | none ↦ err user_not_found
      | some user ↦
          if not user.active
          then err user_inactive
          else elim (verify_password x password user.password_hash) [
            | err e ↦ err (authentication_failed e)
            | ok false ↦ err invalid_credentials
            | ok true ↦ ok (new_token x user now)
          ]
    ]

unfoldable pub authenticate :
    External → AuthenticationManager → ℕ → String → String → AuthenticationManager × Result String
authenticate x m now name password =
    let (counted, locked) = count_attempt x m now name in
    if not (x.is_valid_username name)
    then (m, err invalid_username_format)
    else if not (x.is_valid_password_format password)
    then (m, err password_policy_violation)
    else if locked
    then (counted, err account_locked)
    else (counted, check_user x counted now name password)

-- `find('.', from)` in the characters of a text.
unfoldable pub find_dot : ℕ → ℕ → List ℕ → Option ℕ
find_dot from position [] = none
find_dot from position (c ∷ cs) =
    let later = find_dot from (position + 1) cs in
    if c == dot then (if leb from position then some position else later) else later

-- An absent first dot is followed by a search from 0, which finds none either.
unfoldable pub is_valid_jwt_structure : String → Bool
unfolding find_dot
is_valid_jwt_structure token =
    let text = codes token in
    elim (find_dot 0 0 text) [
      | none ↦ false
      | some first ↦ elim (find_dot (first + 1) 0 text) [
        | none ↦ false
        | some second ↦ ltb (first + 1) second && ltb second (length text - 1)
      ]
    ]

unfoldable pub validate_token : AuthenticationManager → String → Result Bool
validate_token m token =
    if not (is_valid_jwt_structure token)
    then err invalid_token_format
    else if has_key token m.revoked_tokens
    then err token_revoked
    else ok true

unfoldable pub revoke_token : AuthenticationManager → ℕ → String → AuthenticationManager
revoke_token m now token = record m {
  revoked_tokens = insert token ((now + token_expiry_time) / seconds 1) m.revoked_tokens;
}

unfoldable pub cleanup_expired_tokens : AuthenticationManager → ℕ → AuthenticationManager
cleanup_expired_tokens m now = record m {
  revoked_tokens = retain (λ expiry. not (ltb expiry (now / seconds 1))) m.revoked_tokens;
}

-- `substr`, by its two ends.
abbrev pub text_take : ℕ → String → String
text_take zero s = ""
text_take (suc n) String.[] = ""
text_take (suc n) (String.◌∷◌ c s) = String.◌∷◌ c (text_take n s)

abbrev pub text_drop : ℕ → String → String
text_drop zero s = s
text_drop (suc n) String.[] = ""
text_drop (suc n) (String.◌∷◌ c s) = text_drop n s

-- The variable that is tested for the user is never assigned.
abbrev pub user_opt : Option User
user_opt = none

unfoldable pub parse_payload_text : External → ℕ → String → Result User
parse_payload_text x now text = and_then (x.parse_payload text) (λ (expiry, name).
    if ltb expiry (now / seconds 1)
    then err token_expired
    else elim user_opt [ none ↦ err (user_not_found_prefix name) | some user ↦ ok user ])

-- The positions of the first two dots.
unfoldable pub two_dots : String → Option (ℕ × ℕ)
unfolding find_dot
two_dots token = elim (find_dot 0 0 (codes token)) [
  | none ↦ none
  | some first ↦ elim (find_dot (first + 1) 0 (codes token)) [
    | none ↦ none
    | some second ↦ some (first, second)
  ]
]

unfoldable pub parse_jwt_payload : External → ℕ → String → Result User
unfolding two_dots parse_payload_text
parse_jwt_payload x now token = elim (two_dots token) [
  | none ↦ err invalid_token_format
  | some (first, second) ↦
      parse_payload_text x now (text_take (second - first - 1) (text_drop (first + 1) token))
]

unfoldable pub verify_jwt_signature : External → String → String → Bool
verify_jwt_signature x header_payload signature = x.sign header_payload == signature

unfoldable pub get_user_from_token : External → AuthenticationManager → ℕ → String → Result User
unfolding two_dots parse_jwt_payload verify_jwt_signature
get_user_from_token x m now token = elim (two_dots token) [
  | none ↦ err invalid_token_format
  | some (first, second) ↦
      if not (verify_jwt_signature x (text_take second token) (text_drop (second + 1) token))
      then err invalid_token_signature
      else elim (parse_jwt_payload x now token) [
        | err e ↦ err (invalid_token_payload e)
        | ok user ↦ if has_key token m.revoked_tokens then err token_revoked else ok user
      ]
]
