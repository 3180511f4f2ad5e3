-- ===== src/Types.antt =====
-- include/zerossg/types.ixx: roles, users, sessions and target services, and the `Result` of
-- include/zerossg/common.ixx. An error is a constructor named after the message's constant, with
-- the text that the code appends to it.
pub mod Roles
pub mod Utils
pub mod Events
pub mod Tests
use zero_trust_secure_sessio.Common.{
  ℕ, ◌+◌, ◌-◌, ◌/◌, ◌≡◌, refl, ◌↔◌, ◌⊎◌, inl, inr, Bool, true, false, not, ◌&&◌, List, [], ◌∷◌,
  String, arith, ltb, leb, Comparable, string_eq, ◌==◌, if◌then◌else◌, contains, seconds,
}

pub data Role : Type 0 where
  admin operator viewer : Role

abbrev pub role_beq : Role → Role → Bool
role_beq admin admin = true
role_beq operator operator = true
role_beq viewer viewer = true
role_beq _ _ = false

pub role_beq_iff : (a b : Role) → (role_beq a b ≡ true) ↔ (a ≡ b)
role_beq_iff admin b = ground arith
role_beq_iff operator b = ground arith
role_beq_iff viewer b = ground arith

instance abbrev pub role_eq : Comparable Role
role_eq = record { equal = role_beq; equal_iff = role_beq_iff }

unfoldable pub role_to_string : Role → String
role_to_string admin = "admin"
role_to_string operator = "operator"
role_to_string viewer = "viewer"

-- A text that names no role is read as the viewer.
unfoldable pub string_to_role : String → Role
string_to_role s =
    if s == "admin"
    then admin
    else if s == "operator"
    then operator
    else if s == "viewer"
    then viewer
    else viewer

pub record User : Type 0 where
  pub user_name : String
  pub password_hash : String
  pub role : Role
  pub created_at : ℕ
  pub last_login : ℕ
  pub active : Bool

-- The constructor that sets the three leading fields.
abbrev pub new_user : String → String → Role → ℕ → User
new_user name hash role now = record {
  user_name = name;
  password_hash = hash;
  role = role;
  created_at = now;
  last_login = 0;
  active = true;
}

pub record Session : Type 0 where
  pub session_id : String
  pub user_name : String
  pub role : Role
  pub created_at : ℕ
  pub expires_at : ℕ
  pub client_ip : String
  pub target_service : String
  pub active : Bool

abbrev pub new_session : String → String → Role → String → String → ℕ → ℕ → Session
new_session id name role ip service expires now = record {
  session_id = id;
  user_name = name;
  role = role;
  created_at = now;
  expires_at = expires;
  client_ip = ip;
  target_service = service;
  active = true;
}

abbrev pub is_expired : ℕ → Session → Bool
is_expired now s = ltb s.expires_at now

-- Whole seconds, rounded down.
unfoldable pub time_until_expiry : ℕ → Session → ℕ
time_until_expiry now s = if leb s.expires_at now then 0 else (s.expires_at - now) / seconds 1

pub record TargetService : Type 0 where
  pub name : String
  pub host : String
  pub port : ℕ
  pub allowed_roles : List Role
  pub tls_enabled : Bool

abbrev pub is_empty {ℓ} : {A : Type ℓ} → List A → Bool
is_empty [] = true
is_empty (x ∷ xs) = false

unfoldable pub is_valid : TargetService → Bool
is_valid t =
    not (t.name == "")
    && not (t.host == "")
    && ltb 0 t.port
    && leb t.port 65535
    && not (is_empty t.allowed_roles)

unfoldable pub is_role_allowed : Role → TargetService → Bool
is_role_allowed r t = contains t.allowed_roles r

pub data Error : Type 0 where
  max_concurrent_sessions session_not_found session_expired service_not_found : String → Error
  proxy_already_exists proxy_not_found : String → Error
  ip_currently_blocked rate_limit_exceeded : Error
  user_already_exists user_not_found invalid_credentials user_inactive : Error
  invalid_username_format password_policy_violation account_locked account_blocked : Error
  authentication_failed : Error → Error
  invalid_token_format invalid_token_signature token_revoked token_expired : Error
  invalid_token_payload : Error → Error
  user_not_found_prefix jwt_payload_parse_failed : String → Error
  hash_too_short invalid_hash_format random_bytes_failed salt_generation_failed : Error
  hash_context_creation_failed hash_initialization_failed hash_update_failed : Error
  hash_finalization_failed : Error

pub data Result {ℓ} (A : Type ℓ) : Type ℓ where
  ok : A → Result A
  err : Error → Result A

abbrev pub has_value {ℓ} : {A : Type ℓ} → Result A → Bool
has_value (ok a) = true
has_value (err e) = false

pub Result-cases {ℓ} :
    {A : Type ℓ} (r : Result A) → ((a : A) × (r ≡ ok a)) ⊎ ((e : Error) × (r ≡ err e))
Result-cases (ok a) = inl (a, refl)
Result-cases (err e) = inr (e, refl)
