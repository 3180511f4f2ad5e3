-- ===== src/Types/Utils.antt =====
-- src/types.cpp: the utilities on roles, events, users and sessions; Events has the tests of event
-- texts.
use zero_trust_secure_sessio.Common.{
  ℕ, ◌+◌, ◌-◌, ◌≡◌, ◌≢◌, ◌↔◌, Bool, true, false, not, ◌&&◌, ◌||◌, List, [], ◌∷◌, String, arith, ltb,
  leb, string_eq, nat_eq, ◌==◌, if◌then◌else◌, length, codes, dot,
}
use zero_trust_secure_sessio.Types.{
  Role, admin, operator, viewer, role_eq, string_to_role, User, new_user,
}

-- The values of the enumeration.
abbrev pub role_value : Role → ℕ
role_value admin = 0
role_value operator = 1
role_value viewer = 2

pub data RoleResult : Type 0 where
  role_success : Role → RoleResult
  role_string_empty : RoleResult

unfoldable pub validate_role : String → RoleResult
validate_role s = if s == "" then role_string_empty else role_success (string_to_role s)

pub data Ordering : Type 0 where
  less equal greater : Ordering

unfoldable pub compare_roles : Role → Role → Ordering
compare_roles a b =
    if ltb (role_value a) (role_value b)
    then less
    else if ltb (role_value b) (role_value a)
    then greater
    else equal

abbrev pub is_admin_role : Role → Bool
is_admin_role r = r == admin

unfoldable pub is_operator_or_higher : Role → Bool
is_operator_or_higher r = leb (role_value operator) (role_value r)

abbrev pub is_valid_role_string : String → Bool
is_valid_role_string s = s == "admin" || s == "operator" || s == "viewer"

abbrev pub all_roles : List Role
all_roles = admin ∷ operator ∷ viewer ∷ []

abbrev pub role_count : ℕ
role_count = 3

pub data SecurityEventType : Type 0 where
  login_success login_failure session_start session_termination : SecurityEventType
  authentication_error access_violation rate_limit_exceeded brute_force_detected : SecurityEventType

unfoldable pub security_event_type_to_string : SecurityEventType → String
security_event_type_to_string login_success = "login_success"
security_event_type_to_string login_failure = "login_failure"
security_event_type_to_string session_start = "session_start"
security_event_type_to_string session_termination = "session_termination"
security_event_type_to_string authentication_error = "authentication_error"
security_event_type_to_string access_violation = "access_violation"
security_event_type_to_string rate_limit_exceeded = "rate_limit_exceeded"
security_event_type_to_string brute_force_detected = "brute_force_detected"

unfoldable pub is_authentication_event : SecurityEventType → Bool
is_authentication_event login_success = true
is_authentication_event login_failure = true
is_authentication_event authentication_error = true
is_authentication_event _ = false

unfoldable pub is_session_event : SecurityEventType → Bool
is_session_event session_start = true
is_session_event session_termination = true
is_session_event _ = false

unfoldable pub is_security_violation : SecurityEventType → Bool
is_security_violation access_violation = true
is_security_violation rate_limit_exceeded = true
is_security_violation brute_force_detected = true
is_security_violation _ = false

pub record UserBuilder : Type 0 where
  pub username : String
  pub password_hash : String
  pub role : Role
  pub active : Bool

abbrev pub new_user_builder : UserBuilder
new_user_builder = record { username = ""; password_hash = ""; role = viewer; active = false }

abbrev pub set_username : String → UserBuilder → UserBuilder
set_username name b = record b { username = name }

abbrev pub set_password_hash : String → UserBuilder → UserBuilder
set_password_hash hash b = record b { password_hash = hash }

abbrev pub set_role : Role → UserBuilder → UserBuilder
set_role r b = record b { role = r }

abbrev pub set_active : Bool → UserBuilder → UserBuilder
set_active a b = record b { active = a }

-- The constructor of `User` makes it active.
unfoldable pub build : UserBuilder → ℕ → User
build b now = new_user b.username b.password_hash b.role now

unfoldable pub is_valid_builder : UserBuilder → Bool
is_valid_builder b = not (b.username == "") && not (b.password_hash == "")

unfoldable pub is_valid_session_id : String → Bool
is_valid_session_id id = not (id == "") && leb 16 (length (codes id))

-- The loop over the characters: the count of the dots, unless another character ends it.
abbrev pub is_digit_or_dot : ℕ → Bool
is_digit_or_dot c = (leb 48 c && leb c 57) || c == dot

unfoldable pub all_digits_or_dots : List ℕ → Bool
all_digits_or_dots [] = true
all_digits_or_dots (c ∷ cs) = is_digit_or_dot c && all_digits_or_dots cs

unfoldable pub dots_in : List ℕ → ℕ
dots_in [] = 0
dots_in (c ∷ cs) = (if c == dot then 1 else 0) + dots_in cs

unfoldable pub is_valid_client_ip : String → Bool
unfolding all_digits_or_dots dots_in
is_valid_client_ip ip =
    if ip == ""
    then false
    else if not (all_digits_or_dots (codes ip))
    then false
    else dots_in (codes ip) == 3 && ltb (dots_in (codes ip)) (length (codes ip) - 1)

-- The order of the enumeration puts the admin first: `is_operator_or_higher` holds of exactly the
-- roles that `compare_roles` does not place before the operator, the operator and the viewer, and
-- not of the admin.
pub is_operator_or_higher_iff :
    (r : Role)
    → ((is_operator_or_higher r ≡ true) ↔ (compare_roles r operator ≢ less))
      × ((is_operator_or_higher r ≡ true) ↔ (r ≢ admin))
unfolding is_operator_or_higher compare_roles
is_operator_or_higher_iff admin = ground arith
is_operator_or_higher_iff operator = ground arith
is_operator_or_higher_iff viewer = ground arith
