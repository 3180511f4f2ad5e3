-- ===== src/Connection.antt =====
-- src/network/connection.cpp and src/network/connection.ixx: the requests of one client, on the
-- four managers of the server. A request is handled in one step, at the clock `now`. The JSON
-- library is a parameter: a text that it parses gives the member access `value(key, "")`, which is
-- `none` where it throws. What is written to the socket is the response, as its parts.
pub mod Handling
pub mod Requests
pub mod Protocol
pub mod Effects
pub mod Sessions
pub mod Wire
pub mod Delimiters
pub mod Framing
pub mod Silence
pub mod WireTests
pub mod Tests
use zero_trust_secure_sessio.Common.{
  ℕ, Bool, true, false, not, ◌&&◌, ◌||◌, String, Option, none, some, string_eq, ◌==◌, if◌then◌else◌,
  Run, done, deadlock, ◌>>=◌,
}
use zero_trust_secure_sessio.Types.{Role, User, Error, Result, ok, err}
use zero_trust_secure_sessio.Session.{SessionManager, create_session, terminate_session}
use zero_trust_secure_sessio.Security.{
  SecurityManager, check_rate_limit, record_failed_attempt, record_successful_login,
}
use zero_trust_secure_sessio.Rbac.{AuthorizationManager, can_access_service}
use zero_trust_secure_sessio.Auth.{External, AuthenticationManager, authenticate, get_user}

-- The managers, which the server's connections share.
pub record Managers : Type 0 where
  pub auth_manager : AuthenticationManager
  pub authz_manager : AuthorizationManager
  pub session_manager : SessionManager
  pub security_manager : SecurityManager

pub record Connection : Type 0 where
  pub client_ip : String
  pub authenticated : Bool
  pub session_id : String
  pub user : User

pub data RequestError : Type 0 where
  username_password_required rate_limit_exceeded user_not_found_after_auth : RequestError
  authentication_failed session_creation_failed : Error → RequestError
  not_authenticated target_service_required no_active_session invalid_json : RequestError
  access_denied unknown_request_type : String → RequestError

-- The responses: those with the status "success", by their messages, and `create_error_response`.
pub data Response : Type 0 where
  login_successful : String → String → Role → Response
  session_created : String → String → Response
  proxy_request_processed : String → Response
  logout_successful : Response
  error : RequestError → Response

pub record World : Type 0 where
  pub managers : Managers
  pub connection : Connection
  pub response : Response

abbrev pub RequestJson : Type 0
RequestJson = String → Option String

-- What the calls take from elsewhere: the libraries of the authentication, the random values of
-- the session identifiers, and the fuel of the search for a free one.
pub record Environment : Type 0 where
  pub external : External
  pub draw : ℕ → ℕ
  pub fuel : ℕ

abbrev pub refuse : Managers → Connection → RequestError → World
refuse g c e = record { managers = g; connection = c; response = error e }

-- The text of a member; where the library throws, `handle_request` answers.
abbrev pub with_text : Option String → World → (String → Run World) → Run World
with_text none w f = done w
with_text (some s) w f = f s

unfoldable pub logged_in : Managers → Connection → String → String → World
logged_in g c name token = elim (get_user g.auth_manager name) [
  | none ↦ refuse g c user_not_found_after_auth
  | some user ↦ record {
    managers = g;
    connection = record c { user = user; authenticated = true };
    response = login_successful token user.user_name user.role;
  }
]

unfoldable pub authenticate_login :
    Environment → Managers → Connection → ℕ → String → String → World
unfolding logged_in
authenticate_login x g c now name password =
    let (auth, result) = authenticate x.external g.auth_manager now name password in
    elim result [
      | err e ↦
          refuse
            (record g {
              auth_manager = auth;
              security_manager = record_failed_attempt g.security_manager now c.client_ip;
            })
            c (authentication_failed e)
      | ok token ↦
          logged_in
            (record g {
              auth_manager = auth;
              security_manager = record_successful_login g.security_manager now c.client_ip;
            })
            c name token
    ]

abbrev pub is_granted : Result Bool → Bool
is_granted (ok b) = b
is_granted (err e) = false

unfoldable pub rate_limited_login :
    Environment → Managers → Connection → ℕ → String → String → World
unfolding authenticate_login
rate_limited_login x g c now name password =
    let (security, result) = check_rate_limit g.security_manager now c.client_ip in
    let g' = record g { security_manager = security } in
    if is_granted result
    then authenticate_login x g' c now name password
    else refuse g' c rate_limit_exceeded

unfoldable pub process_login_request :
    Environment → Managers → Connection → ℕ → RequestJson → Run World
unfolding rate_limited_login
process_login_request x g c now value =
    with_text (value "username") (refuse g c invalid_json) (λ name.
      with_text (value "password") (refuse g c invalid_json) (λ password. done (
        if name == "" || password == ""
        then refuse g c username_password_required
        else rate_limited_login x g c now name password)))

-- The search for an identifier that outlasts its fuel does not return.
unfoldable pub open_session : Environment → Managers → Connection → ℕ → String → Run World
open_session x g c now service =
    elim (create_session x.draw x.fuel g.session_manager now c.user c.client_ip service) [
      | none ↦ deadlock
      | some (sessions, err e) ↦
          done (refuse (record g { session_manager = sessions }) c (session_creation_failed e))
      | some (sessions, ok id) ↦ done (record {
        managers = record g { session_manager = sessions };
        connection = record c { session_id = id };
        response = session_created id service;
      })
    ]

unfoldable pub authorize_session : Environment → Managers → Connection → ℕ → String → Run World
unfolding open_session
authorize_session x g c now service =
    can_access_service g.authz_manager c.user service >>= λ result.
    if is_granted result
    then open_session x g c now service
    else done (refuse g c (access_denied service))

unfoldable pub process_session_request :
    Environment → Managers → Connection → ℕ → RequestJson → Run World
unfolding authorize_session
process_session_request x g c now value =
    if not c.authenticated
    then done (refuse g c not_authenticated)
    else with_text (value "target_service") (refuse g c invalid_json) (λ service.
      if service == ""
      then done (refuse g c target_service_required)
      else authorize_session x g c now service)

unfoldable pub process_proxy_request : Managers → Connection → World
process_proxy_request g c =
    if not c.authenticated || c.session_id == ""
    then refuse g c no_active_session
    else record { managers = g; connection = c; response = proxy_request_processed c.session_id }

-- The session that is named is terminated, whatever `terminate_session` answers.
unfoldable pub end_session : Managers → Connection → Managers × Connection
end_session g c = if c.session_id == "" then (g, c) else (
  record g { session_manager = (terminate_session g.session_manager c.session_id).0 },
  record c { session_id = "" },
)

unfoldable pub process_logout_request : Managers → Connection → World
unfolding end_session
process_logout_request g c = if not c.authenticated then refuse g c not_authenticated else record {
  managers = (end_session g c).0;
  connection = record (end_session g c).1 { authenticated = false };
  response = logout_successful;
}

unfoldable pub handle_request :
    Environment → Managers → Connection → ℕ → Option RequestJson → Run World
unfolding process_login_request process_session_request process_proxy_request process_logout_request
handle_request x g c now none = done (refuse g c invalid_json)
handle_request x g c now (some value) = with_text (value "type") (refuse g c invalid_json) (λ kind.
    if kind == "login"
    then process_login_request x g c now value
    else if kind == "session"
    then process_session_request x g c now value
    else if kind == "proxy"
    then done (process_proxy_request g c)
    else if kind == "logout"
    then done (process_logout_request g c)
    else done (refuse g c (unknown_request_type kind)))
