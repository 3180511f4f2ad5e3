-- ===== src/Connection/Handling.antt =====
-- Every answered request of connection.cpp ends in one of the ways.
use zero_trust_secure_sessio.Common.{
  ℕ, ◌≡◌, refl, subst, inl, inr, Bool, true, false, not, ◌||◌, String, Option, none, some, arith,
  string_eq, ◌==◌, if◌then◌else◌, Run, done, deadlock, Bool-cases, Option-cases,
}
use zero_trust_secure_sessio.Types.{Result, ok, err, Result-cases}
use zero_trust_secure_sessio.Session.{SessionManager, create_session}
use zero_trust_secure_sessio.Security.{check_rate_limit}
use zero_trust_secure_sessio.Rbac.{can_access_service}
use zero_trust_secure_sessio.Auth.{get_user}
use zero_trust_secure_sessio.Connection.Requests.{Outcome, limited, attempted, passed_login}
use zero_trust_secure_sessio.Connection.{
  Managers, Connection, World, RequestJson, Environment, refuse, with_text, logged_in,
  authenticate_login, rate_limited_login, process_login_request, open_session, authorize_session,
  process_session_request, process_proxy_request, process_logout_request, handle_request,
  is_granted, not_authenticated, invalid_json, username_password_required, target_service_required,
  access_denied, unknown_request_type, no_active_session,
}

-- A postcondition of a call that may not return.
pub data Ensures (P : World → Type 0) : Run World → Type 0 where
  returned : {w : World} → P w → Ensures P (done w)
  never : Ensures P deadlock

Ensures-done : {P : World → Type 0} {w : World} → Ensures P (done w) → P w
Ensures-done (returned p) = p

with_text-Ensures :
    {P : World → Type 0} (o : Option String) (w : World) (f : String → Run World)
    → P w
    → ((s : String) → Ensures P (f s))
    → Ensures P (with_text o w f)
with_text-Ensures none w f a b = returned a
with_text-Ensures (some s) w f a b = b s

if-Ensures :
    {P : World → Type 0} (b : Bool) (r s : Run World)
    → (b ≡ true → Ensures P r)
    → (b ≡ false → Ensures P s)
    → Ensures P (if b then r else s)
if-Ensures true r s h k = h refl
if-Ensures false r s h k = k refl

module _ (x : Environment) (g : Managers) (c : Connection) (now : ℕ) where
  logged_in-Outcome :
      (name password token : String)
      → is_granted (check_rate_limit g.security_manager now c.client_ip).1 ≡ true
      → (attempted x g now name password).1 ≡ ok token
      → Outcome x g c now (logged_in (passed_login x g c now name password) c name token)
  unfolding logged_in
  logged_in-Outcome name password token granted e =
      elim (Option-cases (get_user (attempted x g now name password).0 name)) [
        | inl missing ↦ Outcome.user_missing name password (rw (missing, logged_in) refl)
        | inr (user, found) ↦
            Outcome.login_passed name password token user granted e found
              (rw (found, logged_in) refl)
      ]

  login-Outcome :
      (name password : String)
      → is_granted (check_rate_limit g.security_manager now c.client_ip).1 ≡ true
      → Outcome x g c now (authenticate_login x (limited g c now) c now name password)
  unfolding authenticate_login
  login-Outcome name password granted = elim (Result-cases (attempted x g now name password).1) [
    | inl (token, e) ↦ rw (e, authenticate_login) (logged_in-Outcome name password token granted e)
    | inr (error, e) ↦ Outcome.login_failed name password error e (rw (e, authenticate_login) refl)
  ]

  limited-Outcome :
      (name password : String) → Outcome x g c now (rate_limited_login x g c now name password)
  unfolding rate_limited_login
  limited-Outcome name password =
      elim (Bool-cases (is_granted (check_rate_limit g.security_manager now c.client_ip).1)) [
        | inl granted ↦ rw (granted, rate_limited_login) (login-Outcome name password granted)
        | inr exceeded ↦ Outcome.limit_exceeded (rw (exceeded, rate_limited_login) refl)
      ]

  open_session-Outcome :
      (service : String)
      → c.authenticated ≡ true
      → can_access_service g.authz_manager c.user service ≡ done (ok true)
      → Ensures (Outcome x g c now) (open_session x g c now service)
  unfolding open_session
  open_session-Outcome service a granted =
      created (create_session x.draw x.fuel g.session_manager now c.user c.client_ip service) refl
    where
      created :
          (o : Option (SessionManager × Result String))
          → create_session x.draw x.fuel g.session_manager now c.user c.client_ip service ≡ o
          → Ensures (Outcome x g c now) (open_session x g c now service)
      created none e = rw (e, open_session) never
      created (some (sessions, err error)) e =
          rw (e, open_session) (returned (Outcome.session_failed service sessions error e refl))
      created (some (sessions, ok id)) e =
          rw (e, open_session)
            (returned (Outcome.session_opened service id sessions a granted e refl))

  authorize-Outcome :
      (service : String)
      → c.authenticated ≡ true
      → Ensures (Outcome x g c now) (authorize_session x g c now service)
  unfolding authorize_session
  authorize-Outcome service a = answered (can_access_service g.authz_manager c.user service) refl
    where
      answered :
          (r : Run (Result Bool))
          → can_access_service g.authz_manager c.user service ≡ r
          → Ensures (Outcome x g c now) (authorize_session x g c now service)
      answered deadlock e = rw (e, authorize_session) never
      answered (done (err error)) e =
          rw (e, authorize_session) (returned (Outcome.refused (access_denied service) refl))
      answered (done (ok false)) e =
          rw (e, authorize_session) (returned (Outcome.refused (access_denied service) refl))
      answered (done (ok true)) e = rw (e, authorize_session) (open_session-Outcome service a e)

  proxy-Outcome : Outcome x g c now (process_proxy_request g c)
  unfolding process_proxy_request
  proxy-Outcome = elim (Bool-cases (not c.authenticated || c.session_id == "")) [
    | inl e ↦ Outcome.refused no_active_session (rw (e, process_proxy_request) refl)
    | inr e ↦
        Outcome.proxied (ground arith) (λ same. ground (arith, string_eq.equal_iff c.session_id ""))
          (rw (e, process_proxy_request) refl)
  ]

  logout-Outcome : Outcome x g c now (process_logout_request g c)
  unfolding process_logout_request
  logout-Outcome = elim (Bool-cases (not c.authenticated)) [
    | inl e ↦ Outcome.refused not_authenticated (rw (e, process_logout_request) refl)
    | inr e ↦ Outcome.logged_out (ground arith) (rw (e, process_logout_request) refl)
  ]

  login_request-Ensures :
      (value : RequestJson) → Ensures (Outcome x g c now) (process_login_request x g c now value)
  unfolding process_login_request
  login_request-Ensures value =
      with_text-Ensures (value "username") (refuse g c invalid_json) _
        (Outcome.refused invalid_json refl)
        (λ name.
          with_text-Ensures (value "password") (refuse g c invalid_json) _
            (Outcome.refused invalid_json refl)
            (λ password. returned (login_attempt-Outcome name password)))
    where
      login_attempt-Outcome :
          (name password : String)
          → Outcome x g c now (
              if name == "" || password == ""
              then refuse g c username_password_required
              else rate_limited_login x g c now name password)
      login_attempt-Outcome name password = elim (Bool-cases (name == "" || password == "")) [
        | inl e ↦ rw e (Outcome.refused username_password_required refl)
        | inr e ↦ rw e (limited-Outcome name password)
      ]

  session_request-Ensures :
      (value : RequestJson) → Ensures (Outcome x g c now) (process_session_request x g c now value)
  unfolding process_session_request
  session_request-Ensures value =
      if-Ensures (not c.authenticated) _ _ (λ _. returned (Outcome.refused not_authenticated refl))
        (λ a.
          with_text-Ensures (value "target_service") (refuse g c invalid_json) _
            (Outcome.refused invalid_json refl)
            (λ service.
              if-Ensures (service == "") _ _
                (λ _. returned (Outcome.refused target_service_required refl))
                (λ _. authorize-Outcome service (ground arith))))

  handle_request-Ensures :
      (request : Option RequestJson)
      → Ensures (Outcome x g c now) (handle_request x g c now request)
  unfolding handle_request
  handle_request-Ensures none = returned (Outcome.refused invalid_json refl)
  handle_request-Ensures (some value) =
      with_text-Ensures (value "type") (refuse g c invalid_json) _
        (Outcome.refused invalid_json refl)
        (λ kind.
          if-Ensures (kind == "login") _ _ (λ _. login_request-Ensures value)
            (λ _.
              if-Ensures (kind == "session") _ _ (λ _. session_request-Ensures value)
                (λ _.
                  if-Ensures (kind == "proxy") _ _ (λ _. returned proxy-Outcome)
                    (λ _.
                      if-Ensures (kind == "logout") _ _ (λ _. returned logout-Outcome)
                        (λ _. returned (Outcome.refused (unknown_request_type kind) refl))))))

-- A request that is answered ends in one of the ways.
pub handle_request-Outcome :
    (x : Environment) (g : Managers) (c : Connection) (now : ℕ) (request : Option RequestJson)
    {w : World}
    → handle_request x g c now request ≡ done w
    → Outcome x g c now w
handle_request-Outcome x g c now request {w} e =
    Ensures-done (subst (Ensures (Outcome x g c now)) e (handle_request-Ensures x g c now request))
