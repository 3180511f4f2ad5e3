-- ===== src/Connection/Requests.antt =====
-- The ways in which a request that is answered ends (connection.cpp).
use zero_trust_secure_sessio.Common.{ℕ, ◌≡◌, ◌≢◌, true, false, String, some, string_eq, done}
use zero_trust_secure_sessio.Types.{User, Error, Result, ok, err}
use zero_trust_secure_sessio.Session.{SessionManager, create_session}
use zero_trust_secure_sessio.Security.{
  check_rate_limit, record_failed_attempt, record_successful_login,
}
use zero_trust_secure_sessio.Rbac.{can_access_service}
use zero_trust_secure_sessio.Auth.{AuthenticationManager, authenticate, get_user}
use zero_trust_secure_sessio.Connection.{
  Managers, Connection, RequestError, World, Environment, refuse, end_session, is_granted,
  rate_limit_exceeded, user_not_found_after_auth, authentication_failed, session_creation_failed,
  login_successful, session_created, proxy_request_processed, logout_successful,
}

-- The managers after the check of the rate limit, and after the login that follows it.
abbrev pub limited : Managers → Connection → ℕ → Managers
limited g c now = record g {
  security_manager = (check_rate_limit g.security_manager now c.client_ip).0;
}

abbrev pub attempted :
    Environment → Managers → ℕ → String → String → AuthenticationManager × Result String
attempted x g now name password = authenticate x.external g.auth_manager now name password

abbrev pub failed_login : Environment → Managers → Connection → ℕ → String → String → Managers
failed_login x g c now name password = record g {
  auth_manager = (attempted x g now name password).0;
  security_manager =
      record_failed_attempt (check_rate_limit g.security_manager now c.client_ip).0 now c.client_ip;
}

abbrev pub passed_login : Environment → Managers → Connection → ℕ → String → String → Managers
passed_login x g c now name password = record g {
  auth_manager = (attempted x g now name password).0;
  security_manager =
      record_successful_login (check_rate_limit g.security_manager now c.client_ip).0 now
        c.client_ip;
}

pub data Outcome (x : Environment) (g : Managers) (c : Connection) (now : ℕ) (w : World)
    : Type 0 where
  -- Before any manager has changed.
  refused : (e : RequestError) → w ≡ refuse g c e → Outcome x g c now w
  limit_exceeded : w ≡ refuse (limited g c now) c rate_limit_exceeded → Outcome x g c now w
  login_failed :
      (name password : String) (e : Error)
      → (attempted x g now name password).1 ≡ err e
      → w ≡ refuse (failed_login x g c now name password) c (authentication_failed e)
      → Outcome x g c now w
  user_missing :
      (name password : String)
      → w ≡ refuse (passed_login x g c now name password) c user_not_found_after_auth
      → Outcome x g c now w
  login_passed :
      (name password token : String) (user : User)
      → is_granted (check_rate_limit g.security_manager now c.client_ip).1 ≡ true
      → (attempted x g now name password).1 ≡ ok token
      → get_user (attempted x g now name password).0 name ≡ some user
      → w ≡ record {
        managers = passed_login x g c now name password;
        connection = record c { user = user; authenticated = true };
        response = login_successful token user.user_name user.role;
      }
      → Outcome x g c now w
  session_failed :
      (service : String) (sessions : SessionManager) (e : Error)
      → create_session x.draw x.fuel g.session_manager now c.user c.client_ip service
        ≡ some (sessions, err e)
      → w ≡ refuse (record g { session_manager = sessions }) c (session_creation_failed e)
      → Outcome x g c now w
  session_opened :
      (service id : String) (sessions : SessionManager)
      → c.authenticated ≡ true
      → can_access_service g.authz_manager c.user service ≡ done (ok true)
      → create_session x.draw x.fuel g.session_manager now c.user c.client_ip service
        ≡ some (sessions, ok id)
      → w ≡ record {
        managers = record g { session_manager = sessions };
        connection = record c { session_id = id };
        response = session_created id service;
      }
      → Outcome x g c now w
  proxied :
      c.authenticated ≡ true
      → c.session_id ≢ ""
      → w ≡ record { managers = g; connection = c; response = proxy_request_processed c.session_id }
      → Outcome x g c now w
  logged_out :
      c.authenticated ≡ true
      → w ≡ record {
        managers = (end_session g c).0;
        connection = record (end_session g c).1 { authenticated = false };
        response = logout_successful;
      }
      → Outcome x g c now w
