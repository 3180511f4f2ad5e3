-- ===== src/Connection/Tests.antt =====
-- The requests of connection.cpp at concrete inputs.
use zero_trust_secure_sessio.Common.{
  ◌≡◌, refl, true, false, [], ◌∷◌, String, Option, some, none, done, string_eq, arith, ◌==◌,
  if◌then◌else◌, lookup, insert, erase,
}
use zero_trust_secure_sessio.Types.{operator, new_user, Session, ok}
use zero_trust_secure_sessio.Session.{
  SessionManager, create_session, is_user_at_session_limit, limit_loop, store_session,
  terminate_session,
}
use zero_trust_secure_sessio.Session.Ids.{generate_session_id, fresh_id}
use zero_trust_secure_sessio.Security.{is_ip_blocked, SecurityManager}
use zero_trust_secure_sessio.Rbac.{can_access_service, can_role_access_service}
use zero_trust_secure_sessio.Rbac.Defaults.{default_manager}
use zero_trust_secure_sessio.Auth.{External}
use zero_trust_secure_sessio.Connection.{
  Managers, Connection, World, RequestJson, Environment, handle_request, process_session_request,
  authorize_session, open_session, process_logout_request, process_proxy_request, end_session,
  session_created, logout_successful, no_active_session, refuse,
}
use zero_trust_secure_sessio.Connection.Protocol.{Step, Phase, handle_request-Follows}
use zero_trust_secure_sessio.Connection.Effects.{
  handle_request-error, none_yet, next, is_ip_blocked-Served,
}
use zero_trust_secure_sessio.Connection.Sessions.{
  opened_session, handle_request-session, handle_request-logout, handle_request-leak,
}

-- No call here reaches the libraries of the authentication.
abbrev external : External
external = record {
  is_valid_username = λ name. true;
  is_valid_password_format = λ password. true;
  should_block = λ info. false;
  new_rate_info = λ now. record { attempts = 0; window_start = now };
  bytes = λ text. [];
  base64_encode = λ bytes. "";
  base64_decode = λ text. [];
  digest = λ bytes. ok [];
  header = "h";
  payload = λ user now. "p";
  sign = λ text. "s";
  parse_payload = λ text. ok (0, "ann");
}

abbrev pub environment : Environment
environment = record { external = external; draw = λ n. n; fuel = 3 }

abbrev security : SecurityManager
security = record {
  rate_limits = [];
  brute_force_data = [];
  blocked_ips = ("10.0.0.9", 500) ∷ [];
  security_events = [];
  total_failed_attempts = 0;
  total_successful_logins = 0;
  total_brute_force_detections = 0;
}

abbrev managers_with : SessionManager → Managers
managers_with sessions = record {
  auth_manager = record { users = []; revoked_tokens = []; blocked_users = []; rate_limits = [] };
  authz_manager = default_manager;
  session_manager = sessions;
  security_manager = security;
}

abbrev pub managers : Managers
managers = managers_with (record { sessions = []; total_sessions = 0; drawn = 0 })

abbrev pub ann_in : String → Connection
ann_in id = record {
  client_ip = "10.0.0.1";
  authenticated = true;
  session_id = id;
  user = new_user "ann" "hash" operator 0;
}

abbrev session_request : Option RequestJson
session_request = some (λ key. some (if key == "type" then "session" else "ssh"))

abbrev logout_request : Option RequestJson
logout_request = some (λ key. some (if key == "type" then "logout" else ""))

abbrev proxy_request : Option RequestJson
proxy_request = some (λ key. some (if key == "type" then "proxy" else ""))

abbrev id1 : String
id1 = "000102030405060708090a0b0c0d0e0f101112131415161718191a1b1c1d1e1f"

abbrev id2 : String
id2 = "202122232425262728292a2b2c2d2e2f303132333435363738393a3b3c3d3e3f"

abbrev entry1 : String × Session
entry1 = (id1, opened_session (ann_in "") 5 id1 "ssh")

abbrev entry2 : String × Session
entry2 = (id2, opened_session (ann_in "") 6 id2 "ssh")

abbrev world1 : World
world1 = record {
  managers = managers_with (record { sessions = entry1 ∷ []; total_sessions = 1; drawn = 32 });
  connection = ann_in id1;
  response = session_created id1 "ssh";
}

abbrev world2 : World
world2 = record {
  managers =
      managers_with (record { sessions = entry1 ∷ entry2 ∷ []; total_sessions = 2; drawn = 64 });
  connection = ann_in id2;
  response = session_created id2 "ssh";
}

abbrev world3 : World
world3 = record {
  managers = managers_with (record { sessions = entry1 ∷ []; total_sessions = 2; drawn = 64 });
  connection = record (ann_in "") { authenticated = false };
  response = logout_successful;
}

first_session : handle_request environment managers (ann_in "") 5 session_request ≡ done world1
unfolding handle_request process_session_request authorize_session open_session can_access_service
    can_role_access_service create_session store_session is_user_at_session_limit limit_loop
    fresh_id generate_session_id lookup insert
first_session = refl

second_session :
    handle_request environment world1.managers world1.connection 6 session_request ≡ done world2
unfolding handle_request process_session_request authorize_session open_session can_access_service
    can_role_access_service create_session store_session is_user_at_session_limit limit_loop
    fresh_id generate_session_id lookup insert
second_session = refl

then_logout :
    handle_request environment world2.managers world2.connection 7 logout_request ≡ done world3
unfolding handle_request process_logout_request end_session terminate_session lookup erase
then_logout = refl

refused_proxy :
    handle_request environment world3.managers world3.connection 8 proxy_request
    ≡ done (refuse world3.managers world3.connection no_active_session)
unfolding handle_request process_proxy_request
refused_proxy = refl

handle_request-Follows_example :
    Step
      (Phase.authorized (ann_in "").user)
      (Phase.in_session (ann_in "").user id1)
      (session_created id1 "ssh")
handle_request-Follows_example =
    (handle_request-Follows environment managers (ann_in "") 5 session_request world1
      (λ e. absurd (ground (arith, e))) first_session).0

handle_request-error_example :
    (refuse world3.managers world3.connection no_active_session).connection ≡ world3.connection
handle_request-error_example =
    (handle_request-error environment world3.managers world3.connection 8 proxy_request
      (refuse world3.managers world3.connection no_active_session) no_active_session refused_proxy
      refl).0

is_ip_blocked-Served_example :
    (is_ip_blocked world1.managers.security_manager 100 "10.0.0.9").1
    ≡ (is_ip_blocked managers.security_manager 100 "10.0.0.9").1
is_ip_blocked-Served_example =
    is_ip_blocked-Served 100 "10.0.0.9" (next (ann_in "") 5 session_request none_yet first_session)

handle_request-session_example : lookup id1 managers.session_manager.sessions ≡ none
handle_request-session_example =
    (handle_request-session environment managers (ann_in "") 5 session_request world1 id1 "ssh" id1
      first_session refl).2

handle_request-logout_example : world3.connection.session_id ≡ ""
handle_request-logout_example =
    (handle_request-logout environment world2.managers world2.connection 7 logout_request world3 id1
      then_logout refl).1

handle_request-leak_example :
    lookup id1 world3.managers.session_manager.sessions
    ≡ some (opened_session (ann_in "") 5 id1 "ssh")
handle_request-leak_example =
    (handle_request-leak environment managers (ann_in "") 5 6 7 session_request session_request
      logout_request world1 world2 world3 id1 id2 "ssh" "ssh" first_session refl second_session refl
      then_logout refl).2
