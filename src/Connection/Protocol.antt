-- ===== src/Connection/Protocol.antt =====
-- What a client can do, as a state machine with three phases that forgets the managers; the requests
-- of connection.cpp follow it.
use zero_trust_secure_sessio.Common.{
  ℕ, ◌≡◌, refl, sym, subst, ◌≢◌, Bool, true, false, String, Option, none, some, arith, string_eq,
  ◌==◌, done,
}
use zero_trust_secure_sessio.Types.{User}
use zero_trust_secure_sessio.Session.Lifecycle.{create_session_nonempty}
use zero_trust_secure_sessio.Connection.{
  Managers, Connection, RequestError, Response, World, RequestJson, Environment, refuse,
  end_session, handle_request, login_successful, session_created, proxy_request_processed,
  logout_successful, error,
}
use zero_trust_secure_sessio.Connection.Handling.{handle_request-Outcome}
use zero_trust_secure_sessio.Connection.Requests.{
  Outcome, refused, limit_exceeded, login_failed, user_missing, login_passed, session_failed,
  session_opened, proxied, logged_out,
}

pub data Phase : Type 0 where
  anonymous : Phase
  authorized : User → Phase
  in_session : User → String → Phase

abbrev pub phase_of : Bool → Bool → User → String → Phase
phase_of false no_session user id = anonymous
phase_of true true user id = authorized user
phase_of true false user id = in_session user id

abbrev pub phase : Connection → Phase
phase c = phase_of c.authenticated (c.session_id == "") c.user c.session_id

-- A login gives the client a new user; the session stays as it was.
abbrev pub login_as : User → Phase → Phase
login_as user anonymous = authorized user
login_as user (authorized old) = authorized user
login_as user (in_session old id) = in_session user id

abbrev pub user_of : Phase → Option User
user_of anonymous = none
user_of (authorized user) = some user
user_of (in_session user id) = some user

-- Which response leads from which phase to which.
pub data Step (p : Phase) (q : Phase) : Response → Type 0 where
  keep : (e : RequestError) → q ≡ p → Step p q (error e)
  login :
      (user : User) (token : String)
      → q ≡ login_as user p
      → Step p q (login_successful token user.user_name user.role)
  opened :
      (user : User) (id service : String)
      → user_of p ≡ some user
      → q ≡ in_session user id
      → Step p q (session_created id service)
  proxy :
      (user : User) (id : String)
      → p ≡ in_session user id
      → q ≡ p
      → Step p q (proxy_request_processed id)
  logout : p ≢ anonymous → q ≡ anonymous → Step p q logout_successful

-- A client that is not logged in has no session.
abbrev pub IsConsistent : Connection → Type 0
IsConsistent c = c.authenticated ≡ false → c.session_id ≡ ""

abbrev pub Follows : Connection → World → Type 0
Follows c w = Step (phase c) (phase w.connection) w.response × IsConsistent w.connection

module _ (c : Connection) (k : IsConsistent c) where
  refuse-Follows : (g : Managers) (e : RequestError) → Follows c (refuse g c e)
  refuse-Follows g e = (Step.keep e refl, k)

  login-Follows :
      (g : Managers) (user : User) (token : String)
      → Follows c (record {
        managers = g;
        connection = record c { user = user; authenticated = true };
        response = login_successful token user.user_name user.role;
      })
  login-Follows g user token = (
    Step.login user token (ground (arith, k, string_eq.equal_iff c.session_id "")),
    λ e. absurd (ground (arith, e)),
  )

  opened-Follows :
      (g : Managers) (id service : String)
      → c.authenticated ≡ true
      → id ≢ ""
      → Follows c (record {
        managers = g;
        connection = record c { session_id = id };
        response = session_created id service;
      })
  opened-Follows g id service a named = (
    Step.opened c.user id service (ground arith) (ground (arith, string_eq.equal_iff id "")),
    λ e. absurd (ground (arith, e)),
  )

  proxied-Follows :
      (g : Managers)
      → c.authenticated ≡ true
      → c.session_id ≢ ""
      → Follows c
          (record { managers = g; connection = c; response = proxy_request_processed c.session_id })
  proxied-Follows g a named =
      (Step.proxy c.user c.session_id (ground (arith, string_eq.equal_iff c.session_id "")) refl, k)

  logout-Follows :
      (g g' : Managers)
      → c.authenticated ≡ true
      → Follows c (record {
        managers = g';
        connection = record (end_session g c).1 { authenticated = false };
        response = logout_successful;
      })
  unfolding end_session
  logout-Follows g g' a = (
    Step.logout (λ e. ground (arith, e)) refl,
    λ e. ground (arith, string_eq.equal_iff c.session_id ""),
  )

  Outcome-Follows :
      (x : Environment) (g : Managers) (now : ℕ) {w : World} → Outcome x g c now w → Follows c w
  Outcome-Follows x g now (refused e h) = subst (Follows c) (sym h) (refuse-Follows g e)
  Outcome-Follows x g now (limit_exceeded h) = subst (Follows c) (sym h) (refuse-Follows g _)
  Outcome-Follows x g now (login_failed _ _ _ _ h) = subst (Follows c) (sym h) (refuse-Follows g _)
  Outcome-Follows x g now (user_missing _ _ h) = subst (Follows c) (sym h) (refuse-Follows g _)
  Outcome-Follows x g now (login_passed _ _ token user _ _ _ h) =
      subst (Follows c) (sym h) (login-Follows g user token)
  Outcome-Follows x g now (session_failed _ _ _ _ h) =
      subst (Follows c) (sym h) (refuse-Follows g _)
  Outcome-Follows x g now (session_opened service id sessions a _ created h) =
      subst (Follows c) (sym h) (
        opened-Follows g id service a (
          create_session_nonempty x.draw x.fuel g.session_manager sessions now c.user c.client_ip
            service id created))
  Outcome-Follows x g now (proxied a named h) =
      subst (Follows c) (sym h) (proxied-Follows g a named)
  Outcome-Follows x g now (logged_out a h) = subst (Follows c) (sym h) (logout-Follows g g a)

-- For a client that has no session unless it is logged in: each request that is answered makes the
-- step of the state machine that belongs to its response, and leaves the client so. A refusal
-- changes no phase; a session is opened and proxied only for a client that is logged in; only a
-- login, a session request and a logout change the phase.
pub handle_request-Follows :
    (x : Environment) (g : Managers) (c : Connection) (now : ℕ) (request : Option RequestJson)
    (w : World)
    → IsConsistent c
    → handle_request x g c now request ≡ done w
    → Step (phase c) (phase w.connection) w.response × IsConsistent w.connection
handle_request-Follows x g c now request w k e =
    Outcome-Follows c k x g now (handle_request-Outcome x g c now request e)
