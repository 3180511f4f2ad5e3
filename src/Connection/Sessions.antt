-- ===== src/Connection/Sessions.antt =====
-- What the sessions of a client's requests do to the session manager (connection.cpp).
use zero_trust_secure_sessio.Common.{
  ℕ, ◌+◌, ◌≡◌, ap, ◌∙◌, ◌≢◌, true, false, String, Option, none, some, arith, string_eq, ◌==◌,
  if◌then◌else◌, done, Map, eq_refl, lookup, lookup-erase,
}
use zero_trust_secure_sessio.Types.{Session, new_session, ok}
use zero_trust_secure_sessio.Session.{create_session, terminate_session, default_session_timeout}
use zero_trust_secure_sessio.Session.Lifecycle.{get_session-create_session, create_session_nonempty}
use zero_trust_secure_sessio.Rbac.{can_access_service}
use zero_trust_secure_sessio.Connection.{
  Managers, Connection, World, RequestJson, Environment, end_session, handle_request,
  session_created, logout_successful,
}
use zero_trust_secure_sessio.Connection.Handling.{handle_request-Outcome}
use zero_trust_secure_sessio.Connection.Requests.{
  Outcome, refused, limit_exceeded, login_failed, user_missing, login_passed, session_failed,
  session_opened, proxied, logged_out,
}

opened-Session :
    (x : Environment) (g : Managers) (c : Connection) (now : ℕ) {w : World} (id service : String)
    → Outcome x g c now w
    → w.response ≡ session_created id service
    → (c.authenticated ≡ true)
      × (can_access_service g.authz_manager c.user service ≡ done (ok true))
      × (create_session x.draw x.fuel g.session_manager now c.user c.client_ip service
          ≡ some (w.managers.session_manager, ok id))
      × (w.connection ≡ record c { session_id = id })
opened-Session x g c now {w} id service (session_opened service' id' sessions a granted created h)
      r =
    (a, ground (arith, granted, h, r), ground (arith, created, h, r), ground (arith, h, r))
opened-Session x g c now id service (refused _ h) r = absurd (ground (arith, h, r))
opened-Session x g c now id service (limit_exceeded h) r = absurd (ground (arith, h, r))
opened-Session x g c now id service (login_failed _ _ _ _ h) r = absurd (ground (arith, h, r))
opened-Session x g c now id service (user_missing _ _ h) r = absurd (ground (arith, h, r))
opened-Session x g c now id service (login_passed _ _ _ _ _ _ _ h) r = absurd (ground (arith, h, r))
opened-Session x g c now id service (session_failed _ _ _ _ h) r = absurd (ground (arith, h, r))
opened-Session x g c now id service (proxied _ _ h) r = absurd (ground (arith, h, r))
opened-Session x g c now id service (logged_out _ h) r = absurd (ground (arith, h, r))

-- The session that a request of the client `c` at the clock `now` opens.
abbrev pub opened_session : Connection → ℕ → String → String → Session
opened_session c now id service =
    new_session id c.user.user_name c.user.role c.client_ip service (now + default_session_timeout)
      now

-- A request that is answered with a new session is one of a client that is logged in, and whose user
-- may access the service. The identifier was free, and is the client's from then on; under it is
-- stored, for an hour, the session of the client's user and address; no other session changes.
pub handle_request-session :
    (x : Environment) (g : Managers) (c : Connection) (now : ℕ) (request : Option RequestJson)
    (w : World) (id service j : String)
    → handle_request x g c now request ≡ done w
    → w.response ≡ session_created id service
    → (c.authenticated ≡ true)
      × (can_access_service g.authz_manager c.user service ≡ done (ok true))
      × (lookup id g.session_manager.sessions ≡ none)
      × (lookup j w.managers.session_manager.sessions ≡ (
          if id == j
          then some (opened_session c now id service)
          else lookup j g.session_manager.sessions))
      × (w.connection ≡ record c { session_id = id })
handle_request-session x g c now request w id service j h r =
    let (a, granted, created, named) =
      opened-Session x g c now id service (handle_request-Outcome x g c now request h) r in
    let (fresh, got, stored) =
      get_session-create_session x.draw x.fuel g.session_manager w.managers.session_manager now
        c.user c.client_ip service id now j created in
    (a, granted, fresh, stored, named)

end_session_stores :
    (g : Managers) (c : Connection) (j : String)
    → lookup j (end_session g c).0.session_manager.sessions ≡ (
        if c.session_id == ""
        then lookup j g.session_manager.sessions
        else if c.session_id == j
        then none
        else lookup j g.session_manager.sessions)
unfolding end_session terminate_session
end_session_stores g c j = ground (
  arith,
  lookup-erase c.session_id j g.session_manager.sessions,
  string_eq.equal_iff c.session_id j,
  string_eq.equal_iff c.session_id "",
)

end_session_name : (g : Managers) (c : Connection) → (end_session g c).1.session_id ≡ ""
unfolding end_session
end_session_name g c = ground (arith, string_eq.equal_iff c.session_id "")

ended-Session :
    (x : Environment) (g : Managers) (c : Connection) (now : ℕ) {w : World}
    → Outcome x g c now w
    → w.response ≡ logout_successful
    → w ≡ record {
      managers = (end_session g c).0;
      connection = record (end_session g c).1 { authenticated = false };
      response = logout_successful;
    }
ended-Session x g c now (logged_out _ h) r = h
ended-Session x g c now (session_opened _ _ _ _ _ _ h) r = absurd (ground (arith, h, r))
ended-Session x g c now (refused _ h) r = absurd (ground (arith, h, r))
ended-Session x g c now (limit_exceeded h) r = absurd (ground (arith, h, r))
ended-Session x g c now (login_failed _ _ _ _ h) r = absurd (ground (arith, h, r))
ended-Session x g c now (user_missing _ _ h) r = absurd (ground (arith, h, r))
ended-Session x g c now (login_passed _ _ _ _ _ _ _ h) r = absurd (ground (arith, h, r))
ended-Session x g c now (session_failed _ _ _ _ h) r = absurd (ground (arith, h, r))
ended-Session x g c now (proxied _ _ h) r = absurd (ground (arith, h, r))

-- A request that is answered as a logout leaves the client logged out and without a session. The
-- session it had, if any, is no longer stored; every other one stays.
pub handle_request-logout :
    (x : Environment) (g : Managers) (c : Connection) (now : ℕ) (request : Option RequestJson)
    (w : World) (j : String)
    → handle_request x g c now request ≡ done w
    → w.response ≡ logout_successful
    → (w.connection.authenticated ≡ false)
      × (w.connection.session_id ≡ "")
      × (lookup j w.managers.session_manager.sessions ≡ (
          if c.session_id == ""
          then lookup j g.session_manager.sessions
          else if c.session_id == j
          then none
          else lookup j g.session_manager.sessions))
handle_request-logout x g c now request w j h r =
    let e = ended-Session x g c now (handle_request-Outcome x g c now request h) r in
    (
      ap (λ v. v.connection.authenticated) e,
      ap (λ v. v.connection.session_id) e ∙ end_session_name g c,
      ap (λ v. lookup j v.managers.session_manager.sessions) e ∙ end_session_stores g c j,
    )

-- The entries under the two names, before the second is stored and erased again.
first_stays :
    (first second named : String) (m1 m2 m3 : Map String Session) (s1 s2 : Session)
    (o : Option Session)
    → lookup first m1 ≡ (if first == first then some s1 else o)
    → lookup second m1 ≡ none
    → lookup first m2 ≡ (if second == first then some s2 else lookup first m1)
    → named ≡ second
    → lookup first m3
      ≡ (if named == "" then lookup first m2 else if named == first then none else lookup first m2)
    → lookup first m3 ≡ some s1
first_stays first second named m1 m2 m3 s1 s2 o h1 h2 h3 e h4 =
    let other : first ≢ second =
      λ same. ground (arith, eq_refl first, ap (λ k. lookup k m1) same) in
    ground (
      arith,
      other,
      eq_refl first,
      string_eq.equal_iff second first,
      string_eq.equal_iff named first,
    )

-- When a client that already opened a session opens a second and then logs out, only the second is
-- terminated: the first stays stored, with the client's user and address, though the client is
-- logged out and its connection holds no identifier any more.
pub handle_request-leak :
    (x : Environment) (g : Managers) (c : Connection) (t1 t2 t3 : ℕ)
    (first second third : Option RequestJson) (w1 w2 w3 : World)
    (id1 id2 service1 service2 : String)
    → handle_request x g c t1 first ≡ done w1
    → w1.response ≡ session_created id1 service1
    → handle_request x w1.managers w1.connection t2 second ≡ done w2
    → w2.response ≡ session_created id2 service2
    → handle_request x w2.managers w2.connection t3 third ≡ done w3
    → w3.response ≡ logout_successful
    → (w3.connection.authenticated ≡ false)
      × (w3.connection.session_id ≡ "")
      × (lookup id1 w3.managers.session_manager.sessions ≡ some (opened_session c t1 id1 service1))
      × (lookup id2 w3.managers.session_manager.sessions ≡ none)
handle_request-leak x g c t1 t2 t3 first second third w1 w2 w3 id1 id2 service1 service2 h1 r1 h2 r2
      h3 r3 =
    let (a1, granted1, fresh1, stored1, named1) =
      handle_request-session x g c t1 first w1 id1 service1 id1 h1 r1 in
    let (a2, granted2, fresh2, stored2, named2) =
      handle_request-session x w1.managers w1.connection t2 second w2 id2 service2 id1 h2 r2 in
    let (out, cleared, left1) =
      handle_request-logout x w2.managers w2.connection t3 third w3 id1 h3 r3 in
    let (out', cleared', left2) =
      handle_request-logout x w2.managers w2.connection t3 third w3 id2 h3 r3 in
    let (a, granted, created, named) =
      opened-Session x w1.managers w1.connection t2 id2 service2
        (handle_request-Outcome x w1.managers w1.connection t2 second h2) r2 in
    let nonempty : id2 ≢ "" =
      create_session_nonempty x.draw x.fuel w1.managers.session_manager w2.managers.session_manager
        t2 w1.connection.user w1.connection.client_ip service2 id2 created in
    let kept : w2.connection.session_id ≡ id2 = ap (λ v. v.session_id) named2 in
    (
      out,
      cleared,
      first_stays id1 id2 w2.connection.session_id w1.managers.session_manager.sessions
          w2.managers.session_manager.sessions w3.managers.session_manager.sessions _ _ _ stored1
          fresh2 stored2 kept left1,
      ground (
        arith,
        left2,
        kept,
        nonempty,
        string_eq.equal_iff w2.connection.session_id "",
        string_eq.equal_iff w2.connection.session_id id2,
      ),
    )
