-- ===== src/Connection/Effects.antt =====
-- What the requests of connection.cpp do to the managers.
use zero_trust_secure_sessio.Common.{
  ℕ, ◌≡◌, refl, sym, subst, ◌∙◌, inl, inr, String, Option, some, arith, string_eq, done, Bool-cases,
  Option-cases, ltb, lookup,
}
use zero_trust_secure_sessio.Types.{User, Error, err}
use zero_trust_secure_sessio.Session.{SessionManager, create_session, store_session}
use zero_trust_secure_sessio.Session.Limit.{create_session_cases}
use zero_trust_secure_sessio.Security.{
  SecurityManager, check_rate_limit, check_entry, rate_info, RateLimitInfo, is_ip_blocked,
  record_failed_attempt, record_successful_login,
}
use zero_trust_secure_sessio.Auth.Users.{authenticate_keeps}
use zero_trust_secure_sessio.Connection.{
  Managers, Connection, RequestError, World, RequestJson, Environment, end_session, handle_request,
  error,
}
use zero_trust_secure_sessio.Connection.Handling.{handle_request-Outcome}
use zero_trust_secure_sessio.Connection.Requests.{
  Outcome, refused, limit_exceeded, login_failed, user_missing, login_passed, session_failed,
  session_opened, proxied, logged_out, limited,
}

create_session_failed :
    (draw : ℕ → ℕ) (fuel : ℕ) (m m' : SessionManager) (now : ℕ) (user : User) (ip service : String)
    (e : Error)
    → create_session draw fuel m now user ip service ≡ some (m', err e)
    → m' ≡ m
unfolding store_session
create_session_failed draw fuel m m' now user ip service e h =
    elim (create_session_cases draw fuel m now user ip service h) [
      | inl (full, same, r) ↦ same
      | inr (free, id, q, fresh, r) ↦ absurd (ground (arith, r))
    ]

-- What a refusal leaves as it was.
abbrev pub Unchanged : Managers → Connection → World → Type 0
Unchanged g c w =
    (w.connection ≡ c)
    × (w.managers.session_manager ≡ g.session_manager)
    × (w.managers.authz_manager ≡ g.authz_manager)
    × (w.managers.auth_manager.users ≡ g.auth_manager.users)

refused-Unchanged :
    (x : Environment) (g : Managers) (c : Connection) (now : ℕ) {w : World} (e : RequestError)
    → Outcome x g c now w
    → w.response ≡ error e
    → Unchanged g c w
refused-Unchanged x g c now e (refused _ h) r =
    subst (Unchanged g c) (sym h) (refl, refl, refl, refl)
refused-Unchanged x g c now e (limit_exceeded h) r =
    subst (Unchanged g c) (sym h) (refl, refl, refl, refl)
refused-Unchanged x g c now e (login_failed name password _ _ h) r =
    subst (Unchanged g c) (sym h)
      (refl, refl, refl, authenticate_keeps x.external g.auth_manager now name password)
refused-Unchanged x g c now e (user_missing name password h) r =
    subst (Unchanged g c) (sym h)
      (refl, refl, refl, authenticate_keeps x.external g.auth_manager now name password)
refused-Unchanged x g c now e (login_passed _ _ _ _ _ _ _ h) r = absurd (ground (arith, h, r))
refused-Unchanged x g c now e (session_failed service sessions error' failed h) r =
    subst (Unchanged g c) (sym h) (
      refl,
      create_session_failed x.draw x.fuel g.session_manager sessions now c.user c.client_ip service
          error' failed,
      refl,
      refl,
    )
refused-Unchanged x g c now e (session_opened _ _ _ _ _ _ h) r = absurd (ground (arith, h, r))
refused-Unchanged x g c now e (proxied _ _ h) r = absurd (ground (arith, h, r))
refused-Unchanged x g c now e (logged_out _ h) r = absurd (ground (arith, h, r))

check_entry_keeps :
    (m : SecurityManager) (now : ℕ) (ip : String) (info : RateLimitInfo)
    → (check_entry m now ip info).0.blocked_ips ≡ m.blocked_ips
unfolding check_entry
check_entry_keeps m now ip info = ground arith

check_rate_limit_keeps :
    (m : SecurityManager) (now : ℕ) (ip : String)
    → (check_rate_limit m now ip).0.blocked_ips ≡ m.blocked_ips
unfolding check_rate_limit
check_rate_limit_keeps m now ip = check_entry_keeps m now ip (rate_info m now ip)

record_failed_keeps :
    (m : SecurityManager) (now : ℕ) (ip : String)
    → (record_failed_attempt m now ip).blocked_ips ≡ m.blocked_ips
unfolding record_failed_attempt
record_failed_keeps m now ip = refl

record_successful_keeps :
    (m : SecurityManager) (now : ℕ) (ip : String)
    → (record_successful_login m now ip).blocked_ips ≡ m.blocked_ips
unfolding record_successful_login
record_successful_keeps m now ip = refl

end_session_keeps :
    (g : Managers) (c : Connection)
    → (end_session g c).0.security_manager.blocked_ips ≡ g.security_manager.blocked_ips
unfolding end_session
end_session_keeps g c = ground arith

abbrev pub KeepsBlocks : Managers → World → Type 0
KeepsBlocks g w = w.managers.security_manager.blocked_ips ≡ g.security_manager.blocked_ips

Outcome-KeepsBlocks :
    (x : Environment) (g : Managers) (c : Connection) (now : ℕ) {w : World}
    → Outcome x g c now w
    → KeepsBlocks g w
Outcome-KeepsBlocks x g c now (refused _ h) = subst (KeepsBlocks g) (sym h) refl
Outcome-KeepsBlocks x g c now (limit_exceeded h) =
    subst (KeepsBlocks g) (sym h) (check_rate_limit_keeps g.security_manager now c.client_ip)
Outcome-KeepsBlocks x g c now (login_failed _ _ _ _ h) = subst (KeepsBlocks g) (sym h) (
    record_failed_keeps (limited g c now).security_manager now c.client_ip
    ∙ check_rate_limit_keeps g.security_manager now c.client_ip)
Outcome-KeepsBlocks x g c now (user_missing _ _ h) = subst (KeepsBlocks g) (sym h) (
    record_successful_keeps (limited g c now).security_manager now c.client_ip
    ∙ check_rate_limit_keeps g.security_manager now c.client_ip)
Outcome-KeepsBlocks x g c now (login_passed _ _ _ _ _ _ _ h) = subst (KeepsBlocks g) (sym h) (
    record_successful_keeps (limited g c now).security_manager now c.client_ip
    ∙ check_rate_limit_keeps g.security_manager now c.client_ip)
Outcome-KeepsBlocks x g c now (session_failed _ _ _ _ h) = subst (KeepsBlocks g) (sym h) refl
Outcome-KeepsBlocks x g c now (session_opened _ _ _ _ _ _ h) = subst (KeepsBlocks g) (sym h) refl
Outcome-KeepsBlocks x g c now (proxied _ _ h) = subst (KeepsBlocks g) (sym h) refl
Outcome-KeepsBlocks x g c now (logged_out _ h) =
    subst (KeepsBlocks g) (sym h) (end_session_keeps g c)

-- A request that is answered with an error leaves the client's state, the session manager, the
-- authorization manager, the users and the table of blocked addresses as they were.
pub handle_request-error :
    (x : Environment) (g : Managers) (c : Connection) (now : ℕ) (request : Option RequestJson)
    (w : World) (e : RequestError)
    → handle_request x g c now request ≡ done w
    → w.response ≡ error e
    → (w.connection ≡ c)
      × (w.managers.session_manager ≡ g.session_manager)
      × (w.managers.authz_manager ≡ g.authz_manager)
      × (w.managers.auth_manager.users ≡ g.auth_manager.users)
      × (w.managers.security_manager.blocked_ips ≡ g.security_manager.blocked_ips)
handle_request-error x g c now request w e h r =
    let o = handle_request-Outcome x g c now request h in
    let (same, sessions, authz, users) = refused-Unchanged x g c now e o r in
    (same, sessions, authz, users, Outcome-KeepsBlocks x g c now o)

-- The managers after any requests of any connections.
pub data Served (x : Environment) (g : Managers) : Managers → Type 0 where
  none_yet : Served x g g
  next :
      {g' : Managers} {w : World} (c : Connection) (now : ℕ) (request : Option RequestJson)
      → Served x g g'
      → handle_request x g' c now request ≡ done w
      → Served x g w.managers

Served-KeepsBlocks :
    {x : Environment} {g g' : Managers}
    → Served x g g'
    → g'.security_manager.blocked_ips ≡ g.security_manager.blocked_ips
Served-KeepsBlocks none_yet = refl
Served-KeepsBlocks {x} (next {g'} c now request s h) =
    Outcome-KeepsBlocks x g' c now (handle_request-Outcome x g' c now request h)
    ∙ Served-KeepsBlocks s

is_ip_blocked_same :
    (m m' : SecurityManager) (t : ℕ) (ip : String)
    → m'.blocked_ips ≡ m.blocked_ips
    → (is_ip_blocked m' t ip).1 ≡ (is_ip_blocked m t ip).1
unfolding is_ip_blocked
is_ip_blocked_same m m' t ip e = elim (Option-cases (lookup ip m.blocked_ips)) [
  | inl missing ↦ rw (e, missing, is_ip_blocked) refl
  | inr (until, found) ↦ elim (Bool-cases (ltb until t)) [
    | inl late ↦ rw (e, found, late, is_ip_blocked) refl
    | inr early ↦ rw (e, found, early, is_ip_blocked) refl
  ]
]

-- After any requests of any connections, however many of their logins fail, `is_ip_blocked` answers
-- as before, for every address at every time. It does not answer for the rate limit, whose blocks
-- are kept in a table of their own.
pub is_ip_blocked-Served :
    {x : Environment} {g g' : Managers} (t : ℕ) (ip : String)
    → Served x g g'
    → (is_ip_blocked g'.security_manager t ip).1 ≡ (is_ip_blocked g.security_manager t ip).1
is_ip_blocked-Served {g = g} {g' = g'} t ip s =
    is_ip_blocked_same g.security_manager g'.security_manager t ip (Served-KeepsBlocks s)
