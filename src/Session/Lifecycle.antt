-- ===== src/Session/Lifecycle.antt =====
-- One session from `create_session` to its end (session_manager.cpp).
use mathlib.Core.Option
use zero_trust_secure_sessio.Common.{
  sym, ap, Bool-cases, leb, ◌==◌, ◌&&◌, has_key, if◌then◌else◌, ℕ, ◌+◌, ◌≤◌, ◌<◌, ◌≡◌, ◌≢◌, ◌↔◌,
  inl, inr, true, String, none, some, arith, lookup, erase, insert, string_eq, lookup-insert,
  lookup-erase, lookup-insert_self, lookup-insert_ne, Option-cases,
}
use zero_trust_secure_sessio.Types.{
  User, Session, new_session, session_not_found, session_expired, ok, err,
}
use zero_trust_secure_sessio.Session.{
  SessionManager, is_user_at_session_limit, default_session_timeout, store_session, create_session,
  get_session, terminate_session, extend_session, is_session_valid,
}
use zero_trust_secure_sessio.Session.Limit.{create_session_cases}
use zero_trust_secure_sessio.Session.Ids.{fresh_id}
use zero_trust_secure_sessio.Session.Ids.Lengths.{fresh_id_valid}
use zero_trust_secure_sessio.Types.Utils.{is_valid_session_id}

-- What `get_session` does, by what is stored.
pub get_session_missing :
    (m : SessionManager) (now : ℕ) (id : String)
    → lookup id m.sessions ≡ none
    → get_session m now id ≡ (m, err (session_not_found id))
unfolding get_session
get_session_missing m now id h = rw (h, get_session)

pub get_session_live :
    (m : SessionManager) (now : ℕ) (id : String) (s : Session)
    → lookup id m.sessions ≡ some s
    → now ≤ s.expires_at
    → get_session m now id ≡ (m, ok s)
unfolding get_session
get_session_live m now id s h le = ground arith

pub get_session_expired :
    (m : SessionManager) (now : ℕ) (id : String) (s : Session)
    → lookup id m.sessions ≡ some s
    → s.expires_at < now
    → get_session m now id ≡ (record m { sessions = erase id m.sessions }, err (session_expired id))
unfolding get_session
get_session_expired m now id s h lt = ground arith

module _ (draw : ℕ → ℕ) (fuel : ℕ) (m m' : SessionManager) (now : ℕ) (user : User)
    (ip service : String) (id : String) where
  -- A granted session is stored for an hour, under an identifier that was free; no other changes.
  create_session_stores :
      create_session draw fuel m now user ip service ≡ some (m', ok id)
      → (lookup id m.sessions ≡ none)
        × (lookup id m'.sessions
            ≡ some (
                new_session id user.user_name user.role ip service
                  (now + default_session_timeout)
                  now))
        × ((j : String) → j ≢ id → lookup j m'.sessions ≡ lookup j m.sessions)
  unfolding store_session
  create_session_stores h = elim (create_session_cases draw fuel m now user ip service h) [
    | inl (full, same, e) ↦ absurd (ground arith)
    | inr (free, i, q, fresh, e) ↦
        let name : i ≡ id = ground arith in
        let stored : m'.sessions
            ≡ insert id
                (new_session id user.user_name user.role ip service (now + default_session_timeout)
                  now)
                m.sessions =
          ground arith in
        (
          ground arith,
          rw (stored, lookup-insert_self),
          λ j other. rw stored (lookup-insert_ne id j _ m.sessions other),
        )
  ]

  -- Until one hour after it was granted, the session is returned by `get_session` with the user's
  -- name and role, the client's address and the service; later it is reported expired and erased.
  -- Its identifier was free before, and what is stored under any other stays.
  pub get_session-create_session :
      (t : ℕ) (j : String)
      → create_session draw fuel m now user ip service ≡ some (m', ok id)
      → (lookup id m.sessions ≡ none)
        × (get_session m' t id ≡ (
            if leb t (now + default_session_timeout)
            then (
              m',
              ok (
                  new_session id user.user_name user.role ip service
                    (now + default_session_timeout)
                    now),
            )
            else (record m' { sessions = erase id m'.sessions }, err (session_expired id))))
        × (lookup j m'.sessions ≡ (
            if id == j
            then some (
                new_session id user.user_name user.role ip service
                  (now + default_session_timeout)
                  now)
            else lookup j m.sessions))
  get_session-create_session t j h =
      let (fresh, stored, others) = create_session_stores h in
      (
        fresh,
        ground (
          arith,
          get_session_live m' t id (
              new_session id user.user_name user.role ip service (now + default_session_timeout)
                now),
          get_session_expired m' t id (
              new_session id user.user_name user.role ip service (now + default_session_timeout)
                now),
        ),
        ground (
          arith,
          others j,
          string_eq.equal_iff id j,
          ap (λ (k : String). lookup k m'.sessions) {x = id} {y = j},
        ),
      )

-- After `terminate_session` the identifier is unknown to `get_session` at any time, and any other
-- is answered as before; the call fails exactly for an identifier that is not stored.
pub get_session-terminate_session :
    (m : SessionManager) (now : ℕ) (id j : String)
    → ((get_session (terminate_session m id).0 now j).1
        ≡ (if id == j then err (session_not_found j) else (get_session m now j).1))
      × ((terminate_session m id).1
          ≡ (if has_key id m.sessions then ok tt else err (session_not_found id)))
unfolding terminate_session get_session
get_session-terminate_session m now id j = (
  ground (
    arith,
    lookup-erase id j m.sessions,
    string_eq.equal_iff id j,
    ap (λ (k : String). lookup k m.sessions) {x = id} {y = j},
  ),
  ground arith,
)

-- A session is reported valid exactly if it is stored and its expiry has not passed. The active
-- flag is not consulted.
pub is_session_valid_iff :
    (m : SessionManager) (now : ℕ) (id : String)
    → ((is_session_valid m now id).1 ≡ ok true)
      ↔ ((s : Session) × (lookup id m.sessions ≡ some s) × (now ≤ s.expires_at))
unfolding is_session_valid
is_session_valid_iff m now id = ground arith

-- What an extension makes of a stored session.
abbrev pub extended : ℕ → ℕ → Session → Session
extended now additional s =
    if s.active && leb now s.expires_at
    then record s { expires_at = s.expires_at + additional }
    else s

-- `extend_session` succeeds exactly for a stored session that is active and not expired. That
-- session then lives that much longer, with its other fields as before, and nothing else changes.
pub extend_session_iff :
    (m : SessionManager) (now : ℕ) (id j : String) (additional : ℕ)
    → (((extend_session m now id additional).1 ≡ ok tt) ↔ (
        (s : Session) × (lookup id m.sessions ≡ some s) × (s.active ≡ true) × (now ≤ s.expires_at)))
      × (lookup j (extend_session m now id additional).0.sessions ≡ (
          if id == j
          then Option.map (extended now additional) (lookup j m.sessions)
          else lookup j m.sessions))
unfolding extend_session
extend_session_iff m now id j additional = (
  ground arith,
  elim (Option-cases (lookup id m.sessions)) [
    | inl e ↦
        ground (
          arith,
          string_eq.equal_iff id j,
          ap (λ (k : String). lookup k m.sessions) {x = id} {y = j},
        )
    | inr (s, e) ↦ ground (
      arith,
      lookup-insert id j (record s { expires_at = s.expires_at + additional }) m.sessions,
      string_eq.equal_iff id j,
      ap (λ (k : String). lookup k m.sessions) {x = id} {y = j},
    )
  ],
)

-- The identifier of a session that is granted passes the test of identifiers, whatever the values
-- that are drawn: it has at least 16 characters.
pub is_valid_session_id-create_session :
    (draw : ℕ → ℕ) (fuel : ℕ) (m m' : SessionManager) (now : ℕ) (user : User)
    (ip service id : String)
    → create_session draw fuel m now user ip service ≡ some (m', ok id)
    → is_valid_session_id id ≡ true
unfolding create_session store_session
is_valid_session_id-create_session draw fuel m m' now user ip service id h =
    elim (Bool-cases (is_user_at_session_limit m now user.user_name)) [
      | inl full ↦ absurd (ground (arith, h))
      | inr free ↦ elim (Option-cases (fresh_id draw m.sessions fuel m.drawn)) [
        | inl e ↦ absurd (ground (arith, h))
        | inr ((i, q), e) ↦
            let same : i ≡ id = ground (arith, h) in
            rw (sym same) (fresh_id_valid draw m.sessions fuel m.drawn e)
      ]
    ]

pub create_session_nonempty :
    (draw : ℕ → ℕ) (fuel : ℕ) (m m' : SessionManager) (now : ℕ) (user : User)
    (ip service id : String)
    → create_session draw fuel m now user ip service ≡ some (m', ok id)
    → id ≢ ""
unfolding is_valid_session_id
create_session_nonempty draw fuel m m' now user ip service id h =
    let valid : is_valid_session_id id ≡ true =
      is_valid_session_id-create_session draw fuel m m' now user ip service id h in
    λ e. ground (arith, valid, string_eq.equal_iff id "")
