-- ===== src/Session.antt =====
-- src/session/session_manager.cpp and include/zerossg/session/session_manager.ixx. Each method is
-- a step of its own, since it holds `m_sessions_mutex` throughout; `now` is the clock during the
-- call. `draw` lists the values of `dis(m_random_generator)`, which src/ does not declare.
pub mod Ids
pub mod Uniqueness
pub mod Lifecycle
pub mod Limit
pub mod Queries
pub mod Validity
pub mod History
pub mod Duration
pub mod Calls
pub mod Order
pub mod View
pub mod ViewTests
pub mod Tests
use zero_trust_secure_sessio.Common.{
  ℕ, ◌+◌, Bool, true, false, not, ◌&&◌, ◌||◌, List, [], ◌∷◌, String, Option, none, some, ltb, leb,
  string_eq, ◌==◌, if◌then◌else◌, keep, Map, values, lookup, insert, erase, retain, count, has_key,
  add64, seconds,
}
use zero_trust_secure_sessio.Types.{
  User, Session, new_session, is_expired, Error, max_concurrent_sessions, session_not_found,
  session_expired, Result, ok, err,
}
use Ids.{fresh_id}

abbrev pub default_session_timeout : ℕ
default_session_timeout = seconds 3600

abbrev pub max_sessions_per_user : ℕ
max_sessions_per_user = 5

-- `drawn` counts the random values used so far.
pub record SessionManager : Type 0 where
  pub sessions : Map String Session
  pub total_sessions : ℕ
  pub drawn : ℕ

pub empty_manager : SessionManager
empty_manager = record { sessions = []; total_sessions = 0; drawn = 0 }

abbrev pub is_live : ℕ → Session → Bool
is_live now s = s.active && leb now s.expires_at

abbrev pub is_live_of : String → ℕ → Session → Bool
is_live_of name now s = s.user_name == name && (s.active && leb now s.expires_at)

-- The loop returns early at the fifth match.
unfoldable pub limit_loop : String → ℕ → ℕ → List Session → Bool
limit_loop name now found [] = false
limit_loop name now found (s ∷ ss) =
    let counted = limit_loop name now (found + 1) ss in
    let skipped = limit_loop name now found ss in
    if is_live_of name now s
    then (if leb max_sessions_per_user (found + 1) then true else counted)
    else skipped

unfoldable pub is_user_at_session_limit : SessionManager → ℕ → String → Bool
unfolding limit_loop
is_user_at_session_limit m now name = limit_loop name now 0 (values m.sessions)

unfoldable pub store_session :
    SessionManager → ℕ → User → String → String → String × ℕ → SessionManager × Result String
store_session m now user ip service (id, position) = (
  record m {
    sessions =
        insert id
          (new_session id user.user_name user.role ip service (now + default_session_timeout) now)
          m.sessions;
    total_sessions = add64 m.total_sessions 1;
    drawn = position;
  },
  ok id,
)

-- `none` if the search for an unused identifier outlasts its fuel.
unfoldable pub create_session :
    (ℕ → ℕ)
    → ℕ
    → SessionManager
    → ℕ
    → User
    → String
    → String
    → Option (SessionManager × Result String)
create_session draw fuel m now user ip service =
    if is_user_at_session_limit m now user.user_name
    then some (m, err (max_concurrent_sessions user.user_name))
    else elim (fresh_id draw m.sessions fuel m.drawn) [
      | none ↦ none
      | some found ↦ some (store_session m now user ip service found)
    ]

unfoldable pub get_session : SessionManager → ℕ → String → SessionManager × Result Session
get_session m now id = elim (lookup id m.sessions) [
  | none ↦ (m, err (session_not_found id))
  | some s ↦
      if is_expired now s
      then (record m { sessions = erase id m.sessions }, err (session_expired id))
      else (m, ok s)
]

unfoldable pub update_session :
    SessionManager → String → Session → SessionManager × Result (Unit {0})
update_session m id s =
    if has_key id m.sessions
    then (record m { sessions = insert id s m.sessions }, ok tt)
    else (m, err (session_not_found id))

unfoldable pub terminate_session : SessionManager → String → SessionManager × Result (Unit {0})
terminate_session m id =
    if has_key id m.sessions
    then (record m { sessions = erase id m.sessions }, ok tt)
    else (m, err (session_not_found id))

unfoldable pub cleanup_expired_sessions_internal : SessionManager → ℕ → SessionManager
cleanup_expired_sessions_internal m now = record m {
  sessions = retain (λ s. not (ltb s.expires_at now)) m.sessions;
}

unfoldable pub cleanup_expired_sessions : SessionManager → ℕ → SessionManager
unfolding cleanup_expired_sessions_internal
cleanup_expired_sessions m now = cleanup_expired_sessions_internal m now

-- The three filters and the list of active sessions clean up, and then select.
select_sessions : (Session → Bool) → SessionManager → ℕ → SessionManager × Result (List Session)
unfolding cleanup_expired_sessions_internal
select_sessions p m now =
    let cleaned = cleanup_expired_sessions_internal m now in
    (cleaned, ok (keep p (values cleaned.sessions)))

unfoldable pub get_active_sessions : SessionManager → ℕ → SessionManager × Result (List Session)
unfolding select_sessions
get_active_sessions m now = select_sessions (λ s. s.active && not (is_expired now s)) m now

unfoldable pub get_active_session_count : SessionManager → ℕ → ℕ
get_active_session_count m now = count (is_live now) m.sessions

-- `additional` is a number of nanoseconds from 0 on; the code takes negative seconds too. A sum
-- beyond the clock's range is left out.
unfoldable pub extend_session : SessionManager → ℕ → String → ℕ → SessionManager × Result (Unit {0})
extend_session m now id additional = elim (lookup id m.sessions) [
  | none ↦ (m, err (session_not_found id))
  | some s ↦ if not s.active || is_expired now s then (m, err (session_expired id)) else (
    record m {
      sessions = insert id (record s { expires_at = s.expires_at + additional }) m.sessions;
    },
    ok tt,
  )
]

valid_result : SessionManager × Result Session → SessionManager × Result Bool
valid_result (m, ok s) = (m, ok true)
valid_result (m, err e) = (m, err e)

unfoldable pub is_session_valid : SessionManager → ℕ → String → SessionManager × Result Bool
unfolding get_session valid_result
is_session_valid m now id = valid_result (get_session m now id)

unfoldable pub get_sessions_by_user :
    SessionManager → ℕ → String → SessionManager × Result (List Session)
unfolding select_sessions
get_sessions_by_user m now name = select_sessions (λ s. s.user_name == name && s.active) m now

unfoldable pub get_sessions_by_service :
    SessionManager → ℕ → String → SessionManager × Result (List Session)
unfolding select_sessions
get_sessions_by_service m now service =
    select_sessions (λ s. s.target_service == service && s.active) m now

unfoldable pub get_sessions_by_ip :
    SessionManager → ℕ → String → SessionManager × Result (List Session)
unfolding select_sessions
get_sessions_by_ip m now ip = select_sessions (λ s. s.client_ip == ip && s.active) m now
