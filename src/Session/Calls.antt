-- ===== src/Session/Calls.antt =====
-- The calls of the session manager (session_manager.cpp) with their replies, and managers that
-- differ in the order of their table only.
use zero_trust_secure_sessio.Common.{
  ℕ, ◌≡◌, Bool, true, false, String, Option, none, some, string_eq, IsUnique, Agree,
}
use zero_trust_secure_sessio.Types.{User, Session, Result}
use zero_trust_secure_sessio.Session.{
  SessionManager, create_session, get_session, update_session, terminate_session,
  cleanup_expired_sessions, extend_session, get_active_session_count,
}

-- The same entries, in whatever order.
pub record Same (m n : SessionManager) : Type 0 where
  pub agree : Agree m.sessions n.sessions
  pub total : m.total_sessions ≡ n.total_sessions
  pub drawn_alike : m.drawn ≡ n.drawn
  pub unique : IsUnique m.sessions
  pub unique' : IsUnique n.sessions

-- A call with what it takes, and its reply.
pub data Call : Type 0 where
  create : ℕ → User → String → String → Call
  get terminate : String → Call
  update : String → Session → Call
  extend : String → ℕ → Call
  cleanup active_count : Call

pub data Reply : Type 0 where
  id_reply : Result String → Reply
  session_reply : Result Session → Reply
  unit_reply : Result (Unit {0}) → Reply
  number_reply : ℕ → Reply
  no_reply : Reply

abbrev pub with_reply {ℓ} : {A : Type ℓ} → (A → Reply) → SessionManager × A → SessionManager × Reply
with_reply f (m, a) = (m, f a)

unfoldable pub perform : (ℕ → ℕ) → ℕ → Call → SessionManager → Option (SessionManager × Reply)
perform draw now (create fuel user ip service) m =
    elim (create_session draw fuel m now user ip service) [
      | none ↦ none
      | some answer ↦ some (with_reply id_reply answer)
    ]
perform draw now (get id) m = some (with_reply session_reply (get_session m now id))
perform draw now (terminate id) m = some (with_reply unit_reply (terminate_session m id))
perform draw now (update id s) m = some (with_reply unit_reply (update_session m id s))
perform draw now (extend id time) m = some (with_reply unit_reply (extend_session m now id time))
perform draw now cleanup m = some (cleanup_expired_sessions m now, no_reply)
perform draw now active_count m = some (m, number_reply (get_active_session_count m now))

abbrev pub Matches : Option (SessionManager × Reply) → Option (SessionManager × Reply) → Type 0
Matches none none = Unit
Matches (some (m, r)) (some (n, s)) = Same m n × (r ≡ s)
Matches _ _ = ◌≡◌ {A = Bool} false true
