-- ===== src/Session/Queries.antt =====
-- `cleanup_expired_sessions`, the counters and the filters (session_manager.cpp).
use zero_trust_secure_sessio.Common.{
  ℕ, ◌≤◌, ◌≡◌, refl, ◌∙◌, ap, sym, ◌↔◌, Bool, not, ◌&&◌, [], ◌∷◌, String, arith, ltb, string_eq,
  ◌==◌, length, keep, length-keep, Map, values, retain, count-eq-count_if, lookup, lookup-retain,
  IsUnique, Option-cases, inl, inr,
}
use zero_trust_secure_sessio.Types.{Session, ok}
use zero_trust_secure_sessio.Session.{
  SessionManager, is_live, get_session, cleanup_expired_sessions, get_active_sessions,
  get_active_session_count, get_sessions_by_user, get_sessions_by_service, get_sessions_by_ip,
}

-- Filtering after a cleanup is one filter.
keep-retain {ℓ κ} :
    {K : Type ℓ} {V : Type κ} (p q r : V → Bool) (m : Map K V)
    → ((v : V) → (q v && p v) ≡ r v)
    → keep p (values (retain q m)) ≡ keep r (values m)
keep-retain p q r [] h = refl
keep-retain p q r ((k, v) ∷ m) h = ground (arith, h v, keep-retain p q r m h)

-- Each query returns the stored sessions that match, are active and have not expired, in the
-- order of the map, and no other; the active ones are as many as `get_active_session_count` says.
pub get_sessions_lem :
    (m : SessionManager) (now : ℕ) (key : String)
    → ((get_active_sessions m now).1 ≡ ok (keep (is_live now) (values m.sessions)))
      × ((get_sessions_by_user m now key).1
          ≡ ok (keep (λ s. s.user_name == key && is_live now s) (values m.sessions)))
      × ((get_sessions_by_service m now key).1
          ≡ ok (keep (λ s. s.target_service == key && is_live now s) (values m.sessions)))
      × ((get_sessions_by_ip m now key).1
          ≡ ok (keep (λ s. s.client_ip == key && is_live now s) (values m.sessions)))
      × (length (keep (is_live now) (values m.sessions)) ≡ get_active_session_count m now)
unfolding get_active_sessions get_sessions_by_user get_sessions_by_service get_sessions_by_ip
    get_active_session_count
get_sessions_lem m now key = (
  ap ok (keep-retain _ _ _ m.sessions (λ s. ground arith)),
  ap ok (keep-retain _ _ _ m.sessions (λ s. ground arith)),
  ap ok (keep-retain _ _ _ m.sessions (λ s. ground arith)),
  ap ok (keep-retain _ _ _ m.sessions (λ s. ground arith)),
  length-keep _ (values m.sessions) ∙ sym (count-eq-count_if _ m.sessions),
)

-- A cleanup is not seen by calls of `get_session` at its own time or later: they return the same
-- sessions.
pub get_session-cleanup_expired_sessions :
    (m : SessionManager) (now t : ℕ) (id : String) (s : Session)
    → IsUnique m.sessions
    → now ≤ t
    → ((get_session (cleanup_expired_sessions m now) t id).1 ≡ ok s)
      ↔ ((get_session m t id).1 ≡ ok s)
unfolding get_session cleanup_expired_sessions
get_session-cleanup_expired_sessions m now t id s u le =
    elim (Option-cases (lookup id m.sessions)) [
      | inl e ↦ ground (arith, lookup-retain (λ s. not (ltb s.expires_at now)) id m.sessions u)
      | inr (s', e) ↦
          ground (arith, lookup-retain (λ s. not (ltb s.expires_at now)) id m.sessions u)
    ]
