-- ===== src/Session/ViewTests.antt =====
-- Two orders of the same table at concrete calls.
use mathlib.Core.Quot
use zero_trust_secure_sessio.Common.{
  ℕ, ◌≡◌, refl, [], ◌∷◌, List, String, arith, string_eq, ◌==◌, lookup, Bool-cases, inl, inr, Agree,
}
use zero_trust_secure_sessio.Types.{operator, Session, new_session}
use zero_trust_secure_sessio.Session.{SessionManager}
use zero_trust_secure_sessio.Session.Calls.{Call, get, terminate, active_count}
use zero_trust_secure_sessio.Session.View.{replies, replies-view}

abbrev session_of : String → Session
session_of id = new_session id "ann" operator "10.0.0.1" "ssh" 100 5

abbrev ann_first : SessionManager
ann_first = record {
  sessions = ("a", session_of "a") ∷ ("b", session_of "b") ∷ [];
  total_sessions = 2;
  drawn = 64;
}

abbrev ann_second : SessionManager
ann_second = record ann_first { sessions = ("b", session_of "b") ∷ ("a", session_of "a") ∷ [] }

orders-Agree : Agree ann_first.sessions ann_second.sessions
unfolding lookup
orders-Agree k = elim (Bool-cases ("a" == k)) [
  | inl a ↦ ground (arith, a, string_eq.equal_iff "a" k, string_eq.equal_iff "b" k)
  | inr a ↦ ground (arith, a)
]

abbrev calls : List (ℕ × Call)
calls = (6, get "b") ∷ (7, terminate "a") ∷ (8, active_count) ∷ []

replies-view_example : replies (λ n. n) calls ann_first ≡ replies (λ n. n) calls ann_second
unfolding lookup
replies-view_example =
    replies-view (λ n. n) calls (ann_first, (refl, (refl, tt))) (ann_second, (refl, (refl, tt)))
      (Quot.sound (record {
        agree = orders-Agree;
        total = refl;
        drawn_alike = refl;
        unique = (refl, (refl, tt));
        unique' = (refl, (refl, tt));
      }))
