-- ===== src/Session/Limit.antt =====
-- `is_user_at_session_limit` and `create_session` (session_manager.cpp): what the limit test
-- computes, and when a session is granted.
use zero_trust_secure_sessio.Common.{
  ℕ, ◌+◌, ◌≤◌, ◌<◌, ◌≡◌, ◌∙◌, ap, ◌⊎◌, inl, inr, List, [], ◌∷◌, String, none, some, arith, length,
  count_if, values, count, count-eq-count_if, leb, lookup, string_eq, if◌then◌else◌, Bool-cases,
  Option-cases,
}
use zero_trust_secure_sessio.Types.{User, Session, max_concurrent_sessions, Result, err}
use zero_trust_secure_sessio.Session.{
  SessionManager, is_live_of, max_sessions_per_user, limit_loop, is_user_at_session_limit,
  store_session, create_session,
}
use zero_trust_secure_sessio.Session.Ids.{fresh_id}
use zero_trust_secure_sessio.Session.Uniqueness.{fresh_id_sound, fresh_id_total, attempts, Distinct}

-- The live sessions of a user.
abbrev pub live_sessions_of : String → ℕ → SessionManager → ℕ
live_sessions_of name now m = count (is_live_of name now) m.sessions

-- The early return makes no difference.
limit_loop_lem :
    (name : String) (now found : ℕ) (ss : List Session)
    → found < max_sessions_per_user
    → limit_loop name now found ss
      ≡ leb max_sessions_per_user (found + count_if (is_live_of name now) ss)
unfolding limit_loop
limit_loop_lem name now found [] h = ground arith
limit_loop_lem name now found (s ∷ ss) h = elim (Bool-cases (is_live_of name now s)) [
  | inl hit ↦ rw hit (ground (arith, limit_loop_lem name now (found + 1) ss))
  | inr miss ↦ rw miss (ground (arith, limit_loop_lem name now found ss))
]

-- The test answers whether the user has five live sessions or more.
pub is_user_at_session_limit_lem :
    (m : SessionManager) (now : ℕ) (name : String)
    → is_user_at_session_limit m now name ≡ leb max_sessions_per_user (live_sessions_of name now m)
unfolding is_user_at_session_limit
is_user_at_session_limit_lem m now name =
    limit_loop_lem name now 0 (values m.sessions) (omega arith)
    ∙ ap (leb max_sessions_per_user)
        (omega (arith, count-eq-count_if (is_live_of name now) m.sessions))

module _ (draw : ℕ → ℕ) (fuel : ℕ) (m : SessionManager) (now : ℕ) (user : User)
    (ip service : String) where
  -- A call either refuses and changes nothing, or stores a session under an unused identifier.
  pub create_session_cases :
      {m' : SessionManager} {r : Result String}
      → create_session draw fuel m now user ip service ≡ some (m', r)
      → ((max_sessions_per_user ≤ live_sessions_of user.user_name now m)
          × (m' ≡ m)
          × (r ≡ err (max_concurrent_sessions user.user_name)))
        ⊎ ((live_sessions_of user.user_name now m < max_sessions_per_user)
            × (id : String) × (q : ℕ) × (lookup id m.sessions ≡ none)
            × ((m', r) ≡ store_session m now user ip service (id, q)))
  unfolding create_session
  create_session_cases {m'} {r} h =
      elim (Bool-cases (is_user_at_session_limit m now user.user_name)) [
        | inl full ↦ inl (
          ground (arith, is_user_at_session_limit_lem m now user.user_name),
          ground arith,
          ground arith,
        )
        | inr free ↦ elim (Option-cases (fresh_id draw m.sessions fuel m.drawn)) [
          | inl e ↦ absurd (ground arith)
          | inr ((id, q), e) ↦ inr (
            ground (arith, is_user_at_session_limit_lem m now user.user_name),
            id,
            q,
            fresh_id_sound draw m.sessions fuel m.drawn e,
            ground arith,
          )
        ]
      ]

  -- With fuel for one attempt more than there are sessions, and attempts that all differ, the call
  -- returns: it refuses a user with five live sessions or more and changes nothing, and stores a
  -- session for any other, under an identifier that was free.
  pub create_session_total :
      Distinct (attempts draw m.drawn fuel)
      → length m.sessions < fuel
      → (id : String) × (q : ℕ) × (lookup id m.sessions ≡ none)
        × (create_session draw fuel m now user ip service
            ≡ some (
                if leb max_sessions_per_user (live_sessions_of user.user_name now m)
                then (m, err (max_concurrent_sessions user.user_name))
                else store_session m now user ip service (id, q)))
  unfolding create_session
  create_session_total d lt =
      let (id, q, e) = fresh_id_total draw m.sessions fuel m.drawn d lt in
      (
        id,
        q,
        fresh_id_sound draw m.sessions fuel m.drawn e,
        ground (arith, is_user_at_session_limit_lem m now user.user_name),
      )
