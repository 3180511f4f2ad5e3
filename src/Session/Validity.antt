-- ===== src/Session/Validity.antt =====
-- What each operation of session_manager.cpp keeps of the table of sessions.
use zero_trust_secure_sessio.Common.{
  ℕ, ◌+◌, ◌≤◌, ◌<◌, ◌≡◌, refl, ap, sym, subst, inl, inr, Bool, true, not, ◌||◌, String, some, arith,
  ltb, string_eq, ◌==◌, if◌then◌else◌, Map, retain, insert, erase, lookup, IsUnique, lookup-insert,
  lookup-erase, lookup-retain, insert-IsUnique, erase-IsUnique, retain-IsUnique, count-insert_fresh,
  count-insert_le, count-erase_le, count-retain_le, count_mono, Bool-cases, Option-cases,
}
use zero_trust_secure_sessio.Types.{User, Session, new_session, is_expired, Result}
use zero_trust_secure_sessio.Session.{
  SessionManager, is_live_of, max_sessions_per_user, default_session_timeout, create_session,
  store_session, get_session, update_session, terminate_session, cleanup_expired_sessions,
  extend_session,
}
use zero_trust_secure_sessio.Session.Limit.{live_sessions_of, create_session_cases}

-- Every stored session carries the identifier that it is stored under.
abbrev pub IsKeyed : Map String Session → Type 0
IsKeyed m = (id : String) (s : Session) → lookup id m ≡ some s → s.session_id ≡ id

insert-IsKeyed :
    (id : String) (s : Session) (m : Map String Session)
    → s.session_id ≡ id
    → IsKeyed m
    → IsKeyed (insert id s m)
insert-IsKeyed id s m e k j v h =
    ground (arith, lookup-insert id j s m, string_eq.equal_iff id j, k j v)

erase-IsKeyed : (id : String) (m : Map String Session) → IsKeyed m → IsKeyed (erase id m)
erase-IsKeyed id m k j v h = ground (arith, lookup-erase id j m, k j v)

retain-IsKeyed :
    (p : Session → Bool) (m : Map String Session) → IsUnique m → IsKeyed m → IsKeyed (retain p m)
retain-IsKeyed p m u k j v h =
    ground (arith, lookup-retain p j m u, k j v, Option-cases (lookup j m))

pub record IsValid (now : ℕ) (m : SessionManager) : Type 0 where
  pub unique : IsUnique m.sessions
  pub keyed : IsKeyed m.sessions
  pub limited : (name : String) → live_sessions_of name now m ≤ max_sessions_per_user

-- Time alone ends sessions and starts none.
pub live_sessions_of_later :
    (name : String) (t now : ℕ) (m : SessionManager)
    → t ≤ now
    → live_sessions_of name now m ≤ live_sessions_of name t m
live_sessions_of_later name t now m le =
    count_mono (is_live_of name now) (is_live_of name t) m.sessions (λ s h. ground arith)

erase-IsValid :
    (now : ℕ) (id : String) (m : SessionManager)
    → IsValid now m
    → IsValid now (record m { sessions = erase id m.sessions })
erase-IsValid now id m v = record {
  unique = erase-IsUnique id m.sessions v.unique;
  keyed = erase-IsKeyed id m.sessions v.keyed;
  limited =
      λ name. omega (arith, count-erase_le (is_live_of name now) id m.sessions, v.limited name);
}

-- Replacing a session by one of the same user that lives no longer at this moment.
replace-IsValid :
    (now : ℕ) (id : String) (old s : Session) (m : SessionManager)
    → lookup id m.sessions ≡ some old
    → s.session_id ≡ id
    → ((name : String) → is_live_of name now s ≡ true → is_live_of name now old ≡ true)
    → IsValid now m
    → IsValid now (record m { sessions = insert id s m.sessions })
replace-IsValid now id old s m found e live v = record {
  unique = insert-IsUnique id s m.sessions v.unique;
  keyed = insert-IsKeyed id s m.sessions e v.keyed;
  limited = λ name. omega (
    arith,
    count-insert_le (is_live_of name now) id old s m.sessions found (live name),
    v.limited name,
  );
}

pub cleanup-IsValid :
    (now : ℕ) (m : SessionManager) → IsValid now m → IsValid now (cleanup_expired_sessions m now)
unfolding cleanup_expired_sessions
cleanup-IsValid now m v = record {
  unique = retain-IsUnique _ m.sessions v.unique;
  keyed = retain-IsKeyed _ m.sessions v.unique v.keyed;
  limited = λ name. omega (
    arith,
    count-retain_le (is_live_of name now) (λ s. not (ltb s.expires_at now)) m.sessions,
    v.limited name,
  );
}

pub create-IsValid :
    (draw : ℕ → ℕ) (fuel now : ℕ) (m m' : SessionManager) (user : User) (ip service : String)
    (r : Result String)
    → create_session draw fuel m now user ip service ≡ some (m', r)
    → IsValid now m
    → IsValid now m'
unfolding store_session
create-IsValid draw fuel now m m' user ip service r h v =
    elim (create_session_cases draw fuel m now user ip service h) [
      | inl (full, same, e) ↦ subst (IsValid now) (sym same) v
      | inr (free, id, q, fresh, e) ↦
          let s : Session =
            new_session id user.user_name user.role ip service (now + default_session_timeout)
              now in
          let stored : m'.sessions ≡ insert id s m.sessions = ground arith in
          record {
            unique = rw stored (insert-IsUnique id s m.sessions v.unique);
            keyed = rw stored (insert-IsKeyed id s m.sessions refl v.keyed);
            limited = λ name.
                rw (stored, count-insert_fresh (is_live_of name now) id s m.sessions fresh)
                  (one_more name free);
          }
    ]
  where
    one_more :
        (name : String)
        → live_sessions_of user.user_name now m < max_sessions_per_user
        → live_sessions_of name now m
            + (if is_live_of name now (
                  new_session "" user.user_name user.role ip service
                    (now + default_session_timeout)
                    now)
                then 1
                else 0)
          ≤ max_sessions_per_user
    one_more name free = elim (Bool-cases (user.user_name == name)) [
      | inl same ↦
          let e : user.user_name ≡ name = (string_eq.equal_iff _ _).0 same in
          ground (arith, ap (λ (k : String). live_sessions_of k now m) e)
      | inr other ↦ ground (arith, v.limited name)
    ]

pub get-IsValid :
    (now : ℕ) (id : String) (m : SessionManager)
    → IsValid now m
    → IsValid now (get_session m now id).0
unfolding get_session
get-IsValid now id m v = elim (Option-cases (lookup id m.sessions)) [
  | inl e ↦ rw (e, get_session) v
  | inr (s, e) ↦ elim (Bool-cases (is_expired now s)) [
    | inl old ↦ rw (e, get_session) (rw old (erase-IsValid now id m v))
    | inr live ↦ rw (e, get_session) (rw live v)
  ]
]

pub terminate-IsValid :
    (now : ℕ) (id : String) (m : SessionManager)
    → IsValid now m
    → IsValid now (terminate_session m id).0
unfolding terminate_session
terminate-IsValid now id m v = elim (Option-cases (lookup id m.sessions)) [
  | inl e ↦ rw (e, terminate_session) v
  | inr (s, e) ↦ rw (e, terminate_session) (erase-IsValid now id m v)
]

pub update-IsValid :
    (now : ℕ) (id : String) (old s : Session) (m : SessionManager)
    → lookup id m.sessions ≡ some old
    → s.session_id ≡ id
    → ((name : String) → is_live_of name now s ≡ true → is_live_of name now old ≡ true)
    → IsValid now m
    → IsValid now (update_session m id s).0
unfolding update_session
update-IsValid now id old s m found e live v =
    rw (found, update_session) (replace-IsValid now id old s m found e live v)

pub extend-IsValid :
    (now : ℕ) (id : String) (time : ℕ) (m : SessionManager)
    → IsValid now m
    → IsValid now (extend_session m now id time).0
unfolding extend_session
extend-IsValid now id time m v = elim (Option-cases (lookup id m.sessions)) [
  | inl e ↦ rw (e, extend_session) v
  | inr (s, e) ↦ elim (Bool-cases (not s.active || is_expired now s)) [
    | inl over ↦ rw (e, extend_session) (rw over v)
    | inr live ↦
        rw (e, extend_session)
          (rw live (
            replace-IsValid now id s (record s { expires_at = s.expires_at + time }) m e
              (v.keyed id s e) (λ name h. ground arith) v))
  ]
]
