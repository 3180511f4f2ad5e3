-- ===== src/Session/History.antt =====
-- Every history of calls on a session manager (session_manager.cpp).
use zero_trust_secure_sessio.Common.{
  ℕ, ◌≤◌, ◌≡◌, refl, sym, subst, inl, inr, true, String, Option, none, some, arith, string_eq,
  lookup, Option-cases,
}
use zero_trust_secure_sessio.Types.{User, Session, Result}
use zero_trust_secure_sessio.Session.{
  SessionManager, empty_manager, max_sessions_per_user, create_session, get_session, update_session,
  terminate_session, cleanup_expired_sessions, extend_session,
}
use zero_trust_secure_sessio.Session.Limit.{live_sessions_of}
use zero_trust_secure_sessio.Session.Validity.{
  IsValid, live_sessions_of_later, cleanup-IsValid, create-IsValid, get-IsValid, terminate-IsValid,
  update-IsValid, extend-IsValid,
}

-- A call at the time `now`. The queries change the manager as a cleanup does, and
-- `is_session_valid` as `get_session` does. An update stores any session under a known key.
pub data Step (draw : ℕ → ℕ) (now : ℕ) (m m' : SessionManager) : Type 0 where
  create :
      (fuel : ℕ) (user : User) (ip service : String) (r : Result String)
      → create_session draw fuel m now user ip service ≡ some (m', r)
      → Step draw now m m'
  get : (id : String) → m' ≡ (get_session m now id).0 → Step draw now m m'
  update : (id : String) (s : Session) → m' ≡ (update_session m id s).0 → Step draw now m m'
  terminate : (id : String) → m' ≡ (terminate_session m id).0 → Step draw now m m'
  cleanup : m' ≡ cleanup_expired_sessions m now → Step draw now m m'
  extend : (id : String) (time : ℕ) → m' ≡ (extend_session m now id time).0 → Step draw now m m'

-- What a manager can become, with the time of the last call.
pub data Reach (draw : ℕ → ℕ) : ℕ → SessionManager → Type 0 where
  start : (t : ℕ) → Reach draw t empty_manager
  next :
      {t now : ℕ} {m m' : SessionManager}
      → Reach draw t m
      → t ≤ now
      → Step draw now m m'
      → Reach draw now m'

-- An update of a session that keeps its identifier and its user, and lets it live no longer; that of
-- a missing one changes nothing.
abbrev pub IsModest : Option Session → String → Session → Type 0
IsModest none id s = Unit
IsModest (some old) id s =
    (s.session_id ≡ id)
    × (s.user_name ≡ old.user_name)
    × (s.expires_at ≤ old.expires_at)
    × (s.active ≡ true → old.active ≡ true)

-- A call is modest if it is not an update, is an update of an unknown key, or is a modest update.
abbrev pub StepIsModest :
    {draw : ℕ → ℕ} {now : ℕ} {m m' : SessionManager} → Step draw now m m' → Type 0
StepIsModest {m = m} (update id s e) = IsModest (lookup id m.sessions) id s
StepIsModest _ = Unit

abbrev pub UpdatesAreModest :
    {draw : ℕ → ℕ} {now : ℕ} {m : SessionManager} → Reach draw now m → Type 0
UpdatesAreModest (start t) = Unit
UpdatesAreModest (next r le st) = UpdatesAreModest r × StepIsModest st

update_missing :
    (m : SessionManager) (id : String) (s : Session)
    → lookup id m.sessions ≡ none
    → (update_session m id s).0 ≡ m
unfolding update_session
update_missing m id s e = rw (e, update_session) refl

Step-IsValid :
    {draw : ℕ → ℕ} {now : ℕ} {m m' : SessionManager} (st : Step draw now m m')
    → StepIsModest st
    → IsValid now m
    → IsValid now m'
Step-IsValid {draw} {now} {m} {m'} (create fuel user ip service r h) k v =
    create-IsValid draw fuel now m m' user ip service r h v
Step-IsValid {now = now} {m = m} (get id e) k v =
    subst (IsValid now) (sym e) (get-IsValid now id m v)
Step-IsValid {now = now} {m = m} (update id s e) k v =
    subst (IsValid now) (sym e) (elim (Option-cases (lookup id m.sessions)) [
      | inl missing ↦ rw (update_missing m id s missing) v
      | inr (old, found) ↦
          let (key, same, le, act) = subst (λ o. IsModest o id s) found k in
          update-IsValid now id old s m found key (λ name h. ground arith) v
    ])
Step-IsValid {now = now} {m = m} (terminate id e) k v =
    subst (IsValid now) (sym e) (terminate-IsValid now id m v)
Step-IsValid {now = now} {m = m} (cleanup e) k v =
    subst (IsValid now) (sym e) (cleanup-IsValid now m v)
Step-IsValid {now = now} {m = m} (extend id time e) k v =
    subst (IsValid now) (sym e) (extend-IsValid now id time m v)

-- After any history of calls at times that do not go back, in which every `update_session` of a
-- stored session keeps its identifier and its user, does not move its end later and does not make it
-- active again: at the time of the last call no key is stored twice, every session carries its key,
-- and no user has more than five live sessions.
pub Reach-IsValid :
    {draw : ℕ → ℕ} {now : ℕ} {m : SessionManager} (r : Reach draw now m)
    → UpdatesAreModest r
    → IsValid now m
unfolding empty_manager lookup
Reach-IsValid (start t) k = record {
  unique = tt;
  keyed = λ id s h. absurd (ground arith);
  limited = λ name. omega arith;
}
Reach-IsValid {now = now} {m = m'} (next {t = t} {m = m} r le st) (modest, k) =
    let v = Reach-IsValid r modest in
    Step-IsValid st k (record {
      unique = v.unique;
      keyed = v.keyed;
      limited = λ name. omega (arith, live_sessions_of_later name t now m le, v.limited name);
    })

-- After any history of calls at times that do not go back, in which every `update_session` of a
-- stored session keeps its identifier and its user, does not move its end later and does not make it
-- active again: no user has more than five live sessions at the time of the last call or at any
-- later one.
pub Reach-limited :
    {draw : ℕ → ℕ} {now : ℕ} {m : SessionManager} (name : String) (t : ℕ) (r : Reach draw now m)
    → UpdatesAreModest r
    → now ≤ t
    → live_sessions_of name t m ≤ max_sessions_per_user
Reach-limited {now = now} {m = m} name t r k le =
    omega (arith, live_sessions_of_later name now t m le, (Reach-IsValid r k).limited name)
