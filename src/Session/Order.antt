-- ===== src/Session/Order.antt =====
-- The order of the entries of `m_sessions`, which an `unordered_map` leaves open: no reply of the
-- session manager (session_manager.cpp) depends on it, but for the lists of sessions.
use zero_trust_secure_sessio.Common.{
  ℕ, zero, suc, ◌≡◌, refl, sym, ap, ◌∙◌, ◌||◌, ◌+◌, inl, inr, false, not, String, Option, none,
  some, ltb, leb, string_eq, lookup, insert, Agree, insert-Agree, erase-Agree, retain-Agree,
  count-Agree, insert-IsUnique, erase-IsUnique, retain-IsUnique, Bool-cases, Option-cases, erase,
  add64,
}
use zero_trust_secure_sessio.Types.{User, Session, new_session, is_expired}
use zero_trust_secure_sessio.Session.{
  SessionManager, is_live, create_session, store_session, is_user_at_session_limit, get_session,
  update_session, terminate_session, cleanup_expired_sessions, cleanup_expired_sessions_internal,
  extend_session, get_active_session_count, default_session_timeout, max_sessions_per_user,
  is_live_of,
}
use zero_trust_secure_sessio.Session.Ids.{fresh_id, generate_session_id, session_id_size}
use zero_trust_secure_sessio.Session.Limit.{is_user_at_session_limit_lem}
use zero_trust_secure_sessio.Session.Calls.{
  Same, Call, create, get, terminate, update, extend, cleanup, active_count, session_reply,
  unit_reply, number_reply, perform, Matches,
}

fresh_id-Agree :
    (draw : ℕ → ℕ) (fuel position : ℕ) (m n : SessionManager)
    → Agree m.sessions n.sessions
    → fresh_id draw m.sessions fuel position ≡ fresh_id draw n.sessions fuel position
unfolding fresh_id
fresh_id-Agree draw zero position m n h = refl
fresh_id-Agree draw (suc fuel) position m n h = rw (
  h (generate_session_id draw position),
  fresh_id-Agree draw fuel (position + session_id_size) m n h,
)

module _ (m n : SessionManager) (same : Same m n) where
  limit-Same :
      (now : ℕ) (name : String)
      → is_user_at_session_limit m now name ≡ is_user_at_session_limit n now name
  limit-Same now name =
      is_user_at_session_limit_lem m now name
      ∙ ap (leb max_sessions_per_user) (
          count-Agree (is_live_of name now) m.sessions n.sessions same.unique same.unique'
            same.agree)
      ∙ sym (is_user_at_session_limit_lem n now name)

  inserted-Same :
      (id : String) (s : Session)
      → Same
          (record m { sessions = insert id s m.sessions })
          (record n { sessions = insert id s n.sessions })
  inserted-Same id s = record {
    agree = insert-Agree id s m.sessions n.sessions same.agree;
    total = same.total;
    drawn_alike = same.drawn_alike;
    unique = insert-IsUnique id s m.sessions same.unique;
    unique' = insert-IsUnique id s n.sessions same.unique';
  }

  erased-Same :
      (id : String)
      → Same
          (record m { sessions = erase id m.sessions })
          (record n { sessions = erase id n.sessions })
  erased-Same id = record {
    agree = erase-Agree id m.sessions n.sessions same.agree;
    total = same.total;
    drawn_alike = same.drawn_alike;
    unique = erase-IsUnique id m.sessions same.unique;
    unique' = erase-IsUnique id n.sessions same.unique';
  }

  -- The look-up of an identifier in both.
  alike : (id : String) (o : Option Session) → lookup id m.sessions ≡ o → lookup id n.sessions ≡ o
  alike id o e = sym (same.agree id) ∙ e

  get-Same :
      (now : ℕ) (id : String)
      → Same (get_session m now id).0 (get_session n now id).0
        × ((get_session m now id).1 ≡ (get_session n now id).1)
  unfolding get_session
  get-Same now id = elim (Option-cases (lookup id m.sessions)) [
    | inl e ↦ rw (e, alike id none e, get_session) (same, refl)
    | inr (s, e) ↦ elim (Bool-cases (is_expired now s)) [
      | inl x ↦ rw (e, alike id (some s) e, x, get_session) (erased-Same id, refl)
      | inr x ↦ rw (e, alike id (some s) e, x, get_session) (same, refl)
    ]
  ]

  terminate-Same :
      (id : String)
      → Same (terminate_session m id).0 (terminate_session n id).0
        × ((terminate_session m id).1 ≡ (terminate_session n id).1)
  unfolding terminate_session
  terminate-Same id = elim (Option-cases (lookup id m.sessions)) [
    | inl e ↦ rw (e, alike id none e, terminate_session) (same, refl)
    | inr (s, e) ↦ rw (e, alike id (some s) e, terminate_session) (erased-Same id, refl)
  ]

  update-Same :
      (id : String) (new : Session)
      → Same (update_session m id new).0 (update_session n id new).0
        × ((update_session m id new).1 ≡ (update_session n id new).1)
  unfolding update_session
  update-Same id new = elim (Option-cases (lookup id m.sessions)) [
    | inl e ↦ rw (e, alike id none e, update_session) (same, refl)
    | inr (s, e) ↦ rw (e, alike id (some s) e, update_session) (inserted-Same id new, refl)
  ]

  extend-Same :
      (now : ℕ) (id : String) (time : ℕ)
      → Same (extend_session m now id time).0 (extend_session n now id time).0
        × ((extend_session m now id time).1 ≡ (extend_session n now id time).1)
  unfolding extend_session
  extend-Same now id time = elim (Option-cases (lookup id m.sessions)) [
    | inl e ↦ rw (e, alike id none e, extend_session) (same, refl)
    | inr (s, e) ↦ elim (Bool-cases (not s.active || is_expired now s)) [
      | inl x ↦ rw (e, alike id (some s) e, x, extend_session) (same, refl)
      | inr x ↦
          rw (e, alike id (some s) e, x, extend_session)
            (inserted-Same id (record s { expires_at = s.expires_at + time }), refl)
    ]
  ]

  cleanup-Same : (now : ℕ) → Same (cleanup_expired_sessions m now) (cleanup_expired_sessions n now)
  unfolding cleanup_expired_sessions cleanup_expired_sessions_internal
  cleanup-Same now =
      let live = λ (s : Session). not (ltb s.expires_at now) in
      record {
        agree = retain-Agree live m.sessions n.sessions same.unique same.unique' same.agree;
        total = same.total;
        drawn_alike = same.drawn_alike;
        unique = retain-IsUnique live m.sessions same.unique;
        unique' = retain-IsUnique live n.sessions same.unique';
      }

  fresh-Same :
      (draw : ℕ → ℕ) (fuel : ℕ) (o : Option (String × ℕ))
      → fresh_id draw m.sessions fuel m.drawn ≡ o
      → fresh_id draw n.sessions fuel n.drawn ≡ o
  fresh-Same draw fuel o e =
      ap (fresh_id draw n.sessions fuel) (sym same.drawn_alike)
      ∙ sym (fresh_id-Agree draw fuel m.drawn m n same.agree)
      ∙ e

  stored-Same :
      (now : ℕ) (user : User) (ip service id : String) (q : ℕ)
      → Same
          (store_session m now user ip service (id, q)).0
          (store_session n now user ip service (id, q)).0
  unfolding store_session
  stored-Same now user ip service id q =
      let s =
        new_session id user.user_name user.role ip service (now + default_session_timeout) now in
      record {
        agree = insert-Agree id s m.sessions n.sessions same.agree;
        total = ap (λ t. add64 t 1) same.total;
        drawn_alike = refl;
        unique = insert-IsUnique id s m.sessions same.unique;
        unique' = insert-IsUnique id s n.sessions same.unique';
      }

  create-Same :
      (draw : ℕ → ℕ) (fuel now : ℕ) (user : User) (ip service : String)
      → Matches
          (perform draw now (create fuel user ip service) m)
          (perform draw now (create fuel user ip service) n)
  unfolding perform create_session store_session
  create-Same draw fuel now user ip service =
      elim (Bool-cases (is_user_at_session_limit m now user.user_name)) [
        | inl full ↦
            rw (full, sym (limit-Same now user.user_name) ∙ full, create_session, perform)
              (same, refl)
        | inr free ↦
            let free' : is_user_at_session_limit n now user.user_name ≡ false =
              sym (limit-Same now user.user_name) ∙ free in
            elim (Option-cases (fresh_id draw m.sessions fuel m.drawn)) [
              | inl e ↦ rw (free, free', e, fresh-Same draw fuel none e, create_session, perform) tt
              | inr ((id, q), e) ↦
                  rw
                    (free, free', e, fresh-Same draw fuel (some (id, q)) e, create_session, perform)
                    (stored-Same now user ip service id q, refl)
            ]
      ]

  pub perform-Same :
      (draw : ℕ → ℕ) (now : ℕ) (call : Call)
      → Matches (perform draw now call m) (perform draw now call n)
  unfolding perform get_active_session_count
  perform-Same draw now (create fuel user ip service) = create-Same draw fuel now user ip service
  perform-Same draw now (get id) =
      let (left, replied) = get-Same now id in (left, ap session_reply replied)
  perform-Same draw now (terminate id) =
      let (left, replied) = terminate-Same id in (left, ap unit_reply replied)
  perform-Same draw now (update id s) =
      let (left, replied) = update-Same id s in (left, ap unit_reply replied)
  perform-Same draw now (extend id time) =
      let (left, replied) = extend-Same now id time in (left, ap unit_reply replied)
  perform-Same draw now cleanup = (cleanup-Same now, refl)
  perform-Same draw now active_count = (
    same,
    ap number_reply
        (count-Agree (is_live now) m.sessions n.sessions same.unique same.unique' same.agree),
  )
