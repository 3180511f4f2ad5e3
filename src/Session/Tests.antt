-- ===== src/Session/Tests.antt =====
-- Sessions at concrete inputs: the theorems' witnesses, and runs of the model.
use zero_trust_secure_sessio.Common.{
  ℕ, ◌+◌, ◌≤◌, ◌≡◌, refl, false, [], ◌∷◌, String, some, none, arith, lookup, insert, string_eq,
}
use zero_trust_secure_sessio.Types.{operator, User, new_user, Session, new_session, ok}
use zero_trust_secure_sessio.Session.{
  SessionManager, empty_manager, create_session, get_session, update_session,
  is_user_at_session_limit, limit_loop, store_session, default_session_timeout,
  max_sessions_per_user,
}
use zero_trust_secure_sessio.Session.Ids.{generate_session_id, fresh_id, hex_byte}
use zero_trust_secure_sessio.Session.Limit.{live_sessions_of, create_session_total}
use zero_trust_secure_sessio.Session.Lifecycle.{get_session-create_session}
use zero_trust_secure_sessio.Session.History.{
  Reach, start, next, Step, UpdatesAreModest, Reach-IsValid, Reach-limited,
}

-- Every random value is its own position.
abbrev counting : ℕ → ℕ
counting n = n

abbrev ann : User
ann = new_user "ann" "hash" operator 0

hex_byte_test : hex_byte 0xa7 ≡ "a7"
unfolding hex_byte
hex_byte_test = refl

abbrev first_id : String
first_id = "000102030405060708090a0b0c0d0e0f101112131415161718191a1b1c1d1e1f"

abbrev ann_session : Session
ann_session = new_session first_id "ann" operator "10.0.0.1" "ssh" (5 + default_session_timeout) 5

abbrev after_create : SessionManager
after_create = record { sessions = (first_id, ann_session) ∷ []; total_sessions = 1; drawn = 32 }

created :
    create_session counting 3 empty_manager 5 ann "10.0.0.1" "ssh"
    ≡ some (after_create, ok first_id)
unfolding create_session store_session is_user_at_session_limit limit_loop empty_manager fresh_id
    generate_session_id lookup insert
created = refl

get_session-create_session_example :
    get_session after_create 100 first_id ≡ (after_create, ok ann_session)
get_session-create_session_example =
    (get_session-create_session counting 3 empty_manager after_create 5 ann "10.0.0.1" "ssh"
      first_id 100 "other" created).1

create_session_total_example :
    (id : String) × (q : ℕ) × (lookup id empty_manager.sessions ≡ none)
    × (create_session counting 1 empty_manager 5 ann "10.0.0.1" "ssh"
        ≡ some (store_session empty_manager 5 ann "10.0.0.1" "ssh" (id, q)))
unfolding empty_manager
create_session_total_example =
    create_session_total counting 1 empty_manager 5 ann "10.0.0.1" "ssh" (tt, tt) (omega arith)

abbrev one_call : Reach counting 5 after_create
one_call = next (start 0) (omega arith) (Step.create 3 ann "10.0.0.1" "ssh" (ok first_id) created)

-- An update that is not modest: a session of another user with another identifier.
other_stored :
    lookup first_id
      (update_session after_create first_id
        (record ann_session { session_id = "other"; user_name = "eve" })).0.sessions
    ≡ some (record ann_session { session_id = "other"; user_name = "eve" })
unfolding update_session lookup insert
other_stored = refl

-- The session is then updated to one that is not active.
abbrev updated : SessionManager
updated = (update_session after_create first_id (record ann_session { active = false })).0

abbrev two_calls : Reach counting 6 updated
two_calls =
    next one_call (omega arith) (Step.update first_id (record ann_session { active = false }) refl)

two_calls_modest : UpdatesAreModest two_calls
unfolding lookup
two_calls_modest = ((tt, tt), (refl, refl, omega arith, λ h. absurd (ground (arith, h))))

Reach-IsValid_example : live_sessions_of "ann" 6 updated ≤ max_sessions_per_user
Reach-IsValid_example = (Reach-IsValid two_calls two_calls_modest).limited "ann"

Reach-limited_example : live_sessions_of "ann" 9 updated ≤ max_sessions_per_user
Reach-limited_example = Reach-limited "ann" 9 two_calls two_calls_modest (omega arith)
