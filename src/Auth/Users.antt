-- ===== src/Auth/Users.antt =====
-- The table of users, and the login (authenticator.cpp).
use mathlib.Core.Option
use zero_trust_secure_sessio.Common.{
  ℕ, ◌≡◌, subst, Map, ◌∙◌, ap, inl, inr, true, false, String, none, some, arith, string_eq, ◌==◌,
  if◌then◌else◌, lookup, lookup-insert, lookup-erase, has_key, is_some, Bool-cases, Option-cases,
}
use zero_trust_secure_sessio.Types.{
  User, user_already_exists, user_not_found, ok, err, Result-cases,
}
use zero_trust_secure_sessio.Auth.{
  AuthenticationManager, External, RateInfo, add_user, update_user, delete_user, get_user,
  authenticate, check_user, count_attempt, verify_password, new_token,
}

-- What `get_user` finds after each change of the table: a user that is added under a free name or
-- updated is found, a deleted one is not, and all others stay. Adding fails exactly for a name in
-- use, updating and deleting for a name that is not, and a call that fails changes nothing.
pub get_user_after :
    (m : AuthenticationManager) (user : User) (name j : String)
    → (get_user (add_user m user).0 j ≡ (
        if is_some (get_user m user.user_name)
        then get_user m j
        else if user.user_name == j
        then some user
        else get_user m j))
      × (get_user (update_user m name user).0 j
          ≡ (if name == j then Option.map (λ old. user) (get_user m j) else get_user m j))
      × (get_user (delete_user m name).0 j ≡ (if name == j then none else get_user m j))
      × ((add_user m user).1
          ≡ (if is_some (get_user m user.user_name) then err user_already_exists else ok tt))
      × ((update_user m name user).1
          ≡ (if is_some (get_user m name) then ok tt else err user_not_found))
      × ((delete_user m name).1 ≡ (if is_some (get_user m name) then ok tt else err user_not_found))
unfolding get_user add_user update_user delete_user
get_user_after m user name j =
    let at : (name == j) ≡ true → lookup name m.users ≡ lookup j m.users =
      λ same. ap (λ (k : String). lookup k m.users) ((string_eq.equal_iff name j).0 same) in
    (
      ground (arith, lookup-insert user.user_name j user m.users),
      ground (arith, at, lookup-insert name j user m.users),
      ground (arith, at, lookup-erase name j m.users),
      ground arith,
      ground arith,
      ground arith,
    )

-- What a login checks of a user's entry.
pub record MayLogIn (x : External) (m : AuthenticationManager) (name password : String)
    (user : User) : Type 0 where
  pub known : get_user m name ≡ some user
  pub active : user.active ≡ true
  pub unblocked : has_key name m.blocked_users ≡ false
  pub verified : verify_password x password user.password_hash ≡ ok true

check_user_sound :
    (x : External) (m : AuthenticationManager) (now : ℕ) (name password token : String)
    → check_user x m now name password ≡ ok token
    → (user : User) × MayLogIn x m name password user × (token ≡ new_token x user now)
unfolding check_user get_user
check_user_sound x m now name password token h = elim (Bool-cases (has_key name m.blocked_users)) [
  | inl blocked ↦ absurd (ground (arith, h))
  | inr free ↦ elim (Option-cases (lookup name m.users)) [
    | inl e ↦ absurd (ground (arith, h))
    | inr (user, e) ↦ elim (Bool-cases user.active) [
      | inr inactive ↦ absurd (ground (arith, h))
      | inl a ↦ elim (Result-cases (verify_password x password user.password_hash)) [
        | inr (error, v) ↦ absurd (ground (arith, h))
        | inl (b, v) ↦ elim (Bool-cases b) [
          | inr wrong ↦ absurd (ground (arith, h))
          | inl right ↦ (
            user,
            record { known = e; active = a; unblocked = free; verified = v ∙ ap ok right },
            ground (arith, h),
          )
        ]
      ]
    ]
  ]
]

count_attempt_keeps :
    (x : External) (m : AuthenticationManager) (now : ℕ) (name : String)
    → ((count_attempt x m now name).0.users ≡ m.users)
      × ((count_attempt x m now name).0.blocked_users ≡ m.blocked_users)
unfolding count_attempt
count_attempt_keeps x m now name =
    let locked = x.should_block (elim (lookup name m.rate_limits) as (λ o. RateInfo) [
      | none ↦ x.new_rate_info now
      | some i ↦ i
    ]) in
    elim (Bool-cases locked) [
      | inl e ↦ (rw (e, count_attempt), rw (e, count_attempt))
      | inr e ↦ (rw (e, count_attempt), rw (e, count_attempt))
    ]

pub authenticate_keeps :
    (x : External) (m : AuthenticationManager) (now : ℕ) (name password : String)
    → (authenticate x m now name password).0.users ≡ m.users
unfolding authenticate
authenticate_keeps x m now name password = ground (arith, (count_attempt_keeps x m now name).0)

authenticate_ok :
    (x : External) (m : AuthenticationManager) (now : ℕ) (name password token : String)
    → (authenticate x m now name password).1 ≡ ok token
    → (x.is_valid_username name ≡ true)
      × (x.is_valid_password_format password ≡ true)
      × ((count_attempt x m now name).1 ≡ false)
      × (check_user x (count_attempt x m now name).0 now name password ≡ ok token)
unfolding authenticate
authenticate_ok x m now name password token h = elim (Bool-cases (x.is_valid_username name)) [
  | inr bad ↦ absurd (ground (arith, h))
  | inl good ↦ elim (Bool-cases (x.is_valid_password_format password)) [
    | inr bad ↦ absurd (ground (arith, h))
    | inl fine ↦ elim (Bool-cases (count_attempt x m now name).1) [
      | inl locked ↦ absurd (ground (arith, h))
      | inr free ↦ (good, fine, free, ground (arith, h))
    ]
  ]
]

-- A login succeeds only for a known, active and unblocked user whose stored hash verifies the
-- password, whose name and password have the required form, and who is not locked out; the token
-- is the one made for that user at that time.
pub authenticate_sound :
    (x : External) (m : AuthenticationManager) (now : ℕ) (name password token : String)
    → (authenticate x m now name password).1 ≡ ok token
    → (x.is_valid_username name ≡ true)
      × (x.is_valid_password_format password ≡ true)
      × ((count_attempt x m now name).1 ≡ false)
      × ((user : User) × MayLogIn x m name password user × (token ≡ new_token x user now))
unfolding get_user
authenticate_sound x m now name password token h =
    let (good, fine, free, e) = authenticate_ok x m now name password token h in
    let (users, blocked) = count_attempt_keeps x m now name in
    let (user, may, made) =
      check_user_sound x (count_attempt x m now name).0 now name password token e in
    (
      good,
      fine,
      free,
      (
        user,
        record {
          known = subst (λ (us : Map String User). lookup name us ≡ some user) users may.known;
          active = may.active;
          unblocked = subst (λ (bs : Map String ℕ). has_key name bs ≡ false) blocked may.unblocked;
          verified = may.verified;
        },
        made,
      ),
    )
