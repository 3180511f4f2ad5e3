-- ===== src/Auth/Startup.antt =====
-- The constructor of authenticator.cpp, and the list of failed attempts. The random bytes of OpenSSL
-- are a parameter, and so is the default password, which no file declares.
use Prim.Native.String
use mathlib.Core.Option
use zero_trust_secure_sessio.Common.{
  ℕ, zero, suc, ◌≡◌, ◌+◌, ◌/◌, false, if◌then◌else◌, List, [], ◌∷◌, Option, none, some, arith,
  String, ◌==◌, string_eq, nat_eq, lookup, lookup-insert_self, insert, Option-cases, Bool-cases,
  seconds, inl, inr,
}
use zero_trust_secure_sessio.Types.{
  new_user, admin, random_bytes_failed, Result, ok, err, Result-cases,
}
use zero_trust_secure_sessio.Logger.{to_string}
use zero_trust_secure_sessio.Auth.{
  AuthenticationManager, External, RateInfo, hash_password, add_user, get_user, count_attempt,
}

abbrev pub jwt_secret_size : ℕ
jwt_secret_size = 32

unfoldable pub generate_secure_random_bytes : (ℕ → Option (List ℕ)) → ℕ → Result (List ℕ)
generate_secure_random_bytes rand size = elim (rand size) [
  | none ↦ err random_bytes_failed
  | some bytes ↦ ok bytes
]

-- The manager and its secret; `none` if the constructor throws. No user is added if the default
-- password is not hashed.
unfoldable pub new_authentication_manager :
    External
    → ℕ
    → (ℕ → Option (List ℕ))
    → Option (List ℕ)
    → String
    → Option (AuthenticationManager × List ℕ)
unfolding generate_secure_random_bytes
new_authentication_manager x now rand salt default_password =
    let empty : AuthenticationManager = record {
      users = [];
      revoked_tokens = [];
      blocked_users = [];
      rate_limits = [];
    } in
    elim (generate_secure_random_bytes rand jwt_secret_size) [
      | err e ↦ none
      | ok secret ↦ elim (hash_password x salt default_password) [
        | err e ↦ some (empty, secret)
        | ok hash ↦ some ((add_user empty (new_user "admin" hash admin now)).0, secret)
      ]
    ]

-- `count` lines, and not more than the first number.
abbrev pub failed_lines : ℕ → ℕ → String → List String
failed_lines zero count line = []
failed_lines (suc most) zero line = []
failed_lines (suc most) (suc count) line = line ∷ failed_lines most count line

abbrev pub failed_attempt : ℕ → String
failed_attempt window_start =
    String.◌++◌ "Failed attempt at " (to_string (window_start / seconds 1))

unfoldable pub get_recent_failed_attempts : AuthenticationManager → String → ℕ → List String
get_recent_failed_attempts m username count = elim (lookup username m.rate_limits) [
  | none ↦ []
  | some info ↦ failed_lines 5 count (failed_attempt info.window_start)
]

-- The constructor returns exactly if the random bytes are there, and they are the secret. The
-- only user is then the administrator, if the default password was hashed.
pub new_authentication_manager_sound :
    (x : External) (now : ℕ) (rand : ℕ → Option (List ℕ)) (salt : Option (List ℕ))
    (default_password : String) (m : AuthenticationManager) (secret : List ℕ) (name : String)
    → new_authentication_manager x now rand salt default_password ≡ some (m, secret)
    → (rand jwt_secret_size ≡ some secret)
      × (get_user m name ≡ elim (hash_password x salt default_password) [
        | err e ↦ none
        | ok hash ↦ if "admin" == name then some (new_user "admin" hash admin now) else none
      ])
unfolding new_authentication_manager generate_secure_random_bytes get_user add_user lookup insert
new_authentication_manager_sound x now rand salt default_password m secret name h =
    elim (Option-cases (rand jwt_secret_size)) [
      | inl e ↦ absurd (ground (arith, e, h))
      | inr (bytes, e) ↦ elim (Result-cases (hash_password x salt default_password)) [
        | inl (hash, p) ↦ ground (arith, e, p, h, Bool-cases ("admin" == name))
        | inr (error, p) ↦ ground (arith, e, p, h)
      ]
    ]

-- The entry that an attempt leaves if it is counted has the time of the attempt.
counted_at :
    (x : External) (m : AuthenticationManager) (now : ℕ) (name : String)
    → (count_attempt x m now name).1 ≡ false
    → Option.map
        (λ (i : RateInfo). i.window_start)
        (lookup name (count_attempt x m now name).0.rate_limits)
      ≡ some now
unfolding count_attempt
counted_at x m now name counted = elim (Option-cases (lookup name m.rate_limits)) [
  | inl e ↦ elim (Bool-cases (x.should_block (x.new_rate_info now))) [
    | inl b ↦
        ground (arith, e, b, counted, lookup-insert_self name (x.new_rate_info now) m.rate_limits)
    | inr b ↦ ground (
      arith,
      e,
      b,
      lookup-insert_self name
          (record { attempts = (x.new_rate_info now).attempts + 1; window_start = now })
          m.rate_limits,
    )
  ]
  | inr (info, e) ↦ elim (Bool-cases (x.should_block info)) [
    | inl b ↦ ground (arith, e, b, counted)
    | inr b ↦ ground (
      arith,
      e,
      b,
      lookup-insert_self name (record { attempts = info.attempts + 1; window_start = now })
          m.rate_limits,
    )
  ]
]

-- After an attempt that is counted, `get_recent_failed_attempts` lists the time of that attempt as
-- often as it was asked to and at most five times, whatever attempts there were before.
pub get_recent_failed_attempts-count_attempt :
    (x : External) (m : AuthenticationManager) (now : ℕ) (name : String) (n : ℕ)
    → (count_attempt x m now name).1 ≡ false
    → get_recent_failed_attempts (count_attempt x m now name).0 name n
      ≡ failed_lines 5 n (failed_attempt now)
unfolding get_recent_failed_attempts
get_recent_failed_attempts-count_attempt x m now name n counted = ground (
  arith,
  Option-cases (lookup name (count_attempt x m now name).0.rate_limits),
  counted_at x m now name counted,
)
