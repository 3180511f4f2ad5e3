-- ===== src/Types/Events.antt =====
-- The tests of event texts in src/types.cpp. The table VALID_SECURITY_EVENTS is declared nowhere and
-- is a parameter. A `SecurityEventType` that is made from a position is that position.
use zero_trust_secure_sessio.Common.{
  ℕ, suc, ◌≡◌, refl, ◌⊎◌, inl, inr, Bool, true, false, not, ◌&&◌, List, [], ◌∷◌, String, Option,
  none, some, arith, string_eq, nat_eq, ◌==◌, if◌then◌else◌, contains, Bool-cases,
}
use zero_trust_secure_sessio.Types.Utils.{
  SecurityEventType, login_success, login_failure, session_start, session_termination,
  authentication_error, access_violation, rate_limit_exceeded, brute_force_detected,
  security_event_type_to_string,
}

-- The value of the enumeration that is made, or the error.
pub data EventResult : Type 0 where
  event : ℕ → EventResult
  event_string_empty invalid_security_event : EventResult

-- `std::ranges::find`, as the distance from the start.
abbrev pub find_index : List String → String → Option ℕ
find_index [] s = none
find_index (t ∷ ts) s =
    if t == s then some 0 else elim (find_index ts s) [ none ↦ none | some n ↦ some (suc n) ]

unfoldable pub validate_security_event : List String → String → EventResult
validate_security_event table s =
    if s == ""
    then event_string_empty
    else elim (find_index table s) [ none ↦ invalid_security_event | some index ↦ event index ]

abbrev pub is_valid_security_event_string : List String → String → Bool
is_valid_security_event_string table s = contains table s

abbrev pub event_value : SecurityEventType → ℕ
event_value login_success = 0
event_value login_failure = 1
event_value session_start = 2
event_value session_termination = 3
event_value authentication_error = 4
event_value access_violation = 5
event_value rate_limit_exceeded = 6
event_value brute_force_detected = 7

-- The names in the order of the enumeration, as `security_event_type_to_string` has them.
abbrev pub event_names : List String
event_names =
    "login_success" ∷ "login_failure" ∷ "session_start" ∷ "session_termination"
    ∷ "authentication_error" ∷ "access_violation" ∷ "rate_limit_exceeded" ∷ "brute_force_detected"
    ∷ []

-- Whether a validation has a value.
abbrev is_event : EventResult → Bool
is_event (event n) = true
is_event event_string_empty = false
is_event invalid_security_event = false

find_index-contains :
    (table : List String) (s : String)
    → (contains table s ≡ false × (find_index table s ≡ none))
      ⊎ (contains table s ≡ true × ((n : ℕ) × (find_index table s ≡ some n)))
find_index-contains [] s = inl (refl, refl)
find_index-contains (t ∷ ts) s = elim (Bool-cases (t == s)) [
  | inl e ↦ inr (ground (arith, e), (0, ground (arith, e)))
  | inr e ↦ elim (find_index-contains ts s) [
    | inl (c, f) ↦ inl (ground (arith, e, c), ground (arith, e, f))
    | inr (c, (n, f)) ↦ inr (ground (arith, e, c), (suc n, ground (arith, e, f)))
  ]
]

-- The two tests agree but on the empty text: for every table, a text that is not empty is validated
-- exactly if it is a valid event text, and the empty text never is.
pub validate_security_event_iff :
    (table : List String) (s : String)
    → is_event (validate_security_event table s)
      ≡ (not (s == "") && is_valid_security_event_string table s)
unfolding validate_security_event
validate_security_event_iff table s = elim (find_index-contains table s) [
  | inl (c, f) ↦ ground (arith, c, f)
  | inr (c, (n, f)) ↦ ground (arith, c, f)
]

-- With the names in the order of the enumeration as its table, the validation reads back each event
-- from its name.
pub validate_security_event-to_string :
    (e : SecurityEventType)
    → validate_security_event event_names (security_event_type_to_string e) ≡ event (event_value e)
unfolding validate_security_event security_event_type_to_string
validate_security_event-to_string login_success = refl
validate_security_event-to_string login_failure = refl
validate_security_event-to_string session_start = refl
validate_security_event-to_string session_termination = refl
validate_security_event-to_string authentication_error = refl
validate_security_event-to_string access_violation = refl
validate_security_event-to_string rate_limit_exceeded = refl
validate_security_event-to_string brute_force_detected = refl
