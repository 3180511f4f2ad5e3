-- ===== src/Security/BruteForce.antt =====
-- `record_failed_attempt`, `record_successful_login` and `detect_brute_force`
-- (security_manager.cpp) over sequences of attempts.
use zero_trust_secure_sessio.Common.{
  ℕ, suc, ◌+◌, ◌^◌, ◌<◌, ◌≡◌, refl, ap, ◌∙◌, inl, inr, Bool, true, false, ◌&&◌, List, [], ◌∷◌,
  String, none, some, arith, leb, string_eq, nat_eq, if◌then◌else◌, Map, lookup, length,
  lookup-insert_self, Option-cases,
}
use zero_trust_secure_sessio.Types.{ok}
use zero_trust_secure_sessio.Security.{
  SecurityManager, BruteForceInfo, new_brute_force, brute_info, add_failure, detect_brute_force,
  record_failed_attempt, record_successful_login, is_ip_blocked, brute_force_threshold,
  brute_force_window, default_block_duration,
}

-- The failures of one address at the given times.
pub failures : String → SecurityManager → List ℕ → SecurityManager
failures ip m [] = m
failures ip m (t ∷ ts) = failures ip (record_failed_attempt m t ip) ts

failed_lookup :
    (m : SecurityManager) (t : ℕ) (ip : String)
    → (lookup ip (record_failed_attempt m t ip).brute_force_data
        ≡ some (add_failure (brute_info m t ip) t))
      × ((record_failed_attempt m t ip).blocked_ips ≡ m.blocked_ips)
unfolding record_failed_attempt
failed_lookup m t ip = (lookup-insert_self ip _ m.brute_force_data, refl)

failures-lookup :
    (ip : String) (m : SecurityManager) (ts : List ℕ) (info : BruteForceInfo)
    → lookup ip m.brute_force_data ≡ some info
    → 0 < info.failed_attempts
    → info.failed_attempts + length ts < 2 ^ 64
    → (last : ℕ) × (lookup ip (failures ip m ts).brute_force_data
        ≡ some (record info {
          failed_attempts = info.failed_attempts + length ts;
          last_attempt = last;
        }))
      × ((failures ip m ts).blocked_ips ≡ m.blocked_ips)
unfolding failures add_failure
failures-lookup ip m [] info found pos small = (info.last_attempt, ground arith, refl)
failures-lookup ip m (t ∷ ts) info found pos small =
    let (stored, same) = failed_lookup m t ip in
    let info' : BruteForceInfo = record info {
      failed_attempts = info.failed_attempts + 1;
      last_attempt = t;
    } in
    let stored' : lookup ip (record_failed_attempt m t ip).brute_force_data ≡ some info' =
      stored ∙ ground arith in
    let (last, later, same') =
      failures-lookup ip (record_failed_attempt m t ip) ts info' stored' (omega arith)
        (omega arith) in
    (last, later ∙ ground arith, same' ∙ same)

-- What a detection finds in an entry.
abbrev pub suspicious : BruteForceInfo → ℕ → Bool
suspicious info now =
    leb now (info.first_attempt + brute_force_window)
    && leb brute_force_threshold info.failed_attempts

detect_fresh :
    (m : SecurityManager) (now t : ℕ) (ip : String) (info : BruteForceInfo)
    → lookup ip m.brute_force_data ≡ some info
    → info.detected ≡ false
    → ((detect_brute_force m now ip).1 ≡ ok (suspicious info now))
      × ((is_ip_blocked (detect_brute_force m now ip).0 t ip).1 ≡ (
          if suspicious info now
          then leb t (now + default_block_duration)
          else (is_ip_blocked m t ip).1))
unfolding detect_brute_force is_ip_blocked
detect_fresh m now t ip info found fresh =
    ground (arith, lookup-insert_self ip (now + default_block_duration) m.blocked_ips)

is_ip_blocked_congr :
    (m m' : SecurityManager) (t : ℕ) (ip : String)
    → m.blocked_ips ≡ m'.blocked_ips
    → (is_ip_blocked m t ip).1 ≡ (is_ip_blocked m' t ip).1
unfolding is_ip_blocked
is_ip_blocked_congr m m' t ip e = elim (Option-cases (lookup ip m.blocked_ips)) [
  | inl h ↦ ground (arith, ap (λ (b : Map String ℕ). lookup ip b) e)
  | inr (until, h) ↦ ground (arith, ap (λ (b : Map String ℕ). lookup ip b) e)
]

-- After failures of an address that had no entry, the first of them at `t0`, a detection reports
-- an attack exactly if there were five failures or more and no more than fifteen minutes have
-- passed since `t0`; then the address is blocked for an hour, and otherwise its block is unchanged.
pub detect_brute_force-failures :
    (ip : String) (m : SecurityManager) (t0 : ℕ) (ts : List ℕ) (now t : ℕ)
    → lookup ip m.brute_force_data ≡ none
    → length (t0 ∷ ts) < 2 ^ 64
    → let attacked = failures ip m (t0 ∷ ts) in
      let alarm =
        leb now (t0 + brute_force_window) && leb brute_force_threshold (length (t0 ∷ ts)) in
      ((detect_brute_force attacked now ip).1 ≡ ok alarm)
      × ((is_ip_blocked (detect_brute_force attacked now ip).0 t ip).1
          ≡ (if alarm then leb t (now + default_block_duration) else (is_ip_blocked m t ip).1))
unfolding failures add_failure
detect_brute_force-failures ip m t0 ts now t none_yet small =
    let (stored, same) = failed_lookup m t0 ip in
    let first : BruteForceInfo = record (new_brute_force t0) { failed_attempts = 1 } in
    let (last, found, same') =
      failures-lookup ip (record_failed_attempt m t0 ip) ts first (stored ∙ rw none_yet refl)
        (omega arith) (omega arith) in
    let (result, block) =
      detect_fresh (failures ip (record_failed_attempt m t0 ip) ts) now t ip
        (record first { failed_attempts = 1 + length ts; last_attempt = last }) found refl in
    let count : 1 + length ts ≡ suc (length ts) = omega arith in
    let blocks : (is_ip_blocked (failures ip (record_failed_attempt m t0 ip) ts) t ip).1
        ≡ (is_ip_blocked m t ip).1 =
      is_ip_blocked_congr _ m t ip (same' ∙ same) in
    (rw (← count) result, rw (← count) (rw blocks at block))

pub data Attempt : Type 0 where
  fails detects : Attempt

-- Failures and detections of one address.
pub attempts : String → SecurityManager → List (ℕ × Attempt) → SecurityManager
attempts ip m [] = m
attempts ip m ((t, fails) ∷ calls) = attempts ip (record_failed_attempt m t ip) calls
attempts ip m ((t, detects) ∷ calls) = attempts ip (detect_brute_force m t ip).0 calls

detected_step :
    (m : SecurityManager) (t : ℕ) (ip : String) (info : BruteForceInfo)
    → lookup ip m.brute_force_data ≡ some info
    → info.detected ≡ true
    → ((detect_brute_force m t ip).1 ≡ ok true)
      × ((detect_brute_force m t ip).0.blocked_ips ≡ m.blocked_ips)
      × (lookup ip (detect_brute_force m t ip).0.brute_force_data ≡ some info)
unfolding detect_brute_force
detected_step m t ip info found d = ground (arith, lookup-insert_self ip info m.brute_force_data)

-- Once an attack is detected, further failures and detections block the address no more: each
-- detection reports the attack, and the blocks stay as they are, so that the one block runs out.
pub attempts-detected :
    (ip : String) (m : SecurityManager) (info : BruteForceInfo) (calls : List (ℕ × Attempt))
    (now t : ℕ)
    → lookup ip m.brute_force_data ≡ some info
    → info.detected ≡ true
    → ((detect_brute_force (attempts ip m calls) now ip).1 ≡ ok true)
      × ((is_ip_blocked (detect_brute_force (attempts ip m calls) now ip).0 t ip).1
          ≡ (is_ip_blocked m t ip).1)
unfolding attempts add_failure
attempts-detected ip m info [] now t found d =
    let (result, same, stored) = detected_step m now ip info found d in
    (result, is_ip_blocked_congr _ m t ip same)
attempts-detected ip m info ((u, fails) ∷ calls) now t found d =
    let (stored, same) = failed_lookup m u ip in
    let (result, block) =
      attempts-detected ip (record_failed_attempt m u ip) (add_failure info u) calls now t
        (stored ∙ rw found refl) d in
    (result, block ∙ is_ip_blocked_congr _ m t ip same)
attempts-detected ip m info ((u, detects) ∷ calls) now t found d =
    let (told, same, stored) = detected_step m u ip info found d in
    let (result, block) =
      attempts-detected ip (detect_brute_force m u ip).0 info calls now t stored d in
    (result, block ∙ is_ip_blocked_congr _ m t ip same)

-- A login clears the failures of its address: a detection that follows reports no attack and
-- leaves the blocks as they are.
pub detect_brute_force-record_successful_login :
    (m : SecurityManager) (t now : ℕ) (ip : String)
    → ((detect_brute_force (record_successful_login m t ip) now ip).1 ≡ ok false)
      × ((detect_brute_force (record_successful_login m t ip) now ip).0.blocked_ips ≡ m.blocked_ips)
unfolding detect_brute_force record_successful_login
detect_brute_force-record_successful_login m t now ip =
    elim (Option-cases (lookup ip m.brute_force_data)) [
      | inl e ↦ ground arith
      | inr (info, e) ↦ ground (
        arith,
        lookup-insert_self ip (record info { failed_attempts = 0; detected = false })
            m.brute_force_data,
      )
    ]
