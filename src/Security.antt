-- ===== src/Security.antt =====
-- src/security/security_manager.cpp and include/zerossg/security/security_manager.ixx. Each method
-- is a step of its own at the clock `now`; the texts of the events are their parts, and the logger
-- is left out. The worker thread is `cleanup_expired_data`, called at any time.
mod State
pub mod RateLimit
pub mod BruteForce
pub mod Blocking
pub mod Cleanup
pub mod Worker
pub mod Tests
pub use State.*
use zero_trust_secure_sessio.Common.{
  ℕ, ◌+◌, ◌*◌, Bool, true, false, not, ◌&&◌, ◌||◌, List, [], ◌∷◌, ◌++◌, String, Option, none, some,
  ltb, leb, string_eq, nat_eq, ◌==◌, if◌then◌else◌, keep, length, Map, lookup, insert, erase,
  retain, count, has_key, add64, seconds, milliseconds,
}
use zero_trust_secure_sessio.Types.{
  Error, ip_currently_blocked, rate_limit_exceeded, Result, ok, err,
}

-- `m[k]` makes a new entry for a key that is missing.
abbrev pub entry {ℓ} : {V : Type ℓ} → V → Option V → V
entry v none = v
entry v (some w) = w

abbrev pub new_rate_limit : ℕ → RateLimitInfo
new_rate_limit now = record {
  request_count = 0;
  window_start = now;
  block_until = none;
  blocked = false;
}

abbrev pub new_brute_force : ℕ → BruteForceInfo
new_brute_force now = record {
  failed_attempts = 0;
  first_attempt = now;
  last_attempt = now;
  detection_time = none;
  detected = false;
}

abbrev pub rate_info : SecurityManager → ℕ → String → RateLimitInfo
rate_info m now ip = entry (new_rate_limit now) (lookup ip m.rate_limits)

abbrev pub brute_info : SecurityManager → ℕ → String → BruteForceInfo
brute_info m now ip = entry (new_brute_force now) (lookup ip m.brute_force_data)

unfoldable pub record_security_event :
    SecurityManager → ℕ → String → String → Option ℕ → SecurityManager
record_security_event m now kind ip number = record m {
  security_events =
      m.security_events
      ++ record { event_type = kind; client_ip = ip; number = number; timestamp = now } ∷ [];
}

abbrev pub blocks_until : Option ℕ → ℕ → Bool
blocks_until none now = false
blocks_until (some until) now = ltb now until

abbrev pub is_rate_blocked : RateLimitInfo → ℕ → Bool
is_rate_blocked info now = info.blocked && blocks_until info.block_until now

unfoldable pub reset_window : RateLimitInfo → ℕ → RateLimitInfo
reset_window info now =
    if leb (info.window_start + rate_limit_window) now then new_rate_limit now else info

-- The request against the window: refused and blocked, or counted. The count is below 100 there.
unfoldable pub count_request :
    SecurityManager → ℕ → String → RateLimitInfo → SecurityManager × Result Bool
unfolding record_security_event
count_request m now ip info =
    if leb rate_limit_max_requests info.request_count
    then (
      record_security_event
          (record m {
            rate_limits =
                insert ip
                  (record info {
                    blocked = true;
                    block_until = some (now + default_block_duration);
                  })
                  m.rate_limits;
          })
          now "rate_limit_exceeded" ip (some info.request_count),
      err rate_limit_exceeded,
    )
    else (
      record m {
        rate_limits =
            insert ip (record info { request_count = info.request_count + 1 }) m.rate_limits;
      },
      ok true,
    )

unfoldable pub check_entry :
    SecurityManager → ℕ → String → RateLimitInfo → SecurityManager × Result Bool
unfolding count_request reset_window record_security_event
check_entry m now ip info =
    if is_rate_blocked info now
    then (
      record_security_event (record m { rate_limits = insert ip info m.rate_limits }) now
          "rate_limit_blocked" ip none,
      err ip_currently_blocked,
    )
    else count_request m now ip (reset_window info now)

unfoldable pub check_rate_limit : SecurityManager → ℕ → String → SecurityManager × Result Bool
check_rate_limit m now ip = check_entry m now ip (rate_info m now ip)

unfoldable pub block_ip : SecurityManager → ℕ → String → ℕ → SecurityManager × Result (Unit {0})
unfolding record_security_event
block_ip m now ip duration = (
  record_security_event (record m { blocked_ips = insert ip (now + duration) m.blocked_ips }) now
      "ip_blocked" ip (some duration),
  ok tt,
)

unfoldable pub clean_attempts : BruteForceInfo → ℕ → BruteForceInfo
clean_attempts info now =
    if ltb (info.first_attempt + brute_force_window) now
    then record info { failed_attempts = 0; first_attempt = now }
    else info

unfoldable pub detect_brute_force : SecurityManager → ℕ → String → SecurityManager × Result Bool
unfolding clean_attempts block_ip record_security_event
detect_brute_force m now ip =
    let info = brute_info m now ip in
    let cleaned = clean_attempts info now in
    if info.detected
    then (record m { brute_force_data = insert ip info m.brute_force_data }, ok true)
    else if leb brute_force_threshold cleaned.failed_attempts
    then (
      (block_ip
          (record_security_event
            (record m {
              brute_force_data =
                  insert ip (record cleaned { detected = true; detection_time = some now })
                    m.brute_force_data;
              total_brute_force_detections = add64 m.total_brute_force_detections 1;
            })
            now "brute_force_detected" ip (some cleaned.failed_attempts))
          now ip default_block_duration).0,
      ok true,
    )
    else (record m { brute_force_data = insert ip cleaned m.brute_force_data }, ok false)

unfoldable pub add_failure : BruteForceInfo → ℕ → BruteForceInfo
add_failure info now = record info {
  failed_attempts = add64 info.failed_attempts 1;
  first_attempt = if info.failed_attempts == 0 then now else info.first_attempt;
  last_attempt = now;
}

unfoldable pub record_failed_attempt : SecurityManager → ℕ → String → SecurityManager
unfolding add_failure record_security_event
record_failed_attempt m now ip =
    record_security_event
      (record m {
        brute_force_data = insert ip (add_failure (brute_info m now ip) now) m.brute_force_data;
        total_failed_attempts = add64 m.total_failed_attempts 1;
      })
      now "failed_attempt" ip none

-- A login clears the entry of an address that has one.
clear_failures : String → Map String BruteForceInfo → Map String BruteForceInfo
clear_failures ip data_map = elim (lookup ip data_map) [
  | none ↦ data_map
  | some info ↦ insert ip (record info { failed_attempts = 0; detected = false }) data_map
]

unfoldable pub record_successful_login : SecurityManager → ℕ → String → SecurityManager
unfolding clear_failures record_security_event
record_successful_login m now ip =
    record_security_event
      (record m {
        brute_force_data = clear_failures ip m.brute_force_data;
        total_successful_logins = add64 m.total_successful_logins 1;
      })
      now "successful_login" ip none

unfoldable pub is_ip_blocked : SecurityManager → ℕ → String → SecurityManager × Bool
is_ip_blocked m now ip = elim (lookup ip m.blocked_ips) [
  | none ↦ (m, false)
  | some until ↦
      if ltb until now
      then (record m { blocked_ips = erase ip m.blocked_ips }, false)
      else (m, true)
]

unfoldable pub get_blocked_ip_count : SecurityManager → ℕ → ℕ
get_blocked_ip_count m now = count (λ until. leb now until) m.blocked_ips

unfoldable pub collect_blocked : ℕ → Map String ℕ → List String
collect_blocked now [] = []
collect_blocked now ((ip, until) ∷ rest) =
    if leb now until then ip ∷ collect_blocked now rest else collect_blocked now rest

unfoldable pub get_blocked_ips : SecurityManager → ℕ → List String
unfolding collect_blocked
get_blocked_ips m now = collect_blocked now m.blocked_ips

abbrev pub get_brute_force_attempts : SecurityManager → ℕ
get_brute_force_attempts m = m.total_failed_attempts
