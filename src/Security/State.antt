-- ===== src/Security/State.antt =====
-- The state of security_manager.cpp and its constants.
use zero_trust_secure_sessio.Common.{
  ℕ, Bool, List, [], String, Option, string_eq, nat_eq, Map, seconds, milliseconds,
}

abbrev pub rate_limit_max_requests : ℕ
rate_limit_max_requests = 100

abbrev pub rate_limit_window : ℕ
rate_limit_window = seconds 300

abbrev pub brute_force_threshold : ℕ
brute_force_threshold = 5

abbrev pub brute_force_window : ℕ
brute_force_window = seconds 900

abbrev pub default_block_duration : ℕ
default_block_duration = milliseconds 3600000

abbrev pub max_security_events : ℕ
max_security_events = 10000

pub record RateLimitInfo : Type 0 where
  pub request_count : ℕ
  pub window_start : ℕ
  pub block_until : Option ℕ
  pub blocked : Bool

pub record BruteForceInfo : Type 0 where
  pub failed_attempts : ℕ
  pub first_attempt : ℕ
  pub last_attempt : ℕ
  pub detection_time : Option ℕ
  pub detected : Bool

-- The address in the text, and the number that some texts hold.
pub record InternalSecurityEvent : Type 0 where
  pub event_type : String
  pub client_ip : String
  pub number : Option ℕ
  pub timestamp : ℕ

pub record SecurityManager : Type 0 where
  pub rate_limits : Map String RateLimitInfo
  pub brute_force_data : Map String BruteForceInfo
  pub blocked_ips : Map String ℕ
  pub security_events : List InternalSecurityEvent
  pub total_failed_attempts : ℕ
  pub total_successful_logins : ℕ
  pub total_brute_force_detections : ℕ

pub new_security_manager : SecurityManager
new_security_manager = record {
  rate_limits = [];
  brute_force_data = [];
  blocked_ips = [];
  security_events = [];
  total_failed_attempts = 0;
  total_successful_logins = 0;
  total_brute_force_detections = 0;
}
