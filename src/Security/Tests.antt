-- ===== src/Security/Tests.antt =====
-- Security controls at concrete inputs: the theorems' witnesses.
use zero_trust_secure_sessio.Common.{
  ◌+◌, ◌≤◌, ◌≡◌, refl, true, false, [], ◌∷◌, none, some, arith, lookup, string_eq, nat_eq,
}
use zero_trust_secure_sessio.Types.{err, rate_limit_exceeded}
use zero_trust_secure_sessio.Security.{
  SecurityManager, RateLimitInfo, BruteForceInfo, check_rate_limit, check_entry,
  rate_limit_max_requests,
}
use zero_trust_secure_sessio.Security.RateLimit.{IsBounded, grants, grants-window, grants-exceeded}

abbrev busy : RateLimitInfo
busy = record { request_count = 99; window_start = 0; block_until = none; blocked = false }

abbrev full : RateLimitInfo
full = record busy { request_count = 100 }

abbrev under_attack : BruteForceInfo
under_attack = record {
  failed_attempts = 6;
  first_attempt = 0;
  last_attempt = 9;
  detection_time = some 8;
  detected = true;
}

abbrev running : SecurityManager
running = record {
  rate_limits = ("10.0.0.1", busy) ∷ ("10.0.0.2", full) ∷ [];
  brute_force_data = ("10.0.0.2", under_attack) ∷ [];
  blocked_ips = ("10.0.0.2", 500) ∷ ("10.0.0.3", 90) ∷ [];
  security_events = [];
  total_failed_attempts = 6;
  total_successful_logins = 0;
  total_brute_force_detections = 1;
}

running-IsBounded : IsBounded running
unfolding lookup
running-IsBounded ip info h = ground arith

grants-window_example :
    grants "10.0.0.1" running ((5, "10.0.0.1") ∷ (6, "10.0.0.2") ∷ (7, "10.0.0.1") ∷ []) + 99
    ≤ rate_limit_max_requests
unfolding lookup
grants-window_example =
    grants-window "10.0.0.1" running busy ((5, "10.0.0.1") ∷ (6, "10.0.0.2") ∷ (7, "10.0.0.1") ∷ [])
      refl (omega arith) (omega arith)

exceeding : (check_rate_limit running 6 "10.0.0.2").1 ≡ err rate_limit_exceeded
unfolding check_rate_limit check_entry lookup
exceeding = refl

grants-exceeded_example :
    grants "10.0.0.2" (check_rate_limit running 6 "10.0.0.2").0 ((7, "10.0.0.2") ∷ []) ≡ 0
grants-exceeded_example =
    grants-exceeded "10.0.0.2" running 6 ((7, "10.0.0.2") ∷ []) exceeding (omega arith)
