-- ===== src/Security/Cleanup.antt =====
-- The four cleanups of security_manager.cpp, as the worker thread runs them.
use zero_trust_secure_sessio.Common.{
  ℕ, ◌+◌, ◌*◌, Bool, false, not, ◌&&◌, List, [], ◌∷◌, String, Option, none, some, ltb, leb,
  string_eq, nat_eq, ◌==◌, if◌then◌else◌, length, Map, retain,
}
use zero_trust_secure_sessio.Security.{
  RateLimitInfo, InternalSecurityEvent, SecurityManager, new_rate_limit, rate_limit_window,
  brute_force_window, max_security_events,
}

abbrev pub block_is_over : Option ℕ → ℕ → Bool
block_is_over none now = false
block_is_over (some until) now = leb until now

unfoldable pub expire_block : ℕ → RateLimitInfo → RateLimitInfo
expire_block now info =
    if info.blocked && block_is_over info.block_until now then new_rate_limit now else info

-- The loop changes the entries it passes, and erases the idle ones.
unfoldable pub clean_rate_limits : ℕ → Map String RateLimitInfo → Map String RateLimitInfo
unfolding expire_block
clean_rate_limits now [] = []
clean_rate_limits now ((ip, info) ∷ rest) =
    let info' = expire_block now info in
    let others = clean_rate_limits now rest in
    if ltb (info'.window_start + rate_limit_window * 2) now && info'.request_count == 0
    then others
    else (ip, info') ∷ others

unfoldable pub cleanup_rate_limits : SecurityManager → ℕ → SecurityManager
unfolding clean_rate_limits
cleanup_rate_limits m now = record m { rate_limits = clean_rate_limits now m.rate_limits }

unfoldable pub cleanup_brute_force_data : SecurityManager → ℕ → SecurityManager
cleanup_brute_force_data m now = record m {
  brute_force_data =
      retain (λ info. not (ltb (info.last_attempt + brute_force_window * 2) now))
        m.brute_force_data;
}

unfoldable pub cleanup_blocked_ips : SecurityManager → ℕ → SecurityManager
cleanup_blocked_ips m now = record m {
  blocked_ips = retain (λ until. not (ltb until now)) m.blocked_ips;
}

-- The oldest event stands first.
unfoldable pub pop_events : ℕ → List InternalSecurityEvent → List InternalSecurityEvent
pop_events most [] = []
pop_events most (e ∷ es) = if ltb most (length (e ∷ es)) then pop_events most es else e ∷ es

unfoldable pub cleanup_security_events : SecurityManager → SecurityManager
unfolding pop_events
cleanup_security_events m = record m {
  security_events = pop_events max_security_events m.security_events;
}

unfoldable pub cleanup_expired_data : SecurityManager → ℕ → SecurityManager
unfolding cleanup_rate_limits cleanup_brute_force_data cleanup_blocked_ips cleanup_security_events
cleanup_expired_data m now =
    cleanup_security_events
      (cleanup_blocked_ips (cleanup_brute_force_data (cleanup_rate_limits m now) now) now)
