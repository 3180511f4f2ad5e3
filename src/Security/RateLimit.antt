-- ===== src/Security/RateLimit.antt =====
-- `check_rate_limit` (security_manager.cpp) over any sequence of requests from any addresses.
use zero_trust_secure_sessio.Common.{
  ℕ, ◌+◌, ◌≤◌, ◌<◌, ◌≡◌, refl, sym, ap, ◌∙◌, inl, inr, Bool, true, false, ◌&&◌, List, [], ◌∷◌,
  String, some, arith, leb, string_eq, ◌==◌, if◌then◌else◌, All, lookup, insert, lookup-insert,
  lookup-insert_self, Bool-cases, Option-cases,
}
use zero_trust_secure_sessio.Types.{
  ip_currently_blocked, rate_limit_exceeded, Result, ok, err, has_value,
}
use zero_trust_secure_sessio.Security.{
  SecurityManager, RateLimitInfo, rate_info, is_rate_blocked, reset_window, check_entry,
  check_rate_limit, rate_limit_max_requests, rate_limit_window, default_block_duration,
}

-- What one request makes of its address's entry, and whether it passes.
unfoldable pub next_info : RateLimitInfo → ℕ → RateLimitInfo
unfolding reset_window
next_info info now =
    let w = reset_window info now in
    if is_rate_blocked info now
    then info
    else if leb rate_limit_max_requests w.request_count
    then record w { blocked = true; block_until = some (now + default_block_duration) }
    else record w { request_count = w.request_count + 1 }

unfoldable pub verdict : RateLimitInfo → ℕ → Result Bool
unfolding reset_window
verdict info now =
    if is_rate_blocked info now
    then err ip_currently_blocked
    else if leb rate_limit_max_requests (reset_window info now).request_count
    then err rate_limit_exceeded
    else ok true

check_entry_lem :
    (m : SecurityManager) (now : ℕ) (ip : String) (info : RateLimitInfo)
    → ((check_entry m now ip info).1 ≡ verdict info now)
      × ((check_entry m now ip info).0.rate_limits ≡ insert ip (next_info info now) m.rate_limits)
unfolding check_entry next_info verdict
check_entry_lem m now ip info = ground arith

pub check_rate_limit_lem :
    (m : SecurityManager) (now : ℕ) (ip : String)
    → ((check_rate_limit m now ip).1 ≡ verdict (rate_info m now ip) now)
      × ((check_rate_limit m now ip).0.rate_limits
          ≡ insert ip (next_info (rate_info m now ip) now) m.rate_limits)
unfolding check_rate_limit
check_rate_limit_lem m now ip = check_entry_lem m now ip (rate_info m now ip)

-- No window counts more than a hundred requests.
abbrev pub IsBounded : SecurityManager → Type 0
IsBounded m =
    (ip : String) (info : RateLimitInfo)
    → lookup ip m.rate_limits ≡ some info
    → info.request_count ≤ rate_limit_max_requests

next_info_bounded :
    (info : RateLimitInfo) (now : ℕ)
    → info.request_count ≤ rate_limit_max_requests
    → (next_info info now).request_count ≤ rate_limit_max_requests
unfolding next_info
next_info_bounded info now h = ground arith

rate_info_bounded :
    (m : SecurityManager) (now : ℕ) (ip : String)
    → IsBounded m
    → (rate_info m now ip).request_count ≤ rate_limit_max_requests
rate_info_bounded m now ip b = elim (Option-cases (lookup ip m.rate_limits)) [
  | inl e ↦ rw e (omega arith)
  | inr (info, e) ↦ rw e (b ip info e)
]

-- If no count is above the limit, none is after `check_rate_limit`, whatever the address and the
-- time.
pub check_rate_limit-IsBounded :
    (m : SecurityManager) (now : ℕ) (ip : String)
    → IsBounded m
    → IsBounded (check_rate_limit m now ip).0
check_rate_limit-IsBounded m now ip b j info h = ground (
  arith,
  (check_rate_limit_lem m now ip).1,
  lookup-insert ip j (next_info (rate_info m now ip) now) m.rate_limits,
  next_info_bounded (rate_info m now ip) now (rate_info_bounded m now ip b),
  b j info,
)

-- How many requests of one address pass, in a sequence of requests of all addresses.
pub grants : String → SecurityManager → List (ℕ × String) → ℕ
grants ip m [] = 0
grants ip m ((now, j) ∷ calls) =
    (if j == ip && has_value (check_rate_limit m now j).1 then 1 else 0)
    + grants ip (check_rate_limit m now j).0 calls

lookup_other :
    (m : SecurityManager) (now : ℕ) (ip j : String)
    → (j == ip) ≡ false
    → lookup ip (check_rate_limit m now j).0.rate_limits ≡ lookup ip m.rate_limits
lookup_other m now ip j h = ground (
  arith,
  (check_rate_limit_lem m now j).1,
  lookup-insert j ip (next_info (rate_info m now j) now) m.rate_limits,
)

lookup_same :
    (m : SecurityManager) (now : ℕ) (ip : String) (info : RateLimitInfo)
    → lookup ip m.rate_limits ≡ some info
    → (lookup ip (check_rate_limit m now ip).0.rate_limits ≡ some (next_info info now))
      × ((check_rate_limit m now ip).1 ≡ verdict info now)
lookup_same m now ip info h =
    ground (
      arith,
      check_rate_limit_lem m now ip,
      lookup-insert_self ip (next_info info now) m.rate_limits,
    )

within_window :
    (info : RateLimitInfo) (now : ℕ)
    → now < info.window_start + rate_limit_window
    → info.request_count ≤ rate_limit_max_requests
    → ((next_info info now).window_start ≡ info.window_start)
      × ((next_info info now).request_count
          ≡ info.request_count + (if has_value (verdict info now) then 1 else 0))
      × ((next_info info now).request_count ≤ rate_limit_max_requests)
unfolding next_info verdict
within_window info now lt le = ground arith

-- While the window of an address lasts, its requests that pass are, together with those already
-- counted, at most a hundred, whatever other addresses do in between.
pub grants-window :
    (ip : String) (m : SecurityManager) (info : RateLimitInfo) (calls : List (ℕ × String))
    → lookup ip m.rate_limits ≡ some info
    → info.request_count ≤ rate_limit_max_requests
    → All (λ c. c.0 < info.window_start + rate_limit_window) calls
    → grants ip m calls + info.request_count ≤ rate_limit_max_requests
unfolding grants
grants-window ip m info [] found le times = omega arith
grants-window ip m info ((now, j) ∷ calls) found le (lt, times) = elim (Bool-cases (j == ip)) [
  | inl same ↦
      let (stored, result) = lookup_same m now ip info found in
      let (start, more, bound) = within_window info now lt le in
      let ih =
        grants-window ip (check_rate_limit m now ip).0 (next_info info now) calls stored bound
          (rw start times) in
      rw (same, (string_eq.equal_iff j ip).0 same, result) (omega (arith, ih, more))
  | inr other ↦ rw other (
      omega (
        arith,
        grants-window ip (check_rate_limit m now j).0 info calls
            (lookup_other m now ip j other ∙ found) le times,
      ))
]

blocked_stays :
    (info : RateLimitInfo) (until now : ℕ)
    → info.blocked ≡ true
    → info.block_until ≡ some until
    → now < until
    → (next_info info now ≡ info) × (verdict info now ≡ err ip_currently_blocked)
unfolding next_info verdict
blocked_stays info until now b u lt = ground arith

grants_blocked :
    (ip : String) (m : SecurityManager) (info : RateLimitInfo) (until : ℕ)
    (calls : List (ℕ × String))
    → lookup ip m.rate_limits ≡ some info
    → info.blocked ≡ true
    → info.block_until ≡ some until
    → All (λ c. c.0 < until) calls
    → grants ip m calls ≡ 0
unfolding grants
grants_blocked ip m info until [] found b u times = refl
grants_blocked ip m info until ((now, j) ∷ calls) found b u (lt, times) =
    elim (Bool-cases (j == ip)) [
      | inl same ↦
          let (stored, result) = lookup_same m now ip info found in
          let (keeps, refused) = blocked_stays info until now b u lt in
          let ih =
            grants_blocked ip (check_rate_limit m now ip).0 info until calls
              (stored ∙ ap some keeps) b u times in
          rw (same, (string_eq.equal_iff j ip).0 same, result, refused) (omega (arith, ih))
      | inr other ↦ rw other (
          omega (
            arith,
            grants_blocked ip (check_rate_limit m now j).0 info until calls
                (lookup_other m now ip j other ∙ found) b u times,
          ))
    ]

exceeded :
    (info : RateLimitInfo) (now : ℕ)
    → verdict info now ≡ err rate_limit_exceeded
    → ((next_info info now).blocked ≡ true)
      × ((next_info info now).block_until ≡ some (now + default_block_duration))
unfolding next_info verdict
exceeded info now h = ground arith

-- A request that exceeds the limit blocks its address for an hour: no request of it passes in
-- that time, whatever requests are made.
pub grants-exceeded :
    (ip : String) (m : SecurityManager) (now : ℕ) (calls : List (ℕ × String))
    → (check_rate_limit m now ip).1 ≡ err rate_limit_exceeded
    → All (λ c. c.0 < now + default_block_duration) calls
    → grants ip (check_rate_limit m now ip).0 calls ≡ 0
grants-exceeded ip m now calls h times =
    let (result, limits) = check_rate_limit_lem m now ip in
    let info : RateLimitInfo = rate_info m now ip in
    let (b, u) = exceeded info now (sym result ∙ h) in
    grants_blocked ip (check_rate_limit m now ip).0 (next_info info now)
      (now + default_block_duration) calls
      (rw limits (lookup-insert_self ip (next_info info now) m.rate_limits)) b u times
