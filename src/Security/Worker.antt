-- ===== src/Security/Worker.antt =====
-- What `cleanup_expired_data` (security_manager.cpp) leaves.
use zero_trust_secure_sessio.Common.{
  ℕ, ◌+◌, ◌*◌, ◌≤◌, ◌<◌, ◌≡◌, refl, sym, ap, ◌∙◌, ◌⊎◌, inl, inr, false, ◌&&◌, List, [], ◌∷◌, ◌++◌,
  String, Option, none, some, arith, ltb, leb, string_eq, nat_eq, ◌==◌, if◌then◌else◌, Map, lookup,
  length, Bool-cases, IsUnique,
}
use zero_trust_secure_sessio.Security.{
  SecurityManager, RateLimitInfo, InternalSecurityEvent, new_rate_limit, entry, rate_info,
  check_rate_limit, is_rate_blocked, max_security_events, rate_limit_window, default_block_duration,
  rate_limit_max_requests,
}
use zero_trust_secure_sessio.Security.RateLimit.{verdict, next_info, check_rate_limit_lem}
use zero_trust_secure_sessio.Security.Cleanup.{
  cleanup_expired_data, clean_rate_limits, expire_block, pop_events,
}

pop_events_lem :
    (most : ℕ) (es : List InternalSecurityEvent)
    → (dropped : List InternalSecurityEvent) × (es ≡ dropped ++ pop_events most es)
      × (length (pop_events most es) ≤ most)
      × ((length es ≤ most) × (dropped ≡ []) ⊎ (length (pop_events most es) ≡ most))
unfolding pop_events
pop_events_lem most [] = ([], refl, omega arith, inl (omega arith, refl))
pop_events_lem most (e ∷ es) = elim (Bool-cases (ltb most (length (e ∷ es)))) [
  | inl long ↦
      let (dropped, split, bound, rest) = pop_events_lem most es in
      rw long (e ∷ dropped, ap (◌∷◌ e) split, bound, ground arith)
  | inr short ↦ rw short ([], refl, ground arith, inl (ground arith, refl))
]

-- The cleanup drops the oldest events only, and only as many as exceed ten thousand.
pub cleanup_expired_data-security_events :
    (m : SecurityManager) (now : ℕ)
    → let kept = (cleanup_expired_data m now).security_events in
      (dropped : List InternalSecurityEvent) × (m.security_events ≡ dropped ++ kept)
      × (length kept ≤ max_security_events)
      × (((length m.security_events ≤ max_security_events) × (dropped ≡ []))
          ⊎ (length kept ≡ max_security_events))
unfolding cleanup_expired_data
cleanup_expired_data-security_events m now = pop_events_lem max_security_events m.security_events

-- What the loop makes of one entry.
cleaned : ℕ → Option RateLimitInfo → Option RateLimitInfo
unfolding expire_block
cleaned now none = none
cleaned now (some info) =
    let info' = expire_block now info in
    if ltb (info'.window_start + rate_limit_window * 2) now && info'.request_count == 0
    then none
    else some info'

lookup-clean_none :
    (now : ℕ) (ip : String) (b : Map String RateLimitInfo)
    → lookup ip b ≡ none
    → lookup ip (clean_rate_limits now b) ≡ none
unfolding clean_rate_limits lookup
lookup-clean_none now ip [] h = refl
lookup-clean_none now ip ((j, info) ∷ b) h = ground (arith, lookup-clean_none now ip b)

lookup-clean :
    (now : ℕ) (ip : String) (b : Map String RateLimitInfo)
    → IsUnique b
    → lookup ip (clean_rate_limits now b) ≡ cleaned now (lookup ip b)
unfolding clean_rate_limits lookup cleaned
lookup-clean now ip [] u = refl
lookup-clean now ip ((j, info) ∷ b) (h, u) = ground (
  arith,
  string_eq.equal_iff j ip,
  lookup-clean now ip b u,
  lookup-clean_none now j b h,
  ap (λ (k : String). lookup k (clean_rate_limits now b)) {x = j} {y = ip},
)

-- A blocked entry has counted requests, and its block outlasts its window.
abbrev pub IsSane : RateLimitInfo → Type 0
IsSane info =
    (info.blocked ≡ false)
    ⊎ ((0 < info.request_count)
        × (until : ℕ) × (info.block_until ≡ some until)
        × (info.window_start + rate_limit_window ≤ until))

-- Every request leaves its address's entry so, if the window did not start in the future.
pub next_info-IsSane :
    (info : RateLimitInfo) (now : ℕ)
    → info.window_start ≤ now
    → IsSane info
    → IsSane (next_info info now)
unfolding next_info
next_info-IsSane info now le s = elim (Bool-cases (is_rate_blocked info now)) [
  | inl held ↦ rw held s
  | inr passed ↦ elim (Bool-cases (leb (info.window_start + rate_limit_window) now)) [
    | inl old ↦ rw (passed, old) (inl refl)
    | inr current ↦ elim (Bool-cases (leb rate_limit_max_requests info.request_count)) [
      | inl full ↦
          rw (passed, current, full)
            (inr (ground arith, now + default_block_duration, refl, omega arith))
      | inr free ↦
          rw (passed, current, free)
            (elim s [ inl b ↦ inl b | inr (p, u, e, q) ↦ inr (omega arith, u, e, q) ])
    ]
  ]
]

verdict-cleaned :
    (info : RateLimitInfo) (now t : ℕ)
    → now ≤ t
    → IsSane info
    → verdict (entry (new_rate_limit t) (cleaned now (some info))) t ≡ verdict info t
unfolding verdict cleaned
verdict-cleaned info now t le s = ground arith

-- A cleanup does not change the verdict on the next request, at its own time or later, of an
-- address whose entry is sane, or that has none.
pub check_rate_limit-cleanup_expired_data :
    (m : SecurityManager) (now t : ℕ) (ip : String)
    → IsUnique m.rate_limits
    → now ≤ t
    → ((lookup ip m.rate_limits ≡ none)
        ⊎ ((info : RateLimitInfo) × (lookup ip m.rate_limits ≡ some info) × IsSane info))
    → (check_rate_limit (cleanup_expired_data m now) t ip).1 ≡ (check_rate_limit m t ip).1
unfolding cleanup_expired_data cleaned
check_rate_limit-cleanup_expired_data m now t ip u le known =
    (check_rate_limit_lem (cleanup_expired_data m now) t ip).0
    ∙ ap (λ (o : Option RateLimitInfo). verdict (entry (new_rate_limit t) o) t)
        (lookup-clean now ip m.rate_limits u)
    ∙ same_verdict known
    ∙ sym (check_rate_limit_lem m t ip).0
  where
    same_verdict :
        ((lookup ip m.rate_limits ≡ none)
          ⊎ ((info : RateLimitInfo) × (lookup ip m.rate_limits ≡ some info) × IsSane info))
        → verdict (entry (new_rate_limit t) (cleaned now (lookup ip m.rate_limits))) t
          ≡ verdict (rate_info m t ip) t
    same_verdict (inl e) = rw (e, cleaned)
    same_verdict (inr (info, e, s)) = rw e (verdict-cleaned info now t le s)
