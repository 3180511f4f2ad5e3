-- ===== src/Security/Blocking.antt =====
-- `block_ip`, `is_ip_blocked` and the lists of blocked addresses (security_manager.cpp).
use zero_trust_secure_sessio.Common.{
  ℕ, ◌+◌, ◌≤◌, ◌≡◌, refl, ap, ◌∙◌, inl, inr, Bool, false, not, [], ◌∷◌, String, Option, none, some,
  arith, ltb, leb, string_eq, ◌==◌, if◌then◌else◌, Map, lookup, length, count, lookup-insert,
  lookup-erase, lookup-retain, IsUnique, Option-cases, contains,
}
use zero_trust_secure_sessio.Security.{
  SecurityManager, block_ip, is_ip_blocked, get_blocked_ip_count, get_blocked_ips, collect_blocked,
}
use zero_trust_secure_sessio.Security.Cleanup.{cleanup_expired_data}

-- A blocked address is reported blocked up to and including the end of the block, and not after
-- it; a call for one address changes no answer about another, at any time.
pub is_ip_blocked-block_ip :
    (m : SecurityManager) (now t : ℕ) (ip j : String) (duration : ℕ)
    → (is_ip_blocked (block_ip m now ip duration).0 t j).1
      ≡ (if ip == j then leb t (now + duration) else (is_ip_blocked m t j).1)
unfolding is_ip_blocked block_ip
is_ip_blocked-block_ip m now t ip j duration =
    ground (arith, lookup-insert ip j (now + duration) m.blocked_ips)

-- Asking about one address, and the removal of a block that has ended, change no later answer.
pub is_ip_blocked_again :
    (m : SecurityManager) (now t : ℕ) (ip j : String)
    → now ≤ t
    → (is_ip_blocked (is_ip_blocked m now ip).0 t j).1 ≡ (is_ip_blocked m t j).1
unfolding is_ip_blocked
is_ip_blocked_again m now t ip j le = ground (
  arith,
  lookup-erase ip j m.blocked_ips,
  string_eq.equal_iff ip j,
  ap (λ (k : String). lookup k m.blocked_ips) {x = ip} {y = j},
)

-- The worker thread's cleanup changes no answer of `is_ip_blocked`, at its own time or later.
pub is_ip_blocked-cleanup_expired_data :
    (m : SecurityManager) (now t : ℕ) (ip : String)
    → IsUnique m.blocked_ips
    → now ≤ t
    → (is_ip_blocked (cleanup_expired_data m now) t ip).1 ≡ (is_ip_blocked m t ip).1
unfolding is_ip_blocked cleanup_expired_data
is_ip_blocked-cleanup_expired_data m now t ip u le = elim (Option-cases (lookup ip m.blocked_ips)) [
  | inl e ↦ ground (arith, lookup-retain (λ until. not (ltb until now)) ip m.blocked_ips u)
  | inr (until, e) ↦ ground (arith, lookup-retain (λ until. not (ltb until now)) ip m.blocked_ips u)
]

length-collect_blocked :
    (now : ℕ) (b : Map String ℕ) → length (collect_blocked now b) ≡ count (λ until. leb now until) b
unfolding collect_blocked
length-collect_blocked now [] = refl
length-collect_blocked now ((ip, until) ∷ b) = ground (arith, length-collect_blocked now b)

contains_absent :
    (now : ℕ) (ip : String) (b : Map String ℕ)
    → lookup ip b ≡ none
    → contains (collect_blocked now b) ip ≡ false
unfolding collect_blocked lookup
contains_absent now ip [] h = refl
contains_absent now ip ((j, until) ∷ b) h = ground (arith, contains_absent now ip b)

reports : ℕ → Option ℕ → Bool
reports now none = false
reports now (some until) = leb now until

contains-collect_blocked :
    (now : ℕ) (ip : String) (b : Map String ℕ)
    → IsUnique b
    → contains (collect_blocked now b) ip ≡ reports now (lookup ip b)
unfolding collect_blocked lookup reports
contains-collect_blocked now ip [] u = refl
contains-collect_blocked now ip ((j, until) ∷ b) (h, u) = ground (
  arith,
  string_eq.equal_iff j ip,
  contains-collect_blocked now ip b u,
  contains_absent now j b h,
  ap (λ (k : String). contains (collect_blocked now b) k) {x = j} {y = ip},
)

-- The listed addresses are those that are reported blocked, as many as the counter says.
pub get_blocked_ips_lem :
    (m : SecurityManager) (now : ℕ) (ip : String)
    → IsUnique m.blocked_ips
    → (contains (get_blocked_ips m now) ip ≡ (is_ip_blocked m now ip).1)
      × (length (get_blocked_ips m now) ≡ get_blocked_ip_count m now)
unfolding get_blocked_ips get_blocked_ip_count is_ip_blocked reports
get_blocked_ips_lem m now ip u = (
  contains-collect_blocked now ip m.blocked_ips u ∙ ground arith,
  length-collect_blocked now m.blocked_ips,
)
