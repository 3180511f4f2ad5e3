-- ===== src/Session/Ids/Lengths.antt =====
-- How long the generated identifiers are (session_manager.cpp).
use Prim.Native.String
use text.Mathlib.TextLemmas.{nil-append, cons-append}
use zero_trust_secure_sessio.Common.{
  ℕ, zero, suc, ◌+◌, ◌%◌, ◌/◌, ◌≤◌, ◌<◌, ◌≡◌, ◌≢◌, ap, true, List, [], ◌∷◌, String, some, arith,
  length, codes, All, Map, has_key, Bool-cases, inl, inr, subst, string_eq,
}
use zero_trust_secure_sessio.Types.{Session}
use zero_trust_secure_sessio.Types.Utils.{is_valid_session_id}
use zero_trust_secure_sessio.Session.Ids.{
  hex_digits, hex_digit, hex_byte, hex_draws, generate_session_id, fresh_id, session_id_size,
}

abbrev size : String → ℕ
size s = length (codes s)

size-append : (s t : String) → size (String.◌++◌ s t) ≡ size s + size t
size-append String.[] t = rw (nil-append t) (omega arith)
size-append (String.◌∷◌ c s) t = rw (cons-append c s t) (omega (arith, size-append s t))

size-hex_digit :
    (ds : List String) (i : ℕ)
    → All (λ d. size d ≡ 1) ds
    → i < length ds
    → size (hex_digit ds i) ≡ 1
unfolding hex_digit
size-hex_digit [] i a lt = absurd (omega arith)
size-hex_digit (d ∷ ds) zero (h, a) lt = h
size-hex_digit (d ∷ ds) (suc i) (h, a) lt = size-hex_digit ds i a (omega arith)

size-hex_digits : All (λ d. size d ≡ 1) hex_digits
size-hex_digits = ground arith

-- The second digit is always there; the first is, for a byte.
size-hex_byte : (b : ℕ) → 1 ≤ size (hex_byte b)
unfolding hex_byte
size-hex_byte b = omega (
  arith,
  size-append (hex_digit hex_digits (b / 16)) (hex_digit hex_digits (b % 16)),
  size-hex_digit hex_digits (b % 16) size-hex_digits (omega arith),
)

size-hex_draws : (draw : ℕ → ℕ) (position n : ℕ) → n ≤ size (hex_draws draw position n)
unfolding hex_draws
size-hex_draws draw position zero = omega arith
size-hex_draws draw position (suc n) = omega (
  arith,
  size-append (hex_byte (draw position)) (hex_draws draw (position + 1) n),
  size-hex_byte (draw position),
  size-hex_draws draw (position + 1) n,
)

size-generate_session_id :
    (draw : ℕ → ℕ) (position : ℕ) → 32 ≤ size (generate_session_id draw position)
unfolding generate_session_id
size-generate_session_id draw position = size-hex_draws draw position 32

pub size-fresh_id :
    (draw : ℕ → ℕ) (m : Map String Session) (fuel position : ℕ) {id : String} {q : ℕ}
    → fresh_id draw m fuel position ≡ some (id, q)
    → 32 ≤ size id
unfolding fresh_id
size-fresh_id draw m zero position h = cc
size-fresh_id draw m (suc fuel) position {id} {q} h =
    elim (Bool-cases (has_key (generate_session_id draw position) m)) [
      | inl taken ↦
          size-fresh_id draw m fuel (position + session_id_size) {id = id} {q = q}
            (ground (arith, h, taken))
      | inr free ↦
          let same : generate_session_id draw position ≡ id = ground (arith, h, free) in
          subst (λ t. 32 ≤ size t) same (size-generate_session_id draw position)
    ]

pub fresh_id_valid :
    (draw : ℕ → ℕ) (m : Map String Session) (fuel position : ℕ) {id : String} {q : ℕ}
    → fresh_id draw m fuel position ≡ some (id, q)
    → is_valid_session_id id ≡ true
unfolding is_valid_session_id
fresh_id_valid draw m fuel position {id} h =
    let long : 32 ≤ size id = size-fresh_id draw m fuel position h in
    let named : id ≢ "" = λ e. omega (arith, long, ap size e) in
    ground (arith, long, named, string_eq.equal_iff id "")
