-- ===== src/Common/Words.antt =====
-- `size_t` counters, and the clock: a `TimePoint` is a number of nanoseconds.
use Prim.Native.Nat.{ℕ, ◌+◌, ◌*◌, ◌%◌, ◌^◌}

-- `fetch_add` on a 64-bit counter.
abbrev pub add64 : ℕ → ℕ → ℕ
add64 a b = (a + b) % 2 ^ 64

abbrev pub seconds : ℕ → ℕ
seconds n = n * 1000000000

abbrev pub milliseconds : ℕ → ℕ
milliseconds n = n * 1000000
