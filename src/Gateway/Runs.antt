-- ===== src/Gateway/Runs.antt =====
-- What the calls of gateway_server.cpp add up to.
use native.Mathlib.Nat.{add-mul}
use zero_trust_secure_sessio.Common.{
  ℕ, ◌+◌, ◌*◌, ◌%◌, ◌^◌, ◌<◌, ◌≡◌, refl, ap, subst, ◌∙◌, inl, inr, Bool, true, false, not, ◌&&◌,
  Option, none, some, arith, add64, Bool-cases, Option-cases,
}
use zero_trust_secure_sessio.Gateway.{
  Network, GatewayServer, GatewayResult, GatewayError, get_active_connection_count,
  get_total_connection_count, done_with, failed_with, start, stop, connected, accept_error,
  handle_accept, start_accept, start_io_threads, logged, register_connection,
}

-- One call that returns, on a server that `initialize` has set up: a call of `start`, a call of
-- `stop`, or an accept that ends. The first count is of the calls that start threads, the second of
-- the connections that are accepted.
pub data Step (net : Network) (g : GatewayServer) : GatewayServer → ℕ → ℕ → Type 0 where
  start_done : (g' : GatewayServer) → start g ≡ some (g', done_with) → Step net g g' 1 0
  refused :
      (g' : GatewayServer) (e : GatewayError)
      → start g ≡ some (g', failed_with e)
      → Step net g g' 0 0
  stopped : (g' : GatewayServer) (r : GatewayResult) → stop net g ≡ some (g', r) → Step net g g' 0 0
  accepted :
      (g' : GatewayServer) (has_peer : Bool)
      → handle_accept g (connected has_peer) ≡ some g'
      → Step net g g' 0 1
  accept_failed : (g' : GatewayServer) → handle_accept g accept_error ≡ some g' → Step net g g' 0 0

pub data Calls (net : Network) (g : GatewayServer) : GatewayServer → ℕ → ℕ → Type 0 where
  begin : Calls net g g 0 0
  step :
      {g' : GatewayServer} {starts accepts s a : ℕ} (g'' : GatewayServer)
      → Calls net g g' starts accepts
      → Step net g' g'' s a
      → Calls net g g'' (starts + s) (accepts + a)

-- The threads per start, the threads, and the two counters of connections.
abbrev Counts : Type 0
Counts = ℕ × ℕ × ℕ × ℕ

abbrev counts : GatewayServer → Counts
counts g = (g.thread_count, g.io_threads, g.active_connections, g.total_connections)

abbrev with_threads : Counts → Counts
with_threads (per_start, threads, active, total) = (per_start, threads + per_start, active, total)

abbrev with_connection : Counts → Counts
with_connection (per_start, threads, active, total) =
    (per_start, threads, add64 active 1, add64 total 1)

abbrev Has : Counts → Option GatewayServer → Type 0
Has n none = Unit
Has n (some g) = counts g ≡ n

-- The counts that a call leaves, by its answer.
abbrev Answers : Counts → Counts → Option (GatewayServer × GatewayResult) → Type 0
Answers n k none = Unit
Answers n k (some (g, done_with)) = counts g ≡ n
Answers n k (some (g, failed_with e)) = counts g ≡ k

start_accept-Has : (g : GatewayServer) → Has (counts g) (start_accept g)
unfolding start_accept
start_accept-Has g = elim (Bool-cases (not g.running)) [
  | inl e ↦ rw (e, start_accept) refl
  | inr e ↦ elim (Option-cases g.acceptor) [
    | inl missing ↦ rw (e, missing, start_accept) tt
    | inr (is_open, found) ↦ rw (e, found, start_accept) refl
  ]
]

logged-Answers :
    (b : Bool) (g : GatewayServer) (n k : Counts) → counts g ≡ n → Answers n k (logged b g)
logged-Answers false g n k e = tt
logged-Answers true g n k e = e

start-Answers : (g : GatewayServer) → Answers (with_threads (counts g)) (counts g) (start g)
unfolding start
start-Answers g = elim (Bool-cases g.running) [
  | inl e ↦ rw (e, start) refl
  | inr e ↦
      rw (e, start)
        (accepting (start_accept (start_io_threads (record g { running = true })))
          (start_accept-Has (start_io_threads (record g { running = true }))))
]
  where
    accepting :
        (o : Option GatewayServer)
        → Has (with_threads (counts g)) o
        → Answers
            (with_threads (counts g))
            (counts g)
            (elim o [ none ↦ none | some g' ↦ logged g'.has_logger g' ])
    accepting none h = tt
    accepting (some g') h = logged-Answers g'.has_logger g' _ _ h

stop-Answers :
    (net : Network) (g : GatewayServer)
    → net.cancel_throws false ≡ true
    → Answers (counts g) (counts g) (stop net g)
unfolding stop
stop-Answers net g throws = elim (Bool-cases (not g.running)) [
  | inl e ↦ rw (e, stop) refl
  | inr e ↦ elim (Option-cases g.acceptor) [
    | inl missing ↦ rw (e, missing, stop) tt
    | inr (is_open, found) ↦ elim (Bool-cases net.close_throws) [
      | inl c ↦ rw (e, found, c, stop) refl
      | inr c ↦ rw (e, found, c, throws, stop) refl
    ]
  ]
]

accept-Has :
    (g : GatewayServer) (has_peer : Bool)
    → Has (with_connection (counts g)) (handle_accept g (connected has_peer))
      × Has (counts g) (handle_accept g accept_error)
unfolding handle_accept
accept-Has g has_peer = (
  elim (Bool-cases (g.has_logger && not has_peer)) [
    | inl e ↦ rw (e, handle_accept) tt
    | inr e ↦
        rw (e, handle_accept)
          (start_accept-Has (register_connection (record g { accepting = false })))
  ],
  start_accept-Has (record g { accepting = false }),
)

answered :
    {n : Counts} (g : GatewayServer) (r : GatewayResult) → Answers n n (some (g, r)) → counts g ≡ n
answered g done_with h = h
answered g (failed_with e) h = h

-- What is left of the threads by a step, and by calls one after the other.
Step-threads :
    {net : Network} {g g' : GatewayServer} {s a : ℕ}
    → net.cancel_throws false ≡ true
    → Step net g g' s a
    → (g'.thread_count ≡ g.thread_count) × (g'.io_threads ≡ g.io_threads + s * g.thread_count)
Step-threads {g = g} throws (start_done g' h) =
    let e = subst (Answers (with_threads (counts g)) (counts g)) h (start-Answers g) in
    (ap (λ n. n.0) e, omega (arith, ap (λ n. n.1) e))
Step-threads {g = g} throws (refused g' error h) =
    let e = subst (Answers (with_threads (counts g)) (counts g)) h (start-Answers g) in
    (ap (λ n. n.0) e, omega (arith, ap (λ n. n.1) e))
Step-threads {net} {g = g} throws (stopped g' r h) =
    let e = answered g' r (subst (Answers (counts g) (counts g)) h (stop-Answers net g throws)) in
    (ap (λ n. n.0) e, omega (arith, ap (λ n. n.1) e))
Step-threads {g = g} throws (accepted g' has_peer h) =
    let e = subst (Has (with_connection (counts g))) h (accept-Has g has_peer).0 in
    (ap (λ n. n.0) e, omega (arith, ap (λ n. n.1) e))
Step-threads {g = g} throws (accept_failed g' h) =
    let e = subst (Has (counts g)) h (accept-Has g true).1 in
    (ap (λ n. n.0) e, omega (arith, ap (λ n. n.1) e))

-- Where closing the acceptor makes its `cancel` throw, as a closed acceptor does: no call of `stop`
-- joins a thread. The threads of each successful start stay, whatever stops come between, and are
-- joined by those of the next.
pub io_threads-Calls :
    {net : Network} {g g' : GatewayServer} {s a : ℕ}
    → net.cancel_throws false ≡ true
    → Calls net g g' s a
    → (g'.thread_count ≡ g.thread_count) × (g'.io_threads ≡ g.io_threads + s * g.thread_count)
io_threads-Calls throws begin = (refl, omega arith)
io_threads-Calls {g = g} throws (step {g'} {starts} {accepts} {s} g'' before last) =
    let (same, threads) = io_threads-Calls throws before in
    let (same', threads') = Step-threads throws last in
    let each : s * g'.thread_count ≡ s * g.thread_count = ap (λ n. s * n) same in
    (same' ∙ same, omega (arith, threads, threads', each, add-mul starts s g.thread_count))

abbrev connections : GatewayServer → ℕ × ℕ
connections g = (g.active_connections, g.total_connections)

abbrev HasConnections : ℕ × ℕ → Option (GatewayServer × GatewayResult) → Type 0
HasConnections n none = Unit
HasConnections n (some (g, r)) = connections g ≡ n

stop-HasConnections :
    (net : Network) (g : GatewayServer) → HasConnections (connections g) (stop net g)
unfolding stop
stop-HasConnections net g = elim (Bool-cases (not g.running)) [
  | inl e ↦ rw (e, stop) refl
  | inr e ↦ elim (Option-cases g.acceptor) [
    | inl missing ↦ rw (e, missing, stop) tt
    | inr (is_open, found) ↦ elim (Bool-cases net.close_throws) [
      | inl c ↦ rw (e, found, c, stop) refl
      | inr c ↦ elim (Bool-cases (net.cancel_throws false)) [
        | inl t ↦ rw (e, found, c, t, stop) refl
        | inr t ↦ elim (Bool-cases g.has_logger) [
          | inl l ↦ rw (e, found, c, t, l, stop) refl
          | inr l ↦ rw (e, found, c, t, l, stop) tt
        ]
      ]
    ]
  ]
]

Step-connections :
    {net : Network} {g g' : GatewayServer} {s a : ℕ}
    → Step net g g' s a
    → g.active_connections < 2 ^ 64
    → g.total_connections < 2 ^ 64
    → (g'.active_connections ≡ (g.active_connections + a) % 2 ^ 64)
      × (g'.total_connections ≡ (g.total_connections + a) % 2 ^ 64)
Step-connections {g = g} (start_done g' h) k l =
    let e = subst (Answers (with_threads (counts g)) (counts g)) h (start-Answers g) in
    (omega (arith, k, ap (λ n. n.2) e), omega (arith, l, ap (λ n. n.3) e))
Step-connections {g = g} (refused g' error h) k l =
    let e = subst (Answers (with_threads (counts g)) (counts g)) h (start-Answers g) in
    (omega (arith, k, ap (λ n. n.2) e), omega (arith, l, ap (λ n. n.3) e))
Step-connections {net} {g = g} (stopped g' r h) k l =
    let e = subst (HasConnections (connections g)) h (stop-HasConnections net g) in
    (omega (arith, k, ap (λ n. n.0) e), omega (arith, l, ap (λ n. n.1) e))
Step-connections {g = g} (accepted g' has_peer h) k l =
    let e = subst (Has (with_connection (counts g))) h (accept-Has g has_peer).0 in
    (ap (λ n. n.2) e, ap (λ n. n.3) e)
Step-connections {g = g} (accept_failed g' h) k l =
    let e = subst (Has (counts g)) h (accept-Has g true).1 in
    (omega (arith, k, ap (λ n. n.2) e), omega (arith, l, ap (λ n. n.3) e))

-- After any calls on a server whose counters are in range, both counters of connections have grown,
-- modulo 2 ^ 64, by the connections accepted since: none ever counts as closed.
pub get_active_connection_count-Calls :
    {net : Network} {g g' : GatewayServer} {s a : ℕ}
    → g.active_connections < 2 ^ 64
    → g.total_connections < 2 ^ 64
    → Calls net g g' s a
    → (get_active_connection_count g' ≡ (get_active_connection_count g + a) % 2 ^ 64)
      × (get_total_connection_count g' ≡ (get_total_connection_count g + a) % 2 ^ 64)
get_active_connection_count-Calls {g = g} k l begin = (omega (arith, k), omega (arith, l))
get_active_connection_count-Calls {g = g} k l
      (step {g'} {starts} {accepts} {s} {a} g'' before last) =
    let (active, total) = get_active_connection_count-Calls k l before in
    let (active', total') = Step-connections last (omega (arith, active)) (omega (arith, total)) in
    (omega (arith, active, active'), omega (arith, total, total'))
