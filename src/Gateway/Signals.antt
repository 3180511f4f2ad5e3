-- ===== src/Gateway/Signals.antt =====
-- The signals of gateway_server.cpp: `start` registers a handler that calls `stop`, and the handler
-- runs on one of the threads that `stop` joins. A thread that joins itself gets an exception, so
-- the threads from its own on are left as they are.
use zero_trust_secure_sessio.Common.{
  ℕ, ◌-◌, ◌≤◌, ◌<◌, ◌≡◌, Bool, true, false, not, Option, none, some, arith, nat_eq, if◌then◌else◌,
  Option-cases, Bool-cases, inl, inr,
}
use zero_trust_secure_sessio.Gateway.{
  Network, GatewayServer, GatewayResult, done_with, failed_with, server_stop_failed, stop,
}
use zero_trust_secure_sessio.Cli.Handlers.{is_destroyed}

-- `stop_io_threads` on a thread, with so many threads in front of it that are joined.
abbrev pub join_self : ℕ → GatewayServer → Option (GatewayServer × GatewayResult)
join_self joined g = some (
  record g {
    has_work_guard = false;
    accepting = false;
    io_stopped = true;
    io_threads = g.io_threads - joined;
  },
  failed_with server_stop_failed,
)

unfoldable pub stop_on_thread : Network → ℕ → GatewayServer → Option (GatewayServer × GatewayResult)
stop_on_thread net joined g =
    let down = record g { running = false } in
    if not g.running then some (g, done_with) else elim g.acceptor [
      | none ↦ none
      | some is_open ↦
          if net.close_throws
          then some (down, failed_with server_stop_failed)
          else if net.cancel_throws false
          then some (
            record down { acceptor = some false; accepting = false },
            failed_with server_stop_failed,
          )
          else join_self joined (record down { acceptor = some false })
    ]

abbrev pub without_result : Option (GatewayServer × GatewayResult) → Option GatewayServer
without_result none = none
without_result (some (g, result)) = some g

-- The handler, by whether the wait failed; its first line needs the logger.
unfoldable pub handle_signal : Network → ℕ → Bool → GatewayServer → Option GatewayServer
unfolding stop_on_thread
handle_signal net joined error g =
    if not g.has_logger
    then none
    else if error
    then some g
    else without_result (stop_on_thread net joined g)

-- A server that does not run is not stopped again when it is destroyed.
is_destroyed-stopped :
    (net : Network) (g : GatewayServer)
    → g.running ≡ false
    → 1 ≤ g.io_threads
    → is_destroyed net g ≡ false
unfolding is_destroyed stop
is_destroyed-stopped net g stopped alive = ground (arith, stopped, alive)

stop_on_thread-threads :
    (net : Network) (joined : ℕ) (g g' : GatewayServer) (result : GatewayResult)
    → g.running ≡ true
    → joined < g.io_threads
    → stop_on_thread net joined g ≡ some (g', result)
    → (result ≡ failed_with server_stop_failed) × (g'.running ≡ false) × (1 ≤ g'.io_threads)
unfolding stop_on_thread
stop_on_thread-threads net joined g g' result running alive h = elim (Option-cases g.acceptor) [
  | inl e ↦ absurd (ground (arith, running, e, h))
  | inr (is_open, e) ↦ elim (Bool-cases net.close_throws) [
    | inl c ↦ ground (arith, running, alive, e, c, h)
    | inr c ↦ elim (Bool-cases (net.cancel_throws false)) [
      | inl k ↦ ground (arith, running, alive, e, c, k, h)
      | inr k ↦ ground (arith, running, alive, e, c, k, h)
    ]
  ]
]

-- If `stop` is called by a thread of a running server, with fewer threads in front of it than there
-- are, and returns, then it reports a failure, the server does not run any more, and it cannot be
-- destroyed without ending the process.
pub stop_on_thread-is_destroyed :
    (net : Network) (joined : ℕ) (g g' : GatewayServer) (result : GatewayResult)
    → g.running ≡ true
    → joined < g.io_threads
    → stop_on_thread net joined g ≡ some (g', result)
    → (result ≡ failed_with server_stop_failed)
      × (g'.running ≡ false)
      × (is_destroyed net g' ≡ false)
stop_on_thread-is_destroyed net joined g g' result running alive h =
    let (failed, stopped, left) = stop_on_thread-threads net joined g g' result running alive h in
    (failed, stopped, is_destroyed-stopped net g' stopped left)
