-- ===== src/Cli/Starting.antt =====
-- The start command of cli_interface.cpp, down to the configuration and the server that it uses.
use zero_trust_secure_sessio.Common.{
  ℕ, zero, suc, ◌+◌, ◌*◌, ◌<◌, ◌≡◌, refl, ◌⊎◌, inl, inr, Bool, true, false, List, [], ◌∷◌, String,
  none, some, arith, nat_eq, Bool-cases,
}
use zero_trust_secure_sessio.Config.{Json, ConfigManager, ConfigResult, success, failure, parsed}
use zero_trust_secure_sessio.Config.Files.{load_config}
use zero_trust_secure_sessio.Config.Defaults.{set_default_config}
use zero_trust_secure_sessio.Config.Bounds.{IsConfigured}
use zero_trust_secure_sessio.Config.RoundTrip.{IsStored}
use zero_trust_secure_sessio.Config.Loading.{load_config_sound}
use zero_trust_secure_sessio.Gateway.{
  Setup, bad_address, not_listening, listening, Network, GatewayServer, GatewayResult, done_with,
  failed_with, new_gateway_server, configure, setup_acceptor, initialize, start, start_accept, stop,
}
use zero_trust_secure_sessio.Gateway.Runs.{Calls, io_threads-Calls}
use zero_trust_secure_sessio.Cli.{Console, Answer, returned, waiting, crashed, exhausted, current}
use zero_trust_secure_sessio.Cli.Handlers.{
  Machine, first_or, forget, is_destroyed, replace_server, keep_running, serve, start_initialized,
  start_loaded, handle_start_command,
}

-- What has to be true of the network for a server that answers on the address of a configuration.
abbrev pub IsServed : {lib : Json} → Network → ConfigManager lib → Type 0
IsServed {lib} net m =
    let g = configure lib m new_gateway_server in
    (net.loads_tls g.tls_cert_file g.tls_key_file ≡ true)
    × (net.sets_up g.listen_address g.listen_port ≡ listening)

-- A server that `start` can start.
abbrev IsReady : GatewayServer → Type 0
IsReady g = (g.acceptor ≡ some true) × (g.has_logger ≡ true) × (g.running ≡ false)

abbrev Initialized :
    {lib : Json} → Network → ConfigManager lib → GatewayServer × GatewayResult → Type 0
Initialized net m (g, done_with) = IsServed net m × IsReady g
Initialized net m (g, failed_with e) = Unit

Setup-cases :
    (s : Setup) → (s ≡ bad_address) ⊎ ((b : Bool) × (s ≡ not_listening b)) ⊎ (s ≡ listening)
Setup-cases bad_address = inl refl
Setup-cases (not_listening b) = inr (inl (b, refl))
Setup-cases listening = inr (inr refl)

initialize-Initialized :
    (lib : Json) (net : Network) (m : ConfigManager lib)
    → Initialized net m (initialize lib net m new_gateway_server)
unfolding initialize configure setup_acceptor new_gateway_server
initialize-Initialized lib net m =
    let g = configure lib m new_gateway_server in
    elim (Bool-cases (net.loads_tls g.tls_cert_file g.tls_key_file)) [
      | inr e ↦ rw (e, initialize) tt
      | inl e ↦ elim (Setup-cases (net.sets_up g.listen_address g.listen_port)) [
        | inl f ↦ rw (e, f, setup_acceptor, initialize) tt
        | inr (inl (b, f)) ↦ rw (e, f, setup_acceptor, initialize) tt
        | inr (inr f) ↦ rw (e, f, setup_acceptor, initialize) ((e, f), (refl, refl, refl))
      ]
    ]

-- How the start command ends, where `P` holds of the configuration: it returns 0 only after a server
-- has run and runs no more, and it does not end the process.
abbrev pub Served : Type 0 → Answer → Type 0
Served P (returned c zero) =
    P
    × ((g : GatewayServer) × (c.server ≡ some g)
        × (g.running ≡ false)
        × (c.global_server ≡ current))
Served P (returned c (suc k)) = Unit
Served P (waiting c) = P
Served P crashed = false ≡ true
Served P exhausted = false ≡ true

keep_running-Served :
    (P : Type 0) (ticks : List GatewayServer) (g : GatewayServer) (c : Console)
    → P
    → c.global_server ≡ current
    → Served P (keep_running ticks g c)
unfolding keep_running
keep_running-Served P [] g c p k = elim (Bool-cases g.running) [
  | inl e ↦ rw (e, keep_running) p
  | inr e ↦ rw (e, keep_running) (p, (record g { running = false }, refl, refl, k))
]
keep_running-Served P (later ∷ ticks) g c p k = elim (Bool-cases g.running) [
  | inl e ↦ rw (e, keep_running) (keep_running-Served P ticks later c p k)
  | inr e ↦ rw (e, keep_running) (p, (record g { running = false }, refl, refl, k))
]

-- A ready server starts.
start-IsReady :
    (g : GatewayServer) → IsReady g → (g' : GatewayServer) × (start g ≡ some (g', done_with))
unfolding start start_accept
start-IsReady g (acceptor, logger, running) = (
  record g { running = true; io_threads = g.io_threads + g.thread_count; accepting = true },
  ground arith,
)

module _ (lib : Json) (w : Machine lib) where
  start_initialized-Served :
      (P : Type 0) (m : ConfigManager lib) (c : Console) (r : GatewayServer × GatewayResult)
      → P
      → Initialized w.network m r
      → Served P (start_initialized lib m c r)
  unfolding start_initialized serve
  start_initialized-Served P m c (g, failed_with e) p i = tt
  start_initialized-Served P m c (g, done_with) p (served, ready) =
      let (g', started) = start-IsReady g ready in
      rw (started, serve, start_initialized) (keep_running-Served P c.ticks g' _ p refl)

  -- Where a new server takes the place of none, or of one that can be destroyed.
  abbrev pub IsFree : Console → Type 0
  IsFree c =
      (c.server ≡ none)
      ⊎ ((g : GatewayServer) × (c.server ≡ some g) × (is_destroyed w.network g ≡ true))

  replace_server-IsFree :
      (g : GatewayServer) (c : Console)
      → IsFree c
      → (c' : Console) × (replace_server w.network g c ≡ some c')
  unfolding replace_server
  replace_server-IsFree g c (inl e) = (record c { server = some g }, ground (arith, e))
  replace_server-IsFree g c (inr (old, e, d)) =
      (record c { server = some g; global_server = forget c.global_server }, ground (arith, e, d))

  -- The configuration that is loaded is sound, and the network serves it.
  abbrev pub StartsWith : ConfigManager lib → String → Type 0
  StartsWith m file =
      (m' : ConfigManager lib) × (load_config lib w.platform w.disk m file ≡ (m', success tt))
      × IsConfigured m'
      × IsStored m'
      × IsServed w.network m'

  start_initialized-from :
      (m m' : ConfigManager lib) (file : String) (c : Console) (r : GatewayServer × GatewayResult)
      → load_config lib w.platform w.disk m file ≡ (m', success tt)
      → Initialized w.network m' r
      → Served (StartsWith m file) (start_initialized lib m' c r)
  unfolding start_initialized
  start_initialized-from m m' file c (g, failed_with e) h i = tt
  start_initialized-from m m' file c (g, done_with) h i =
      let (configured, stored) = load_config_sound lib w.platform w.disk m m' file h in
      start_initialized-Served (StartsWith m file) m' c (g, done_with)
        (m', h, configured, stored, i.0) i

  start_loaded-Served :
      (m : ConfigManager lib) (file : String) (c : Console)
      (r : ConfigManager lib × ConfigResult (Unit {0}))
      → IsFree c
      → load_config lib w.platform w.disk m file ≡ r
      → Served (StartsWith m file) (start_loaded lib w c r)
  unfolding start_loaded
  start_loaded-Served m file c (m', failure e) free h = tt
  start_loaded-Served m file c (m', success x) free h =
      let (c', replaced) = replace_server-IsFree new_gateway_server c free in
      rw (replaced, start_loaded)
        (start_initialized-from m m' file c' (initialize lib w.network m' new_gateway_server) h
          (initialize-Initialized lib w.network m'))

  -- The start command, on a console that has no server or one that can be destroyed, does not end the
  -- process. It starts a server only with a configuration that the file gives and that is within all
  -- its bounds, whose certificate and key load and whose address and port the acceptor listens on.
  -- It returns 0 only after that server has stopped running.
  pub handle_start_command_sound :
      (args : List String) (c : Console) {m : ConfigManager lib}
      → set_default_config lib ≡ parsed m
      → IsFree c
      → Served (StartsWith m (first_or c.config_file args)) (handle_start_command lib w args c)
  unfolding handle_start_command
  handle_start_command_sound args c {m} made free =
      rw (made, handle_start_command)
        (start_loaded-Served m (first_or c.config_file args) _
          (load_config lib w.platform w.disk m (first_or c.config_file args)) free refl)

  is_destroyed_idle :
      (g : GatewayServer) → g.running ≡ false → 0 < g.io_threads → is_destroyed w.network g ≡ false
  unfolding is_destroyed stop
  is_destroyed_idle g idle threads =
      let answer : stop w.network g ≡ some (g, done_with) = ground (arith, idle) in
      rw (answer, is_destroyed) (ground (arith, threads))

  replace_server_kept :
      (g old : GatewayServer) (c : Console)
      → c.server ≡ some old
      → is_destroyed w.network old ≡ false
      → replace_server w.network g c ≡ none
  unfolding replace_server
  replace_server_kept g old c e d = ground (arith, e, d)

  start_loaded-crashed :
      (old : GatewayServer) (m : ConfigManager lib) (c : Console)
      → c.server ≡ some old
      → is_destroyed w.network old ≡ false
      → start_loaded lib w c (m, success tt) ≡ crashed
  unfolding start_loaded
  start_loaded-crashed old m c e d =
      rw (replace_server_kept new_gateway_server old c e d, start_loaded) refl

  -- After a server was started once and runs no more, whatever calls came between: if closing its
  -- acceptor makes `cancel` throw, as for a closed acceptor, and it has threads, then the next start
  -- command whose configuration loads ends the process, for the threads were never joined.
  pub handle_start_command-Calls :
      (args : List String) (c : Console) {m m' : ConfigManager lib} {g g' : GatewayServer} {s a : ℕ}
      → w.network.cancel_throws false ≡ true
      → 0 < g.thread_count
      → Calls w.network g g' (suc s) a
      → c.server ≡ some g'
      → g'.running ≡ false
      → set_default_config lib ≡ parsed m
      → load_config lib w.platform w.disk m (first_or c.config_file args) ≡ (m', success tt)
      → handle_start_command lib w args c ≡ crashed
  unfolding handle_start_command
  handle_start_command-Calls args c {m' = m'} {g} {g'} {s} throws some_threads calls has idle made
        loads =
      let threads : g'.io_threads ≡ g.io_threads + suc s * g.thread_count =
        (io_threads-Calls throws calls).1 in
      let positive : 0 < g'.io_threads = grind (arith, threads, some_threads) in
      rw (made, loads, handle_start_command)
        (start_loaded-crashed g' m' _ has (is_destroyed_idle g' idle positive))
