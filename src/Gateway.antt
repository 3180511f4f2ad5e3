-- ===== src/Gateway.antt =====
-- src/network/gateway_server.cpp: the life of the server. The threads are counted, and the managers
-- that `initialize` makes are left to Connection. A call that ends the process is `none`: it reads a
-- null pointer, or its exception leaves a thread.
pub mod Runs
pub mod Signals
pub mod Tests
use zero_trust_secure_sessio.Common.{
  ℕ, zero, suc, ◌+◌, ◌-◌, ◌%◌, ◌^◌, Bool, true, false, not, ◌&&◌, String, Option, none, some,
  if◌then◌else◌, add64,
}
use zero_trust_secure_sessio.Config.{ℤ, pos, negsuc, Json, ConfigManager}
use zero_trust_secure_sessio.Config.Keys.{get_string, get_int}

-- How the calls of `setup_acceptor` end: the address is refused before there is an acceptor, or the
-- acceptor is made and a later call throws, when it may be open already, or all succeed.
pub data Setup : Type 0 where
  bad_address : Setup
  not_listening : Bool → Setup
  listening : Setup

-- What Boost.Asio and the TLS handler answer: whether the certificate and the key load, how the
-- acceptor is set up at an address, whether `close` throws, and whether `cancel` throws, by whether
-- the acceptor is open.
pub record Network : Type 0 where
  pub loads_tls : String → String → Bool
  pub sets_up : String → ℕ → Setup
  pub close_throws : Bool
  pub cancel_throws : Bool → Bool

pub record GatewayServer : Type 0 where
  pub listen_address : String
  pub listen_port : ℕ
  pub tls_cert_file : String
  pub tls_key_file : String
  pub thread_count : ℕ
  -- Whether there is an acceptor, and then whether it is open.
  pub acceptor : Option Bool
  pub has_logger : Bool
  pub has_work_guard : Bool
  pub io_stopped : Bool
  pub io_threads : ℕ
  pub running : Bool
  pub accepting : Bool
  pub active_connections : ℕ
  pub total_connections : ℕ

pub data GatewayError : Type 0 where
  tls_init_failed acceptor_setup_failed server_already_running server_stop_failed : GatewayError

pub data GatewayResult : Type 0 where
  done_with : GatewayResult
  failed_with : GatewayError → GatewayResult

unfoldable pub new_gateway_server : GatewayServer
new_gateway_server = record {
  listen_address = "127.0.0.1";
  listen_port = 8080;
  tls_cert_file = "server.crt";
  tls_key_file = "server.key";
  thread_count = 4;
  acceptor = none;
  has_logger = false;
  has_work_guard = false;
  io_stopped = false;
  io_threads = 0;
  running = false;
  accepting = false;
  active_connections = 0;
  total_connections = 0;
}

-- `static_cast` of an `int` to an unsigned type of `w` bits.
abbrev pub cast : ℕ → ℤ → ℕ
cast w (pos n) = n % 2 ^ w
cast w (negsuc n) = 2 ^ w - 1 - n % 2 ^ w

unfoldable pub configure : (lib : Json) → ConfigManager lib → GatewayServer → GatewayServer
configure lib config g = record g {
  listen_address = get_string lib config "server.listen_address" "127.0.0.1";
  listen_port = cast 16 (get_int lib config "server.listen_port" (pos 8080));
  tls_cert_file = get_string lib config "server.tls_cert_file" "server.crt";
  tls_key_file = get_string lib config "server.tls_key_file" "server.key";
  thread_count = cast 64 (get_int lib config "server.thread_count" (pos 4));
}

unfoldable pub setup_acceptor : Network → GatewayServer → GatewayServer × GatewayResult
setup_acceptor net g = elim (net.sets_up g.listen_address g.listen_port) [
  | bad_address ↦ (g, failed_with acceptor_setup_failed)
  | not_listening is_open ↦
      (record g { acceptor = some is_open }, failed_with acceptor_setup_failed)
  | listening ↦ (record g { acceptor = some true }, done_with)
]

unfoldable pub initialize :
    (lib : Json) → Network → ConfigManager lib → GatewayServer → GatewayServer × GatewayResult
unfolding configure setup_acceptor
initialize lib net config g =
    let g' = configure lib config g in
    if not (net.loads_tls g'.tls_cert_file g'.tls_key_file)
    then (g', failed_with tls_init_failed)
    else setup_acceptor net (record g' { has_logger = true; has_work_guard = true })

unfoldable pub start_accept : GatewayServer → Option GatewayServer
start_accept g =
    if not g.running
    then some g
    else elim g.acceptor [ none ↦ none | some is_open ↦ some (record g { accepting = true }) ]

abbrev pub start_io_threads : GatewayServer → GatewayServer
start_io_threads g = record g { io_threads = g.io_threads + g.thread_count }

abbrev pub logged : Bool → GatewayServer → Option (GatewayServer × GatewayResult)
logged false g = none
logged true g = some (g, done_with)

-- Where no thread, signal or accept throws; the code then unsets `running`, keeps the threads and
-- reports a failure.
unfoldable pub start : GatewayServer → Option (GatewayServer × GatewayResult)
unfolding start_accept
start g =
    if g.running
    then some (g, failed_with server_already_running)
    else elim (start_accept (start_io_threads (record g { running = true }))) [
      | none ↦ none
      | some g' ↦ logged g'.has_logger g'
    ]

-- Each thread is joined.
abbrev pub stop_io_threads : GatewayServer → GatewayServer
stop_io_threads g = record g { io_stopped = true; io_threads = 0 }

-- The end of `stop`, once the acceptor is cancelled.
abbrev pub stop_threads : GatewayServer → Option (GatewayServer × GatewayResult)
stop_threads g =
    logged g.has_logger (stop_io_threads (record g { has_work_guard = false; accepting = false }))

unfoldable pub stop : Network → GatewayServer → Option (GatewayServer × GatewayResult)
stop net g =
    let down = record g { running = false } in
    if not g.running then some (g, done_with) else elim g.acceptor [
      | none ↦ none
      | some is_open ↦
          if net.close_throws
          then some (down, failed_with server_stop_failed)
          else if net.cancel_throws false
          then some (
            record down { acceptor = some false; accepting = false },
            failed_with server_stop_failed,
          )
          else stop_threads (record down { acceptor = some false })
    ]

abbrev pub register_connection : GatewayServer → GatewayServer
register_connection g = record g {
  active_connections = add64 g.active_connections 1;
  total_connections = add64 g.total_connections 1;
}

-- How an accept ends: with a connection, whose peer `remote_endpoint` gives or, where it is gone
-- already, throws for; or with an error.
pub data Accept : Type 0 where
  connected : Bool → Accept
  accept_error : Accept

unfoldable pub handle_accept : GatewayServer → Accept → Option GatewayServer
unfolding start_accept
handle_accept g (connected has_peer) =
    if g.has_logger && not has_peer
    then none
    else start_accept (register_connection (record g { accepting = false }))
handle_accept g accept_error = start_accept (record g { accepting = false })

abbrev pub get_active_connection_count : GatewayServer → ℕ
get_active_connection_count g = g.active_connections

abbrev pub get_total_connection_count : GatewayServer → ℕ
get_total_connection_count g = g.total_connections
