-- ===== src/Gateway/Tests.antt =====
-- The calls of gateway_server.cpp at concrete inputs.
use zero_trust_secure_sessio.Common.{
  ◌+◌, ◌*◌, ◌%◌, ◌^◌, if◌then◌else◌, ◌≡◌, refl, Bool, true, false, some, arith,
}
use zero_trust_secure_sessio.Gateway.{
  Network, listening, GatewayServer, new_gateway_server, start, stop, start_accept, connected,
  handle_accept, done_with, failed_with, server_stop_failed,
}
use zero_trust_secure_sessio.Gateway.Runs.{
  Calls, begin, step, Step, io_threads-Calls, get_active_connection_count-Calls,
}
use zero_trust_secure_sessio.Gateway.Signals.{stop_on_thread, stop_on_thread-is_destroyed}
use zero_trust_secure_sessio.Cli.Handlers.{is_destroyed}

-- A closed acceptor cannot be cancelled.
abbrev pub network : Network
network = record {
  loads_tls = λ certificate key. true;
  sets_up = λ address port. listening;
  close_throws = false;
  cancel_throws = λ is_open. if is_open then false else true;
}

abbrev pub ready : GatewayServer
ready = record new_gateway_server { acceptor = some true; has_logger = true; has_work_guard = true }

abbrev pub started_once : GatewayServer
started_once = record ready { running = true; io_threads = 4; accepting = true }

abbrev pub one_client : GatewayServer
one_client = record started_once { active_connections = 1; total_connections = 1 }

abbrev pub after_stop : GatewayServer
after_stop = record one_client { running = false; accepting = false; acceptor = some false }

abbrev started_twice : GatewayServer
started_twice = record after_stop { running = true; accepting = true; io_threads = 8 }

starts : start ready ≡ some (started_once, done_with)
unfolding start start_accept new_gateway_server
starts = refl

accepts : handle_accept started_once (connected true) ≡ some one_client
unfolding handle_accept start_accept new_gateway_server
accepts = refl

stops : stop network one_client ≡ some (after_stop, failed_with server_stop_failed)
unfolding stop new_gateway_server
stops = refl

starts_again : start after_stop ≡ some (started_twice, done_with)
unfolding start start_accept new_gateway_server
starts_again = refl

pub calls_to_stop : Calls network ready after_stop 1 1
calls_to_stop =
    step after_stop
      (step one_client (step started_once begin (Step.start_done started_once starts))
        (Step.accepted one_client true accepts))
      (Step.stopped after_stop (failed_with server_stop_failed) stops)

abbrev all_calls : Calls network ready started_twice 2 1
all_calls = step started_twice calls_to_stop (Step.start_done started_twice starts_again)

io_threads-Calls_example : started_twice.io_threads ≡ 0 + 2 * 4
unfolding new_gateway_server
io_threads-Calls_example = (io_threads-Calls refl all_calls).1

get_active_connection_count-Calls_example : started_twice.active_connections ≡ (0 + 1) % 2 ^ 64
unfolding new_gateway_server
get_active_connection_count-Calls_example =
    (get_active_connection_count-Calls (omega arith) (omega arith) all_calls).0

stop_on_thread-is_destroyed_example :
    (failed_with server_stop_failed ≡ failed_with server_stop_failed)
    × (◌≡◌ {A = Bool} false false)
    × (is_destroyed network after_stop ≡ false)
unfolding stop_on_thread new_gateway_server
stop_on_thread-is_destroyed_example =
    stop_on_thread-is_destroyed network 2 one_client after_stop (failed_with server_stop_failed)
      refl (omega arith) refl
