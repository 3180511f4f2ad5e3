-- ===== src/Cli/Main.antt =====
-- src/main.cpp: the program and its handler of signals. The pointer `g_server` of this file is one of
-- its own: nothing sets it. Once a server is started, its own signal set (Gateway/Signals) gets the
-- signals.
use zero_trust_secure_sessio.Common.{
  ℕ, ◌≡◌, refl, List, [], ◌∷◌, ◌++◌, String, Option, none, some, arith, if◌then◌else◌,
}
use zero_trust_secure_sessio.Config.{Json}
use zero_trust_secure_sessio.Gateway.{
  Network, GatewayServer, GatewayResult, done_with, failed_with, stop,
}
use zero_trust_secure_sessio.Cli.{
  Console, Answer, returned, waiting, crashed, exhausted, Piece, text, number, gateway_message,
}
use zero_trust_secure_sessio.Cli.Handlers.{Machine}
use zero_trust_secure_sessio.Cli.Shell.{Undeclared, run}

-- The program as a signal finds it: the server of this file, and the console of the command line
-- with its own server.
pub record Program : Type 0 where
  pub g_server : Option GatewayServer
  pub g_cli : Console

-- How the process goes on: it ends with a status, a command waits while its server runs, or it is
-- ended from outside its own code.
pub data Process : Type 0 where
  exited : Program → ℕ → Process
  is_waiting : Program → Process
  aborted : Process
  exhausted_fuel : Process

abbrev print_end : List Piece → Program → Program
print_end pieces p =
    let c = p.g_cli in record p { g_cli = record c { output = c.output ++ pieces } }

abbrev stop_result : Program → Option (GatewayServer × GatewayResult) → Process
stop_result p none = aborted
stop_result p (some (g, done_with)) = exited (record p { g_server = some g }) 0
stop_result p (some (g, failed_with e)) =
    exited
      (print_end (text "Error stopping server: " ∷ gateway_message e ∷ text "\n" ∷ [])
        (record p { g_server = some g }))
      0

abbrev stop_running : Network → Program → GatewayServer → Process
stop_running net p g = if g.running then stop_result p (stop net g) else exited p 0

abbrev told : ℕ → Program → Program
told signal p =
    print_end
      (text "\nReceived signal " ∷ number signal ∷ text ", shutting down gracefully...\n" ∷ []) p

unfoldable pub signal_handler : Network → ℕ → Program → Process
signal_handler net signal p = elim p.g_server [
  | none ↦ exited (told signal p) 0
  | some g ↦ stop_running net (told signal p) g
]

-- `main` from the answer of the command line. `run` has no error result, and `exhausted` does not
-- occur (Endings).
abbrev pub process_of : Option GatewayServer → Answer → Process
process_of g (returned c status) = exited (record { g_server = g; g_cli = c }) status
process_of g (waiting c) = is_waiting (record { g_server = g; g_cli = c })
process_of g crashed = aborted
process_of g exhausted = exhausted_fuel

unfoldable pub main : (lib : Json) → Machine lib → Undeclared → List String → Console → Process
main lib w u argv c = process_of none (run lib w u argv c)

process_of-g_server :
    (a : Answer) (p : Program) → process_of none a ≡ is_waiting p → p.g_server ≡ none
process_of-g_server (returned c status) p h = absurd (ground (arith, h))
process_of-g_server (waiting c) p h = ground (arith, h)
process_of-g_server crashed p h = absurd (ground (arith, h))
process_of-g_server exhausted p h = absurd (ground (arith, h))

-- If the handler runs while a command waits for its server, it ends the process with the status 0
-- and leaves the server as it is: it is not stopped.
pub signal_handler-main :
    (lib : Json) (w : Machine lib) (u : Undeclared) (net : Network) (argv : List String)
    (c : Console) (signal : ℕ) (p : Program)
    → main lib w u argv c ≡ is_waiting p
    → (q : Program) × (signal_handler net signal p ≡ exited q 0) × (q.g_cli.server ≡ p.g_cli.server)
unfolding main signal_handler
signal_handler-main lib w u net argv c signal p h =
    let none_set : p.g_server ≡ none = process_of-g_server (run lib w u argv c) p h in
    (told signal p, ground (arith, none_set), refl)
