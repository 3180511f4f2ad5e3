-- ===== src/Web/Main.antt =====
-- src/web_main.cpp: the program of the web server. The sockets are asked twice, for the test of the
-- port and by `start`. What `start` prints is left out, as in Web.
use Prim.Native.String.{◌++◌ as ◌<>◌}
use zero_trust_secure_sessio.Common.{
  ℕ, Bool, true, false, not, ◌||◌, ltb, ◌≤◌, ◌≡◌, refl, ◌⊎◌, inl, inr, arith, Bool-cases,
  Option-cases, List, [], ◌∷◌, ◌++◌, String, none, some, if◌then◌else◌,
}
use zero_trust_secure_sessio.Config.{ℤ, pos, negsuc}
use zero_trust_secure_sessio.Config.Keys.{stoi}
use zero_trust_secure_sessio.Web.{
  Sockets, WebServer, WebResult, success, failure, create_web_server, is_local_port_available,
  start, is_running, integer_text, WebError, already_running, not_running, port_in_use,
  is_port_available,
}

abbrev pub default_web_port : ℤ
default_web_port = pos 8080

abbrev pub port_no_min : ℕ
port_no_min = 1

abbrev pub port_no_max : ℕ
port_no_max = 65535

abbrev pub out_of_range : ℤ → Bool
out_of_range (pos n) = ltb n port_no_min || ltb port_no_max n
out_of_range (negsuc n) = true

-- How the program ends, with what it has printed: with a status, or in the loop that waits while
-- the server runs.
pub data Ended : Type 0 where
  exited : List String → ℕ → Ended
  serving : List String → WebServer → Ended

abbrev pub usage : String → String
usage program = "Usage: " <> program <> " [port]\n"

abbrev pub title : List String
title =
    "Zero Trust Secure Session Gateway - Web Interface\n"
    ∷ "================================================\n\n" ∷ []

-- The port of the arguments, or what is printed where there is none.
unfoldable pub choose_port : String → List String → ℤ ⊎ List String
choose_port program [] = inl default_web_port
choose_port program (argument ∷ rest) = elim (stoi argument) [
  | none ↦ inr ("Error: Invalid port number\n" ∷ usage program ∷ [])
  | some port ↦
      if out_of_range port then inr ("Error: Port must be between 1 and 65535\n" ∷ []) else inl port
]

-- The loop: nothing else in the program stops the server.
unfoldable pub wait_while_running : List String → WebServer → Ended
wait_while_running output w = if is_running w then serving output w else exited output 0

abbrev pub error_text : WebError → String
error_text already_running = "Server is already running"
error_text not_running = "Server is not running"
error_text (port_in_use port address) =
    "Port " <> integer_text port <> " is already in use on " <> address

abbrev pub start_result : List String → ℤ → WebServer × WebResult → Ended
start_result output port (w, failure e) =
    exited (output ++ ("Failed to start web server: " <> error_text e <> "\n") ∷ []) 1
start_result output port (w, success) =
    wait_while_running
      (output
        ++ "\nWeb interface is running!\n"
          ∷ ("Open http://localhost:" <> integer_text port <> " in your browser\n\n")
          ∷ "Press Ctrl+C to stop the server\n\n"
          ∷ [])
      w

unfoldable pub serve_port : Sockets → Sockets → String → ℤ → Ended
serve_port tested bound program port =
    if not (is_local_port_available tested port)
    then exited
        (title
          ++ ("Error: Port " <> integer_text port <> " is already in use!\n")
            ∷ "Please stop the other service or use a different port.\n"
            ∷ usage program
            ∷ [])
        1
    else start_result title port (start bound "localhost" port create_web_server)

unfoldable pub run : Sockets → Sockets → String → List String → Ended
unfolding choose_port serve_port
run tested bound program arguments = elim (choose_port program arguments) [
  | inr output ↦ exited (title ++ output) 1
  | inl port ↦ serve_port tested bound program port
]

-- What is guaranteed of the server that the program waits for; a program that ends fails.
pub Serves : Sockets → Sockets → String → List String → Ended → Type 0
Serves tested bound program arguments (exited output code) = code ≡ 1
Serves tested bound program arguments (serving output w) =
    (n : ℕ) × (choose_port program arguments ≡ inl (pos n))
    × (1 ≤ n)
    × (n ≤ port_no_max)
    × (is_local_port_available tested (pos n) ≡ true)
    × (is_port_available bound "localhost" (pos n) ≡ true)
    × (w ≡ record { running = true; address = "localhost"; port = pos n })

serve_port-Serves :
    (tested bound : Sockets) (program : String) (arguments : List String) (port : ℤ)
    → choose_port program arguments ≡ inl port
    → out_of_range port ≡ false
    → Serves tested bound program arguments (serve_port tested bound program port)
unfolding Serves serve_port start create_web_server wait_while_running
serve_port-Serves tested bound program arguments (negsuc n) e inside =
    absurd (ground (arith, inside))
serve_port-Serves tested bound program arguments (pos n) e inside =
    elim (Bool-cases (is_local_port_available tested (pos n))) [
      | inr f ↦ rw f refl
      | inl t ↦ elim (Bool-cases (is_port_available bound "localhost" (pos n))) [
        | inr f ↦ rw (t, f) refl
        | inl u ↦ rw (t, u) (n, e, ground (arith, inside), ground (arith, inside), t, u, refl)
      ]
    ]

choose_port-cases :
    (program : String) (arguments : List String)
    → ((port : ℤ) × (choose_port program arguments ≡ inl port) × (out_of_range port ≡ false))
      ⊎ ((output : List String) × (choose_port program arguments ≡ inr output))
unfolding choose_port
choose_port-cases program [] = inl (default_web_port, refl, refl)
choose_port-cases program (argument ∷ rest) = elim (Option-cases (stoi argument)) [
  | inl e ↦ inr ("Error: Invalid port number\n" ∷ usage program ∷ [], rw (e, choose_port) refl)
  | inr (port, e) ↦ elim (Bool-cases (out_of_range port)) [
    | inl f ↦ inr ("Error: Port must be between 1 and 65535\n" ∷ [], rw (e, f, choose_port) refl)
    | inr f ↦ inl (port, rw (e, f, choose_port) refl, f)
  ]
]

-- The program waits only for a server that runs on the port that the arguments choose, which lies
-- between 1 and 65535 and was free at both tests; in every other case it ends with the status 1.
pub run-Serves :
    (tested bound : Sockets) (program : String) (arguments : List String)
    → Serves tested bound program arguments (run tested bound program arguments)
unfolding run Serves
run-Serves tested bound program arguments = elim (choose_port-cases program arguments) [
  | inl (port, e, inside) ↦
      rw (e, run) (serve_port-Serves tested bound program arguments port e inside)
  | inr (output, e) ↦ rw (e, run) refl
]
