-- ===== src/Cli/Handlers.antt =====
-- The handlers of the commands in cli_interface.cpp.
use zero_trust_secure_sessio.Common.{
  Bool, false, List, [], ◌∷◌, String, Option, none, some, nat_eq, ◌==◌, if◌then◌else◌,
}
use zero_trust_secure_sessio.Config.{
  pos, Json, ConfigManager, ConfigResult, success, failure, parsed, thrown,
}
use zero_trust_secure_sessio.Config.Keys.{get_string, get_int}
use zero_trust_secure_sessio.Config.Files.{Disk, Platform, load_config}
use zero_trust_secure_sessio.Config.Defaults.{set_default_config}
use zero_trust_secure_sessio.Gateway.{
  Network, GatewayServer, GatewayResult, done_with, failed_with, new_gateway_server, initialize,
  start, stop,
}
use zero_trust_secure_sessio.Cli.{
  text, integer, config_message, gateway_message, exception_message, Pointer, null, current,
  dangling, Console, Answer, returned, waiting, crashed, print_error, print_success, print_info,
}

-- What the commands work with: the disk, the platform of the configuration, and the network.
pub record Machine (lib : Json) : Type 0 where
  pub disk : Disk
  pub platform : Platform
  pub network : Network

abbrev pub first_or : String → List String → String
first_or d [] = d
first_or d (arg ∷ args) = arg

abbrev pub is_server_running : Console → Bool
is_server_running c = elim c.server [ none ↦ false | some g ↦ g.running ]

-- `~GatewayServer` calls `stop`, and then a thread that is not joined ends the process.
unfoldable pub is_destroyed : Network → GatewayServer → Bool
is_destroyed net g = elim (stop net g) [ none ↦ false | some (g', r) ↦ g'.io_threads == 0 ]

abbrev pub forget : Pointer → Pointer
forget null = null
forget current = dangling
forget dangling = dangling

-- `m_server` gets a server, and the one that it had is destroyed; `none` where that ends the process.
unfoldable pub replace_server : Network → GatewayServer → Console → Option Console
unfolding is_destroyed
replace_server net g c = elim c.server [
  | none ↦ some (record c { server = some g })
  | some old ↦
      if is_destroyed net old
      then some (record c { server = some g; global_server = forget c.global_server })
      else none
]

-- The loop that waits until the server does not run.
unfoldable pub keep_running : List GatewayServer → GatewayServer → Console → Answer
keep_running [] g c =
    let c' = record c { server = some g; ticks = [] } in
    if g.running then waiting c' else returned c' 0
keep_running (later ∷ ticks) g c =
    let rest = keep_running ticks later c in
    if g.running then rest else returned (record c { server = some g; ticks = later ∷ ticks }) 0

-- `Failed to start server: `, with the message of an exception.
abbrev pub thrown_at_start : Console → Answer
thrown_at_start c =
    returned (print_error (text "Failed to start server: " ∷ exception_message ∷ []) c) 1

module _ (lib : Json) where
  abbrev announce : ConfigManager lib → Console → Console
  announce m c =
      let address = get_string lib m "server.listen_address" "0.0.0.0" in
      let port = get_int lib m "server.listen_port" (pos 8443) in
      print_info (text "Press Ctrl+C to stop the server" ∷ []) (
        print_info (text "Listening on: " ∷ text address ∷ text ":" ∷ integer port ∷ [])
          (print_success (text "Server started successfully!" ∷ []) c))

  unfoldable pub serve :
      ConfigManager lib → Console → Option (GatewayServer × GatewayResult) → Answer
  unfolding keep_running
  serve m c none = crashed
  serve m c (some (g, failed_with e)) =
      returned
        (print_error (text "Failed to start server: " ∷ gateway_message e ∷ [])
          (record c { server = some g }))
        1
  serve m c (some (g, done_with)) =
      keep_running c.ticks g
        (record (announce m (record c { server = some g })) { global_server = current })

  unfoldable pub start_initialized :
      ConfigManager lib → Console → GatewayServer × GatewayResult → Answer
  unfolding serve
  start_initialized m c (g, failed_with e) =
      returned
        (print_error (text "Failed to initialize server: " ∷ gateway_message e ∷ [])
          (record c { server = some g }))
        1
  start_initialized m c (g, done_with) = serve m (record c { server = some g }) (start g)

  unfoldable pub start_loaded :
      Machine lib → Console → ConfigManager lib × ConfigResult (Unit {0}) → Answer
  unfolding replace_server start_initialized
  start_loaded w c (m, failure e) =
      returned (print_error (text "Failed to load configuration: " ∷ config_message e ∷ []) c) 1
  start_loaded w c (m, success _) = elim (replace_server w.network new_gateway_server c) [
    | none ↦ crashed
    | some c' ↦ start_initialized m c' (initialize lib w.network m new_gateway_server)
  ]

  unfoldable pub handle_start_command : Machine lib → List String → Console → Answer
  unfolding start_loaded
  handle_start_command w args c =
      let file = first_or c.config_file args in
      let c' =
        print_info (text "Using configuration file: " ∷ text file ∷ [])
          (print_info (text "Starting Zero Trust Secure Session Gateway..." ∷ []) c) in
      elim (set_default_config lib) [
        | thrown m ↦ thrown_at_start c'
        | parsed m ↦ start_loaded w c' (load_config lib w.platform w.disk m file)
      ]
