-- ===== src/Cli/Actions.antt =====
-- The handlers of cli_interface.cpp that only answer from what the console holds: every command but
-- `start`.
use zero_trust_secure_sessio.Common.{not, List, [], ◌∷◌, String, Option, none, some, if◌then◌else◌}
use zero_trust_secure_sessio.Config.{
  pos, Json, ConfigManager, ConfigResult, success, failure, parsed, thrown,
}
use zero_trust_secure_sessio.Config.Keys.{get_string, get_int}
use zero_trust_secure_sessio.Config.Files.{load_config}
use zero_trust_secure_sessio.Config.Defaults.{set_default_config}
use zero_trust_secure_sessio.Gateway.{
  Network, GatewayServer, GatewayResult, done_with, failed_with, stop, get_active_connection_count,
  get_total_connection_count,
}
use zero_trust_secure_sessio.Cli.{
  Piece, text, number, integer, config_message, gateway_message, exception_message, CliCommand,
  Console, Answer, returned, crashed, print, println, print_error, print_success, print_info,
  print_warning,
}
use zero_trust_secure_sessio.Cli.Checks.{is_valid_username, is_valid_role}
use zero_trust_secure_sessio.Cli.Handlers.{Machine, first_or}
use zero_trust_secure_sessio.Cli.Tables.{padded, table_lines}

abbrev pub print_lines : List String → Console → Console
print_lines [] c = c
print_lines (line ∷ lines) c = print_lines lines (println (text line ∷ []) c)

abbrev pub print_table : List (List String) → List String → Console → Console
print_table data_rows headers c = print_lines (table_lines data_rows headers) c

abbrev pub command_lines : List CliCommand → Console → Console
command_lines [] c = c
command_lines (cmd ∷ rest) c =
    command_lines rest
      (println (text "  " ∷ text (padded cmd.name 15) ∷ text " - " ∷ text cmd.description ∷ []) c)

unfoldable pub show_help : Console → Console
show_help c =
    print_lines
      ("" ∷ "Use 'zerossg <command> --help' for detailed information about a specific command."
        ∷ "Use 'zerossg interactive' to enter interactive mode." ∷ [])
      (command_lines c.commands (
        print_lines
          ("Zero Trust Secure Session Gateway CLI" ∷ "=====================================" ∷ ""
            ∷ "Usage: zerossg <command> [options]" ∷ "" ∷ "Available commands:" ∷ [])
          c))

abbrev pub argument_lines : List String → Console → Console
argument_lines [] c = c
argument_lines (arg ∷ rest) c = argument_lines rest (println (text "  " ∷ text arg ∷ []) c)

-- A list of arguments under its title, where it is not empty.
abbrev pub titled : String → List String → Console → Console
titled title [] c = c
titled title (arg ∷ rest) c = argument_lines (arg ∷ rest) (println (text title ∷ []) c)

unfoldable pub show_command_help : CliCommand → Console → Console
show_command_help command c = titled "Optional arguments:" command.optional_args (
    titled "Required arguments:" command.required_args (
      println (text "Usage: " ∷ text command.usage ∷ []) (
        println (text "Description: " ∷ text command.description ∷ [])
          (println (text "Command: " ∷ text command.name ∷ []) c))))

abbrev pub stop_answered : Console → Option (GatewayServer × GatewayResult) → Answer
stop_answered c none = crashed
stop_answered c (some (g, failed_with e)) =
    returned
      (print_error (text "Failed to stop server: " ∷ gateway_message e ∷ [])
        (record c { server = some g }))
      1
stop_answered c (some (g, done_with)) =
    returned
      (print_success (text "Server stopped successfully" ∷ []) (record c { server = some g })) 0

unfoldable pub handle_stop_command : Network → Console → Answer
handle_stop_command net c = elim c.server [
  | none ↦ returned (print_warning (text "Server is not running" ∷ []) c) 0
  | some g ↦
      if not g.running
      then returned (print_warning (text "Server is not running" ∷ []) c) 0
      else stop_answered (print_info (text "Stopping server..." ∷ []) c) (stop net g)
]

abbrev pub running_lines : GatewayServer → Console → Console
running_lines g c =
    print_lines ("  Active sessions: 0" ∷ "  Uptime: 0 minutes" ∷ "  Security events: 0" ∷ []) (
      println (text "  Total connections: " ∷ number (get_total_connection_count g) ∷ []) (
        println (text "  Active connections: " ∷ number (get_active_connection_count g) ∷ [])
          (println (text "  Server: Running" ∷ []) c)))

unfoldable pub handle_status_command : Console → Answer
handle_status_command c =
    let c' = println [] (print_info (text "Zero Trust Secure Session Gateway Status:" ∷ []) c) in
    let stopped = print_lines ("  Server: Stopped" ∷ "  Status: Not running" ∷ []) c' in
    elim c.server [
      | none ↦ returned stopped 0
      | some g ↦ if not g.running then returned stopped 0 else returned (running_lines g c') 0
    ]

abbrev pub user_data : List (List String)
user_data =
    ("admin" ∷ "admin" ∷ "admin" ∷ "Active" ∷ [])
    ∷ ("operator" ∷ "operator" ∷ "operator" ∷ "Active" ∷ [])
    ∷ ("viewer" ∷ "viewer" ∷ "viewer" ∷ "Active" ∷ [])
    ∷ []

unfoldable pub handle_users_command : Console → Answer
handle_users_command c =
    returned (print_table user_data ("Username" ∷ "Role" ∷ "Created" ∷ "Status" ∷ []) c) 0

abbrev pub show_sessions : Console → Console
show_sessions c =
    println (text "No active sessions (server not running)" ∷ [])
      (print_info (text "Active sessions:" ∷ []) c)

unfoldable pub handle_sessions_command : Console → Answer
handle_sessions_command c = returned (show_sessions c) 0

unfoldable pub handle_security_command : Console → Answer
handle_security_command c =
    returned
      (print_lines ("Blocked IPs: 0" ∷ "Failed attempts: 0" ∷ "Brute force detections: 0" ∷ [])
        (print_info (text "Security Statistics:" ∷ []) c))
      0

abbrev pub export_audit_logs : String → Console → Console
export_audit_logs file c =
    print_success (text "Audit logs exported successfully" ∷ [])
      (print_info (text "Exporting audit logs to: " ∷ text file ∷ []) c)

unfoldable pub handle_logs_command : List String → Console → Answer
handle_logs_command [] c = returned (print_error (text "Output file required" ∷ []) c) 1
handle_logs_command (file ∷ rest) c = returned (export_audit_logs file c) 0

abbrev pub take_word : List String → Console → Console
take_word [] c = c
take_word (word ∷ words) c = record c { typed = words }

-- The word that is read is the password; nothing is done with it.
abbrev pub get_password_input : String → Console → Console
get_password_input prompt c = take_word c.typed (print (text prompt ∷ []) c)

abbrev pub ask_password : List String → Console → Console
ask_password [] c = get_password_input "Enter password: " c
ask_password (password ∷ rest) c = c

unfoldable pub handle_user_add_command : List String → Console → Answer
handle_user_add_command [] c = returned (print_error (text "Username and role required" ∷ []) c) 1
handle_user_add_command (username ∷ []) c =
    returned (print_error (text "Username and role required" ∷ []) c) 1
handle_user_add_command (username ∷ role ∷ rest) c =
    if not (is_valid_username username)
    then returned (print_error (text "Invalid username" ∷ []) c) 1
    else if not (is_valid_role role)
    then returned (print_error (text "Invalid role. Valid roles: admin, operator, viewer" ∷ []) c) 1
    else returned
        (print_success (text "User added successfully" ∷ []) (
          print_info (text "Adding user: " ∷ text username ∷ text " with role: " ∷ text role ∷ [])
            (ask_password rest c)))
        0

unfoldable pub handle_user_remove_command : List String → Console → Answer
handle_user_remove_command [] c = returned (print_error (text "Username required" ∷ []) c) 1
handle_user_remove_command (username ∷ rest) c =
    returned
      (print_success (text "User removed successfully" ∷ [])
        (print_info (text "Removing user: " ∷ text username ∷ []) c))
      0

unfoldable pub handle_test_command : List String → Console → Answer
handle_test_command args c =
    returned
      (print_success (text "Connection test successful" ∷ [])
        (print_info (text "Testing connection to service: " ∷ text (first_or "all" args) ∷ []) c))
      0

module _ (lib : Json) where
  abbrev pub show_config : Console → ConfigManager lib × ConfigResult (Unit {0}) → Answer
  show_config c (m, failure e) =
      returned (print_error (text "Failed to load configuration: " ∷ config_message e ∷ []) c) 1
  show_config c (m, success _) =
      let value : String → Piece = λ key. text (get_string lib m key "") in
      let port = get_int lib m "server.listen_port" (pos 0) in
      returned
        (println (text "TLS Key File: " ∷ value "server.tls_key_file" ∷ []) (
          println (text "TLS Cert File: " ∷ value "server.tls_cert_file" ∷ []) (
            println (text "Listen Port: " ∷ integer port ∷ []) (
              println (text "Listen Address: " ∷ value "server.listen_address" ∷ [])
                (print_info (text "Current Configuration:" ∷ []) c)))))
        0

  unfoldable pub handle_config_command : Machine lib → Console → Answer
  handle_config_command w c = elim (set_default_config lib) [
    | thrown m ↦
        returned (print_error (text "Failed to show configuration: " ∷ exception_message ∷ []) c) 1
    | parsed m ↦ show_config c (load_config lib w.platform w.disk m c.config_file)
  ]
