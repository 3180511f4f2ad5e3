-- ===== src/Cli.antt =====
-- src/cli/cli_interface.cpp: the commands of the program and its interactive shell. A console holds
-- the members of `CLIInterface`, the pointer `g_server`, and what the program reads and prints. The
-- closures that are registered as handlers are the constructors of `Handler`.
pub mod Trim
pub mod Checks
pub mod Emails
pub mod Words
pub mod Tables
pub mod Columns
pub mod Handlers
pub mod Actions
pub mod History
pub mod Shell
pub mod Keeping
pub mod Endings
pub mod Starting
pub mod Main
pub mod Tests
use zero_trust_secure_sessio.Common.{
  ℕ, suc, ◌+◌, ◌-◌, Bool, true, false, not, List, [], ◌∷◌, ◌++◌, map, String, Option, none, some,
  string_eq, nat_eq, ◌==◌, ltb, if◌then◌else◌, length,
}
use zero_trust_secure_sessio.Config.{ℤ, ConfigError}
use zero_trust_secure_sessio.Gateway.{GatewayServer, GatewayError}
use Words.{color_red, color_green, color_yellow, color_blue}

-- What is printed, in order: texts, numbers, and the messages of errors by their constants.
pub data Piece : Type 0 where
  text : String → Piece
  number : ℕ → Piece
  integer : ℤ → Piece
  config_message : ConfigError → Piece
  gateway_message : GatewayError → Piece
  exception_message : Piece

pub data Handler : Type 0 where
  on_start on_stop on_status on_users on_sessions on_security on_logs : Handler
  on_add_user on_remove_user on_config on_test on_interactive on_help : Handler

pub record CliCommand : Type 0 where
  pub name : String
  pub description : String
  pub usage : String
  pub required_args : List String
  pub optional_args : List String
  pub handler : Handler

-- `g_server`: null, the server of `m_server`, or one that is destroyed.
pub data Pointer : Type 0 where
  null current dangling : Pointer

-- `input` are the lines that `readline` still gives, `typed` the words that `std::cin` still gives,
-- and `ticks` what the server has become at each further second of the start command's loop.
pub record Console : Type 0 where
  pub commands : List CliCommand
  pub server : Option GatewayServer
  pub config_file : String
  pub global_server : Pointer
  pub input : List String
  pub typed : List String
  pub ticks : List GatewayServer
  pub colored : Bool
  pub output : List Piece
  pub error_log : List String

-- How a command ends: it returns a number, it still waits when there are no further ticks, the
-- process ends, or the fuel is used up.
pub data Answer : Type 0 where
  returned : Console → ℕ → Answer
  waiting : Console → Answer
  crashed : Answer
  exhausted : Answer

abbrev pub print : List Piece → Console → Console
print pieces c = record c { output = c.output ++ pieces }

abbrev pub println : List Piece → Console → Console
println pieces c = print (pieces ++ text "\n" ∷ []) c

abbrev pub print_error : List Piece → Console → Console
print_error error c = println (text (color_red c.colored "ERROR: ") ∷ error) c

abbrev pub print_success : List Piece → Console → Console
print_success message c = println (text (color_green c.colored "SUCCESS: ") ∷ message) c

abbrev pub print_info : List Piece → Console → Console
print_info message c = println (text (color_blue c.colored "INFO: ") ∷ message) c

abbrev pub print_warning : List Piece → Console → Console
print_warning message c = println (text (color_yellow c.colored "WARNING: ") ∷ message) c

abbrev pub register_command : CliCommand → Console → Console
register_command command c = record c { commands = c.commands ++ command ∷ [] }

abbrev pub command_of : String → String → String → Handler → CliCommand
command_of name description usage handler = record {
  name = name;
  description = description;
  usage = usage;
  required_args = [];
  optional_args = [];
  handler = handler;
}

abbrev builtin_commands : List CliCommand
builtin_commands =
    command_of "start" "Start the Zero Trust gateway server" "start [config-file]" on_start
    ∷ command_of "stop" "Stop the Zero Trust gateway server" "stop" on_stop
    ∷ command_of "status" "Show server status and statistics" "status" on_status
    ∷ command_of "users" "List all users" "users" on_users
    ∷ command_of "sessions" "List active sessions" "sessions" on_sessions
    ∷ command_of "security" "Show security statistics" "security" on_security
    ∷ command_of "logs" "Export audit logs" "logs <output-file>" on_logs
    ∷ command_of "add-user" "Add a new user" "add-user <username> <role> [password]" on_add_user
    ∷ command_of "remove-user" "Remove a user" "remove-user <username>" on_remove_user
    ∷ command_of "config" "Show configuration" "config" on_config
    ∷ command_of "test" "Test connection to services" "test [service-name]" on_test
    ∷ command_of "interactive" "Enter interactive mode" "interactive" on_interactive
    ∷ command_of "help" "Show help information" "help [command]" on_help
    ∷ []

abbrev register_all : List CliCommand → Console → Console
register_all [] c = c
register_all (command ∷ rest) c = register_all rest (register_command command c)

unfoldable pub register_builtin_commands : Console → Console
register_builtin_commands c = register_all builtin_commands c

unfoldable pub find_command : String → List CliCommand → Option CliCommand
find_command name [] = none
find_command name (command ∷ rest) =
    let later = find_command name rest in if command.name == name then some command else later

-- `argv` is the program's name and what follows it.
unfoldable pub parse_command_line : List String → List String
parse_command_line [] = []
parse_command_line (program ∷ args) = args

unfoldable pub validate_arguments : CliCommand → List String → Bool
validate_arguments command args = not (ltb (length args) (length command.required_args))
