-- ===== src/Cli/Tests.antt =====
-- The theorems about cli_interface.cpp at concrete inputs, and runs of its functions.
use zero_trust_secure_sessio.Common.{
  ◌≡◌, refl, inl, true, false, List, [], ◌∷◌, String, some, none, arith, nat_eq, string_eq, length,
  keep,
}
use zero_trust_secure_sessio.Config.Required.{set_default_config_lem}
use zero_trust_secure_sessio.Config.Sample.{sample, sample-JsonLaws}
use zero_trust_secure_sessio.Config.Tests.{saved, platform, written, root_manager, loads}
use zero_trust_secure_sessio.Gateway.{new_gateway_server}
use zero_trust_secure_sessio.Gateway.Tests.{network, after_stop, calls_to_stop}
use zero_trust_secure_sessio.Cli.{
  Console, null, returned, crashed, register_builtin_commands, find_command, command_of, on_stop,
}
use zero_trust_secure_sessio.Cli.Trim.{trim}
use zero_trust_secure_sessio.Cli.Checks.{is_valid_port}
use zero_trust_secure_sessio.Cli.Words.{split}
use zero_trust_secure_sessio.Cli.Handlers.{Machine, handle_start_command}
use zero_trust_secure_sessio.Cli.History.{
  new_shell, add_all, get_history, is_line, last_of, max_history_size, should_exit, get_completions,
  get_history-add_all,
}
use zero_trust_secure_sessio.Cli.Shell.{Undeclared, run}
use zero_trust_secure_sessio.Cli.Endings.{run-Ends}
use zero_trust_secure_sessio.Cli.Keeping.{Ends}
use zero_trust_secure_sessio.Cli.Starting.{
  Served, StartsWith, handle_start_command_sound, handle_start_command-Calls,
}

trims : trim " \t start x \n" ≡ "start x"
unfolding trim
trims = refl

exits : should_exit "  QUIT " ≡ true
unfolding should_exit trim
exits = refl

splits : split "a, b ,,c," 44 ≡ "a" ∷ "b" ∷ "" ∷ "c" ∷ []
unfolding split trim
splits = refl

completes : get_completions "st" new_shell ≡ "start" ∷ "stop" ∷ "status" ∷ []
unfolding get_completions
completes = refl

-- What follows the number is not looked at.
port_accepted : is_valid_port "8080abc" ≡ true
unfolding is_valid_port
port_accepted = refl

abbrev headers : List String
headers = "Username" ∷ "Role" ∷ "Created" ∷ "Status" ∷ []

get_history-add_all_example :
    get_history (add_all ("a" ∷ "" ∷ "b" ∷ []) new_shell)
    ≡ last_of max_history_size (keep is_line ("a" ∷ "" ∷ "b" ∷ []))
get_history-add_all_example = get_history-add_all ("a" ∷ "" ∷ "b" ∷ [])

abbrev console : Console
console = register_builtin_commands (record {
  commands = [];
  server = none;
  config_file = "etc/gateway.json";
  global_server = null;
  input = "users" ∷ "interactive" ∷ "exit" ∷ "quit" ∷ "status" ∷ [];
  typed = [];
  ticks = [];
  colored = false;
  output = [];
  error_log = [];
})

abbrev machine : Machine (sample saved)
machine = record { disk = written; platform = platform; network = network }

found :
    find_command "stop" console.commands
    ≡ some (command_of "stop" "Stop the Zero Trust gateway server" "stop" on_stop)
unfolding find_command register_builtin_commands
found = refl

abbrev undeclared : Undeclared
undeclared = record { start_server = λ args c. returned c 0; stop_server = λ args c. returned c 1 }

run-Ends_example :
    Ends
      (length console.input)
      (run (sample saved) machine undeclared ("zerossg" ∷ "interactive" ∷ []) console)
run-Ends_example =
    run-Ends (sample saved) machine undeclared (λ args c. omega arith) (λ args c. omega arith)
      ("zerossg" ∷ "interactive" ∷ []) console

handle_start_command_sound_example :
    Served
      (StartsWith (sample saved) machine root_manager "etc/gateway.json")
      (handle_start_command (sample saved) machine [] console)
unfolding register_builtin_commands
handle_start_command_sound_example =
    handle_start_command_sound (sample saved) machine [] console
      (set_default_config_lem (sample saved) (sample-JsonLaws saved)) (inl refl)

handle_start_command-Calls_example :
    handle_start_command (sample saved) machine [] (record console { server = some after_stop })
    ≡ crashed
unfolding new_gateway_server register_builtin_commands
handle_start_command-Calls_example =
    handle_start_command-Calls (sample saved) machine []
      (record console { server = some after_stop }) refl (omega arith) calls_to_stop refl refl
      (set_default_config_lem (sample saved) (sample-JsonLaws saved)) loads
