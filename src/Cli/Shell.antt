-- ===== src/Cli/Shell.antt =====
-- `CLIInterface::run` and the class `InteractiveShell` of cli_interface.cpp. Each line that a shell
-- reads is taken from the input, also by a shell in a shell, so the lines bound the depth: the fuel
-- is one more than they are. `start_server` and `stop_server`, which the commands `start` and `stop`
-- call, are declared nowhere and are parameters.
use Prim.Native.String.{◌++◌ as ◌<>◌}
use zero_trust_secure_sessio.Common.{
  ℕ, zero, suc, not, List, [], ◌∷◌, ◌++◌, String, Option, none, some, string_eq, ◌==◌,
  if◌then◌else◌, length,
}
use zero_trust_secure_sessio.Config.{Json}
use zero_trust_secure_sessio.Cli.{
  text, Handler, on_start, on_stop, on_status, on_users, on_sessions, on_security, on_logs,
  on_add_user, on_remove_user, on_config, on_test, on_interactive, on_help, CliCommand, Console,
  Answer, returned, waiting, crashed, exhausted, println, print_error, find_command,
  parse_command_line, validate_arguments,
}
use zero_trust_secure_sessio.Cli.Words.{parse_input}
use zero_trust_secure_sessio.Cli.Handlers.{Machine, first_or}
use zero_trust_secure_sessio.Cli.History.{Shell, new_shell, add_to_history, should_exit}
use zero_trust_secure_sessio.Cli.Actions.{
  print_lines, show_help, show_command_help, handle_status_command, handle_users_command,
  handle_sessions_command, handle_security_command, handle_logs_command, handle_user_add_command,
  handle_user_remove_command, handle_config_command, handle_test_command,
}

pub record Undeclared : Type 0 where
  pub start_server : List String → Console → Answer
  pub stop_server : List String → Console → Answer

abbrev pub help_found : String → Option CliCommand → Console → Console
help_found name none c = print_error (text "Unknown command: " ∷ text name ∷ []) c
help_found name (some cmd) c = show_command_help cmd c

unfoldable pub help_command : List String → Console → Answer
help_command [] c = returned (show_help c) 0
help_command (name ∷ rest) c = returned (help_found name (find_command name c.commands) c) 0

-- `process_command`; the message of an error is logged also where there is none.
abbrev pub logged_failure : String → List String → Answer → Answer
logged_failure line args (returned c code) =
    let message = "Command failed: " <> line <> ". Command Args: " <> first_or "" args in
    returned (record c { error_log = c.error_log ++ message ∷ [] }) code
logged_failure line args (waiting c) = waiting c
logged_failure line args crashed = crashed
logged_failure line args exhausted = exhausted

-- What follows a command, with a console to go on with.
abbrev pub and_then : Answer → (Console → Answer) → Answer
and_then (returned c code) next = next c
and_then (waiting c) next = waiting c
and_then crashed next = crashed
and_then exhausted next = exhausted

abbrev pub banner : List String
banner =
    "Zero Trust Secure Session Gateway - Interactive Mode"
    ∷ "Type 'help' for available commands or 'exit' to quit." ∷ "" ∷ []

-- `run_interactive_mode`, given the loop of the shell.
abbrev pub run_interactive_mode : (Shell → Console → Answer) → Console → Answer
run_interactive_mode loop c = loop new_shell (print_lines banner c)

module _ (lib : Json) (w : Machine lib) (u : Undeclared) where
  -- The registered closures; `shell` is `run_interactive_mode`, after which the closure returns 0.
  unfoldable pub call : (Console → Answer) → Handler → List String → Console → Answer
  call shell on_start args c = u.start_server args c
  call shell on_stop args c = u.stop_server args c
  call shell on_status args c = handle_status_command c
  call shell on_users args c = handle_users_command c
  call shell on_sessions args c = handle_sessions_command c
  call shell on_security args c = handle_security_command c
  call shell on_logs args c = handle_logs_command args c
  call shell on_add_user args c = handle_user_add_command args c
  call shell on_remove_user args c = handle_user_remove_command args c
  call shell on_config args c = handle_config_command lib w c
  call shell on_test args c = handle_test_command args c
  call shell on_interactive args c = shell c
  call shell on_help args c = help_command args c

  unfoldable pub run_found :
      (Console → Answer) → String → List String → Option CliCommand → Console → Answer
  unfolding call
  run_found shell name args none c =
      returned (show_help (print_error (text "Unknown command: " ∷ text name ∷ []) c)) 1
  run_found shell name args (some command) c =
      if not (validate_arguments command args)
      then returned (show_command_help command c) 1
      else call shell command.handler args c

  unfoldable pub run_args : (Console → Answer) → List String → Console → Answer
  unfolding run_found
  run_args shell [] c = returned (show_help c) 1
  run_args shell (name ∷ args) c = run_found shell name args (find_command name c.commands) c

  unfoldable pub process_args : (Console → Answer) → String → List String → Console → Answer
  unfolding run_args
  process_args shell line [] c = returned c 0
  process_args shell line (name ∷ args) c =
      logged_failure line (name ∷ args)
        (run_args shell (parse_command_line ("zerossg" ∷ name ∷ args)) c)

  -- One round of the loop of `InteractiveShell::run`, which takes a line off the input.
  unfoldable pub shell_line : (Shell → Console → Answer) → Shell → List String → Console → Answer
  unfolding process_args
  shell_line loop sh [] c = returned (println [] c) 0
  shell_line loop sh (line ∷ rest) c =
      let c' = record c { input = rest } in
      if line == ""
      then loop sh c'
      else if should_exit line
      then returned c' 0
      else and_then (process_args (run_interactive_mode loop) line (parse_input line) c')
          (loop (add_to_history line sh))

  unfoldable pub shell_lines : ℕ → Shell → Console → Answer
  unfolding shell_line
  shell_lines zero sh c = exhausted
  shell_lines (suc fuel) sh c = shell_line (shell_lines fuel) sh c.input c

  unfoldable pub run : List String → Console → Answer
  unfolding run_args shell_lines
  run argv c =
      run_args (run_interactive_mode (shell_lines (suc (length c.input)))) (parse_command_line argv)
        c
