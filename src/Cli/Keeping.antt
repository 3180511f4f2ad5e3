-- ===== src/Cli/Keeping.antt =====
-- What the commands of cli_interface.cpp leave of the input.
use zero_trust_secure_sessio.Common.{
  ℕ, ◌≤◌, ◌≡◌, refl, ◌∙◌, inl, inr, true, false, List, [], ◌∷◌, String, Option, none, some, arith,
  string_eq, length, Bool-cases, Option-cases,
}
use zero_trust_secure_sessio.Config.{
  Json, ConfigManager, ConfigResult, success, failure, Parsed, parsed, thrown,
}
use zero_trust_secure_sessio.Config.Files.{load_config}
use zero_trust_secure_sessio.Config.Defaults.{set_default_config}
use zero_trust_secure_sessio.Cli.{
  text, exception_message, CliCommand, Console, Answer, returned, waiting, crashed, exhausted,
  println, print_error, find_command,
}
use zero_trust_secure_sessio.Cli.Checks.{is_valid_username, is_valid_role}
use zero_trust_secure_sessio.Cli.Handlers.{Machine}
use zero_trust_secure_sessio.Cli.Actions.{
  print_lines, user_data, command_lines, argument_lines, titled, ask_password, take_word,
  show_config, show_help, show_command_help, handle_status_command, handle_users_command,
  handle_sessions_command, handle_security_command, handle_logs_command, handle_user_add_command,
  handle_user_remove_command, handle_config_command, handle_test_command,
}
use zero_trust_secure_sessio.Cli.Tables.{table_lines}
use zero_trust_secure_sessio.Cli.Shell.{help_found, help_command}

-- A command comes to an end, waits for the server, or ends the process; if it returns, it leaves at
-- most so many lines of input.
abbrev pub Ends : ℕ → Answer → Type 0
Ends n (returned c code) = length c.input ≤ n
Ends n (waiting c) = Unit
Ends n crashed = Unit
Ends n exhausted = false ≡ true

pub Ends-le : (m n : ℕ) (a : Answer) → m ≤ n → Ends m a → Ends n a
Ends-le m n (returned c code) le h = omega (arith, h)
Ends-le m n (waiting c) le h = tt
Ends-le m n crashed le h = tt
Ends-le m n exhausted le h = h

-- Printing leaves the input.
abbrev Keeps : (Console → Console) → Type 0
Keeps f = (c : Console) → (f c).input ≡ c.input

print_lines-Keeps : (lines : List String) → Keeps (print_lines lines)
print_lines-Keeps [] c = refl
print_lines-Keeps (line ∷ lines) c = print_lines-Keeps lines (println (text line ∷ []) c)

command_lines-Keeps : (commands : List CliCommand) → Keeps (command_lines commands)
command_lines-Keeps [] c = refl
command_lines-Keeps (cmd ∷ rest) c = command_lines-Keeps rest _

argument_lines-Keeps : (args : List String) → Keeps (argument_lines args)
argument_lines-Keeps [] c = refl
argument_lines-Keeps (arg ∷ rest) c = argument_lines-Keeps rest _

titled-Keeps : (title : String) (args : List String) → Keeps (titled title args)
titled-Keeps title [] c = refl
titled-Keeps title (arg ∷ rest) c = argument_lines-Keeps (arg ∷ rest) _

pub show_help-Keeps : Keeps show_help
unfolding show_help
show_help-Keeps c = command_lines-Keeps c.commands _

pub show_command_help-Keeps : (command : CliCommand) → Keeps (show_command_help command)
unfolding show_command_help
show_command_help-Keeps command c =
    titled-Keeps "Optional arguments:" command.optional_args _
    ∙ titled-Keeps "Required arguments:" command.required_args _

help_found-Keeps : (name : String) (o : Option CliCommand) → Keeps (help_found name o)
help_found-Keeps name none c = refl
help_found-Keeps name (some cmd) c = show_command_help-Keeps cmd c

take_word-Keeps : (words : List String) → Keeps (take_word words)
take_word-Keeps [] c = refl
take_word-Keeps (word ∷ words) c = refl

ask_password-Keeps : (args : List String) → Keeps (ask_password args)
ask_password-Keeps (password ∷ rest) c = refl
ask_password-Keeps [] c = take_word-Keeps c.typed _

-- A command that returns with the input as it was.
abbrev Stays : Console → Answer → Type 0
Stays c (returned d code) = d.input ≡ c.input
Stays c (waiting d) = Unit
Stays c crashed = Unit
Stays c exhausted = false ≡ true

pub Stays-Ends : (n : ℕ) (c : Console) (a : Answer) → length c.input ≤ n → Stays c a → Ends n a
Stays-Ends n c (returned d code) h e = rw e h
Stays-Ends n c (waiting d) h e = tt
Stays-Ends n c crashed h e = tt
Stays-Ends n c exhausted h e = e

pub user_add-Stays : (args : List String) (c : Console) → Stays c (handle_user_add_command args c)
unfolding handle_user_add_command
user_add-Stays [] c = refl
user_add-Stays (username ∷ []) c = refl
user_add-Stays (username ∷ role ∷ rest) c = elim (Bool-cases (is_valid_username username)) [
  | inr e ↦ rw (e, handle_user_add_command) refl
  | inl e ↦ elim (Bool-cases (is_valid_role role)) [
    | inr r ↦ rw (e, r, handle_user_add_command) refl
    | inl r ↦ rw (e, r, handle_user_add_command) (ask_password-Keeps rest c)
  ]
]

pub status-Stays : (c : Console) → Stays c (handle_status_command c)
unfolding handle_status_command
status-Stays c = elim (Option-cases c.server) [
  | inl e ↦ rw (e, handle_status_command) refl
  | inr (g, e) ↦ elim (Bool-cases g.running) [
    | inr r ↦ rw (e, r, handle_status_command) refl
    | inl r ↦ rw (e, r, handle_status_command) refl
  ]
]

pub logs-Stays : (args : List String) (c : Console) → Stays c (handle_logs_command args c)
unfolding handle_logs_command
logs-Stays [] c = refl
logs-Stays (file ∷ rest) c = refl

pub user_remove-Stays :
    (args : List String) (c : Console) → Stays c (handle_user_remove_command args c)
unfolding handle_user_remove_command
user_remove-Stays [] c = refl
user_remove-Stays (username ∷ rest) c = refl

pub users-Stays : (c : Console) → Stays c (handle_users_command c)
unfolding handle_users_command
users-Stays c =
    print_lines-Keeps (table_lines user_data ("Username" ∷ "Role" ∷ "Created" ∷ "Status" ∷ [])) c

pub sessions-Stays : (c : Console) → Stays c (handle_sessions_command c)
unfolding handle_sessions_command
sessions-Stays c = refl

pub security-Stays : (c : Console) → Stays c (handle_security_command c)
unfolding handle_security_command
security-Stays c = refl

pub test-Stays : (args : List String) (c : Console) → Stays c (handle_test_command args c)
unfolding handle_test_command
test-Stays args c = refl

pub help-Stays : (args : List String) (c : Console) → Stays c (help_command args c)
unfolding help_command
help-Stays [] c = show_help-Keeps c
help-Stays (name ∷ rest) c = help_found-Keeps name (find_command name c.commands) c

module _ (lib : Json) (w : Machine lib) where
  show_config-Stays :
      (c : Console) (r : ConfigManager lib × ConfigResult (Unit {0}))
      → Stays c (show_config lib c r)
  show_config-Stays c (m, failure e) = refl
  show_config-Stays c (m, success x) = refl

  pub config-Stays : (c : Console) → Stays c (handle_config_command lib w c)
  unfolding handle_config_command
  config-Stays c = made (set_default_config lib)
    where
      made :
          (p : Parsed (ConfigManager lib))
          → Stays c (elim p [
            | thrown m ↦
                returned
                  (print_error (text "Failed to show configuration: " ∷ exception_message ∷ []) c)
                  1
            | parsed m ↦ show_config lib c (load_config lib w.platform w.disk m c.config_file)
          ])
      made (thrown m) = refl
      made (parsed m) = show_config-Stays c (load_config lib w.platform w.disk m c.config_file)
