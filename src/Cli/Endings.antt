-- ===== src/Cli/Endings.antt =====
-- The end of the runs and of the shells of cli_interface.cpp.
use zero_trust_secure_sessio.Common.{
  ℕ, zero, suc, ◌≤◌, inl, inr, List, [], ◌∷◌, String, Option, none, some, arith, string_eq, ◌==◌,
  length, Bool-cases,
}
use zero_trust_secure_sessio.Config.{Json}
use zero_trust_secure_sessio.Cli.{
  Handler, on_start, on_stop, on_status, on_users, on_sessions, on_security, on_logs, on_add_user,
  on_remove_user, on_config, on_test, on_interactive, on_help, CliCommand, Console, Answer,
  returned, waiting, crashed, exhausted, find_command, parse_command_line, validate_arguments,
}
use zero_trust_secure_sessio.Cli.Words.{parse_input}
use zero_trust_secure_sessio.Cli.Handlers.{Machine}
use zero_trust_secure_sessio.Cli.History.{Shell, new_shell, add_to_history, should_exit}
use zero_trust_secure_sessio.Cli.Actions.{print_lines}
use zero_trust_secure_sessio.Cli.Shell.{
  Undeclared, call, run_found, run_args, logged_failure, process_args, banner, and_then,
  run_interactive_mode, shell_line, shell_lines, run,
}
use zero_trust_secure_sessio.Cli.Keeping.{
  Ends, Ends-le, show_help-Keeps, show_command_help-Keeps, Stays-Ends, user_add-Stays, status-Stays,
  logs-Stays, user_remove-Stays, users-Stays, sessions-Stays, security-Stays, test-Stays,
  help-Stays, config-Stays,
}

module _ (lib : Json) (w : Machine lib) (u : Undeclared)
    (starts : (args : List String) (c : Console) → Ends (length c.input) (u.start_server args c))
    (stops : (args : List String) (c : Console)
      → Ends (length c.input) (u.stop_server args c)) where
  -- A shell that ends on each input of at most so many lines.
  abbrev EndsBelow : ℕ → (Console → Answer) → Type 0
  EndsBelow n shell = (c : Console) → length c.input ≤ n → Ends n (shell c)

  call-Ends :
      (n : ℕ) (shell : Console → Answer)
      → EndsBelow n shell
      → (handler : Handler) (args : List String) → EndsBelow n (call lib w u shell handler args)
  unfolding call
  call-Ends n shell s on_start args c h = Ends-le (length c.input) n _ h (starts args c)
  call-Ends n shell s on_stop args c h = Ends-le (length c.input) n _ h (stops args c)
  call-Ends n shell s on_status args c h = Stays-Ends n c _ h (status-Stays c)
  call-Ends n shell s on_users args c h = Stays-Ends n c _ h (users-Stays c)
  call-Ends n shell s on_sessions args c h = Stays-Ends n c _ h (sessions-Stays c)
  call-Ends n shell s on_security args c h = Stays-Ends n c _ h (security-Stays c)
  call-Ends n shell s on_logs args c h = Stays-Ends n c _ h (logs-Stays args c)
  call-Ends n shell s on_add_user args c h = Stays-Ends n c _ h (user_add-Stays args c)
  call-Ends n shell s on_remove_user args c h = Stays-Ends n c _ h (user_remove-Stays args c)
  call-Ends n shell s on_config args c h = Stays-Ends n c _ h (config-Stays lib w c)
  call-Ends n shell s on_test args c h = Stays-Ends n c _ h (test-Stays args c)
  call-Ends n shell s on_interactive args c h = s c h
  call-Ends n shell s on_help args c h = Stays-Ends n c _ h (help-Stays args c)

  run_found-Ends :
      (n : ℕ) (shell : Console → Answer)
      → EndsBelow n shell
      → (name : String) (args : List String) (o : Option CliCommand)
      → EndsBelow n (run_found lib w u shell name args o)
  unfolding run_found
  run_found-Ends n shell s name args none c h = rw (show_help-Keeps _) h
  run_found-Ends n shell s name args (some command) c h =
      elim (Bool-cases (validate_arguments command args)) [
        | inr e ↦ rw (e, run_found) (rw (show_command_help-Keeps command c) h)
        | inl e ↦ rw (e, run_found) (call-Ends n shell s command.handler args c h)
      ]

  run_args-Ends :
      (n : ℕ) (shell : Console → Answer)
      → EndsBelow n shell
      → (args : List String) → EndsBelow n (run_args lib w u shell args)
  unfolding run_args
  run_args-Ends n shell s [] c h = rw (show_help-Keeps c) h
  run_args-Ends n shell s (name ∷ args) c h =
      run_found-Ends n shell s name args (find_command name c.commands) c h

  logged_failure-Ends :
      (n : ℕ) (line : String) (args : List String) (a : Answer)
      → Ends n a
      → Ends n (logged_failure line args a)
  logged_failure-Ends n line args (returned c code) h = h
  logged_failure-Ends n line args (waiting c) h = tt
  logged_failure-Ends n line args crashed h = tt
  logged_failure-Ends n line args exhausted h = h

  process_args-Ends :
      (n : ℕ) (shell : Console → Answer)
      → EndsBelow n shell
      → (line : String) (args : List String) → EndsBelow n (process_args lib w u shell line args)
  unfolding process_args parse_command_line
  process_args-Ends n shell s line [] c h = h
  process_args-Ends n shell s line (name ∷ args) c h =
      logged_failure-Ends n line (name ∷ args) _ (run_args-Ends n shell s (name ∷ args) c h)

  and_then-Ends :
      (n : ℕ) (a : Answer) (next : Console → Answer)
      → Ends n a
      → EndsBelow n next
      → Ends n (and_then a next)
  and_then-Ends n (returned c code) next h k = k c h
  and_then-Ends n (waiting c) next h k = tt
  and_then-Ends n crashed next h k = tt
  and_then-Ends n exhausted next h k = h

  shell_line-Ends :
      (n : ℕ) (loop : Shell → Console → Answer)
      → ((sh : Shell) → EndsBelow n (loop sh))
      → (sh : Shell) (line : String) (rest : List String) (c : Console) → length rest ≤ n
      → Ends n (shell_line lib w u loop sh (line ∷ rest) c)
  unfolding shell_line
  shell_line-Ends n loop k sh line rest c h =
      let c' = record c { input = rest } in
      elim (Bool-cases (line == "")) [
        | inl e ↦ rw (e, shell_line) (k sh c' h)
        | inr e ↦ elim (Bool-cases (should_exit line)) [
          | inl x ↦ rw (e, x, shell_line) h
          | inr x ↦
              rw (e, x, shell_line)
                (and_then-Ends n _ (loop (add_to_history line sh))
                  (process_args-Ends n (run_interactive_mode loop)
                    (λ d j. k new_shell (print_lines banner d) j) line (parse_input line) c' h)
                  (k (add_to_history line sh)))
        ]
      ]

  -- The loop ends on each input that is shorter.
  abbrev Below : ℕ → (Shell → Console → Answer) → Type 0
  Below zero loop = Unit
  Below (suc m) loop = (sh : Shell) → EndsBelow m (loop sh)

  round-Ends :
      (n : ℕ) (loop : Shell → Console → Answer)
      → Below n loop
      → (sh : Shell) (input : List String) (c : Console) → length input ≤ n
      → length c.input ≤ n
      → Ends n (shell_line lib w u loop sh input c)
  unfolding shell_line
  round-Ends n loop k sh [] c h j = j
  round-Ends zero loop k sh (line ∷ rest) c h j = absurd (omega arith)
  round-Ends (suc m) loop k sh (line ∷ rest) c h j =
      Ends-le m (suc m) (shell_line lib w u loop sh (line ∷ rest) c) (omega arith)
        (shell_line-Ends m loop k sh line rest c (omega arith))

  shell_lines-Ends : (n : ℕ) (sh : Shell) → EndsBelow n (shell_lines lib w u (suc n) sh)
  unfolding shell_lines
  shell_lines-Ends zero sh c h = round-Ends 0 (shell_lines lib w u 0) tt sh c.input c h h
  shell_lines-Ends (suc n) sh c h =
      round-Ends (suc n) (shell_lines lib w u (suc n)) (shell_lines-Ends n) sh c.input c h h

  -- If the two functions that are declared nowhere end and add no lines to the input, then each run
  -- of the program ends, or waits for the server, or ends the process: a shell, and each shell that
  -- is opened in it, ends on every input, and no run leaves more lines than there were.
  pub run-Ends : (argv : List String) (c : Console) → Ends (length c.input) (run lib w u argv c)
  unfolding run
  run-Ends argv c =
      run_args-Ends (length c.input)
        (run_interactive_mode (shell_lines lib w u (suc (length c.input))))
        (λ d h. shell_lines-Ends (length c.input) new_shell (print_lines banner d) h)
        (parse_command_line argv) c (omega arith)
