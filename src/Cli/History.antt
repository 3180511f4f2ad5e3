-- ===== src/Cli/History.antt =====
-- The class `InteractiveShell` of cli_interface.cpp but for its loop: the history, the completions,
-- and the words that end the shell. `clear_history` calls itself and has no model.
use Prim.Native.Char.{code}
use zero_trust_secure_sessio.Common.{
  ℕ, zero, suc, ◌+◌, ◌-◌, ◌≤◌, ◌≡◌, refl, sym, ap, ◌∙◌, inl, inr, Bool, true, false, not, ◌&&◌,
  ◌||◌, List, [], ◌∷◌, ◌++◌, String, arith, nat_eq, string_eq, ◌==◌, ltb, if◌then◌else◌, length,
  keep, codes, length-append, Bool-cases,
}
use mathlib.Core.List.{append-nil, append_assoc}
use zero_trust_secure_sessio.Config.Keys.{same}
use zero_trust_secure_sessio.Cli.Trim.{trim}
use zero_trust_secure_sessio.Cli.Words.{to_lower}

-- The members of `InteractiveShell` but its reference to the console, and `m_running`, which no
-- code changes.
pub record Shell : Type 0 where
  pub auto_completion_enabled : Bool
  pub command_history : List String

abbrev pub new_shell : Shell
new_shell = record { auto_completion_enabled = true; command_history = [] }

-- The erasure of so many at the front.
abbrev pub drop {ℓ} : {A : Type ℓ} → ℕ → List A → List A
drop zero xs = xs
drop (suc n) [] = []
drop (suc n) (x ∷ xs) = drop n xs

abbrev pub max_history_size : ℕ
max_history_size = 100

unfoldable pub trim_history : Shell → Shell
trim_history sh =
    let n = length sh.command_history in
    if ltb max_history_size n
    then record sh { command_history = drop (n - max_history_size) sh.command_history }
    else sh

unfoldable pub add_to_history : String → Shell → Shell
unfolding trim_history
add_to_history line sh =
    if not (line == "")
    then trim_history (record sh { command_history = sh.command_history ++ line ∷ [] })
    else sh

abbrev pub get_history : Shell → List String
get_history sh = sh.command_history

abbrev pub enable_auto_completion : Bool → Shell → Shell
enable_auto_completion enable sh = record sh { auto_completion_enabled = enable }

abbrev pub get_command_names : List String
get_command_names =
    "start" ∷ "stop" ∷ "status" ∷ "users" ∷ "sessions" ∷ "security" ∷ "logs" ∷ "help" ∷ "exit" ∷ []

-- `name.find(partial) == 0`.
abbrev pub begins : String → String → Bool
begins String.[] s = true
begins (String.◌∷◌ c part) String.[] = false
begins (String.◌∷◌ c part) (String.◌∷◌ d s) = code c == code d && begins part s

unfoldable pub get_completions : String → Shell → List String
get_completions part sh =
    if sh.auto_completion_enabled then keep (begins part) get_command_names else []

unfoldable pub should_exit : String → Bool
should_exit line =
    let lower_line = to_lower (trim line) in
    same lower_line (codes "exit") || same lower_line (codes "quit")

-- The last elements of a list, at most so many.
abbrev pub last_of {ℓ} : {A : Type ℓ} → ℕ → List A → List A
last_of n xs = drop (length xs - n) xs

-- What a shell's history is after the lines.
abbrev pub add_all : List String → Shell → Shell
add_all [] sh = sh
add_all (line ∷ lines) sh = add_all lines (add_to_history line sh)

abbrev pub is_line : String → Bool
is_line line = not (line == "")

module _ {ℓ} {A : Type ℓ} where
  length-drop : (n : ℕ) (xs : List A) → length (drop n xs) ≡ length xs - n
  length-drop zero xs = omega arith
  length-drop (suc n) [] = omega arith
  length-drop (suc n) (x ∷ xs) = omega (arith, length-drop n xs)

  drop-append : (n : ℕ) (xs ys : List A) → n ≤ length xs → drop n (xs ++ ys) ≡ drop n xs ++ ys
  drop-append zero xs ys h = refl
  drop-append (suc n) [] ys h = absurd (omega arith)
  drop-append (suc n) (x ∷ xs) ys h = drop-append n xs ys (omega arith)

  drop_nil : (n : ℕ) → drop {A = A} n [] ≡ []
  drop_nil zero = refl
  drop_nil (suc n) = refl

  drop-suc : (k n m : ℕ) (x : A) (xs : List A) → k ≡ suc (n + m) → drop k (x ∷ xs) ≡ drop (n + m) xs
  drop-suc k n m x xs e = rw e refl

  drop-drop : (m n : ℕ) (xs : List A) → drop m (drop n xs) ≡ drop (n + m) xs
  drop-drop m zero xs = ap (λ k. drop k xs) (omega arith)
  drop-drop m (suc n) [] = drop_nil m ∙ sym (drop_nil (suc n + m))
  drop-drop m (suc n) (x ∷ xs) =
      drop-drop m n xs ∙ sym (drop-suc (suc n + m) n m x xs (omega arith))

  -- With one more element, only the last ones matter.
  last_of-append :
      (n : ℕ) (xs : List A) (y : A) → last_of n (last_of n xs ++ y ∷ []) ≡ last_of n (xs ++ y ∷ [])
  last_of-append n xs y =
      let k = length xs - n in
      let ys = xs ++ y ∷ [] in
      let size : length ys ≡ length xs + 1 = length-append xs (y ∷ []) in
      let joined : drop k xs ++ y ∷ [] ≡ drop k ys =
        sym (drop-append k xs (y ∷ []) (omega arith)) in
      let count : k + (length ys - k - n) ≡ length ys - n = omega (arith, size) in
      ap (last_of n) joined
      ∙ ap (λ j. drop (j - n) (drop k ys)) (length-drop k ys)
      ∙ drop-drop (length ys - k - n) k ys
      ∙ ap (λ j. drop j ys) count

trim_history-last_of :
    (sh : Shell) → (trim_history sh).command_history ≡ last_of max_history_size sh.command_history
unfolding trim_history
trim_history-last_of sh = elim (Bool-cases (ltb max_history_size (length sh.command_history))) [
  | inl e ↦ rw (e, trim_history) refl
  | inr e ↦
      let none_over : length sh.command_history - max_history_size ≡ 0 = ground (arith, e) in
      rw (e, none_over, trim_history) refl
]

-- The lines with a text that were added, of all, and the history that they leave.
add_all_from :
    (lines before : List String) (sh : Shell)
    → sh.command_history ≡ last_of max_history_size before
    → (add_all lines sh).command_history ≡ last_of max_history_size (before ++ keep is_line lines)
unfolding add_to_history
add_all_from [] before sh h = rw append-nil h
add_all_from (line ∷ lines) before sh h = elim (Bool-cases (is_line line)) [
  | inl e ↦
      let kept = record sh { command_history = sh.command_history ++ line ∷ [] } in
      let added : (add_to_history line sh).command_history
          ≡ last_of max_history_size (before ++ line ∷ []) =
        rw (e, add_to_history)
          (trim_history-last_of kept
            ∙ ap (λ t. last_of max_history_size (t ++ line ∷ [])) h
            ∙ last_of-append max_history_size before line) in
      rw e (
        add_all_from lines (before ++ line ∷ []) (add_to_history line sh) added
        ∙ ap (last_of max_history_size) (append_assoc before (line ∷ []) (keep is_line lines)))
  | inr e ↦
      let same_shell : add_to_history line sh ≡ sh = rw (e, add_to_history) refl in
      rw e (ap (λ s. (add_all lines s).command_history) same_shell ∙ add_all_from lines before sh h)
]

-- After any lines, the history of a new shell is the last hundred, or fewer, of those lines that are
-- not empty, in their order.
pub get_history-add_all :
    (lines : List String)
    → get_history (add_all lines new_shell) ≡ last_of max_history_size (keep is_line lines)
get_history-add_all lines = add_all_from lines [] new_shell refl
