-- ===== src/Cli/Checks.antt =====
-- The checks of `CLIUtils` (cli_interface.cpp) on what a user types. `std::isalnum` is that of the
-- "C" locale.
use zero_trust_secure_sessio.Common.{
  ℕ, ◌≤◌, ◌≡◌, refl, ap, ◌↔◌, inl, inr, Bool, true, false, not, ◌&&◌, ◌||◌, List, [], ◌∷◌, String,
  Option, none, some, arith, nat_eq, string_eq, ◌==◌, ltb, leb, if◌then◌else◌, All, length, codes,
  Bool-cases,
}
use zero_trust_secure_sessio.Config.{ℤ, pos, negsuc}
use zero_trust_secure_sessio.Config.Keys.{stoi}

abbrev pub is_word : ℕ → Bool
is_word c = (leb 48 c && leb c 57) || (leb 65 c && leb c 90) || (leb 97 c && leb c 122) || c == 95

abbrev pub all_words : List ℕ → Bool
all_words [] = true
all_words (c ∷ cs) = if not (is_word c) then false else all_words cs

unfoldable pub is_valid_username : String → Bool
is_valid_username username =
    let n = length (codes username) in
    if username == "" || ltb n 3 || ltb 32 n then false else all_words (codes username)

unfoldable pub is_valid_role : String → Bool
is_valid_role role = role == "admin" || role == "operator" || role == "viewer"

abbrev pub is_port : Option ℤ → Bool
is_port none = false
is_port (some (pos n)) = ltb 0 n && leb n 65535
is_port (some (negsuc n)) = false

unfoldable pub is_valid_port : String → Bool
unfolding stoi
is_valid_port port = is_port (stoi port)

unfoldable pub is_valid_file_path : String → Bool
is_valid_file_path path = not (path == "")

abbrev pub IsWord : ℕ → Type 0
IsWord c = is_word c ≡ true

all_words_iff : (cs : List ℕ) → (all_words cs ≡ true) ↔ All IsWord cs
all_words_iff [] = (λ h. tt, λ h. refl)
all_words_iff (c ∷ cs) = elim (Bool-cases (is_word c)) [
  | inl e ↦ rw (e, all_words) (λ h. (refl, (all_words_iff cs).0 h), λ h. (all_words_iff cs).1 h.1)
  | inr e ↦ rw (e, all_words) (λ h. absurd (ground (arith, h)), λ h. absurd (ground (arith, h.0)))
]

named : (s : String) → 3 ≤ length (codes s) → (s == "") ≡ false
named s low = elim (Bool-cases (s == "")) [
  | inr e ↦ e
  | inl e ↦
      absurd (ground (arith, low, ap (λ t. length (codes t)) ((string_eq.equal_iff s "").0 e)))
]

-- A username is accepted exactly if it has 3 to 32 characters, each a letter, a digit or '_'.
pub is_valid_username_iff :
    (username : String)
    → (is_valid_username username ≡ true) ↔ (
        (3 ≤ length (codes username))
        × (length (codes username) ≤ 32)
        × All IsWord (codes username))
unfolding is_valid_username
is_valid_username_iff username = (
  λ h.
      let words = all_words_iff (codes username) in
      (ground (arith, h), ground (arith, h), words.0 (ground (arith, h))),
  λ (low, high, words).
      let typed : all_words (codes username) ≡ true = (all_words_iff (codes username)).1 words in
      let full : (username == "") ≡ false = named username low in
      rw (full, is_valid_username) (ground (arith, low, high, typed)),
)
