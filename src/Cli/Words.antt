-- ===== src/Cli/Words.antt =====
-- How cli_interface.cpp cuts a line into words (`parse_input`), and the functions of `CLIUtils` that
-- give texts. A text in small or capital letters is given by its codes.
use Prim.Native.Char.{Char, code}
use Prim.Native.String.{◌++◌ as ◌<>◌}
use text.Mathlib.TextLemmas.{nil-append, cons-append}
use zero_trust_secure_sessio.Common.{
  ℕ, ◌-◌, ◌≡◌, refl, ap, ◌∙◌, Bool, true, false, ◌&&◌, List, [], ◌∷◌, map, String, arith, nat_eq,
  ◌==◌, leb, if◌then◌else◌, All, codes,
}
use zero_trust_secure_sessio.Config.Keys.{begin_with, is_space, lower}
use zero_trust_secure_sessio.Cli.Trim.{trim}

-- Whether a word goes on in what follows a character.
abbrev pub goes_on : String → Bool
goes_on String.[] = false
goes_on (String.◌∷◌ c s) = if is_space (code c) then false else true

-- The loop over `iss >> token`.
unfoldable pub parse_input : String → List String
parse_input String.[] = []
parse_input (String.◌∷◌ c s) =
    let rest = parse_input s in
    if is_space (code c)
    then rest
    else if goes_on s
    then begin_with c rest
    else String.◌∷◌ c "" ∷ rest

-- The loop over `std::getline`: nothing is read behind a delimiter that ends the text.
unfoldable pub cut_at : ℕ → String → List String
cut_at mark String.[] = []
cut_at mark (String.◌∷◌ c s) =
    let rest = cut_at mark s in if code c == mark then "" ∷ rest else begin_with c rest

unfoldable pub split : String → ℕ → List String
unfolding cut_at
split s mark = map trim (cut_at mark s)

abbrev pub to_lower : String → List ℕ
to_lower s = map lower (codes s)

abbrev pub upper : ℕ → ℕ
upper c = if leb 97 c && leb c 122 then c - 32 else c

abbrev pub to_upper : String → List ℕ
to_upper s = map upper (codes s)

-- Whether standard output is a terminal is the first argument of the colours.
abbrev pub color : String → Bool → String → String
color on colored text = if colored then on <> text <> "\u{1b}[0m" else text

abbrev pub color_red : Bool → String → String
color_red = color "\u{1b}[31m"

abbrev pub color_green : Bool → String → String
color_green = color "\u{1b}[32m"

abbrev pub color_yellow : Bool → String → String
color_yellow = color "\u{1b}[33m"

abbrev pub color_blue : Bool → String → String
color_blue = color "\u{1b}[34m"

abbrev pub color_reset : Bool → String
color_reset colored = if colored then "\u{1b}[0m" else ""

abbrev HasNoSpace : String → Type 0
HasNoSpace String.[] = Unit
HasNoSpace (String.◌∷◌ c s) = (is_space (code c) ≡ false) × HasNoSpace s

-- Not empty, and without a space.
abbrev pub IsToken : String → Type 0
IsToken String.[] = false ≡ true
IsToken (String.◌∷◌ c s) = (is_space (code c) ≡ false) × HasNoSpace s

-- Words with a space in front of each.
abbrev pub spaced : List String → String
spaced [] = ""
spaced (word ∷ words) = String.◌∷◌ " " (word <> spaced words)

goes_on-spaced : (words : List String) → goes_on (spaced words) ≡ false
goes_on-spaced [] = refl
goes_on-spaced (word ∷ words) = refl

parse_input-append :
    (c : Char) (s : String) (words : List String)
    → is_space (code c) ≡ false
    → HasNoSpace s
    → parse_input (String.◌∷◌ c s <> spaced words) ≡ String.◌∷◌ c s ∷ parse_input (spaced words)
unfolding parse_input
parse_input-append c String.[] words h k =
    rw
      (
        cons-append c "" (spaced words),
        nil-append (spaced words),
        h,
        goes_on-spaced words,
        parse_input,
      )
      refl
parse_input-append c (String.◌∷◌ d s) words h (h', k) =
    let more : goes_on (String.◌∷◌ d s <> spaced words) ≡ true =
      ap goes_on (cons-append d s (spaced words)) ∙ rw h' refl in
    rw (cons-append c (String.◌∷◌ d s) (spaced words), h, more, parse_input)
      (rw (parse_input-append d s words h' k) refl)

-- The words of a line, each with a space in front, are the words that were joined.
pub parse_input-spaced :
    (words : List String) → All IsToken words → parse_input (spaced words) ≡ words
unfolding parse_input
parse_input-spaced [] h = refl
parse_input-spaced (String.[] ∷ words) (h, k) = absurd (ground (arith, h))
parse_input-spaced (String.◌∷◌ c s ∷ words) ((h, h'), k) =
    parse_input-append c s words h h' ∙ ap (λ t. String.◌∷◌ c s ∷ t) (parse_input-spaced words k)
