-- ===== src/Config/Keys.antt =====
-- `get_config_value` of config_manager.cpp and the typed look-ups by a dotted key.
use Prim.Native.Char.{Char, code}
use zero_trust_secure_sessio.Common.{
  ℕ, zero, suc, ◌+◌, ◌-◌, ◌*◌, ◌^◌, ◌≡◌, refl, Bool, true, false, ◌&&◌, ◌||◌, List, [], ◌∷◌, map,
  String, Option, none, some, nat_eq, string_eq, ◌==◌, ltb, leb, if◌then◌else◌, All, codes, dot,
}
use zero_trust_secure_sessio.Config.{ℤ, pos, negsuc, Json, ConfigManager}

abbrev pub begin_with : Char → List String → List String
begin_with c [] = String.◌∷◌ c "" ∷ []
begin_with c (k ∷ ks) = String.◌∷◌ c k ∷ ks

-- The loop that cuts a key at its dots.
unfoldable pub split_key : String → List String
split_key String.[] = "" ∷ []
split_key (String.◌∷◌ c s) =
    let rest = split_key s in if code c == dot then "" ∷ rest else begin_with c rest

abbrev pub or_default {ℓ} : {A : Type ℓ} → A → Option A → A
or_default d none = d
or_default d (some a) = a

module _ (lib : Json) where
  -- The loop over the parts of a key.
  unfoldable pub walk : lib.Value → List String → Option lib.Value
  walk v [] = some v
  walk v (k ∷ ks) = elim (lib.find v k) [ none ↦ none | some w ↦ walk w ks ]

  -- A text is given as it is, a number or a Boolean as its `dump`.
  abbrev pub shown : Option lib.Value → Option String
  shown none = none
  shown (some v) = elim (lib.text_of v) [ none ↦ lib.scalar v | some s ↦ some s ]

  unfoldable pub get_config_value : ConfigManager lib → String → String → String
  unfolding split_key walk
  get_config_value m key d = or_default d (shown (walk m.config_json (split_key key)))

  unfoldable pub get_string : ConfigManager lib → String → String → String
  get_string m key d = get_config_value m key d

abbrev pub lower : ℕ → ℕ
lower c = if leb 65 c && leb c 90 then c + 32 else c

abbrev pub same : List ℕ → List ℕ → Bool
same [] [] = true
same [] (b ∷ bs) = false
same (a ∷ xs) [] = false
same (a ∷ xs) (b ∷ bs) = a == b && same xs bs

-- The texts that mean true, in small letters.
abbrev pub is_true : List ℕ → Bool
is_true s =
    same s (codes "true") || same s (codes "1") || same s (codes "yes") || same s (codes "on")

unfoldable pub get_bool : (lib : Json) → ConfigManager lib → String → Bool → Bool
get_bool lib m key d =
    is_true (map lower (codes (get_config_value lib m key (if d then "true" else "false"))))

abbrev pub is_space : ℕ → Bool
is_space c = c == 32 || (leb 9 c && leb c 13)

abbrev pub skip_spaces : List ℕ → List ℕ
skip_spaces [] = []
skip_spaces (c ∷ cs) = if is_space c then skip_spaces cs else c ∷ cs

-- The value of the digits in front, after `n`; none without a digit.
abbrev pub leading : Option ℕ → List ℕ → Option ℕ
leading n [] = n
leading n (c ∷ cs) =
    if leb 48 c && leb c 57 then leading (some (or_default 0 n * 10 + (c - 48))) cs else n

-- `none` where the value is not an `int` of 32 bits.
abbrev pub as_int : Bool → Option ℕ → Option ℤ
as_int negative none = none
as_int false (some n) = if ltb n (2 ^ 31) then some (pos n) else none
as_int true (some zero) = some (pos 0)
as_int true (some (suc n)) = if ltb n (2 ^ 31) then some (negsuc n) else none

-- `std::stoi`: spaces, a sign and digits, whatever follows them; `none` where it throws.
abbrev pub stoi_signed : List ℕ → Option ℤ
stoi_signed [] = none
stoi_signed (c ∷ cs) =
    if c == 45
    then as_int true (leading none cs)
    else if c == 43
    then as_int false (leading none cs)
    else as_int false (leading none (c ∷ cs))

unfoldable pub stoi : String → Option ℤ
stoi s = stoi_signed (skip_spaces (codes s))

-- Where no text is found, the code reads back `std::to_string` of the default.
unfoldable pub get_int : (lib : Json) → ConfigManager lib → String → ℤ → ℤ
unfolding stoi
get_int lib m key d = elim (shown lib (walk lib m.config_json (split_key key))) [
  | none ↦ d
  | some s ↦ or_default d (stoi s)
]

-- The members of an array that are texts.
unfoldable pub texts_among : (lib : Json) → List lib.Value → List String
texts_among lib [] = []
texts_among lib (v ∷ vs) =
    let rest = texts_among lib vs in elim (lib.text_of v) [ none ↦ rest | some s ↦ s ∷ rest ]

unfoldable pub get_string_array : (lib : Json) → ConfigManager lib → String → List String
get_string_array lib m key = elim (walk lib m.config_json (split_key key)) [
  | none ↦ []
  | some v ↦ elim (lib.elements v) [ none ↦ [] | some vs ↦ texts_among lib vs ]
]

-- A name, a dot and the rest of a key.
abbrev pub dotted : String → String → String
dotted String.[] key = String.◌∷◌ "." key
dotted (String.◌∷◌ c s) key = String.◌∷◌ c (dotted s key)

abbrev pub join_key : String → List String → String
join_key name [] = name
join_key name (k ∷ ks) = dotted name (join_key k ks)

abbrev pub HasNoDot : String → Type 0
HasNoDot String.[] = Unit
HasNoDot (String.◌∷◌ c s) = ((code c == dot) ≡ false) × HasNoDot s

split_key_one : (name : String) → HasNoDot name → split_key name ≡ name ∷ []
unfolding split_key
split_key_one String.[] h = refl
split_key_one (String.◌∷◌ c s) (other, h) = rw (other, split_key_one s h, split_key) refl

split_key-dotted :
    (name key : String) → HasNoDot name → split_key (dotted name key) ≡ name ∷ split_key key
unfolding split_key
split_key-dotted String.[] key h = refl
split_key-dotted (String.◌∷◌ c s) key (other, h) =
    rw (other, split_key-dotted s key h, split_key) refl

split_key-join_key :
    (name : String) (names : List String)
    → HasNoDot name
    → All HasNoDot names
    → split_key (join_key name names) ≡ name ∷ names
split_key-join_key name [] h hs = split_key_one name h
split_key-join_key name (k ∷ ks) h (a, as') =
    rw (split_key-dotted name (join_key k ks) h, split_key-join_key k ks a as') refl

-- A key that joins names without dots by dots looks up those names, one inside the other, in the
-- JSON of the configuration: `get_string` gives the value that stands there, a text as it is and a
-- number or a Boolean printed, or else the default.
pub get_string-join_key :
    (lib : Json) (m : ConfigManager lib) (name : String) (names : List String) (d : String)
    → HasNoDot name
    → All HasNoDot names
    → get_string lib m (join_key name names) d
      ≡ or_default d (shown lib (walk lib m.config_json (name ∷ names)))
unfolding get_string get_config_value
get_string-join_key lib m name names d h hs =
    rw (split_key-join_key name names h hs, get_config_value) refl
