-- ===== src/Config/Files.antt =====
-- `load_config` of config_manager.cpp on the files of the disk.
use Prim.Native.Char.{code}
use zero_trust_secure_sessio.Common.{
  ℕ, Bool, true, false, not, ◌||◌, String, Option, none, some, nat_eq, string_eq, ◌==◌,
  if◌then◌else◌, Map, lookup, has_key, dot,
}
use zero_trust_secure_sessio.Config.{
  Json, ConfigManager, ConfigError, ConfigResult, success, failure, Parsed, parsed, thrown,
  config_file_not_found, unsupported_config_format, config_open_failed, json_parse_failed,
  yaml_parse_failed, yaml_load_failed,
}
use zero_trust_secure_sessio.Config.Keys.{or_default}
use zero_trust_secure_sessio.Config.Parsing.{parse_sections}
use zero_trust_secure_sessio.Config.Services.{parse_target_services}
use zero_trust_secure_sessio.Config.Validation.{validate_config}

-- The texts of the regular files.
abbrev pub Disk : Type 0
Disk = Map String String

-- Which files open, and the library yaml-cpp: the text that `YAML::Dump` writes for a file's text,
-- or `none` where the library throws.
pub record Platform : Type 0 where
  pub is_readable : String → Bool
  pub is_writable : String → Bool
  pub yaml_text : String → Option String

-- What follows the last of a character.
unfoldable pub behind : ℕ → String → Option String
behind mark String.[] = none
behind mark (String.◌∷◌ c s) = elim (behind mark s) [
  | some rest ↦ some rest
  | none ↦ if code c == mark then some s else none
]

-- The extension of a file's name; a dot in front begins none.
abbrev extension_of : String → String
extension_of String.[] = ""
extension_of (String.◌∷◌ c s) = or_default "" (behind dot s)

abbrev slash : ℕ
slash = 47

unfoldable pub get_file_extension : String → String
unfolding behind
get_file_extension file = extension_of (or_default file (behind slash file))

module _ (lib : Json) (p : Platform) where
  unfoldable pub parse_config : lib.Value → ConfigManager lib → Parsed (ConfigManager lib)
  parse_config v m = elim (parse_sections lib v m) [
    | thrown m' ↦ thrown m'
    | parsed m' ↦ parsed (parse_target_services lib v m')
  ]

  -- The end of `load_json_config` and `load_yaml_config`, whose handlers differ in the message.
  abbrev pub answer_parsed :
      Parsed (ConfigManager lib) → ConfigError → ConfigManager lib × ConfigResult (Unit {0})
  answer_parsed (parsed m) e = (m, success tt)
  answer_parsed (thrown m) e = (m, failure e)

  unfoldable pub read_json :
      ConfigManager lib → lib.Value × Bool → ConfigManager lib × ConfigResult (Unit {0})
  unfolding parse_config
  read_json m (v, false) = (record m { config_json = v }, failure json_parse_failed)
  read_json m (v, true) =
      answer_parsed (parse_config v (record m { config_json = v })) json_parse_failed

  unfoldable pub load_json_config :
      Disk → ConfigManager lib → String → ConfigManager lib × ConfigResult (Unit {0})
  unfolding read_json
  load_json_config disk m file = elim (lookup file disk) [
    | none ↦ (m, failure (config_open_failed file))
    | some text ↦
        if p.is_readable file
        then read_json m (lib.read m.config_json text)
        else (m, failure (config_open_failed file))
  ]

  -- The text that the library writes is read by the JSON library.
  unfoldable pub parse_yaml :
      ConfigManager lib → String → ConfigManager lib × ConfigResult (Unit {0})
  unfolding parse_config
  parse_yaml m text = elim (lib.parse text) [
    | none ↦ (m, failure yaml_load_failed)
    | some v ↦ answer_parsed (parse_config v (record m { config_json = v })) yaml_load_failed
  ]

  unfoldable pub load_yaml_config :
      Disk → ConfigManager lib → String → ConfigManager lib × ConfigResult (Unit {0})
  unfolding parse_yaml
  load_yaml_config disk m file = elim (lookup file disk) [
    | none ↦ (m, failure yaml_parse_failed)
    | some text ↦
        if p.is_readable file
        then elim (p.yaml_text text) [
          | none ↦ (m, failure yaml_parse_failed)
          | some json_text ↦ parse_yaml m json_text
        ]
        else (m, failure yaml_parse_failed)
  ]

  -- `load_from_environment` has no body.
  unfoldable pub validate_loaded :
      ConfigManager lib × ConfigResult (Unit {0}) → ConfigManager lib × ConfigResult (Unit {0})
  validate_loaded (m, failure e) = (m, failure e)
  validate_loaded (m, success _) = (m, validate_config lib m)

  unfoldable pub load_config :
      Disk → ConfigManager lib → String → ConfigManager lib × ConfigResult (Unit {0})
  unfolding validate_loaded get_file_extension load_json_config load_yaml_config
  load_config disk m file =
      let extension = get_file_extension file in
      if not (has_key file disk)
      then (m, failure (config_file_not_found file))
      else if extension == "yaml" || extension == "yml"
      then validate_loaded (load_yaml_config disk m file)
      else if extension == "json"
      then validate_loaded (load_json_config disk m file)
      else (m, failure (unsupported_config_format extension))
