-- ===== src/Config/Answers.antt =====
-- From what the parsing of every JSON value gives to what `load_config` of config_manager.cpp gives.
use zero_trust_secure_sessio.Common.{
  ◌≡◌, refl, inl, inr, Bool, true, false, not, ◌||◌, String, nat_eq, string_eq, ◌==◌, if◌then◌else◌,
  lookup, has_key, Bool-cases, Option-cases,
}
use zero_trust_secure_sessio.Config.{
  Json, ConfigManager, ConfigError, ConfigResult, success, failure, config_file_not_found,
  unsupported_config_format, Parsed, parsed, thrown,
}
use zero_trust_secure_sessio.Config.Validation.{validate_config}
use zero_trust_secure_sessio.Config.Bounds.{IsConfigured, validate_config_iff}
use zero_trust_secure_sessio.Config.Files.{
  Disk, Platform, load_config, load_json_config, load_yaml_config, read_json, parse_yaml,
  parse_config, validate_loaded, answer_parsed, get_file_extension,
}

-- What holds of a manager whose parsing did not throw, and whose loading succeeded.
abbrev pub Complete :
    {lib : Json} → (ConfigManager lib → Type 0) → Parsed (ConfigManager lib) → Type 0
Complete Q (parsed m) = Q m
Complete Q (thrown m) = Unit

abbrev pub Loaded :
    {lib : Json}
    → (ConfigManager lib → Type 0)
    → ConfigManager lib × ConfigResult (Unit {0})
    → Type 0
Loaded Q (m, success _) = Q m
Loaded Q (m, failure e) = Unit

abbrev pub Sound :
    {lib : Json}
    → (ConfigManager lib → Type 0)
    → ConfigManager lib × ConfigResult (Unit {0})
    → Type 0
Sound Q (m, success _) = IsConfigured m × Q m
Sound Q (m, failure e) = Unit

module _ (lib : Json) (p : Platform) (m : ConfigManager lib) (Q : ConfigManager lib → Type 0)
    (k : (v : lib.Value) → Complete Q (parse_config lib p v (record m { config_json = v }))) where
  answer_parsed-Loaded :
      (r : Parsed (ConfigManager lib)) (e : ConfigError)
      → Complete Q r
      → Loaded Q (answer_parsed lib p r e)
  answer_parsed-Loaded (parsed m') e h = h
  answer_parsed-Loaded (thrown m') e h = tt

  read_json-Loaded : (r : lib.Value × Bool) → Loaded Q (read_json lib p m r)
  unfolding read_json
  read_json-Loaded (v, false) = tt
  read_json-Loaded (v, true) = answer_parsed-Loaded _ _ (k v)

  parse_yaml-Loaded : (text : String) → Loaded Q (parse_yaml lib p m text)
  unfolding parse_yaml
  parse_yaml-Loaded text = elim (Option-cases (lib.parse text)) [
    | inl e ↦ rw (e, parse_yaml) tt
    | inr (v, e) ↦ rw (e, parse_yaml) (answer_parsed-Loaded _ _ (k v))
  ]

  load_json_config-Loaded :
      (disk : Disk) (file : String) → Loaded Q (load_json_config lib p disk m file)
  unfolding load_json_config
  load_json_config-Loaded disk file = elim (Option-cases (lookup file disk)) [
    | inl e ↦ rw (e, load_json_config) tt
    | inr (text, e) ↦ elim (Bool-cases (p.is_readable file)) [
      | inl r ↦ rw (e, r, load_json_config) (read_json-Loaded (lib.read m.config_json text))
      | inr r ↦ rw (e, r, load_json_config) tt
    ]
  ]

  load_yaml_config-Loaded :
      (disk : Disk) (file : String) → Loaded Q (load_yaml_config lib p disk m file)
  unfolding load_yaml_config
  load_yaml_config-Loaded disk file = elim (Option-cases (lookup file disk)) [
    | inl e ↦ rw (e, load_yaml_config) tt
    | inr (text, e) ↦ elim (Bool-cases (p.is_readable file)) [
      | inl r ↦ elim (Option-cases (p.yaml_text text)) [
        | inl y ↦ rw (e, r, y, load_yaml_config) tt
        | inr (json_text, y) ↦ rw (e, r, y, load_yaml_config) (parse_yaml-Loaded json_text)
      ]
      | inr r ↦ rw (e, r, load_yaml_config) tt
    ]
  ]

  validate_loaded-Sound :
      (r : ConfigManager lib × ConfigResult (Unit {0}))
      → Loaded Q r
      → Sound Q (validate_loaded lib p r)
  unfolding validate_loaded
  validate_loaded-Sound (m', failure e) h = tt
  validate_loaded-Sound (m', success _) h = validated (validate_config lib m') refl
    where
      validated : (r : ConfigResult (Unit {0})) → validate_config lib m' ≡ r → Sound Q (m', r)
      validated (success tt) e = ((validate_config_iff lib m').0 e, h)
      validated (failure error) e = tt

  if-Sound :
      (b : Bool) (r s : ConfigManager lib × ConfigResult (Unit {0}))
      → Sound Q r
      → Sound Q s
      → Sound Q (if b then r else s)
  if-Sound true r s a b = a
  if-Sound false r s a b = b

  pub load_config-Sound : (disk : Disk) (file : String) → Sound Q (load_config lib p disk m file)
  unfolding load_config
  load_config-Sound disk file =
      let extension = get_file_extension file in
      let unsupported : ConfigManager lib × ConfigResult (Unit {0}) =
        (m, failure (unsupported_config_format extension)) in
      let json = validate_loaded lib p (load_json_config lib p disk m file) in
      let yaml = validate_loaded lib p (load_yaml_config lib p disk m file) in
      if-Sound (not (has_key file disk)) (m, failure (config_file_not_found file))
        (if extension == "yaml" || extension == "yml"
          then yaml
          else if extension == "json"
          then json
          else unsupported)
        tt
        (if-Sound (extension == "yaml" || extension == "yml") yaml
          (if extension == "json" then json else unsupported)
          (validate_loaded-Sound (load_yaml_config lib p disk m file)
            (load_yaml_config-Loaded disk file))
          (if-Sound (extension == "json") json unsupported
            (validate_loaded-Sound (load_json_config lib p disk m file)
              (load_json_config-Loaded disk file))
            tt))
