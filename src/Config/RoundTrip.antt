-- ===== src/Config/RoundTrip.antt =====
-- A configuration that `save_config` writes and `load_config` reads (config_manager.cpp).
use zero_trust_secure_sessio.Common.{
  ◌≤◌, ◌≡◌, refl, ap, ◌∙◌, true, [], String, some, nat_eq, string_eq, lookup, insert, IsUnique, All,
  lookup-insert_self,
}
use zero_trust_secure_sessio.Config.{Json, ConfigManager, success, json_parse_failed, parsed}
use zero_trust_secure_sessio.Config.Laws.{JsonLaws}
use zero_trust_secure_sessio.Config.Parsing.{
  parse_sections, parse_server_config, parse_security_config, parse_session_config,
  parse_logging_config, parse_database_config,
}
use zero_trust_secure_sessio.Config.Services.{parse_target_services}
use zero_trust_secure_sessio.Config.Validation.{validate_config}
use zero_trust_secure_sessio.Config.Files.{
  Disk, Platform, load_config, load_json_config, read_json, parse_config, get_file_extension,
  validate_loaded, answer_parsed,
}
use zero_trust_secure_sessio.Config.Saving.{services_json, saved_fields, saved_json, save_config}
use zero_trust_secure_sessio.Config.SavedSections.{
  server_back, security_back, session_back, logging_back, database_back,
}
use zero_trust_secure_sessio.Config.SavedServices.{IsListed, services_back}

-- What every manager has whose services came from `parse_target_services`: ports of 16 bits, and
-- each service once, under its own name.
pub record IsStored {lib : Json} (m : ConfigManager lib) : Type 0 where
  pub listen_port : m.server_config.listen_port ≤ 65535
  pub database_port : m.database_config.port ≤ 65535
  pub unique : IsUnique m.target_services
  pub listed : All IsListed m.target_services

module _ (lib : Json) (laws : JsonLaws lib) where
  sections_back :
      (m m0 : ConfigManager lib)
      → IsStored m
      → parse_sections lib (saved_json lib m) m0
        ≡ parsed (record m { config_json = m0.config_json; target_services = m0.target_services })
  unfolding parse_sections parse_server_config parse_security_config parse_session_config
      parse_logging_config parse_database_config lookup
  sections_back m m0 k =
      rw
        (
          laws.find-object (saved_fields lib m) "server",
          laws.find-object (saved_fields lib m) "security",
          laws.find-object (saved_fields lib m) "session",
          laws.find-object (saved_fields lib m) "logging",
          laws.find-object (saved_fields lib m) "database",
          server_back lib laws m.server_config m0.server_config k.listen_port,
          security_back lib laws m.security_config m0.security_config,
          session_back lib laws m.session_config m0.session_config,
          logging_back lib laws m.logging_config m0.logging_config,
          database_back lib laws m.database_config m0.database_config k.database_port,
        )
        refl

  parse_config-saved_json :
      (p : Platform) (m m0 : ConfigManager lib)
      → IsStored m
      → parse_config lib p (saved_json lib m) m0
        ≡ parsed (record m { config_json = m0.config_json })
  unfolding parse_config parse_target_services lookup
  parse_config-saved_json p m m0 k =
      rw
        (
          sections_back m m0 k,
          parse_config,
          laws.find-object (saved_fields lib m) "target_services",
          laws.elements-array (services_json lib m.target_services),
          services_back lib laws [] m.target_services k.unique k.listed,
        )
        refl

  read_back :
      (p : Platform) (disk : Disk) (m m0 : ConfigManager lib) (file text : String)
      → IsStored m
      → lookup file disk ≡ some text
      → p.is_readable file ≡ true
      → lib.read m0.config_json text ≡ (saved_json lib m, true)
      → load_json_config lib p disk m0 file
        ≡ (record m { config_json = saved_json lib m }, success tt)
  unfolding load_json_config read_json
  read_back p disk m m0 file text k found r back =
      rw (found, load_json_config, r)
        (ap (read_json lib p m0) back
          ∙ ap (λ o. answer_parsed lib p o json_parse_failed)
              (parse_config-saved_json p m (record m0 { config_json = saved_json lib m }) k))

-- A configuration that is saved to a ".json" file and loaded again, by any manager, is the same in
-- every section and in every target service, and the loading answers what the validation of the
-- saved configuration answers: a configuration that is rejected is kept all the same. The file is
-- writable and readable, and the library reads back the text that it printed.
pub load_config-save_config :
    (lib : Json) (p : Platform) (disk : Disk) (m m0 : ConfigManager lib) (file text : String)
    → JsonLaws lib
    → IsStored m
    → get_file_extension file ≡ "json"
    → p.is_writable file ≡ true
    → p.is_readable file ≡ true
    → lib.print (saved_json lib m) ≡ some text
    → lib.read m0.config_json text ≡ (saved_json lib m, true)
    → ((save_config lib p disk m file).1 ≡ success tt)
      × (load_config lib p (save_config lib p disk m file).0 m0 file ≡ (
        record m { config_json = saved_json lib m },
        validate_config lib (record m { config_json = saved_json lib m }),
      ))
unfolding save_config load_config load_json_config read_json validate_loaded
load_config-save_config lib p disk m m0 file text laws k e w r printed back =
    rw (printed, w, save_config)
      (
        refl,
        rw (e, lookup-insert_self file text disk, load_config)
            (ap (validate_loaded lib p) (
              read_back lib laws p (insert file text disk) m m0 file text k
                (lookup-insert_self file text disk) r back)),
      )
