-- ===== src/Config/Required.antt =====
-- What a file has to hold for a new manager to load it (config_manager.cpp).
use zero_trust_secure_sessio.Common.{
  ◌≤◌, ◌≡◌, refl, sym, ap, subst, ◌∙◌, ◌≢◌, [], String, none, arith, nat_eq, string_eq, lookup,
  length, codes,
}
use zero_trust_secure_sessio.Config.{
  pos, Json, SecurityConfig, DatabaseConfig, parse_part, ConfigManager, success, Parsed, parsed,
  thrown,
}
use zero_trust_secure_sessio.Config.Answers.{Complete, Sound, load_config-Sound}
use zero_trust_secure_sessio.Config.Files.{Disk, Platform, load_config, parse_config}
use zero_trust_secure_sessio.Config.Laws.{JsonLaws}
use zero_trust_secure_sessio.Config.Parsing.{
  parse_sections, parse_server_config, parse_security_config, parse_session_config,
  parse_logging_config, parse_database_config,
}
use zero_trust_secure_sessio.Config.Services.{parse_target_services, add_services}
use zero_trust_secure_sessio.Config.Defaults.{
  default_fields, server_members, security_members, session_members, logging_members,
  get_default_config_json, default_server, default_security, default_session, default_logging,
  default_database, initial_manager, set_default_config,
}

module _ (lib : Json) (laws : JsonLaws lib) where
  server_default :
      parse_server_config lib (get_default_config_json lib) default_server ≡ parsed default_server
  unfolding parse_server_config lookup
  server_default =
      rw
        (
          laws.find-object (default_fields lib) "server",
          laws.text_found (server_members lib) "listen_address" "127.0.0.1" "127.0.0.1" refl,
          laws.port_found (server_members lib) "listen_port" 8080 8080 (omega arith) refl,
          laws.text_missing (server_members lib) "tls_cert_file" "" refl,
          laws.text_missing (server_members lib) "tls_key_file" "" refl,
          laws.text_missing (server_members lib) "ca_cert_file" "" refl,
        )
        refl

  security_default :
      parse_security_config lib (get_default_config_json lib) default_security
      ≡ parsed default_security
  unfolding parse_security_config lookup
  security_default =
      rw
        (
          laws.find-object (default_fields lib) "security",
          laws.text_missing (security_members lib) "jwt_secret" "" refl,
          laws.int_found (security_members lib) "token_expiry_hours" (pos 1) (pos 1) refl,
          laws.int_found (security_members lib) "max_login_attempts" (pos 5) (pos 5) refl,
          laws.int_missing (security_members lib) "lockout_duration_minutes" (pos 15) refl,
        )
        refl

  session_default :
      parse_session_config lib (get_default_config_json lib) default_session
      ≡ parsed default_session
  unfolding parse_session_config lookup
  session_default =
      rw
        (
          laws.find-object (default_fields lib) "session",
          laws.int_found (session_members lib) "timeout_seconds" (pos 3600) (pos 3600) refl,
          laws.int_found (session_members lib) "max_concurrent_sessions" (pos 5) (pos 5) refl,
        )
        refl

  logging_default :
      parse_logging_config lib (get_default_config_json lib) default_logging
      ≡ parsed default_logging
  unfolding parse_logging_config lookup
  logging_default =
      rw
        (
          laws.find-object (default_fields lib) "logging",
          laws.text_found (logging_members lib) "level" "info" "info" refl,
          laws.text_missing (logging_members lib) "file_path" "zerossg.log" refl,
          laws.int_missing (logging_members lib) "max_file_size_mb" (pos 10) refl,
          laws.int_missing (logging_members lib) "max_files" (pos 5) refl,
        )
        refl

  database_default :
      parse_database_config lib (get_default_config_json lib) default_database
      ≡ parsed default_database
  unfolding parse_database_config lookup
  database_default = rw (laws.find-object (default_fields lib) "database") refl

  sections_default :
      parse_sections lib (get_default_config_json lib) (initial_manager lib)
      ≡ parsed (initial_manager lib)
  unfolding parse_sections
  sections_default =
      rw (server_default, security_default, session_default, logging_default, database_default) refl

-- The constructor does not throw, and leaves every field at the default of its structure.
pub set_default_config_lem :
    (lib : Json) → JsonLaws lib → set_default_config lib ≡ parsed (initial_manager lib)
unfolding set_default_config parse_target_services add_services lookup
set_default_config_lem lib laws =
    rw
      (
        sections_default lib laws,
        set_default_config,
        laws.find-object (default_fields lib) "target_services",
        laws.elements-array [],
      )
      refl

-- A section that is missing leaves its part as it was.
abbrev Keeps : {lib : Json} → ConfigManager lib → ConfigManager lib → Type 0
Keeps {lib} m m' =
    (lib.find m'.config_json "security" ≡ none → m'.security_config ≡ m.security_config)
    × (lib.find m'.config_json "database" ≡ none → m'.database_config ≡ m.database_config)

abbrev state_of : {S : Type 0} → Parsed S → S
state_of (parsed s) = s
state_of (thrown s) = s

parse_part-Complete :
    {lib : Json} {S : Type 0} (Q : ConfigManager lib → Type 0) (r : Parsed S)
    (put : S → ConfigManager lib) (next : ConfigManager lib → Parsed (ConfigManager lib))
    → ((s : S) → r ≡ parsed s → Complete Q (next (put s)))
    → Complete Q (parse_part r put next)
parse_part-Complete Q (parsed s) put next h = h s refl
parse_part-Complete Q (thrown s) put next h = tt

module _ (lib : Json) (p : Platform) (m : ConfigManager lib) (v : lib.Value) where
  security_kept :
      (s : SecurityConfig)
      → parse_security_config lib v m.security_config ≡ parsed s
      → lib.find v "security" ≡ none
      → s ≡ m.security_config
  unfolding parse_security_config
  security_kept s h e =
      let here : parse_security_config lib v m.security_config ≡ parsed m.security_config =
        rw (e, parse_security_config) refl in
      ap state_of (sym h ∙ here)

  database_kept :
      (s : DatabaseConfig)
      → parse_database_config lib v m.database_config ≡ parsed s
      → lib.find v "database" ≡ none
      → s ≡ m.database_config
  unfolding parse_database_config
  database_kept s h e =
      let here : parse_database_config lib v m.database_config ≡ parsed m.database_config =
        rw (e, parse_database_config) refl in
      ap state_of (sym h ∙ here)

  sections-Keeps : Complete (Keeps m) (parse_sections lib v (record m { config_json = v }))
  unfolding parse_sections
  sections-Keeps =
      parse_part-Complete (Keeps m) (parse_server_config lib v m.server_config) _ _ (λ a ea.
        parse_part-Complete (Keeps m) (parse_security_config lib v m.security_config) _ _ (λ b eb.
          parse_part-Complete (Keeps m) (parse_session_config lib v m.session_config) _ _ (λ c ec.
            parse_part-Complete (Keeps m) (parse_logging_config lib v m.logging_config) _ _ (λ d ed.
              parse_part-Complete (Keeps m) (parse_database_config lib v m.database_config) _ _
                (λ e ee. (security_kept b eb, database_kept e ee))))))

  parse_config-Keeps : Complete (Keeps m) (parse_config lib p v (record m { config_json = v }))
  unfolding parse_config parse_target_services
  parse_config-Keeps = all (parse_sections lib v (record m { config_json = v })) sections-Keeps
    where
      all :
          (r : Parsed (ConfigManager lib))
          → Complete (Keeps m) r
          → Complete (Keeps m) (elim r [
            | thrown m' ↦ thrown m'
            | parsed m' ↦ parsed (parse_target_services lib v m')
          ])
      all (parsed m') h = h
      all (thrown m') h = tt

-- A new manager loads no file that lacks the section "security" or "database": the defaults have no
-- secret and no database host, and nothing but the file can set them.
pub load_config_required :
    (lib : Json) (p : Platform) (disk : Disk) (m m' : ConfigManager lib) (file : String)
    → JsonLaws lib
    → set_default_config lib ≡ parsed m
    → load_config lib p disk m file ≡ (m', success tt)
    → (lib.find m'.config_json "security" ≢ none) × (lib.find m'.config_json "database" ≢ none)
load_config_required lib p disk m m' file laws new h =
    let (k, (security, database)) =
      subst (Sound (Keeps m)) h
        (load_config-Sound lib p m (Keeps m) (parse_config-Keeps lib p m) disk file) in
    let initial : m ≡ initial_manager lib =
      ap state_of (sym new ∙ set_default_config_lem lib laws) in
    let secret : m.security_config.jwt_secret ≡ "" =
      ap (λ n. n.security_config.jwt_secret) initial in
    let host : m.database_config.host ≡ "" = ap (λ n. n.database_config.host) initial in
    (
      λ e.
          let short : 16 ≤ 0 =
            subst (λ t. 16 ≤ length (codes t)) (ap (λ s. s.jwt_secret) (security e) ∙ secret)
              k.security.0 in
          omega (arith, short),
      λ e. k.database.0 (ap (λ s. s.host) (database e) ∙ host),
    )
