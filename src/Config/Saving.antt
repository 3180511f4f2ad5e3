-- ===== src/Config/Saving.antt =====
-- `save_config` of config_manager.cpp: the JSON that it builds, and the file that it writes.
use zero_trust_secure_sessio.Common.{
  List, [], ◌∷◌, String, none, some, string_eq, if◌then◌else◌, Map, insert,
}
use zero_trust_secure_sessio.Types.{Role, TargetService, role_to_string}
use zero_trust_secure_sessio.Config.{
  pos, Json, ServerConfig, SecurityConfig, SessionConfig, LoggingConfig, DatabaseConfig,
  ConfigManager, ConfigResult, success, failure, config_write_open_failed, config_save_failed,
}
use zero_trust_secure_sessio.Config.Files.{Disk, Platform}

abbrev pub roles_json : (lib : Json) → List Role → List lib.Value
roles_json lib [] = []
roles_json lib (r ∷ rs) = lib.of_text (role_to_string r) ∷ roles_json lib rs

abbrev pub service_fields : (lib : Json) → TargetService → Map String lib.Value
service_fields lib s =
    ("name", lib.of_text s.name)
    ∷ ("host", lib.of_text s.host)
    ∷ ("port", lib.of_int (pos s.port))
    ∷ ("tls_enabled", lib.of_bool s.tls_enabled)
    ∷ ("allowed_roles", lib.array (roles_json lib s.allowed_roles))
    ∷ []

abbrev pub service_json : (lib : Json) → TargetService → lib.Value
service_json lib s = lib.object (service_fields lib s)

abbrev pub services_json : (lib : Json) → Map String TargetService → List lib.Value
services_json lib [] = []
services_json lib ((name, s) ∷ rest) = service_json lib s ∷ services_json lib rest

abbrev pub server_fields : (lib : Json) → ServerConfig → Map String lib.Value
server_fields lib s =
    ("listen_address", lib.of_text s.listen_address)
    ∷ ("listen_port", lib.of_int (pos s.listen_port))
    ∷ ("tls_cert_file", lib.of_text s.tls_cert_file)
    ∷ ("tls_key_file", lib.of_text s.tls_key_file)
    ∷ ("ca_cert_file", lib.of_text s.ca_cert_file)
    ∷ []

abbrev pub server_json : (lib : Json) → ServerConfig → lib.Value
server_json lib s = lib.object (server_fields lib s)

abbrev pub security_fields : (lib : Json) → SecurityConfig → Map String lib.Value
security_fields lib s =
    ("jwt_secret", lib.of_text s.jwt_secret)
    ∷ ("token_expiry_hours", lib.of_int s.token_expiry_hours)
    ∷ ("max_login_attempts", lib.of_int s.max_login_attempts)
    ∷ ("lockout_duration_minutes", lib.of_int s.lockout_duration_minutes)
    ∷ []

abbrev pub security_json : (lib : Json) → SecurityConfig → lib.Value
security_json lib s = lib.object (security_fields lib s)

abbrev pub session_fields : (lib : Json) → SessionConfig → Map String lib.Value
session_fields lib s =
    ("timeout_seconds", lib.of_int s.timeout_seconds)
    ∷ ("max_concurrent_sessions", lib.of_int s.max_concurrent_sessions)
    ∷ []

abbrev pub session_json : (lib : Json) → SessionConfig → lib.Value
session_json lib s = lib.object (session_fields lib s)

abbrev pub logging_fields : (lib : Json) → LoggingConfig → Map String lib.Value
logging_fields lib s =
    ("level", lib.of_text s.level)
    ∷ ("file_path", lib.of_text s.file_path)
    ∷ ("max_file_size_mb", lib.of_int s.max_file_size_mb)
    ∷ ("max_files", lib.of_int s.max_files)
    ∷ []

abbrev pub logging_json : (lib : Json) → LoggingConfig → lib.Value
logging_json lib s = lib.object (logging_fields lib s)

abbrev pub database_fields : (lib : Json) → DatabaseConfig → Map String lib.Value
database_fields lib s =
    ("host", lib.of_text s.host)
    ∷ ("port", lib.of_int (pos s.port))
    ∷ ("name", lib.of_text s.name)
    ∷ ("username", lib.of_text s.username)
    ∷ ("password", lib.of_text s.password)
    ∷ ("ssl_mode", lib.of_text s.ssl_mode)
    ∷ []

abbrev pub database_json : (lib : Json) → DatabaseConfig → lib.Value
database_json lib s = lib.object (database_fields lib s)

-- The JSON that the assignments of `save_config` build.
abbrev pub saved_fields : (lib : Json) → ConfigManager lib → Map String lib.Value
saved_fields lib m =
    ("server", server_json lib m.server_config)
    ∷ ("security", security_json lib m.security_config)
    ∷ ("session", session_json lib m.session_config)
    ∷ ("logging", logging_json lib m.logging_config)
    ∷ ("database", database_json lib m.database_config)
    ∷ ("target_services", lib.array (services_json lib m.target_services))
    ∷ []

abbrev pub saved_json : (lib : Json) → ConfigManager lib → lib.Value
saved_json lib m = lib.object (saved_fields lib m)

-- A text that is not valid UTF-8 cannot be printed.
unfoldable pub save_config :
    (lib : Json) → Platform → Disk → ConfigManager lib → String → Disk × ConfigResult (Unit {0})
save_config lib p disk m file = elim (lib.print (saved_json lib m)) [
  | none ↦ (disk, failure config_save_failed)
  | some text ↦
      if p.is_writable file
      then (insert file text disk, success tt)
      else (disk, failure (config_write_open_failed file))
]
