-- ===== src/Config/Defaults.antt =====
-- The constructor of config_manager.cpp: the defaults of the structures (include/zerossg/types.ixx)
-- and `get_default_config_json`.
use zero_trust_secure_sessio.Common.{[], ◌∷◌, String, Map}
use zero_trust_secure_sessio.Config.{
  pos, Json, ServerConfig, SecurityConfig, SessionConfig, LoggingConfig, DatabaseConfig,
  ConfigManager, Parsed, parsed, thrown,
}
use zero_trust_secure_sessio.Config.Parsing.{parse_sections}
use zero_trust_secure_sessio.Config.Services.{parse_target_services}

abbrev pub default_server : ServerConfig
default_server = record {
  listen_address = "127.0.0.1";
  listen_port = 8080;
  tls_cert_file = "";
  tls_key_file = "";
  ca_cert_file = "";
}

abbrev pub default_security : SecurityConfig
default_security = record {
  jwt_secret = "";
  token_expiry_hours = pos 1;
  max_login_attempts = pos 5;
  lockout_duration_minutes = pos 15;
}

abbrev pub default_session : SessionConfig
default_session = record { timeout_seconds = pos 3600; max_concurrent_sessions = pos 5 }

abbrev pub default_logging : LoggingConfig
default_logging = record {
  level = "info";
  file_path = "zerossg.log";
  max_file_size_mb = pos 10;
  max_files = pos 5;
}

abbrev pub default_database : DatabaseConfig
default_database = record {
  host = "";
  port = 5432;
  name = "";
  username = "";
  password = "";
  ssl_mode = "require";
}

abbrev pub server_members : (lib : Json) → Map String lib.Value
server_members lib =
    ("listen_address", lib.of_text "127.0.0.1")
    ∷ ("listen_port", lib.of_int (pos 8080))
    ∷ ("thread_count", lib.of_int (pos 4))
    ∷ []

abbrev pub security_members : (lib : Json) → Map String lib.Value
security_members lib =
    ("token_expiry_hours", lib.of_int (pos 1)) ∷ ("max_login_attempts", lib.of_int (pos 5)) ∷ []

abbrev pub session_members : (lib : Json) → Map String lib.Value
session_members lib =
    ("timeout_seconds", lib.of_int (pos 3600))
    ∷ ("max_concurrent_sessions", lib.of_int (pos 5))
    ∷ []

abbrev pub logging_members : (lib : Json) → Map String lib.Value
logging_members lib = ("level", lib.of_text "info") ∷ []

abbrev pub default_fields : (lib : Json) → Map String lib.Value
default_fields lib =
    ("server", lib.object (server_members lib))
    ∷ ("security", lib.object (security_members lib))
    ∷ ("session", lib.object (session_members lib))
    ∷ ("logging", lib.object (logging_members lib))
    ∷ ("target_services", lib.array [])
    ∷ []

abbrev pub get_default_config_json : (lib : Json) → lib.Value
get_default_config_json lib = lib.object (default_fields lib)

-- The structures before `set_default_config`.
abbrev pub initial_manager : (lib : Json) → ConfigManager lib
initial_manager lib = record {
  config_json = get_default_config_json lib;
  server_config = default_server;
  security_config = default_security;
  session_config = default_session;
  logging_config = default_logging;
  database_config = default_database;
  target_services = [];
}

-- An exception would leave the constructor.
unfoldable pub set_default_config : (lib : Json) → Parsed (ConfigManager lib)
set_default_config lib =
    elim (parse_sections lib (get_default_config_json lib) (initial_manager lib)) [
      | thrown m ↦ thrown m
      | parsed m ↦ parsed (parse_target_services lib (get_default_config_json lib) m)
    ]
