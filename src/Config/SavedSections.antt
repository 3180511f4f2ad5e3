-- ===== src/Config/SavedSections.antt =====
-- Each section that `save_config` of config_manager.cpp writes is read back by its parser.
use zero_trust_secure_sessio.Common.{◌≤◌, ◌≡◌, refl, nat_eq, string_eq, lookup}
use zero_trust_secure_sessio.Config.{
  Json, ServerConfig, SecurityConfig, SessionConfig, LoggingConfig, DatabaseConfig, parsed,
}
use zero_trust_secure_sessio.Config.Laws.{JsonLaws}
use zero_trust_secure_sessio.Config.Parsing.{
  read_server, read_security, read_session, read_logging, read_database,
}
use zero_trust_secure_sessio.Config.Saving.{
  server_fields, security_fields, session_fields, logging_fields, database_fields, server_json,
  security_json, session_json, logging_json, database_json,
}

module _ (lib : Json) (laws : JsonLaws lib) where
  pub server_back :
      (s s0 : ServerConfig)
      → s.listen_port ≤ 65535
      → read_server lib (server_json lib s) s0 ≡ parsed s
  unfolding lookup
  server_back s s0 h =
      rw
        (
          laws.text_found (server_fields lib s) "listen_address" s.listen_address s0.listen_address
              refl,
          laws.port_found (server_fields lib s) "listen_port" s.listen_port s0.listen_port h refl,
          laws.text_found (server_fields lib s) "tls_cert_file" s.tls_cert_file s0.tls_cert_file
              refl,
          laws.text_found (server_fields lib s) "tls_key_file" s.tls_key_file s0.tls_key_file refl,
          laws.text_found (server_fields lib s) "ca_cert_file" s.ca_cert_file s0.ca_cert_file refl,
        )
        refl

  pub security_back :
      (s s0 : SecurityConfig) → read_security lib (security_json lib s) s0 ≡ parsed s
  unfolding lookup
  security_back s s0 =
      rw
        (
          laws.text_found (security_fields lib s) "jwt_secret" s.jwt_secret s0.jwt_secret refl,
          laws.int_found (security_fields lib s) "token_expiry_hours" s.token_expiry_hours
              s0.token_expiry_hours refl,
          laws.int_found (security_fields lib s) "max_login_attempts" s.max_login_attempts
              s0.max_login_attempts refl,
          laws.int_found (security_fields lib s) "lockout_duration_minutes"
              s.lockout_duration_minutes s0.lockout_duration_minutes refl,
        )
        refl

  pub session_back : (s s0 : SessionConfig) → read_session lib (session_json lib s) s0 ≡ parsed s
  unfolding lookup
  session_back s s0 =
      rw
        (
          laws.int_found (session_fields lib s) "timeout_seconds" s.timeout_seconds
              s0.timeout_seconds refl,
          laws.int_found (session_fields lib s) "max_concurrent_sessions" s.max_concurrent_sessions
              s0.max_concurrent_sessions refl,
        )
        refl

  pub logging_back : (s s0 : LoggingConfig) → read_logging lib (logging_json lib s) s0 ≡ parsed s
  unfolding lookup
  logging_back s s0 =
      rw
        (
          laws.text_found (logging_fields lib s) "level" s.level s0.level refl,
          laws.text_found (logging_fields lib s) "file_path" s.file_path s0.file_path refl,
          laws.int_found (logging_fields lib s) "max_file_size_mb" s.max_file_size_mb
              s0.max_file_size_mb refl,
          laws.int_found (logging_fields lib s) "max_files" s.max_files s0.max_files refl,
        )
        refl

  pub database_back :
      (s s0 : DatabaseConfig)
      → s.port ≤ 65535
      → read_database lib (database_json lib s) s0 ≡ parsed s
  unfolding lookup
  database_back s s0 h =
      rw
        (
          laws.text_found (database_fields lib s) "host" s.host s0.host refl,
          laws.port_found (database_fields lib s) "port" s.port s0.port h refl,
          laws.text_found (database_fields lib s) "name" s.name s0.name refl,
          laws.text_found (database_fields lib s) "username" s.username s0.username refl,
          laws.text_found (database_fields lib s) "password" s.password s0.password refl,
          laws.text_found (database_fields lib s) "ssl_mode" s.ssl_mode s0.ssl_mode refl,
        )
        refl
