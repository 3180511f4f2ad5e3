-- ===== src/Config/Parsing.antt =====
-- `parse_server_config` to `parse_database_config` of config_manager.cpp. Each reads the members of
-- one section in order; a value of the wrong type throws and ends the whole loading.
use zero_trust_secure_sessio.Common.{Option, none, some}
use zero_trust_secure_sessio.Config.{
  Json, ServerConfig, SecurityConfig, SessionConfig, LoggingConfig, DatabaseConfig, ConfigManager,
  Parsed, parsed, assign, parse_part,
}

module _ (lib : Json) where
  abbrev pub read_server : lib.Value → ServerConfig → Parsed ServerConfig
  read_server v s =
      assign (lib.value_text v "listen_address" s.listen_address) s
        (λ x. record s { listen_address = x })
        (λ s.
          assign (lib.value_port v "listen_port" s.listen_port) s
            (λ x. record s { listen_port = x })
            (λ s.
              assign (lib.value_text v "tls_cert_file" s.tls_cert_file) s
                (λ x. record s { tls_cert_file = x })
                (λ s.
                  assign (lib.value_text v "tls_key_file" s.tls_key_file) s
                    (λ x. record s { tls_key_file = x })
                    (λ s.
                      assign (lib.value_text v "ca_cert_file" s.ca_cert_file) s
                        (λ x. record s { ca_cert_file = x }) parsed))))

  abbrev pub read_security : lib.Value → SecurityConfig → Parsed SecurityConfig
  read_security v s =
      assign (lib.value_text v "jwt_secret" s.jwt_secret) s (λ x. record s { jwt_secret = x })
        (λ s.
          assign (lib.value_int v "token_expiry_hours" s.token_expiry_hours) s
            (λ x. record s { token_expiry_hours = x })
            (λ s.
              assign (lib.value_int v "max_login_attempts" s.max_login_attempts) s
                (λ x. record s { max_login_attempts = x })
                (λ s.
                  assign (lib.value_int v "lockout_duration_minutes" s.lockout_duration_minutes) s
                    (λ x. record s { lockout_duration_minutes = x }) parsed)))

  abbrev pub read_session : lib.Value → SessionConfig → Parsed SessionConfig
  read_session v s =
      assign (lib.value_int v "timeout_seconds" s.timeout_seconds) s
        (λ x. record s { timeout_seconds = x })
        (λ s.
          assign (lib.value_int v "max_concurrent_sessions" s.max_concurrent_sessions) s
            (λ x. record s { max_concurrent_sessions = x }) parsed)

  abbrev pub read_logging : lib.Value → LoggingConfig → Parsed LoggingConfig
  read_logging v s =
      assign (lib.value_text v "level" s.level) s (λ x. record s { level = x })
        (λ s.
          assign (lib.value_text v "file_path" s.file_path) s (λ x. record s { file_path = x })
            (λ s.
              assign (lib.value_int v "max_file_size_mb" s.max_file_size_mb) s
                (λ x. record s { max_file_size_mb = x })
                (λ s.
                  assign (lib.value_int v "max_files" s.max_files) s
                    (λ x. record s { max_files = x }) parsed)))

  abbrev pub read_database : lib.Value → DatabaseConfig → Parsed DatabaseConfig
  read_database v s =
      assign (lib.value_text v "host" s.host) s (λ x. record s { host = x })
        (λ s.
          assign (lib.value_port v "port" s.port) s (λ x. record s { port = x })
            (λ s.
              assign (lib.value_text v "name" s.name) s (λ x. record s { name = x })
                (λ s.
                  assign (lib.value_text v "username" s.username) s (λ x. record s { username = x })
                    (λ s.
                      assign (lib.value_text v "password" s.password) s
                        (λ x. record s { password = x })
                        (λ s.
                          assign (lib.value_text v "ssl_mode" s.ssl_mode) s
                            (λ x. record s { ssl_mode = x }) parsed)))))

  -- A section that is missing leaves its part of the state as it is.
  abbrev pub in_section {ℓ} :
      {S : Type ℓ} → Option lib.Value → S → (lib.Value → S → Parsed S) → Parsed S
  in_section none s f = parsed s
  in_section (some v) s f = f v s

  unfoldable pub parse_server_config : lib.Value → ServerConfig → Parsed ServerConfig
  parse_server_config config s = in_section (lib.find config "server") s read_server

  unfoldable pub parse_security_config : lib.Value → SecurityConfig → Parsed SecurityConfig
  parse_security_config config s = in_section (lib.find config "security") s read_security

  unfoldable pub parse_session_config : lib.Value → SessionConfig → Parsed SessionConfig
  parse_session_config config s = in_section (lib.find config "session") s read_session

  unfoldable pub parse_logging_config : lib.Value → LoggingConfig → Parsed LoggingConfig
  parse_logging_config config s = in_section (lib.find config "logging") s read_logging

  unfoldable pub parse_database_config : lib.Value → DatabaseConfig → Parsed DatabaseConfig
  parse_database_config config s = in_section (lib.find config "database") s read_database

  -- The five sections, in the order of the calls.
  unfoldable pub parse_sections : lib.Value → ConfigManager lib → Parsed (ConfigManager lib)
  parse_sections v m =
      parse_part (parse_server_config v m.server_config) (λ s. record m { server_config = s })
        (λ m.
          parse_part (parse_security_config v m.security_config)
            (λ s. record m { security_config = s })
            (λ m.
              parse_part (parse_session_config v m.session_config)
                (λ s. record m { session_config = s })
                (λ m.
                  parse_part (parse_logging_config v m.logging_config)
                    (λ s. record m { logging_config = s })
                    (λ m.
                      parse_part (parse_database_config v m.database_config)
                        (λ s. record m { database_config = s }) parsed))))
