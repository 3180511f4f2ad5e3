-- ===== src/Config/Validation.antt =====
-- `validate_config` of config_manager.cpp and the checks that it calls, in their order.
use zero_trust_secure_sessio.Common.{
  Bool, not, ◌&&◌, ◌||◌, List, [], ◌∷◌, String, string_eq, nat_eq, ◌==◌, ltb, if◌then◌else◌, values,
  length, codes,
}
use zero_trust_secure_sessio.Types.{TargetService, is_empty}
use zero_trust_secure_sessio.Config.{
  less, greater, Json, ServerConfig, SecurityConfig, SessionConfig, LoggingConfig, DatabaseConfig,
  ConfigManager, ConfigResult, success, failure, invalid_listen_address, invalid_server_port,
  jwt_secret_too_short, invalid_token_expiry, invalid_session_timeout, invalid_max_sessions,
  invalid_log_level, invalid_log_max_size, invalid_log_max_files, db_host_empty, invalid_db_port,
  db_name_empty, target_service_name_empty, target_service_host_empty, invalid_target_service_port,
  target_service_no_roles,
}
use zero_trust_secure_sessio.Config.Addresses.{is_valid_ip_address}

unfoldable pub validate_server_config : ServerConfig → ConfigResult (Unit {0})
validate_server_config s =
    if not (is_valid_ip_address s.listen_address) && not (s.listen_address == "0.0.0.0")
    then failure (invalid_listen_address s.listen_address)
    else if ltb s.listen_port 1 || ltb 65535 s.listen_port
    then failure invalid_server_port
    else success tt

unfoldable pub validate_security_config : SecurityConfig → ConfigResult (Unit {0})
validate_security_config s =
    if ltb (length (codes s.jwt_secret)) 16
    then failure jwt_secret_too_short
    else if less s.token_expiry_hours 1 || greater s.token_expiry_hours 168
    then failure invalid_token_expiry
    else success tt

unfoldable pub validate_session_config : SessionConfig → ConfigResult (Unit {0})
validate_session_config s =
    if less s.timeout_seconds 60 || greater s.timeout_seconds 86400
    then failure invalid_session_timeout
    else if less s.max_concurrent_sessions 1 || greater s.max_concurrent_sessions 1000
    then failure invalid_max_sessions
    else success tt

abbrev pub is_level : String → Bool
is_level level =
    level == "trace"
    || level == "debug"
    || level == "info"
    || level == "warn"
    || level == "error"
    || level == "critical"

unfoldable pub validate_logging_config : LoggingConfig → ConfigResult (Unit {0})
validate_logging_config s =
    if not (is_level s.level)
    then failure (invalid_log_level s.level)
    else if less s.max_file_size_mb 1 || greater s.max_file_size_mb 1000
    then failure invalid_log_max_size
    else if less s.max_files 1 || greater s.max_files 100
    then failure invalid_log_max_files
    else success tt

unfoldable pub validate_database_config : DatabaseConfig → ConfigResult (Unit {0})
validate_database_config s =
    if s.host == ""
    then failure db_host_empty
    else if ltb s.port 1 || ltb 65535 s.port
    then failure invalid_db_port
    else if s.name == ""
    then failure db_name_empty
    else success tt

-- The first service in the order of the map that fails a check decides the error.
unfoldable pub validate_services : List TargetService → ConfigResult (Unit {0})
validate_services [] = success tt
validate_services (service ∷ rest) =
    let later = validate_services rest in
    if service.name == ""
    then failure target_service_name_empty
    else if service.host == ""
    then failure (target_service_host_empty service.name)
    else if ltb service.port 1 || ltb 65535 service.port
    then failure (invalid_target_service_port service.name)
    else if is_empty service.allowed_roles
    then failure (target_service_no_roles service.name)
    else later

abbrev pub after {ℓ} : ConfigResult (Unit {0}) → ConfigResult (Unit {ℓ}) → ConfigResult (Unit {ℓ})
after (failure e) later = failure e
after (success _) later = later

unfoldable pub validate_config : (lib : Json) → ConfigManager lib → ConfigResult (Unit {0})
validate_config lib m = after (validate_server_config m.server_config) (
    after (validate_security_config m.security_config) (
      after (validate_session_config m.session_config) (
        after (validate_logging_config m.logging_config) (
          after (validate_database_config m.database_config)
            (validate_services (values m.target_services))))))
