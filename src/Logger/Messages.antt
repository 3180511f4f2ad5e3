-- ===== src/Logger/Messages.antt =====
-- The calls of src/logging/logger.cpp that write a line of fields, and the log-in attempt.
use Prim.Native.String.{◌++◌ as ◌<>◌}
use zero_trust_secure_sessio.Common.{
  ℕ, Bool, true, List, [], ◌∷◌, String, string_eq, ◌==◌, if◌then◌else◌, Run, lock_then,
}
use zero_trust_secure_sessio.Types.Utils.{SecurityEventType, security_event_type_to_string}
use zero_trust_secure_sessio.Logger.{
  LogLevel, SpdLevel, spd_info, spd_warn, spd_err, convert_log_level, Logger, Field, format_fields,
  to_string, hand, locked, log_security_event,
}

abbrev pub with_fields : String → String → String
with_fields message fields = if fields == "" then message else message <> (" | " <> fields)

unfoldable pub log_with_fields :
    Bool → LogLevel → String → String → List Field → Logger → Run Logger
log_with_fields held level component message fields l =
    let full_message = with_fields message (format_fields fields) in
    locked held (hand (convert_log_level level) ("[" <> (component <> ("] " <> full_message))) l)

-- `log_security_event` is called while the mutex is held.
unfoldable pub log_authentication_attempt :
    Bool → String → String → Bool → String → Logger → Run Logger
unfolding log_security_event
log_authentication_attempt held username client_ip success reason l =
    let status = if success then "SUCCESS" else "FAILED" in
    let details =
      "username="
      <> (username
          <> (", client_ip="
              <> (client_ip <> (", status=" <> (status <> (", reason=" <> reason)))))) in
    lock_then held (log_security_event true "AUTH_ATTEMPT" details l)

-- One line of fields under its title.
abbrev pub log_fields : Bool → SpdLevel → String → List Field → Logger → Run Logger
log_fields held level title fields l = locked held (hand level (title <> format_fields fields) l)

unfoldable pub log_session_creation : Bool → String → String → String → String → Logger → Run Logger
log_session_creation held id username client_ip target_service =
    log_fields held spd_info "SESSION_CREATION: " (
      ("session_id", id)
      ∷ ("username", username)
      ∷ ("client_ip", client_ip)
      ∷ ("target_service", target_service)
      ∷ [])

unfoldable pub log_session_termination : Bool → String → String → Logger → Run Logger
log_session_termination held id reason =
    log_fields held spd_info "SESSION_TERMINATION: " (("session_id", id) ∷ ("reason", reason) ∷ [])

-- A last field, where its value is not empty.
abbrev pub and_field : String → String → List Field
and_field key value = if value == "" then [] else (key, value) ∷ []

unfoldable pub log_access_denied : Bool → String → String → String → String → Logger → Run Logger
log_access_denied held username client_ip resource reason =
    log_fields held spd_warn "ACCESS_DENIED: " (
      ("username", username)
      ∷ ("client_ip", client_ip)
      ∷ ("resource", resource)
      ∷ and_field "reason" reason)

unfoldable pub log_security_violation : Bool → String → String → String → Logger → Run Logger
log_security_violation held client_ip violation_type details =
    log_fields held spd_err "SECURITY_VIOLATION: "
      (("client_ip", client_ip) ∷ ("violation_type", violation_type) ∷ and_field "details" details)

-- `duration` is what `std::to_string` gives for the floating-point number.
unfoldable pub log_performance_metric : Bool → String → String → String → Logger → Run Logger
log_performance_metric held operation duration unit =
    log_fields held spd_info "PERFORMANCE_METRIC: "
      (("operation", operation) ∷ ("duration", duration <> (" " <> unit)) ∷ [])

unfoldable pub log_connection_stats : Bool → ℕ → ℕ → Logger → Run Logger
log_connection_stats held active_connections total_connections =
    log_fields held spd_info "CONNECTION_STATS: " (
      ("active_connections", to_string active_connections)
      ∷ ("total_connections", to_string total_connections)
      ∷ [])

unfoldable pub log_throughput : Bool → ℕ → String → Logger → Run Logger
log_throughput held bytes_transferred direction =
    log_fields held spd_info "THROUGHPUT: "
      (("bytes_transferred", to_string bytes_transferred) ∷ ("direction", direction) ∷ [])

unfoldable pub format_timestamp : Bool → Bool → Logger → Run Logger
format_timestamp held enable l = locked held (record l { timestamp_formatted = enable })

unfoldable pub format_security_event : Bool → Bool → Logger → Run Logger
format_security_event held enable l = locked held (record l { security_event_formatted = enable })

-- `log_security_event` of a `SecurityEvent`.
unfoldable pub log_event : Bool → SecurityEventType → String → String → String → Logger → Run Logger
log_event held type username client_ip details = log_fields held spd_warn "SECURITY_EVENT: " (
    ("type", security_event_type_to_string type)
    ∷ ("username", username)
    ∷ ("client_ip", client_ip)
    ∷ ("details", details)
    ∷ [])
