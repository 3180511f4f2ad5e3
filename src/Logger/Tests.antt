-- ===== src/Logger/Tests.antt =====
-- The theorems about logger.cpp at concrete inputs, and lines that it writes.
use zero_trust_secure_sessio.Common.{◌≡◌, refl, true, false, [], ◌∷◌, List, done}
use zero_trust_secure_sessio.Config.Files.{behind}
use zero_trust_secure_sessio.Logger.{
  info, spd_info, spd_err, returned, threw, Logger, new_logger, format_fields, hand, log_error,
  convert_log_level,
}
use zero_trust_secure_sessio.Logger.Messages.{log_connection_stats, log_access_denied}
use zero_trust_secure_sessio.Logger.Calls.{
  Call, Ends, perform_all, perform_all-Ends, file_sink_added, console_enabled, throughput,
}
use zero_trust_secure_sessio.Logger.Forging.{with_field, format_fields-forged}

abbrev logger : Logger
logger = new_logger "gateway" info "logs/zerossg.log"

counts :
    log_connection_stats false 3 120 logger
    ≡ done (hand spd_info "CONNECTION_STATS: active_connections=3, total_connections=120" logger)
unfolding log_connection_stats format_fields
counts = refl

located :
    log_error false "TLS" "no key" (record { file_name = "src/tls.cpp"; line = 40 }) logger
    ≡ done (hand spd_err "[tls.cpp:40] [TLS]: no key" logger)
unfolding log_error convert_log_level behind
located = refl

-- A denial without a reason, for a resource that looks as if there were one.
denied :
    log_access_denied false "eve" "10.0.0.9" "ssh, reason=granted" "" logger
    ≡ log_access_denied false "eve" "10.0.0.9" "ssh" "granted" logger
unfolding log_access_denied format_fields
denied = refl

-- The file cannot be opened at the first call, and can at the third.
abbrev reopened : List Call
reopened =
    file_sink_added false "logs/audit.log" 4096 2
    ∷ console_enabled true
    ∷ file_sink_added true "logs/audit.log" 4096 2
    ∷ throughput 10 "in"
    ∷ []

perform_all-Ends_example :
    Ends false (threw ∷ returned ∷ returned ∷ returned ∷ []) logger (perform_all reopened logger)
perform_all-Ends_example = perform_all-Ends reopened logger

format_fields-forged_example :
    format_fields (("resource", with_field "ssh" "reason" "granted") ∷ [])
    ≡ format_fields (("resource", "ssh") ∷ ("reason", "granted") ∷ [])
format_fields-forged_example = format_fields-forged "resource" "ssh" "reason" "granted" []
