-- ===== src/Logger.antt =====
-- src/logging/logger.cpp, and the class `Logger` of include/zerossg/logging/logger.ixx. What is handed
-- to spdlog is kept with its level in `written`; which sink then writes it is left to that library.
-- Each call is given whether its thread holds `m_mutex` already.
pub mod Messages
pub mod Calls
pub mod Forging
pub mod Tests
use Prim.Native.String.{◌++◌ as ◌<>◌}
use zero_trust_secure_sessio.Common.{
  ℕ, zero, suc, ◌+◌, ◌/◌, ◌%◌, Bool, true, false, not, List, [], ◌∷◌, ◌++◌, String, Option, none,
  some, nat_eq, string_eq, ◌==◌, ltb, if◌then◌else◌, keep, Run, done, deadlock, ◌>>=◌, lock_then,
}
use zero_trust_secure_sessio.Types.Utils.{SecurityEventType, security_event_type_to_string}
use zero_trust_secure_sessio.Config.{ℤ}
use zero_trust_secure_sessio.Config.Keys.{or_default}
use zero_trust_secure_sessio.Config.Files.{behind}

-- `LogLevel`, and the levels of spdlog, which `convert_log_level` gives one for one.
pub data LogLevel : Type 0 where
  trace debug info warn error critical : LogLevel

pub data SpdLevel : Type 0 where
  spd_trace spd_debug spd_info spd_warn spd_err spd_critical : SpdLevel

unfoldable pub convert_log_level : LogLevel → SpdLevel
convert_log_level trace = spd_trace
convert_log_level debug = spd_debug
convert_log_level info = spd_info
convert_log_level warn = spd_warn
convert_log_level error = spd_err
convert_log_level critical = spd_critical

abbrev pub level_rank : LogLevel → ℕ
level_rank trace = 0
level_rank debug = 1
level_rank info = 2
level_rank warn = 3
level_rank error = 4
level_rank critical = 5

-- A file with its bound and number of files and the level that the sink is set to, if it is; a
-- daily file with its hour and minute; the console.
pub data Sink : Type 0 where
  rotating_file : String → ℕ → ℕ → Option SpdLevel → Sink
  daily_file : String → ℤ → ℤ → Sink
  console : Sink

pub record Logger : Type 0 where
  pub name : String
  pub level : LogLevel
  pub spd_level : SpdLevel
  pub pattern : Option String
  pub sinks : List Sink
  pub written : List (SpdLevel × String)
  pub timestamp_formatted : Bool
  pub security_event_formatted : Bool

-- The constructors, and `initialize_default_sinks`, where spdlog can open the file.
unfoldable pub new_logger : String → LogLevel → String → Logger
new_logger name level file = record {
  name = name;
  level = level;
  spd_level = convert_log_level level;
  pattern = none;
  sinks = rotating_file file 1048576 3 (some spd_info) ∷ [];
  written = [];
  timestamp_formatted = true;
  security_event_formatted = true;
}

abbrev pub Field : Type 0
Field = String × String

unfoldable pub format_fields : List Field → String
format_fields [] = ""
format_fields ((key, value) ∷ []) = key <> ("=" <> value)
format_fields ((key, value) ∷ other ∷ rest) =
    key <> ("=" <> (value <> (", " <> format_fields (other ∷ rest))))

abbrev pub digit : ℕ → String
digit zero = "0"
digit (suc zero) = "1"
digit (suc (suc zero)) = "2"
digit (suc (suc (suc zero))) = "3"
digit (suc (suc (suc (suc zero)))) = "4"
digit (suc (suc (suc (suc (suc zero))))) = "5"
digit (suc (suc (suc (suc (suc (suc zero)))))) = "6"
digit (suc (suc (suc (suc (suc (suc (suc zero))))))) = "7"
digit (suc (suc (suc (suc (suc (suc (suc (suc zero)))))))) = "8"
digit n = "9"

-- A number has fewer digits than its successor counts.
abbrev pub digits : ℕ → ℕ → String
digits zero n = ""
digits (suc fuel) n =
    let front = digits fuel (n / 10) in if ltb n 10 then digit n else front <> digit (n % 10)

-- `std::to_string` of an unsigned number.
abbrev pub to_string : ℕ → String
to_string n = digits (suc n) n

-- A message at a level is handed to spdlog.
abbrev pub hand : SpdLevel → String → Logger → Logger
hand level message l = record l { written = l.written ++ (level, message) ∷ [] }

abbrev pub locked : Bool → Logger → Run Logger
locked held l = lock_then held (done l)

unfoldable pub log_security_event : Bool → String → String → Logger → Run Logger
log_security_event held event_type details l =
    let event = format_fields (("event_type", event_type) ∷ ("details", details) ∷ []) in
    locked held (hand spd_info ("SECURITY_EVENT: " <> event) l)

unfoldable pub log_session_event : Bool → String → String → String → Logger → Run Logger
log_session_event held id event_type details l = locked held (
    hand spd_info
      ("SESSION_EVENT: session_id="
        <> (id <> (", event_type=" <> (event_type <> (", details=" <> details)))))
      l)

-- Where a call stands in the source: the file and the line.
pub record Location : Type 0 where
  pub file_name : String
  pub line : ℕ

abbrev pub file_of : String → String
file_of path = or_default path (behind 47 path)

-- `message` is what `std::vformat` gives.
unfoldable pub log_impl : Bool → LogLevel → Location → String → Logger → Run Logger
log_impl held level at message l = locked held (
    hand (convert_log_level level)
      ("[" <> (file_of at.file_name <> (":" <> (to_string at.line <> ("] " <> message))))) l)

abbrev pub by_component : String → String → String
by_component component message = "[" <> (component <> ("]: " <> message))

unfoldable pub log_error : Bool → String → String → Location → Logger → Run Logger
unfolding log_impl
log_error held component message at l = log_impl held error at (by_component component message) l

unfoldable pub log_info : Bool → String → String → Location → Logger → Run Logger
unfolding log_impl
log_info held component message at l = log_impl held info at (by_component component message) l

unfoldable pub log_debug : Bool → String → String → Location → Logger → Run Logger
unfolding log_impl
log_debug held component message at l = log_impl held debug at (by_component component message) l

-- The template `log`, which asks the logger's own level first.
unfoldable pub log : Bool → LogLevel → Location → String → Logger → Run Logger
unfolding log_impl
log held level at message l =
    if ltb (level_rank level) (level_rank l.level) then done l else log_impl held level at message l

unfoldable pub set_level : Bool → LogLevel → Logger → Run Logger
set_level held level l = locked held (record l { spd_level = convert_log_level level })

abbrev pub get_level : Logger → LogLevel
get_level l = l.level

unfoldable pub set_pattern : Bool → String → Logger → Run Logger
set_pattern held pattern l = locked held (record l { pattern = some pattern })

-- A call returns, or throws the exception of a sink's constructor.
pub data Ending : Type 0 where
  returned threw : Ending

-- `opens` says whether the constructor of the sink returns: spdlog throws where it cannot open the
-- file or does not take the numbers. The mutex is then unlocked again, and no sink is added.
abbrev pub add_sink : Bool → Bool → Sink → Logger → Run (Logger × Ending)
add_sink held opens sink l =
    lock_then held
      (done (if opens then (record l { sinks = l.sinks ++ sink ∷ [] }, returned) else (l, threw)))

unfoldable pub add_file_sink : Bool → Bool → String → ℕ → ℕ → Logger → Run (Logger × Ending)
add_file_sink held opens file max_file_size max_files l =
    add_sink held opens (rotating_file file max_file_size max_files none) l

unfoldable pub add_daily_file_sink : Bool → Bool → String → ℤ → ℤ → Logger → Run (Logger × Ending)
add_daily_file_sink held opens file hour minute l =
    add_sink held opens (daily_file file hour minute) l

abbrev pub is_console : Sink → Bool
is_console (rotating_file file size count level) = false
is_console (daily_file file hour minute) = false
is_console console = true

abbrev pub has_console : List Sink → Bool
has_console [] = false
has_console (sink ∷ sinks) = if is_console sink then true else has_console sinks

unfoldable pub enable_console_output : Bool → Bool → Logger → Run Logger
enable_console_output held true l =
    locked held (if has_console l.sinks then l else record l { sinks = console ∷ l.sinks })
enable_console_output held false l =
    locked held (record l { sinks = keep (λ sink. not (is_console sink)) l.sinks })
