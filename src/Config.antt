-- ===== src/Config.antt =====
-- src/config/config_manager.cpp, and the structures that it fills (include/zerossg/types.ixx).
-- A `Result<void>` or `Result<T>` is a `ConfigResult`, whose error is named after the message's
-- constant. The JSON library is the parameter `Json`; a call that throws is `none`. What an
-- exception leaves behind is the state at the throw (`Parsed`).
pub mod Parsing
pub mod Services
pub mod Validation
pub mod Bounds
pub mod Addresses
pub mod Keys
pub mod Files
pub mod Saving
pub mod Store
pub mod Laws
pub mod SavedSections
pub mod SavedServices
pub mod Defaults
pub mod RoundTrip
pub mod Answers
pub mod Loading
pub mod Required
pub mod Sample
pub mod Tests
use zero_trust_secure_sessio.Common.{
  ℕ, suc, ◌≤◌, ◌≡◌, refl, ◌⊎◌, inl, inr, Bool, true, false, List, String, Option, none, some, ltb,
  leb, Map,
}
use zero_trust_secure_sessio.Types.{TargetService}

-- The `int` of the source.
pub data ℤ : Type 0 where
  pos negsuc : ℕ → ℤ

abbrev pub less : ℤ → ℕ → Bool
less (pos n) k = ltb n k
less (negsuc n) k = true

abbrev pub greater : ℤ → ℕ → Bool
greater (pos n) k = ltb k n
greater (negsuc n) k = false

-- The JSON library nlohmann::json. `find v k` is `v[k]` if `v.contains(k)`; `value_…` are the calls
-- `v.value(k, d)` by the type of `d`; `elements` is the array, if it is one; `text_of` the text, if
-- it is one; `scalar` the text of a number or a Boolean (`dump`), if it is one. `read` is
-- `file >> json`, with what it leaves and whether it did not throw; `parse` is `json::parse`; `print`
-- is `dump(4)`. The others build values.
pub record Json : Type 1 where
  pub Value : Type 0
  pub find : Value → String → Option Value
  pub value_text : Value → String → String → Option String
  pub value_int : Value → String → ℤ → Option ℤ
  pub value_port : Value → String → ℕ → Option ℕ
  pub value_bool : Value → String → Bool → Option Bool
  pub elements : Value → Option (List Value)
  pub text_of : Value → Option String
  pub scalar : Value → Option String
  pub read : Value → String → Value × Bool
  pub parse : String → Option Value
  pub print : Value → Option String
  pub of_text : String → Value
  pub of_int : ℤ → Value
  pub of_bool : Bool → Value
  pub object : Map String Value → Value
  pub array : List Value → Value

pub record ServerConfig : Type 0 where
  pub listen_address : String
  pub listen_port : ℕ
  pub tls_cert_file : String
  pub tls_key_file : String
  pub ca_cert_file : String

pub record SecurityConfig : Type 0 where
  pub jwt_secret : String
  pub token_expiry_hours : ℤ
  pub max_login_attempts : ℤ
  pub lockout_duration_minutes : ℤ

pub record SessionConfig : Type 0 where
  pub timeout_seconds : ℤ
  pub max_concurrent_sessions : ℤ

pub record LoggingConfig : Type 0 where
  pub level : String
  pub file_path : String
  pub max_file_size_mb : ℤ
  pub max_files : ℤ

pub record DatabaseConfig : Type 0 where
  pub host : String
  pub port : ℕ
  pub name : String
  pub username : String
  pub password : String
  pub ssl_mode : String

pub record ConfigManager (lib : Json) : Type 0 where
  pub config_json : lib.Value
  pub server_config : ServerConfig
  pub security_config : SecurityConfig
  pub session_config : SessionConfig
  pub logging_config : LoggingConfig
  pub database_config : DatabaseConfig
  pub target_services : Map String TargetService

pub data ConfigError : Type 0 where
  config_file_not_found unsupported_config_format config_open_failed : String → ConfigError
  config_write_open_failed target_service_not_found : String → ConfigError
  json_parse_failed yaml_parse_failed yaml_load_failed config_save_failed : ConfigError
  target_service_parse_failed target_service_host_port_missing : ConfigError
  invalid_listen_address : String → ConfigError
  invalid_server_port jwt_secret_too_short invalid_token_expiry : ConfigError
  invalid_session_timeout invalid_max_sessions : ConfigError
  invalid_log_level : String → ConfigError
  invalid_log_max_size invalid_log_max_files : ConfigError
  db_host_empty invalid_db_port db_name_empty : ConfigError
  target_service_name_empty : ConfigError
  target_service_host_empty invalid_target_service_port : String → ConfigError
  target_service_no_roles : String → ConfigError

pub data ConfigResult {ℓ} (A : Type ℓ) : Type ℓ where
  success : A → ConfigResult A
  failure : ConfigError → ConfigResult A

pub data Parsed {ℓ} (S : Type ℓ) : Type ℓ where
  parsed thrown : S → Parsed S

-- One assignment from a call that may throw, and what follows it.
abbrev pub assign {ℓ κ} :
    {A : Type ℓ} {S : Type κ} → Option A → S → (A → S) → (S → Parsed S) → Parsed S
assign none s set next = thrown s
assign (some a) s set next = next (set a)

-- A part of the state is parsed, and then the rest unless it threw.
abbrev pub parse_part {ℓ κ} :
    {S : Type ℓ} {T : Type κ} → Parsed S → (S → T) → (T → Parsed T) → Parsed T
parse_part (parsed s) put next = next (put s)
parse_part (thrown s) put next = thrown (put s)
