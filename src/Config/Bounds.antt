-- ===== src/Config/Bounds.antt =====
-- What `validate_config` of config_manager.cpp accepts.
use zero_trust_secure_sessio.Common.{
  ℕ, ◌≤◌, ◌≡◌, refl, ◌≢◌, ◌↔◌, Bool, true, false, ◌||◌, List, [], ◌∷◌, arith, string_eq, nat_eq,
  values, All, length, codes,
}
use zero_trust_secure_sessio.Types.{TargetService, is_valid}
use zero_trust_secure_sessio.Config.{
  ℤ, pos, negsuc, less, greater, Json, ServerConfig, SecurityConfig, SessionConfig, LoggingConfig,
  DatabaseConfig, ConfigManager, ConfigResult, success, failure,
}
use zero_trust_secure_sessio.Config.Addresses.{is_valid_ip_address}
use zero_trust_secure_sessio.Config.Validation.{
  validate_server_config, validate_security_config, validate_session_config,
  validate_logging_config, validate_database_config, validate_services, validate_config, is_level,
  after,
}

abbrev pub IsWithin : ℕ → ℕ → ℤ → Type 0
IsWithin low high i = (n : ℕ) × (i ≡ pos n) × (low ≤ n) × (n ≤ high)

abbrev pub IsServer : ServerConfig → Type 0
IsServer s =
    (is_valid_ip_address s.listen_address ≡ true) × (1 ≤ s.listen_port) × (s.listen_port ≤ 65535)

abbrev pub IsSecurity : SecurityConfig → Type 0
IsSecurity s = (16 ≤ length (codes s.jwt_secret)) × IsWithin 1 168 s.token_expiry_hours

abbrev pub IsSession : SessionConfig → Type 0
IsSession s = IsWithin 60 86400 s.timeout_seconds × IsWithin 1 1000 s.max_concurrent_sessions

abbrev pub IsLogging : LoggingConfig → Type 0
IsLogging s =
    (is_level s.level ≡ true) × IsWithin 1 1000 s.max_file_size_mb × IsWithin 1 100 s.max_files

abbrev pub IsDatabase : DatabaseConfig → Type 0
IsDatabase s = (s.host ≢ "") × (1 ≤ s.port) × (s.port ≤ 65535) × (s.name ≢ "")

-- The bounds of a configuration that the server may run with.
pub record IsConfigured {lib : Json} (m : ConfigManager lib) : Type 0 where
  pub server : IsServer m.server_config
  pub security : IsSecurity m.security_config
  pub session : IsSession m.session_config
  pub logging : IsLogging m.logging_config
  pub database : IsDatabase m.database_config
  pub services : All (λ s. is_valid s ≡ true) (values m.target_services)

IsWithin-iff :
    (low high : ℕ) (i : ℤ) → ((less i low || greater i high) ≡ false) ↔ IsWithin low high i
IsWithin-iff low high (pos n) = (
  λ h. (n, refl, ground (arith, h), ground (arith, h)),
  λ (k, e, lower, upper). ground (arith, e, lower, upper),
)
IsWithin-iff low high (negsuc n) =
    (λ h. absurd (ground (arith, h)), λ (k, e, lower, upper). absurd (ground (arith, e)))

after_iff :
    (r s : ConfigResult (Unit {0}))
    → (after r s ≡ success tt) ↔ ((r ≡ success tt) × (s ≡ success tt))
after_iff (success tt) s = ground arith
after_iff (failure e) s = ground arith

abbrev pub IsPassed : ConfigResult (Unit {0}) → Type 0
IsPassed r = r ≡ success tt

any_address_passes : is_valid_ip_address "0.0.0.0" ≡ true
unfolding is_valid_ip_address
any_address_passes = refl

IsServer-iff : (s : ServerConfig) → IsPassed (validate_server_config s) ↔ IsServer s
unfolding validate_server_config
IsServer-iff s = ground (arith, any_address_passes, string_eq.equal_iff s.listen_address "0.0.0.0")

IsSecurity-iff : (s : SecurityConfig) → IsPassed (validate_security_config s) ↔ IsSecurity s
unfolding validate_security_config
IsSecurity-iff s = ground (arith, IsWithin-iff 1 168 s.token_expiry_hours)

IsSession-iff : (s : SessionConfig) → IsPassed (validate_session_config s) ↔ IsSession s
unfolding validate_session_config
IsSession-iff s =
    ground (
      arith,
      IsWithin-iff 60 86400 s.timeout_seconds,
      IsWithin-iff 1 1000 s.max_concurrent_sessions,
    )

IsLogging-iff : (s : LoggingConfig) → IsPassed (validate_logging_config s) ↔ IsLogging s
unfolding validate_logging_config
IsLogging-iff s = logging_split (is_level s.level) refl
  where
    logging_split :
        (b : Bool) → is_level s.level ≡ b → IsPassed (validate_logging_config s) ↔ IsLogging s
    logging_split b e =
        ground (arith, e, IsWithin-iff 1 1000 s.max_file_size_mb, IsWithin-iff 1 100 s.max_files)

IsDatabase-iff : (s : DatabaseConfig) → IsPassed (validate_database_config s) ↔ IsDatabase s
unfolding validate_database_config
IsDatabase-iff s = ground (arith, string_eq.equal_iff s.host "", string_eq.equal_iff s.name "")

services_iff :
    (services : List TargetService)
    → IsPassed (validate_services services) ↔ All (λ s. is_valid s ≡ true) services
unfolding validate_services is_valid
services_iff [] = ground arith
services_iff (s ∷ rest) = ground (arith, services_iff rest)

-- A configuration passes the validation exactly if it is within all the bounds.
pub validate_config_iff :
    (lib : Json) (m : ConfigManager lib) → (validate_config lib m ≡ success tt) ↔ IsConfigured m
unfolding validate_config
validate_config_iff lib m = (
  λ h.
      let (a, h1) = (after_iff (validate_server_config m.server_config) _).0 h in
      let (b, h2) = (after_iff (validate_security_config m.security_config) _).0 h1 in
      let (c, h3) = (after_iff (validate_session_config m.session_config) _).0 h2 in
      let (d, h4) = (after_iff (validate_logging_config m.logging_config) _).0 h3 in
      let (e, f) = (after_iff (validate_database_config m.database_config) _).0 h4 in
      record {
        server = (IsServer-iff m.server_config).0 a;
        security = (IsSecurity-iff m.security_config).0 b;
        session = (IsSession-iff m.session_config).0 c;
        logging = (IsLogging-iff m.logging_config).0 d;
        database = (IsDatabase-iff m.database_config).0 e;
        services = (services_iff (values m.target_services)).0 f;
      },
  λ k.
      rw
        (
          (IsServer-iff m.server_config).1 k.server,
          (IsSecurity-iff m.security_config).1 k.security,
          (IsSession-iff m.session_config).1 k.session,
          (IsLogging-iff m.logging_config).1 k.logging,
          (IsDatabase-iff m.database_config).1 k.database,
          (services_iff (values m.target_services)).1 k.services,
          validate_config,
        )
        refl,
)
