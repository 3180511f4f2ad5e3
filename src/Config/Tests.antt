-- ===== src/Config/Tests.antt =====
-- The theorems about config_manager.cpp at concrete inputs.
use zero_trust_secure_sessio.Common.{
  ◌≡◌, refl, ap, ◌∙◌, inl, inr, true, false, [], ◌∷◌, none, arith, string_eq, lookup, codes,
}
use zero_trust_secure_sessio.Types.{operator, TargetService, role_to_string}
use zero_trust_secure_sessio.Config.{pos, ConfigManager, success}
use zero_trust_secure_sessio.Config.Defaults.{
  initial_manager, default_server, default_logging, default_session,
}
use zero_trust_secure_sessio.Config.Addresses.{
  is_valid_ip_address, is_valid_ip_address_iff, count_dots, segments, all_octets,
}
use zero_trust_secure_sessio.Config.Validation.{
  validate_config, validate_server_config, validate_security_config, validate_session_config,
  validate_logging_config, validate_database_config, validate_services,
}
use zero_trust_secure_sessio.Config.Bounds.{IsConfigured, validate_config_iff}
use zero_trust_secure_sessio.Config.Files.{Disk, Platform, load_config, get_file_extension, behind}
use zero_trust_secure_sessio.Config.Saving.{saved_json, save_config}
use zero_trust_secure_sessio.Config.RoundTrip.{IsStored, load_config-save_config}
use zero_trust_secure_sessio.Config.Loading.{load_config_sound}
use zero_trust_secure_sessio.Config.Sample.{Tree, text, sample, sample-JsonLaws}

abbrev pub ssh : TargetService
ssh = record {
  name = "ssh";
  host = "internal";
  port = 22;
  allowed_roles = operator ∷ [];
  tls_enabled = false;
}

-- A configuration within the bounds, over the library whose files hold `root`.
abbrev pub configured : (root : Tree) → Tree → ConfigManager (sample root)
configured root json = record {
  config_json = json;
  server_config = default_server;
  security_config = record {
    jwt_secret = "0123456789abcdef";
    token_expiry_hours = pos 1;
    max_login_attempts = pos 5;
    lockout_duration_minutes = pos 15;
  };
  session_config = default_session;
  logging_config = default_logging;
  database_config = record {
    host = "db";
    port = 5432;
    name = "gateway";
    username = "";
    password = "";
    ssl_mode = "require";
  };
  target_services = ("ssh", ssh) ∷ [];
}

-- What `save_config` builds for it.
abbrev pub saved : Tree
saved = saved_json (sample (text "")) (configured (text "") (text ""))

abbrev pub platform : Platform
platform = record {
  is_readable = λ file. true;
  is_writable = λ file. true;
  yaml_text = λ contents. none;
}

abbrev pub before : ConfigManager (sample saved)
before = configured saved (text "")

abbrev pub loaded : ConfigManager (sample saved)
loaded = configured saved saved

before-IsStored : IsStored before
unfolding lookup
before-IsStored = record {
  listen_port = omega arith;
  database_port = omega arith;
  unique = (refl, tt);
  listed = (
    (
      refl,
      λ h. absurd (ground (arith, (string_eq.equal_iff "internal" "").1 h)),
      omega arith,
      omega arith,
    ),
    tt,
  );
}

is_json : get_file_extension "etc/gateway.json" ≡ "json"
unfolding get_file_extension behind
is_json = refl

validated : validate_config (sample saved) loaded ≡ success tt
unfolding validate_config validate_server_config validate_security_config validate_session_config
    validate_logging_config validate_database_config validate_services is_valid_ip_address
    count_dots segments all_octets
validated = refl

abbrev pub written : Disk
written = (save_config (sample saved) platform [] before "etc/gateway.json").0

load_config-save_config_example :
    load_config (sample saved) platform written (initial_manager (sample saved)) "etc/gateway.json"
    ≡ (loaded, validate_config (sample saved) loaded)
unfolding role_to_string
load_config-save_config_example =
    (load_config-save_config (sample saved) platform [] before (initial_manager (sample saved))
      "etc/gateway.json" "{}" (sample-JsonLaws saved) before-IsStored is_json refl refl refl refl).1

abbrev pub root_manager : ConfigManager (sample saved)
root_manager = initial_manager (sample saved)

pub loads :
    load_config (sample saved) platform written root_manager "etc/gateway.json"
    ≡ (loaded, success tt)
loads = load_config-save_config_example ∙ ap (λ r. (loaded, r)) validated

validate_config_iff_example : IsConfigured loaded
validate_config_iff_example = (validate_config_iff (sample saved) loaded).0 validated

load_config_sound_example : IsConfigured loaded × IsStored loaded
load_config_sound_example =
    load_config_sound (sample saved) platform written root_manager loaded "etc/gateway.json" loads

-- The fourth number is missing.
is_valid_ip_address_iff_example : is_valid_ip_address "10.0.0." ≡ true
is_valid_ip_address_iff_example = (is_valid_ip_address_iff "10.0.0.").1 (
    inr (
      codes "10",
      codes "0.0.",
      refl,
      ((omega arith, omega arith), (omega arith, omega arith)),
      (
        codes "0",
        codes "0.",
        refl,
        (omega arith, omega arith),
        (codes "0", [], refl, (omega arith, omega arith), inl refl),
      ),
    ))
