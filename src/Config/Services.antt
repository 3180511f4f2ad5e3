-- ===== src/Config/Services.antt =====
-- `parse_target_service`, `parse_target_services` and the look-ups of config_manager.cpp.
use zero_trust_secure_sessio.Common.{
  ℕ, false, ◌||◌, List, [], ◌∷◌, String, Option, none, some, string_eq, nat_eq, ◌==◌, leb,
  if◌then◌else◌, Map, lookup, insert, values,
}
use zero_trust_secure_sessio.Types.{Role, TargetService, string_to_role}
use zero_trust_secure_sessio.Config.{
  ℤ, pos, negsuc, Json, ConfigManager, ConfigResult, success, failure,
  target_service_host_port_missing, target_service_parse_failed, target_service_not_found,
}

-- `std::in_range<PortNo>` and the cast; another port stays 0.
abbrev pub port_of : ℤ → ℕ
port_of (pos n) = if leb n 65535 then n else 0
port_of (negsuc n) = 0

-- The members that are not texts are passed over.
unfoldable pub roles_among : List (Option String) → List Role
roles_among [] = []
roles_among (none ∷ rest) = roles_among rest
roles_among (some name ∷ rest) = string_to_role name ∷ roles_among rest

unfoldable pub complete_service : TargetService → ConfigResult TargetService
complete_service service =
    if service.host == "" || service.port == 0
    then failure target_service_host_port_missing
    else success service

abbrev pub or_failed {ℓ} :
    {A : Type ℓ} → Option A → (A → ConfigResult TargetService) → ConfigResult TargetService
or_failed none f = failure target_service_parse_failed
or_failed (some a) f = f a

module _ (lib : Json) where
  unfoldable pub texts_of : List lib.Value → List (Option String)
  texts_of [] = []
  texts_of (v ∷ vs) = lib.text_of v ∷ texts_of vs

  abbrev roles_array : Option (List lib.Value) → List Role
  roles_array none = []
  roles_array (some vs) = roles_among (texts_of vs)

  abbrev pub allowed_roles_of : Option lib.Value → List Role
  allowed_roles_of none = []
  allowed_roles_of (some roles) = roles_array (lib.elements roles)

  unfoldable pub parse_target_service : lib.Value → ConfigResult TargetService
  unfolding complete_service
  parse_target_service v = or_failed (lib.value_text v "name" "") (λ name.
      or_failed (lib.value_text v "host" "") (λ host.
        or_failed (lib.value_bool v "tls_enabled" false) (λ tls.
          or_failed (lib.value_int v "port" (pos 0)) (λ port. complete_service (record {
            name = name;
            host = host;
            port = port_of port;
            allowed_roles = allowed_roles_of (lib.find v "allowed_roles");
            tls_enabled = tls;
          })))))

  -- A service that cannot be parsed is passed over.
  abbrev pub add_parsed :
      ConfigResult TargetService → Map String TargetService → Map String TargetService
  add_parsed (failure e) m = m
  add_parsed (success service) m = insert service.name service m

  unfoldable pub add_services : Map String TargetService → List lib.Value → Map String TargetService
  add_services m [] = m
  add_services m (v ∷ vs) = add_services (add_parsed (parse_target_service v) m) vs

  abbrev pub services_array : Option (List lib.Value) → Map String TargetService
  services_array none = []
  services_array (some vs) = add_services [] vs

  abbrev pub services_of : Option lib.Value → Map String TargetService
  services_of none = []
  services_of (some services) = services_array (lib.elements services)

  unfoldable pub parse_target_services : lib.Value → ConfigManager lib → ConfigManager lib
  parse_target_services config m = record m {
    target_services = services_of (lib.find config "target_services");
  }

  unfoldable pub get_target_service : ConfigManager lib → String → ConfigResult TargetService
  get_target_service m name = elim (lookup name m.target_services) [
    | none ↦ failure (target_service_not_found name)
    | some service ↦ success service
  ]

  unfoldable pub get_all_target_services : ConfigManager lib → List TargetService
  get_all_target_services m = values m.target_services
