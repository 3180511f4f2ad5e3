-- ===== src/Config/Loading.antt =====
-- What a manager holds once `load_config` of config_manager.cpp has answered with success.
use zero_trust_secure_sessio.Common.{
  ◌≤◌, ◌≡◌, refl, sym, subst, inl, inr, false, ◌||◌, List, [], ◌∷◌, String, Option, none, some,
  arith, nat_eq, string_eq, ◌==◌, Map, insert, IsUnique, All, Bool-cases, insert-IsUnique,
}
use zero_trust_secure_sessio.Types.{TargetService}
use zero_trust_secure_sessio.Config.{
  ℤ, pos, negsuc, Json, ConfigManager, ConfigResult, success, failure, Parsed, parsed, thrown,
}
use zero_trust_secure_sessio.Config.Parsing.{parse_sections}
use zero_trust_secure_sessio.Config.Services.{
  parse_target_services, parse_target_service, complete_service, add_services, add_parsed,
  or_failed, port_of, services_array, services_of,
}
use zero_trust_secure_sessio.Config.Bounds.{IsConfigured}
use zero_trust_secure_sessio.Config.Files.{Disk, Platform, load_config, parse_config}
use zero_trust_secure_sessio.Config.Answers.{Complete, Sound, load_config-Sound}
use zero_trust_secure_sessio.Config.SavedServices.{IsListed}
use zero_trust_secure_sessio.Config.RoundTrip.{IsStored}

abbrev pub IsTable : Map String TargetService → Type 0
IsTable m = IsUnique m × All IsListed m

insert-IsListed :
    (s : TargetService) (m : Map String TargetService)
    → IsListed (s.name, s)
    → All IsListed m
    → All IsListed (insert s.name s m)
unfolding insert
insert-IsListed s [] l h = (l, tt)
insert-IsListed s ((i, t) ∷ m) l (k, h) = elim (Bool-cases (i == s.name)) [
  | inl e ↦ rw (e, insert) ((sym ((string_eq.equal_iff i s.name).0 e), l.1, l.2, l.3), h)
  | inr e ↦ rw (e, insert) (k, insert-IsListed s m l h)
]

-- A service that was parsed is one that the table may hold.
abbrev IsParsed : ConfigResult TargetService → Type 0
IsParsed (success s) = IsListed (s.name, s)
IsParsed (failure e) = Unit

complete_service-IsParsed : (s : TargetService) → s.port ≤ 65535 → IsParsed (complete_service s)
unfolding complete_service
complete_service-IsParsed s b = elim (Bool-cases (s.host == "" || s.port == 0)) [
  | inl e ↦ rw (e, complete_service) tt
  | inr e ↦
      rw (e, complete_service)
        (
          refl,
          λ h. ground (arith, string_eq.equal_iff s.host ""),
          ground (arith, nat_eq.equal_iff s.port 0),
          b,
        )
]

or_failed-IsParsed :
    {A : Type 0} (o : Option A) (f : A → ConfigResult TargetService)
    → ((a : A) → IsParsed (f a))
    → IsParsed (or_failed o f)
or_failed-IsParsed none f h = tt
or_failed-IsParsed (some a) f h = h a

port_of_bound : (i : ℤ) → port_of i ≤ 65535
port_of_bound (pos n) = ground arith
port_of_bound (negsuc n) = omega arith

module _ (lib : Json) (p : Platform) where
  parse_target_service-IsParsed : (v : lib.Value) → IsParsed (parse_target_service lib v)
  unfolding parse_target_service
  parse_target_service-IsParsed v = or_failed-IsParsed (lib.value_text v "name" "") _ (λ name.
      or_failed-IsParsed (lib.value_text v "host" "") _ (λ host.
        or_failed-IsParsed (lib.value_bool v "tls_enabled" false) _ (λ tls.
          or_failed-IsParsed (lib.value_int v "port" (pos 0)) _
            (λ port. complete_service-IsParsed _ (port_of_bound port)))))

  add_parsed-IsTable :
      (r : ConfigResult TargetService) (m : Map String TargetService)
      → IsParsed r
      → IsTable m
      → IsTable (add_parsed lib r m)
  add_parsed-IsTable (failure e) m l k = k
  add_parsed-IsTable (success s) m l (u, h) =
      (insert-IsUnique s.name s m u, insert-IsListed s m l h)

  add_services-IsTable :
      (vs : List lib.Value) (m : Map String TargetService)
      → IsTable m
      → IsTable (add_services lib m vs)
  unfolding add_services
  add_services-IsTable [] m k = k
  add_services-IsTable (v ∷ vs) m k =
      add_services-IsTable vs (add_parsed lib (parse_target_service lib v) m)
        (add_parsed-IsTable (parse_target_service lib v) m (parse_target_service-IsParsed v) k)

  services_array-IsTable : (o : Option (List lib.Value)) → IsTable (services_array lib o)
  services_array-IsTable none = (tt, tt)
  services_array-IsTable (some vs) = add_services-IsTable vs [] (tt, tt)

  services_of-IsTable : (o : Option lib.Value) → IsTable (services_of lib o)
  services_of-IsTable none = (tt, tt)
  services_of-IsTable (some v) = services_array-IsTable (lib.elements v)

  parse_config-Complete :
      (v : lib.Value) (m : ConfigManager lib)
      → Complete (λ m'. IsTable m'.target_services) (parse_config lib p v m)
  unfolding parse_config parse_target_services
  parse_config-Complete v m = sections (parse_sections lib v m)
    where
      sections :
          (r : Parsed (ConfigManager lib))
          → Complete
              (λ m'. IsTable m'.target_services)
              (elim r [
                | thrown m' ↦ thrown m'
                | parsed m' ↦ parsed (parse_target_services lib v m')
              ])
      sections (parsed m') = services_of-IsTable (lib.find v "target_services")
      sections (thrown m') = tt

-- When `load_config` answers with success, whatever the file and the state before, the manager's
-- configuration is within all the bounds, its ports have 16 bits, and each of its target services
-- is kept once, under its own name, with a host and a port that is not 0.
pub load_config_sound :
    (lib : Json) (p : Platform) (disk : Disk) (m m' : ConfigManager lib) (file : String)
    → load_config lib p disk m file ≡ (m', success tt)
    → IsConfigured m' × IsStored m'
load_config_sound lib p disk m m' file h =
    let (k, (u, l)) = subst (Sound (λ m'. IsTable m'.target_services)) h (
      load_config-Sound lib p m (λ m'. IsTable m'.target_services)
        (λ v. parse_config-Complete lib p v (record m { config_json = v })) disk file) in
    (k, record { listen_port = k.server.2; database_port = k.database.2; unique = u; listed = l })
