-- ===== src/Config/SavedServices.antt =====
-- The target services that `save_config` of config_manager.cpp writes are read back.
use mathlib.Core.List.{append-nil, append_assoc}
use zero_trust_secure_sessio.Common.{
  ◌≤◌, ◌≡◌, refl, sym, ap, subst, ◌∙◌, ◌≢◌, false, List, [], ◌∷◌, ◌++◌, String, none, arith, nat_eq,
  string_eq, ◌==◌, Map, lookup, insert, IsUnique, All, eq_refl, Bool-cases, inl, inr,
}
use zero_trust_secure_sessio.Types.{Role, TargetService, role_to_string}
use zero_trust_secure_sessio.Types.Roles.{string_to_role-role_to_string}
use zero_trust_secure_sessio.Config.{pos, Json, success}
use zero_trust_secure_sessio.Config.Laws.{JsonLaws}
use zero_trust_secure_sessio.Config.Services.{
  parse_target_service, complete_service, add_services, add_parsed, texts_of, roles_among, port_of,
}
use zero_trust_secure_sessio.Config.Saving.{service_fields, service_json, services_json, roles_json}

roles_back :
    (lib : Json) (laws : JsonLaws lib) (rs : List Role)
    → roles_among (texts_of lib (roles_json lib rs)) ≡ rs
unfolding roles_among texts_of
roles_back lib laws [] = refl
roles_back lib laws (r ∷ rs) =
    rw
      (
        laws.text_of-of_text (role_to_string r),
        roles_among,
        string_to_role-role_to_string r,
        roles_back lib laws rs,
      )
      refl

pub service_back :
    (lib : Json) (laws : JsonLaws lib) (s : TargetService)
    → s.host ≢ ""
    → 1 ≤ s.port
    → s.port ≤ 65535
    → parse_target_service lib (service_json lib s) ≡ success s
unfolding lookup parse_target_service complete_service
service_back lib laws s named low high =
    let port : port_of (pos s.port) ≡ s.port = ground arith in
    let used : (s.port == 0) ≡ false = ground (arith, nat_eq.equal_iff s.port 0) in
    let hosted : (s.host == "") ≡ false = ground (arith, string_eq.equal_iff s.host "") in
    rw
      (
        laws.text_found (service_fields lib s) "name" s.name "" refl,
        laws.text_found (service_fields lib s) "host" s.host "" refl,
        laws.bool_found (service_fields lib s) "tls_enabled" s.tls_enabled false refl,
        laws.int_found (service_fields lib s) "port" (pos s.port) (pos 0) refl,
        laws.find-object (service_fields lib s) "allowed_roles",
        laws.elements-array (roles_json lib s.allowed_roles),
        roles_back lib laws s.allowed_roles,
        port,
        used,
        hosted,
      )
      refl

-- Each service is kept under its own name, and can be reached.
abbrev pub IsListed : String × TargetService → Type 0
IsListed (key, s) = (s.name ≡ key) × (s.host ≢ "") × (1 ≤ s.port) × (s.port ≤ 65535)

module _ {V : Type 0} where
  lookup_present :
      (front : Map String V) (key : String) (v : V) (rest : Map String V)
      → lookup key (front ++ (key, v) ∷ rest) ≢ none
  unfolding lookup
  lookup_present [] key v rest h = ground (arith, h, eq_refl key)
  lookup_present ((i, w) ∷ front) key v rest h = lookup_present front key v rest (ground (arith, h))

  unique_absent :
      (front : Map String V) (key : String) (v : V) (rest : Map String V)
      → IsUnique (front ++ (key, v) ∷ rest)
      → lookup key front ≡ none
  unfolding lookup
  unique_absent [] key v rest u = refl
  unique_absent ((i, w) ∷ front) key v rest (absent, u) = elim (Bool-cases (i == key)) [
    | inl e ↦ absurd (
        lookup_present front key v rest (
          subst (λ k. lookup k (front ++ (key, v) ∷ rest) ≡ none) ((string_eq.equal_iff i key).0 e)
            absent))
    | inr e ↦ rw (e, lookup) (unique_absent front key v rest u)
  ]

  insert_absent :
      (key : String) (v : V) (m : Map String V)
      → lookup key m ≡ none
      → insert key v m ≡ m ++ (key, v) ∷ []
  unfolding lookup insert
  insert_absent key v [] h = refl
  insert_absent key v ((i, w) ∷ m) h = elim (Bool-cases (i == key)) [
    | inl e ↦ absurd (ground (arith, h, e))
    | inr e ↦ rw (e, insert, insert_absent key v m (ground (arith, h, e))) refl
  ]

pub services_back :
    (lib : Json) (laws : JsonLaws lib) (front services : Map String TargetService)
    → IsUnique (front ++ services)
    → All IsListed services
    → add_services lib front (services_json lib services) ≡ front ++ services
unfolding add_services
services_back lib laws front [] u h = sym (append-nil front)
services_back lib laws front ((key, s) ∷ rest) u ((named, hosted, low, high), h) =
    let moved : (front ++ (key, s) ∷ []) ++ rest ≡ front ++ (key, s) ∷ rest =
      append_assoc front ((key, s) ∷ []) rest in
    let added : insert s.name s front ≡ front ++ (key, s) ∷ [] =
      ap (λ k. insert k s front) named
      ∙ insert_absent key s front (unique_absent front key s rest u) in
    ap (λ r. add_services lib (add_parsed lib r front) (services_json lib rest))
      (service_back lib laws s hosted low high)
    ∙ ap (λ f. add_services lib f (services_json lib rest)) added
    ∙ services_back lib laws (front ++ (key, s) ∷ []) rest (subst IsUnique (sym moved) u) h
    ∙ moved
