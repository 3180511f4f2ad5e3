-- ===== src/Rbac/Services.antt =====
-- The table of services (authorizer.cpp).
use mathlib.Core.Option
use zero_trust_secure_sessio.Common.{
  done, ◌≡◌, ap, true, String, none, some, arith, string_eq, ◌==◌, if◌then◌else◌, lookup,
  lookup-insert, lookup-erase, lookup-erase_self, is_some, inl, inr, Option-cases,
}
use zero_trust_secure_sessio.Types.{TargetService, User, ok, err, service_not_found}
use zero_trust_secure_sessio.Rbac.{
  AuthorizationManager, add_service, update_service, remove_service, get_service,
  can_access_service,
}

-- What `get_service` finds after each change of the table: a service that is added or updated is
-- found under its key, a removed one is not, and all others stay. Updating and removing fail
-- exactly for a name that is not in the table, and an update that fails changes nothing.
pub get_service_after :
    (m : AuthorizationManager) (service : TargetService) (name j : String)
    → (get_service (add_service m service) j
        ≡ (if service.name == j then some service else get_service m j))
      × (get_service (update_service m name service).0 j
          ≡ (if name == j then Option.map (λ old. service) (get_service m j) else get_service m j))
      × (get_service (remove_service m name).0 j ≡ (if name == j then none else get_service m j))
      × ((update_service m name service).1
          ≡ (if is_some (get_service m name) then ok tt else err (service_not_found name)))
      × ((remove_service m name).1
          ≡ (if is_some (get_service m name) then ok tt else err (service_not_found name)))
unfolding get_service add_service update_service remove_service
get_service_after m service name j =
    let at : (name == j) ≡ true → lookup name m.services ≡ lookup j m.services =
      λ same. ap (λ (k : String). lookup k m.services) ((string_eq.equal_iff name j).0 same) in
    elim (Option-cases (lookup name m.services)) [
      | inl e ↦ (
        lookup-insert service.name j service m.services,
        ground (arith, at),
        ground (arith, at),
        ground arith,
        ground arith,
      )
      | inr (old, e) ↦ (
        lookup-insert service.name j service m.services,
        ground (arith, at, lookup-insert name j service m.services),
        ground (arith, lookup-erase name j m.services),
        ground arith,
        ground arith,
      )
    ]

-- A service that is not in the table is reported missing whatever the user's role, and a removed
-- one is so from then on.
pub can_access_service-remove_service :
    (m : AuthorizationManager) (user : User) (name : String)
    → can_access_service (remove_service m name).0 user name ≡ done (err (service_not_found name))
unfolding can_access_service remove_service
can_access_service-remove_service m user name = elim (Option-cases (lookup name m.services)) [
  | inl e ↦ rw (e, remove_service) (rw (e, can_access_service))
  | inr (old, e) ↦
      rw (e, remove_service) (rw (lookup-erase_self name m.services, can_access_service))
]
