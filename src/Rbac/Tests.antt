-- ===== src/Rbac/Tests.antt =====
-- The theorems about authorizer.cpp at concrete inputs.
use zero_trust_secure_sessio.Common.{
  done, deadlock, ◌≡◌, refl, ◌↔◌, true, false, [], arith, string_eq, nat_eq, lookup, contains,
}
use zero_trust_secure_sessio.Types.{Role, admin, operator, viewer, role_eq, new_user, ok}
use zero_trust_secure_sessio.Rbac.{is_role_superior, can_role_access_service, can_access_service}
use zero_trust_secure_sessio.Rbac.Defaults.{default_manager, ssh_service, db_service}
use zero_trust_secure_sessio.Rbac.Superior.{
  is_role_superior_correct, Superior, can_role_access_service_sound,
  can_role_access_service_deadlock,
}

is_role_superior_correct_example : (true ≡ true) ↔ Superior default_manager operator admin
unfolding is_role_superior lookup
is_role_superior_correct_example = is_role_superior_correct default_manager admin operator true refl

can_role_access_service_sound_example :
    (r : Role) × (contains ssh_service.allowed_roles r ≡ true) × Superior default_manager r operator
unfolding can_role_access_service is_role_superior lookup
can_role_access_service_sound_example =
    can_role_access_service_sound default_manager operator ssh_service refl

can_role_access_service_deadlock_example :
    can_role_access_service default_manager operator db_service ≡ deadlock
unfolding lookup
can_role_access_service_deadlock_example =
    can_role_access_service_deadlock default_manager operator viewer admin [] [] db_service refl
      refl refl (λ same. absurd (ground (arith, same)))

-- An operator who asks for the database, which only admins may use, waits forever.
can_access_database :
    can_access_service default_manager (new_user "kim" "" operator 0) "database" ≡ deadlock
unfolding can_access_service can_role_access_service is_role_superior lookup
can_access_database = refl

-- A viewer is refused.
can_access_database_as_viewer :
    can_access_service default_manager (new_user "lee" "" viewer 0) "database" ≡ done (ok false)
unfolding can_access_service can_role_access_service is_role_superior lookup
can_access_database_as_viewer = refl
