-- ===== src/Rbac/Defaults.antt =====
-- `initialize_default_permissions` and `initialize_default_services` (authorizer.cpp).
use zero_trust_secure_sessio.Common.{
  ◌≡◌, refl, true, false, List, [], ◌∷◌, arith, lookup, insert, string_eq,
}
use zero_trust_secure_sessio.Types.{Role, admin, operator, viewer, TargetService, role_eq}
use zero_trust_secure_sessio.Rbac.{
  Permission, user_create, user_read, user_update, user_delete, service_create, service_read,
  service_update, service_delete, session_create, session_read, session_delete, config_read,
  config_update, logs_read, logs_export, system_admin, AuthorizationManager, role_has_permission,
  set_role_hierarchy,
}

abbrev pub admin_permissions : List Permission
admin_permissions =
    user_create ∷ user_read ∷ user_update ∷ user_delete ∷ service_create ∷ service_read
    ∷ service_update ∷ service_delete ∷ session_create ∷ session_read ∷ session_delete ∷ config_read
    ∷ config_update ∷ logs_read ∷ logs_export ∷ system_admin ∷ []

abbrev pub operator_permissions : List Permission
operator_permissions =
    user_read ∷ service_read ∷ session_create ∷ session_read ∷ session_delete ∷ config_read
    ∷ logs_read ∷ []

abbrev pub viewer_permissions : List Permission
viewer_permissions = user_read ∷ service_read ∷ session_read ∷ config_read ∷ []

abbrev pub ssh_service : TargetService
ssh_service = record {
  name = "ssh";
  host = "internal-ssh-server";
  port = 22;
  allowed_roles = admin ∷ operator ∷ [];
  tls_enabled = false;
}

abbrev pub web_service : TargetService
web_service = record {
  name = "web-admin";
  host = "internal-web-server";
  port = 8080;
  allowed_roles = admin ∷ operator ∷ viewer ∷ [];
  tls_enabled = true;
}

abbrev pub db_service : TargetService
db_service = record {
  name = "database";
  host = "internal-db-server";
  port = 5432;
  allowed_roles = admin ∷ [];
  tls_enabled = true;
}

unfoldable pub initialize_default_permissions : AuthorizationManager → AuthorizationManager
initialize_default_permissions m = record m {
  role_permissions =
      insert viewer viewer_permissions
        (insert operator operator_permissions (insert admin admin_permissions m.role_permissions));
  role_hierarchy =
      (set_role_hierarchy (set_role_hierarchy (set_role_hierarchy m admin operator) admin viewer)
        operator viewer).role_hierarchy;
}

unfoldable pub initialize_default_services : AuthorizationManager → AuthorizationManager
initialize_default_services m = record m {
  services =
      insert "database" db_service
        (insert "web-admin" web_service (insert "ssh" ssh_service m.services));
}

unfoldable pub new_authorization_manager : AuthorizationManager
unfolding initialize_default_permissions initialize_default_services set_role_hierarchy
new_authorization_manager = initialize_default_services (
    initialize_default_permissions
      (record { services = []; role_permissions = []; role_hierarchy = [] }))

-- The tables that the constructor builds.
abbrev pub default_manager : AuthorizationManager
default_manager = record {
  services = ("ssh", ssh_service) ∷ ("web-admin", web_service) ∷ ("database", db_service) ∷ [];
  role_permissions =
      (admin, admin_permissions)
      ∷ (operator, operator_permissions)
      ∷ (viewer, viewer_permissions)
      ∷ [];
  role_hierarchy = (admin, operator ∷ viewer ∷ []) ∷ (operator, viewer ∷ []) ∷ [];
}

pub new_authorization_manager_lem : new_authorization_manager ≡ default_manager
unfolding new_authorization_manager insert lookup
new_authorization_manager_lem = refl

default_grants : (role : Role) (p : Permission) → role_has_permission default_manager role p ≡ true
unfolding role_has_permission lookup
default_grants admin p = ground arith
default_grants operator p = ground arith
default_grants viewer p = ground arith

-- With the default tables every role is granted every permission: the check of the hierarchy looks
-- at the permissions of the superiors.
pub role_has_permission-new_authorization_manager :
    (role : Role) (p : Permission) → role_has_permission new_authorization_manager role p ≡ true
role_has_permission-new_authorization_manager role p =
    rw new_authorization_manager_lem (default_grants role p)
