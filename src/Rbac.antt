-- ===== src/Rbac.antt =====
-- src/rbac/authorizer.cpp and include/zerossg/rbac/authorizer.ixx. Each method is a step of its own,
-- under its mutexes. A second lock in the thread that holds a mutex is a `deadlock`. The code that a
-- stray brace puts behind `initialize_default_permissions` is read as its rest.
pub mod Defaults
pub mod Superior
pub mod Sets
pub mod Permissions
pub mod Services
pub mod Tests
use zero_trust_secure_sessio.Common.{
  ℕ, zero, suc, Bool, true, false, ◌&&◌, ◌||◌, List, [], ◌∷◌, ◌++◌, String, Option, none, some, ltb,
  string_eq, nat_eq, Comparable, ◌==◌, ◌↔◌, ◌≡◌, arith, if◌then◌else◌, contains, Map, lookup,
  insert, erase, has_key, values, Run, done, deadlock, ◌>>=◌, lock_then,
}
use zero_trust_secure_sessio.Types.{
  Role, admin, operator, viewer, role_eq, User, TargetService, Error, service_not_found, Result, ok,
  err,
}

-- include/zerossg/constants.ixx.
pub data Permission : Type 0 where
  user_create user_read user_update user_delete : Permission
  service_create service_read service_update service_delete : Permission
  session_create session_read session_delete : Permission
  config_read config_update : Permission
  logs_read logs_export : Permission
  system_admin : Permission

-- The order of the enumeration, which the sets are sorted by.
abbrev pub rank : Permission → ℕ
rank user_create = 0
rank user_read = 1
rank user_update = 2
rank user_delete = 3
rank service_create = 4
rank service_read = 5
rank service_update = 6
rank service_delete = 7
rank session_create = 8
rank session_read = 9
rank session_delete = 10
rank config_read = 11
rank config_update = 12
rank logs_read = 13
rank logs_export = 14
rank system_admin = 15

abbrev pub role_rank : Role → ℕ
role_rank admin = 0
role_rank operator = 1
role_rank viewer = 2

-- `std::set` as a list in the order of a rank.
module _ {ℓ} {A : Type ℓ} (rank_of : A → ℕ) where
  abbrev pub set_insert : A → List A → List A
  set_insert a [] = a ∷ []
  set_insert a (x ∷ xs) =
      if rank_of x == rank_of a
      then x ∷ xs
      else if ltb (rank_of a) (rank_of x)
      then a ∷ x ∷ xs
      else x ∷ set_insert a xs

  abbrev pub set_erase : A → List A → List A
  set_erase a [] = []
  set_erase a (x ∷ xs) = if rank_of x == rank_of a then xs else x ∷ set_erase a xs

  abbrev pub set_contains : List A → A → Bool
  set_contains [] a = false
  set_contains (x ∷ xs) a = rank_of x == rank_of a || set_contains xs a

abbrev pub members {ℓ} : {A : Type ℓ} → Option (List A) → List A
members none = []
members (some xs) = xs

pub record AuthorizationManager : Type 0 where
  pub services : Map String TargetService
  pub role_permissions : Map Role (List Permission)
  pub role_hierarchy : Map Role (List Role)

-- The loop over the subordinates; `superior` is the recursive call.
unfoldable pub any_superior : (Role → Run Bool) → Role → List Role → Run Bool
any_superior superior b [] = done false
any_superior superior b (s ∷ rest) =
    if s == b
    then done true
    else superior s >>= λ found. if found then done true else any_superior superior b rest

-- `depth` bounds the recursion, which is `deadlock` beyond it; `held` says whether the hierarchy
-- mutex is held by the caller. Only the outermost call finds it free.
unfoldable pub superior_at : ℕ → Bool → AuthorizationManager → Role → Role → Run Bool
unfolding any_superior
superior_at zero held m a b = deadlock
superior_at (suc depth) held m a b =
    let inner = λ (s : Role). superior_at depth true m s b in
    lock_then held (
      if a == b then done true else elim (lookup a m.role_hierarchy) [
        | none ↦ done false
        | some subordinates ↦ any_superior inner b subordinates
      ])

unfoldable pub is_role_superior : AuthorizationManager → Role → Role → Run Bool
unfolding superior_at
is_role_superior m a b = superior_at 2 false m a b

unfoldable pub any_allowed : (Role → Run Bool) → List Role → Run Bool
any_allowed superior [] = done false
any_allowed superior (r ∷ rest) =
    superior r >>= λ found. if found then done true else any_allowed superior rest

unfoldable pub can_role_access_service : AuthorizationManager → Role → TargetService → Run Bool
unfolding any_allowed
can_role_access_service m role service =
    if contains service.allowed_roles role
    then done true
    else any_allowed (is_role_superior m role) service.allowed_roles

unfoldable pub can_access_service : AuthorizationManager → User → String → Run (Result Bool)
can_access_service m user name = elim (lookup name m.services) [
  | none ↦ done (err (service_not_found name))
  | some service ↦ can_role_access_service m user.role service >>= λ b. done (ok b)
]

allowed_among : AuthorizationManager → Role → Map String TargetService → Run (List String)
allowed_among m role [] = done []
allowed_among m role ((key, service) ∷ rest) = can_role_access_service m role service >>= λ b.
    allowed_among m role rest >>= λ names. done (if b then service.name ∷ names else names)

unfoldable pub get_allowed_services : AuthorizationManager → User → Run (Result (List String))
unfolding allowed_among
get_allowed_services m user = allowed_among m user.role m.services >>= λ names. done (ok names)

-- The loop of `role_has_permission` over the hierarchy.
unfoldable pub inherits :
    Map Role (List Permission) → Role → Permission → Map Role (List Role) → Bool
inherits permissions role p [] = false
inherits permissions role p ((superior, subordinates) ∷ rest) =
    (set_contains role_rank subordinates role
      && set_contains rank (members (lookup superior permissions)) p)
    || inherits permissions role p rest

unfoldable pub role_has_permission : AuthorizationManager → Role → Permission → Bool
unfolding inherits
role_has_permission m role p = elim (lookup role m.role_permissions) [
  | none ↦ false
  | some own ↦
      if set_contains rank own p then true else inherits m.role_permissions role p m.role_hierarchy
]

unfoldable pub has_permission : AuthorizationManager → User → Permission → Result Bool
unfolding role_has_permission
has_permission m user p = ok (role_has_permission m user.role p)

unfoldable pub add_service : AuthorizationManager → TargetService → AuthorizationManager
add_service m service = record m { services = insert service.name service m.services }

unfoldable pub update_service :
    AuthorizationManager → String → TargetService → AuthorizationManager × Result (Unit {0})
update_service m name service =
    if has_key name m.services
    then (record m { services = insert name service m.services }, ok tt)
    else (m, err (service_not_found name))

unfoldable pub remove_service :
    AuthorizationManager → String → AuthorizationManager × Result (Unit {0})
remove_service m name =
    if has_key name m.services
    then (record m { services = erase name m.services }, ok tt)
    else (m, err (service_not_found name))

unfoldable pub get_service : AuthorizationManager → String → Option TargetService
get_service m name = lookup name m.services

abbrev pub list_services : AuthorizationManager → List TargetService
list_services m = values m.services

unfoldable pub add_permission_to_role :
    AuthorizationManager → Role → Permission → AuthorizationManager
add_permission_to_role m role p = record m {
  role_permissions =
      insert role (set_insert rank p (members (lookup role m.role_permissions))) m.role_permissions;
}

unfoldable pub remove_permission_from_role :
    AuthorizationManager → Role → Permission → AuthorizationManager
remove_permission_from_role m role p = elim (lookup role m.role_permissions) [
  | none ↦ m
  | some own ↦ record m { role_permissions = insert role (set_erase rank p own) m.role_permissions }
]

unfoldable pub get_role_permissions : AuthorizationManager → Role → List Permission
get_role_permissions m role = members (lookup role m.role_permissions)

unfoldable pub set_role_hierarchy : AuthorizationManager → Role → Role → AuthorizationManager
set_role_hierarchy m superior subordinate = record m {
  role_hierarchy =
      insert superior
        (set_insert role_rank subordinate (members (lookup superior m.role_hierarchy)))
        m.role_hierarchy;
}

unfoldable pub collect_inferior : (Role → Run (List Role)) → List Role → Run (List Role)
collect_inferior inferior [] = done []
collect_inferior inferior (s ∷ rest) = inferior s >>= λ below.
    collect_inferior inferior rest >>= λ others. done (s ∷ (below ++ others))

unfoldable pub inferior_at : ℕ → Bool → AuthorizationManager → Role → Run (List Role)
unfolding collect_inferior
inferior_at zero held m role = deadlock
inferior_at (suc depth) held m role =
    let inner = λ (s : Role). inferior_at depth true m s in
    lock_then held (collect_inferior inner (members (lookup role m.role_hierarchy)))

unfoldable pub get_inferior_roles : AuthorizationManager → Role → Run (List Role)
unfolding inferior_at
get_inferior_roles m role = inferior_at 2 false m role
