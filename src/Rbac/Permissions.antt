-- ===== src/Rbac/Permissions.antt =====
-- The permissions of the roles (authorizer.cpp).
use zero_trust_secure_sessio.Common.{
  ◌≡◌, refl, sym, ◌∙◌, ◌⊎◌, inl, inr, ◌↔◌, ap, Bool, true, false, not, ◌&&◌, ◌||◌, List, [], ◌∷◌,
  Option, none, some, arith, nat_eq, ◌==◌, if◌then◌else◌, Map, lookup, insert, lookup-insert,
  IsUnique, has_key, Bool-cases, Option-cases,
}
use zero_trust_secure_sessio.Types.{Role, role_eq, role_beq_iff}
use zero_trust_secure_sessio.Rbac.{
  Permission, rank, role_rank, set_insert, set_erase, set_contains, members, AuthorizationManager,
  inherits, role_has_permission, add_permission_to_role, remove_permission_from_role,
  get_role_permissions,
}
use zero_trust_secure_sessio.Rbac.Sets.{
  IsSorted, contains-set_insert, contains-set_erase, set_insert-IsSorted, set_erase-IsSorted,
}

-- What the loop over the hierarchy looks for.
abbrev pub GrantedAbove : AuthorizationManager → Role → Permission → Type 0
GrantedAbove m role p =
    (superior : Role) × (set_contains role_rank (members (lookup superior m.role_hierarchy)) role
      ≡ true)
    × (set_contains rank (members (lookup superior m.role_permissions)) p ≡ true)

inherits_of_lookup :
    (permissions : Map Role (List Permission)) (h : Map Role (List Role)) (role superior : Role)
    (p : Permission)
    → set_contains role_rank (members (lookup superior h)) role ≡ true
    → set_contains rank (members (lookup superior permissions)) p ≡ true
    → inherits permissions role p h ≡ true
unfolding inherits lookup
inherits_of_lookup permissions [] role superior p a b = ground arith
inherits_of_lookup permissions ((s, subs) ∷ h) role superior p a b = ground (
  arith,
  inherits_of_lookup permissions h role superior p,
  role_beq_iff s superior,
  ap (λ (r : Role). members (lookup r permissions)) {x = s} {y = superior},
)

lookup_of_inherits :
    (permissions : Map Role (List Permission)) (h : Map Role (List Role)) (role : Role)
    (p : Permission)
    → IsUnique h
    → inherits permissions role p h ≡ true
    → (superior : Role) × (set_contains role_rank (members (lookup superior h)) role ≡ true)
      × (set_contains rank (members (lookup superior permissions)) p ≡ true)
unfolding inherits lookup
lookup_of_inherits permissions [] role p u i = absurd (ground arith)
lookup_of_inherits permissions ((s, subs) ∷ h) role p (fresh, u) i =
    elim (Bool-cases
      (set_contains role_rank subs role && set_contains rank (members (lookup s permissions)) p)) [
        | inl here ↦ (s, ground (arith, role_beq_iff s s), ground arith)
        | inr later ↦
            let (sup, a, b) = lookup_of_inherits permissions h role p u (rw later at i) in
            (
              sup,
              ground (arith, role_beq_iff s sup, ap (λ (r : Role). lookup r h) {x = s} {y = sup}),
              b,
            )
      ]

-- A role that has a permission set is granted a permission exactly if the permission is in that
-- set, or in the set of a role that the hierarchy lists it under: permissions flow from a superior
-- down to its subordinates. A role without a set is granted nothing.
pub role_has_permission_iff :
    (m : AuthorizationManager) (role : Role) (p : Permission)
    → IsUnique m.role_hierarchy
    → (role_has_permission m role p ≡ true) ↔ (
        (has_key role m.role_permissions ≡ true)
        × ((set_contains rank (get_role_permissions m role) p ≡ true) ⊎ GrantedAbove m role p))
unfolding role_has_permission get_role_permissions
role_has_permission_iff m role p u = elim (Option-cases (lookup role m.role_permissions)) [
  | inl e ↦ ground arith
  | inr (own, e) ↦ (
    λ h. (
      ground arith,
      elim (Bool-cases (set_contains rank own p)) [
        | inl mine ↦ inl (ground arith)
        | inr other ↦
            inr (lookup_of_inherits m.role_permissions m.role_hierarchy role p u (ground arith))
      ],
    ),
    λ (_, g). elim g [
      | inl mine ↦ ground arith
      | inr (superior, a, b) ↦
          ground (arith, inherits_of_lookup m.role_permissions m.role_hierarchy role superior p a b)
    ],
  )
]

members_if :
    {A : Type 0} (xs : List A) (o : Option (List A)) (b : Bool)
    → members (if b then some xs else o) ≡ (if b then xs else members o)
members_if xs o true = refl
members_if xs o false = refl

permissions_added :
    (m : AuthorizationManager) (role role' : Role) (p : Permission)
    → get_role_permissions (add_permission_to_role m role p) role' ≡ (
        if role == role'
        then set_insert rank p (get_role_permissions m role)
        else get_role_permissions m role')
unfolding get_role_permissions add_permission_to_role
permissions_added m role role' p =
    let own = set_insert rank p (members (lookup role m.role_permissions)) in
    rw (lookup-insert role role' own m.role_permissions)
      (members_if own (lookup role' m.role_permissions) (role == role'))

remove_missing :
    (m : AuthorizationManager) (role : Role) (p : Permission)
    → lookup role m.role_permissions ≡ none
    → remove_permission_from_role m role p ≡ m
unfolding remove_permission_from_role
remove_missing m role p e = rw (e, remove_permission_from_role)

remove_present :
    (m : AuthorizationManager) (role role' : Role) (p : Permission) (own : List Permission)
    → lookup role m.role_permissions ≡ some own
    → get_role_permissions (remove_permission_from_role m role p) role'
      ≡ members (lookup role' (insert role (set_erase rank p own) m.role_permissions))
unfolding get_role_permissions remove_permission_from_role
remove_present m role role' p own e = rw (e, remove_permission_from_role)

permissions_removed :
    (m : AuthorizationManager) (role role' : Role) (p : Permission)
    → get_role_permissions (remove_permission_from_role m role p) role' ≡ (
        if role == role'
        then set_erase rank p (get_role_permissions m role)
        else get_role_permissions m role')
unfolding get_role_permissions remove_permission_from_role
permissions_removed m role role' p = elim (Option-cases (lookup role m.role_permissions)) [
  | inl e ↦
      rw (remove_missing m role p e, e)
        (elim (Bool-cases (role == role')) [
          | inl same ↦ rw same (rw (sym ((role_beq_iff role role').0 same), e))
          | inr other ↦ rw other
        ])
  | inr (own, e) ↦
      rw
        (
          remove_present m role role' p own e,
          e,
          lookup-insert role role' (set_erase rank p own) m.role_permissions,
        )
        (members_if (set_erase rank p own) (lookup role' m.role_permissions) (role == role'))
]

contains_after :
    (b : Bool) (p p' : Permission) (own other : List Permission)
    → IsSorted rank own
    → (b ≡ true → own ≡ other)
    → (set_contains rank (if b then set_insert rank p own else other) p'
        ≡ ((b && rank p == rank p') || set_contains rank other p'))
      × (set_contains rank (if b then set_erase rank p own else other) p'
          ≡ (not (b && rank p == rank p') && set_contains rank other p'))
contains_after true p p' own other s h = (
  contains-set_insert rank p p' own
      ∙ ap (λ o. rank p == rank p' || set_contains rank o p') (h refl),
  contains-set_erase rank p p' own s
      ∙ ap (λ o. not (rank p == rank p') && set_contains rank o p') (h refl),
)
contains_after false p p' own other s h = (refl, refl)

-- For a role whose permissions are in order, each once: adding a permission grants that one to
-- that role and changes nothing else; removing it takes it away from that role and changes
-- nothing else; and the permissions of the role stay in order, each once.
pub get_role_permissions_after :
    (m : AuthorizationManager) (role role' : Role) (p p' : Permission)
    → IsSorted rank (get_role_permissions m role)
    → (set_contains rank (get_role_permissions (add_permission_to_role m role p) role') p' ≡ (
        (role == role' && rank p == rank p')
        || set_contains rank (get_role_permissions m role') p'))
      × (set_contains rank (get_role_permissions (remove_permission_from_role m role p) role') p'
          ≡ (not (role == role' && rank p == rank p')
              && set_contains rank (get_role_permissions m role') p'))
      × IsSorted rank (get_role_permissions (add_permission_to_role m role p) role)
      × IsSorted rank (get_role_permissions (remove_permission_from_role m role p) role)
get_role_permissions_after m role role' p p' s =
    let after =
      contains_after (role == role') p p' (get_role_permissions m role)
        (get_role_permissions m role') s
        (λ same. ap (λ r. get_role_permissions m r) ((role_beq_iff role role').0 same)) in
    (
      rw (permissions_added m role role' p) after.0,
      rw (permissions_removed m role role' p) after.1,
      rw (permissions_added m role role p, (role_beq_iff role role).1 refl)
          (set_insert-IsSorted rank p (get_role_permissions m role) s),
      rw (permissions_removed m role role p, (role_beq_iff role role).1 refl)
          (set_erase-IsSorted rank p (get_role_permissions m role) s),
    )
