-- ===== src/Rbac/Superior.antt =====
-- `is_role_superior`, `can_role_access_service` and `get_inferior_roles` (authorizer.cpp). A second
-- lock of a `std::mutex` by its own thread is a deadlock here; tests/test_authorization.cpp expects
-- an answer of the operator's access to "database", where the code locks twice.
use zero_trust_secure_sessio.Common.{
  Run, done, deadlock, Run-cases, ℕ, suc, ◌≡◌, refl, sym, ap, ◌∙◌, ◌≢◌, inl, inr, ◌↔◌, Bool, true,
  false, List, [], ◌∷◌, some, arith, nat_eq, ◌==◌, if◌then◌else◌, contains, lookup, Bool-cases,
  Option-cases,
}
use zero_trust_secure_sessio.Types.{Role, role_eq, role_beq_iff, TargetService}
use zero_trust_secure_sessio.Rbac.{
  AuthorizationManager, members, role_rank, set_contains, any_superior, superior_at,
  is_role_superior, any_allowed, can_role_access_service, get_inferior_roles, inferior_at,
  collect_inferior,
}

-- What the loop comes to when every recursive call finds the mutex held: only the first
-- subordinate is compared.
abbrev pub first_subordinate : Role → List Role → Run Bool
first_subordinate b [] = done false
first_subordinate b (s ∷ rest) = if s == b then done true else deadlock

any_superior_lem :
    (superior : Role → Run Bool) (b : Role) (rs : List Role)
    → ((s : Role) → superior s ≡ deadlock)
    → any_superior superior b rs ≡ first_subordinate b rs
unfolding any_superior
any_superior_lem superior b [] h = refl
any_superior_lem superior b (s ∷ rest) h = ground (arith, h s)

superior_at_lem :
    (m : AuthorizationManager) (a b : Role) (depth : ℕ)
    → superior_at (suc (suc depth)) false m a b
      ≡ (if a == b then done true else first_subordinate b (members (lookup a m.role_hierarchy)))
unfolding superior_at
superior_at_lem m a b depth = elim (Option-cases (lookup a m.role_hierarchy)) [
  | inl e ↦ rw (e, superior_at) refl
  | inr (subs, e) ↦
      rw (e, superior_at)
        (rw (any_superior_lem (λ s. superior_at (suc depth) true m s b) b subs (λ s. refl)))
]

-- At every depth from two on, `is_role_superior` answers for equal roles, for a role without
-- subordinates, and where the first subordinate is the role that is asked for. In every other case
-- it locks its mutex again and does not return.
pub is_role_superior_lem :
    (m : AuthorizationManager) (a b : Role) (depth : ℕ)
    → (is_role_superior m a b
        ≡ (if a == b then done true else first_subordinate b (members (lookup a m.role_hierarchy))))
      × (is_role_superior m a b ≡ superior_at (suc (suc depth)) false m a b)
unfolding is_role_superior
is_role_superior_lem m a b depth =
    (superior_at_lem m a b 0, superior_at_lem m a b 0 ∙ sym (superior_at_lem m a b depth))

-- The roles below a role in the hierarchy, itself included.
pub data Superior (m : AuthorizationManager) (b : Role) : Role → Type 0 where
  same : {a : Role} → a ≡ b → Superior m b a
  below :
      {a : Role} (s : Role)
      → set_contains role_rank (members (lookup a m.role_hierarchy)) s ≡ true
      → Superior m b s
      → Superior m b a

first_member :
    (b : Role) (subs : List Role)
    → first_subordinate b subs ≡ done true
    → set_contains role_rank subs b ≡ true
first_member b [] h = absurd (ground arith)
first_member b (s ∷ rest) h = ground (arith, role_beq_iff s b)

Superior-without :
    (m : AuthorizationManager) (b : Role) {a : Role}
    → members (lookup a m.role_hierarchy) ≡ []
    → Superior m b a
    → a ≡ b
Superior-without m b e (same h) = h
Superior-without m b e (below s h r) = absurd (no_member s (rw e at h))
  where
    no_member : (s : Role) → set_contains role_rank [] s ≡ true → ⊥
    no_member s h = ground arith

-- Whenever `is_role_superior` returns, its answer is right: true exactly if the first role reaches
-- the second through the hierarchy.
pub is_role_superior_correct :
    (m : AuthorizationManager) (a b : Role) (r : Bool)
    → is_role_superior m a b ≡ done r
    → (r ≡ true) ↔ Superior m b a
is_role_superior_correct m a b r h = elim (Bool-cases (a == b)) [
  | inl equal ↦ (
    λ _. same ((role_beq_iff a b).0 equal),
    λ _. ground (arith, (is_role_superior_lem m a b 0).0),
  )
  | inr different ↦
      answer (members (lookup a m.role_hierarchy)) refl different
        (ground (arith, (is_role_superior_lem m a b 0).0))
]
  where
    answer :
        (subs : List Role)
        → members (lookup a m.role_hierarchy) ≡ subs
        → (a == b) ≡ false
        → first_subordinate b subs ≡ done r
        → (r ≡ true) ↔ Superior m b a
    answer [] e ne f = (
      λ t. absurd (ground arith),
      λ sup. absurd (ground (arith, Superior-without m b e sup, role_beq_iff a b)),
    )
    answer (s ∷ rest) e ne f = (
      λ t. below b (rw e (first_member b (s ∷ rest) (f ∙ ap done t))) (same refl),
      λ sup. ground arith,
    )

any_allowed_sound :
    (m : AuthorizationManager) (role : Role) (rs : List Role)
    → any_allowed (is_role_superior m role) rs ≡ done true
    → (r : Role) × (contains rs r ≡ true) × Superior m r role
unfolding any_allowed
any_allowed_sound m role [] h = absurd (ground arith)
any_allowed_sound m role (r ∷ rs) h = elim (Run-cases (is_role_superior m role r)) [
  | inl (found, e) ↦ elim (Bool-cases found) [
    | inl t ↦ (r, ground (arith, role_beq_iff r r), (is_role_superior_correct m role r found e).0 t)
    | inr f ↦
        let (r', member, sup) = any_allowed_sound m role rs (ground arith) in
        (r', ground arith, sup)
  ]
  | inr e ↦ absurd (ground arith)
]

-- Access is granted only to a role that reaches one of the service's allowed roles through the
-- hierarchy, or is one of them.
pub can_role_access_service_sound :
    (m : AuthorizationManager) (role : Role) (service : TargetService)
    → can_role_access_service m role service ≡ done true
    → (r : Role) × (contains service.allowed_roles r ≡ true) × Superior m r role
unfolding can_role_access_service
can_role_access_service_sound m role service h =
    elim (Bool-cases (contains service.allowed_roles role)) [
      | inl listed ↦ (role, listed, same refl)
      | inr other ↦ any_allowed_sound m role service.allowed_roles (rw other at h)
    ]

-- A role that is not listed, that has subordinates, and whose first subordinate is not the first
-- allowed role, gets no answer: the call locks the hierarchy's mutex twice and never returns.
pub can_role_access_service_deadlock :
    (m : AuthorizationManager) (role first r : Role) (rest subs : List Role)
    (service : TargetService)
    → service.allowed_roles ≡ r ∷ rest
    → contains service.allowed_roles role ≡ false
    → lookup role m.role_hierarchy ≡ some (first ∷ subs)
    → first ≢ r
    → can_role_access_service m role service ≡ deadlock
unfolding can_role_access_service any_allowed
can_role_access_service_deadlock m role first r rest subs service allowed other found ne = ground (
  arith,
  (is_role_superior_lem m role r 0).0,
  role_beq_iff first r,
  role_beq_iff role r,
  role_beq_iff r role,
)

collect_deadlock :
    (inferior : Role → Run (List Role)) (s : Role) (rest : List Role)
    → inferior s ≡ deadlock
    → collect_inferior inferior (s ∷ rest) ≡ deadlock
unfolding collect_inferior
collect_deadlock inferior s rest h = rw h

abbrev pub inferior_of : List Role → Run (List Role)
inferior_of [] = done []
inferior_of (s ∷ rest) = deadlock

-- `get_inferior_roles` returns only for a role without subordinates, and then none.
pub get_inferior_roles_lem :
    (m : AuthorizationManager) (role : Role)
    → get_inferior_roles m role ≡ inferior_of (members (lookup role m.role_hierarchy))
unfolding get_inferior_roles
get_inferior_roles_lem m role = collected (members (lookup role m.role_hierarchy))
  where
    collected :
        (rs : List Role) → collect_inferior (λ s. inferior_at 1 true m s) rs ≡ inferior_of rs
    collected [] = refl
    collected (s ∷ rest) = collect_deadlock (λ r. inferior_at 1 true m r) s rest refl
