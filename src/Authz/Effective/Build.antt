-- ===== src/Authz/Effective/Build.antt =====
-- What build makes of the bindings: for each permission, the clauses that the bindings yield one by
-- one, in order. The reference description loads every role anew and looks at one permission only.
use mathlib.Core.List.{append-nil, append_assoc}
use go_core.Prelude.{
  String, ◌≡◌, refl, sym, ◌∙◌, ap, true, not, List, [], ◌∷◌, ◌++◌, none, some, Map, lookup, insert,
  lookup-insert, if◌then◌else◌, ◌==◌, string_eq, arith, Bool-cases, Option-cases, inl, inr, ==-eq,
}
use mathlib.Core.Path.{subst}
use go_core.Authz.Errors.{Result, ok, fault, ◌>>=◌, >>=-eq-ok, ok-injective, Result-cases}
use go_core.Authz.Types.{Scope, Subject, RoleRef, role_ref_eq, role_ref_valid, Grant, Role, Binding}
use go_core.Authz.Hierarchy.{chain}
use go_core.Authz.Role.{resolve}
use go_core.Authz.Clause.{Clause}
use go_core.Authz.Effective.{
  Rules, RoleLookup, Effective, Memo, no_access, or_none, clauses, effective_permission, clause_for,
  append_clause, add_grants, pin, add_clauses, build_scope, note_role, build_round, build_from,
  build,
}

-- The clauses of one permission among a role's grants.
abbrev pub granted : Rules → Binding → Role → List Scope → String → List Grant → List Clause
granted e b role c permission [] = []
granted e b role c permission (g ∷ gs) = elim (effective_permission e b.scope g) [
  | none ↦ granted e b role c permission gs
  | some p ↦
      if p.id == permission
      then clause_for b role c p g ∷ granted e b role c permission gs
      else granted e b role c permission gs
]

-- The clauses of one permission that one binding yields: none where its role reference is malformed,
-- its role is unknown or its scope does not resolve.
abbrev pub binding_clauses : Rules → RoleLookup → String → Binding → List Clause
binding_clauses e load permission b =
    if not (role_ref_valid b.role) then [] else elim (load b.role) [
      | fault _ ↦ []
      | ok role ↦ elim (chain e.h e.parent b.scope []) [
        | fault _ ↦ []
        | ok c ↦ granted e b role c permission (resolve role e.cat)
      ]
    ]

abbrev pub all_clauses : Rules → RoleLookup → String → List Binding → List Clause
all_clauses e load permission [] = []
all_clauses e load permission (b ∷ bs) =
    binding_clauses e load permission b ++ all_clauses e load permission bs

module _ (e : Rules) (load : RoleLookup) (k : String) where
  append_clause-lookup :
      (id : String) (c : Clause) (m : Map String (List Clause))
      → or_none (lookup k (append_clause id c m))
        ≡ (if id == k then or_none (lookup k m) ++ c ∷ [] else or_none (lookup k m))
  append_clause-lookup id c m =
      ground (arith, lookup-insert id k (or_none (lookup id m) ++ c ∷ []) m, ==-eq id k)

  add_grants-granted :
      (b : Binding) (role : Role) (c : List Scope) (gs : List Grant) (m : Map String (List Clause))
      → or_none (lookup k (add_grants e b role c gs m).0)
        ≡ or_none (lookup k m) ++ granted e b role c k gs
  unfolding add_grants
  add_grants-granted b role c [] m = sym (append-nil _)
  add_grants-granted b role c (g ∷ gs) m = elim (Option-cases (effective_permission e b.scope g)) [
    | inl skipped ↦ ground (arith, add_grants-granted b role c gs m)
    | inr (p, counts) ↦
        let added = clause_for b role c p g in
        ground (
          arith,
          add_grants-granted b role c gs (append_clause p.id added m),
          append_clause-lookup p.id added m,
          append_assoc (or_none (lookup k m)) (added ∷ []) (granted e b role c k gs),
        )
  ]

  pin-grants :
      (scope : Scope) (c : List Scope) (eff : Effective) → (pin e scope c eff).grants ≡ eff.grants
  unfolding pin
  pin-grants scope c eff = ground arith

  add_clauses-granted :
      (b : Binding) (role : Role) (c : List Scope) (eff : Effective)
      → clauses (add_clauses e b role c eff) k
        ≡ clauses eff k ++ granted e b role c k (resolve role e.cat)
  unfolding add_clauses clauses
  add_clauses-granted b role c eff =
      let loop = add_grants e b role c (resolve role e.cat) eff.grants in
      ground (
        arith,
        add_grants-granted b role c (resolve role e.cat) eff.grants,
        pin-grants b.scope c (record eff { grants = loop.0 }),
      )

  -- What a binding yields once its role is known.
  abbrev scoped : Binding → Role → List Clause
  scoped b role = elim (chain e.h e.parent b.scope []) [
    | fault _ ↦ []
    | ok c ↦ granted e b role c k (resolve role e.cat)
  ]

  build_scope-granted :
      (b : Binding) (role : Role) (eff : Effective) {eff' : Effective}
      → build_scope e b role eff ≡ ok eff'
      → clauses eff' k ≡ clauses eff k ++ scoped b role
  unfolding build_scope
  build_scope-granted b role eff {eff'} h = elim (Result-cases (chain e.h e.parent b.scope [])) [
    | inr (x, failed) ↦ ground (arith, append-nil (clauses eff k))
    | inl (c, resolved) ↦ ground (arith, add_clauses-granted b role c eff)
  ]

  -- Every role kept from an earlier round is the one that loading would give.
  abbrev Faithful : Memo → Type 0
  Faithful roles = (r : RoleRef) (role : Role) → lookup r roles ≡ some role → load r ≡ ok role

  insert-Faithful :
      (r : RoleRef) (role : Role) (roles : Memo)
      → Faithful roles
      → load r ≡ ok role
      → Faithful (insert r role roles)
  insert-Faithful r role roles faithful loaded s found h =
      ground (arith, lookup-insert r s role roles, role_ref_eq.agrees r s, faithful s found)

  note_role-clauses : (b : Binding) (eff : Effective) → clauses (note_role b eff) k ≡ clauses eff k
  unfolding clauses
  note_role-clauses b eff = ground arith

  -- What a round leaves: a faithful memo, and the access with the binding's clauses behind.
  abbrev Extends : Binding → Effective → Memo × Effective → Type 0
  Extends b eff (roles', eff') =
      Faithful roles' × (clauses eff' k ≡ clauses eff k ++ binding_clauses e load k b)

  scope_round-Extends :
      (b : Binding) (role : Role) (roles : Memo) (eff : Effective) {state' : Memo × Effective}
      → role_ref_valid b.role ≡ true
      → load b.role ≡ ok role
      → Faithful roles
      → (build_scope e b role (note_role b eff) >>= λ eff'. ok (roles, eff')) ≡ ok state'
      → Extends b eff state'
  scope_round-Extends b role roles eff valid loaded faithful h =
      let (eff', scoped, made) = >>=-eq-ok (build_scope e b role (note_role b eff)) _ h in
      subst (Extends b eff) (ok-injective made) (
        faithful,
        ground
            (arith, build_scope-granted b role (note_role b eff) scoped, note_role-clauses b eff),
      )

  skipped-Extends :
      (b : Binding) (roles : Memo) (eff eff' : Effective) {state' : Memo × Effective}
      → Faithful roles
      → clauses eff' k ≡ clauses eff k
      → binding_clauses e load k b ≡ []
      → ◌≡◌ {A = Result (Memo × Effective)} (ok (roles, eff')) (ok state')
      → Extends b eff state'
  skipped-Extends b roles eff eff' faithful same nothing made =
      subst (Extends b eff) (ok-injective made)
        (faithful, ground (arith, append-nil (clauses eff k)))

  build_round-Extends :
      (b : Binding) (roles : Memo) (eff : Effective) {state' : Memo × Effective}
      → Faithful roles
      → build_round e load b (roles, eff) ≡ ok state'
      → Extends b eff state'
  unfolding build_round
  build_round-Extends b roles eff {state'} faithful h = elim (Bool-cases (role_ref_valid b.role)) [
    | inr malformed ↦ skipped-Extends b roles eff eff faithful refl (ground arith) (ground arith)
    | inl valid ↦ elim (Option-cases (lookup b.role roles)) [
      | inr (role, kept) ↦
          scope_round-Extends b role roles eff valid (faithful b.role role kept) faithful
            (ground arith)
      | inl unseen ↦ elim (Result-cases (load b.role)) [
        | inr (x, failed) ↦
            skipped-Extends b roles eff (note_role b eff) faithful (note_role-clauses b eff)
              (ground arith) (ground arith)
        | inl (role, loaded) ↦
            scope_round-Extends b role (insert b.role role roles) eff valid loaded
              (insert-Faithful b.role role roles faithful loaded) (ground arith)
      ]
    ]
  ]

  build_from-clauses :
      (bs : List Binding) (roles : Memo) (eff : Effective) {eff' : Effective}
      → Faithful roles
      → build_from e load bs (roles, eff) ≡ ok eff'
      → clauses eff' k ≡ clauses eff k ++ all_clauses e load k bs
  unfolding build_from
  build_from-clauses [] roles eff faithful h = ground (arith, append-nil (clauses eff k))
  build_from-clauses (b ∷ bs) roles eff faithful h =
      let (state', round, rest) =
        >>=-eq-ok (build_round e load b (roles, eff)) (build_from e load bs) h in
      let (faithful', first) = build_round-Extends b roles eff faithful round in
      build_from-clauses bs state'.0 state'.1 faithful' rest
      ∙ ap (λ cs. cs ++ all_clauses e load k bs) first
      ∙ append_assoc (clauses eff k) (binding_clauses e load k b) (all_clauses e load k bs)

  -- Where build succeeds, the clauses of every permission are those that the bindings yield on their
  -- own, in the order of the bindings: keeping the roles already loaded changes nothing, and nothing
  -- but a binding with a valid role reference, a role that is found and a scope that resolves grants
  -- anything.
  pub build_clauses :
      (s : Subject) (bs : List Binding) {eff : Effective}
      → build e load s bs ≡ ok eff
      → clauses eff k ≡ all_clauses e load k bs
  unfolding build clauses lookup
  build_clauses s bs h =
      build_from-clauses bs [] (no_access s) (λ r role found. absurd (ground arith)) h
