-- ===== src/Authz/Effective/Resolved.antt =====
-- Every clause that build makes carries the chain of its own scope.
use go_core.Prelude.{
  String, ◌≡◌, List, [], ◌∷◌, Memᴰ, mem_cases, mem_append, mem_of_eq, arith, Bool-cases,
  Option-cases, inl, inr, ◌==◌, string_eq, some, true,
}
use mathlib.Core.Path.{subst}
use go_core.Authz.Errors.{ok, Result-cases}
use go_core.Authz.Types.{Scope, Grant, Permission, Role, Binding, role_ref_valid, Subject}
use go_core.Authz.Hierarchy.{chain}
use go_core.Authz.Role.{resolve}
use go_core.Authz.Clause.{Clause}
use go_core.Authz.Clause.Covers.{IsResolved}
use go_core.Authz.Effective.{
  Rules, RoleLookup, Effective, effective_permission, clauses, build, clause_for,
}
use go_core.Authz.Effective.Build.{granted, binding_clauses, all_clauses, build_clauses}

module _ (e : Rules) (load : RoleLookup) (k : String) where
  -- A grant that counts under the permission puts its clause first.
  first_granted :
      (b : Binding) (role : Role) (c : List Scope) (g : Grant) (gs : List Grant) (p : Permission)
      → effective_permission e b.scope g ≡ some p
      → (p.id == k) ≡ true
      → granted e b role c k (g ∷ gs) ≡ clause_for b role c p g ∷ granted e b role c k gs
  first_granted b role c g gs p counts same = ground arith

  granted_place :
      (b : Binding) (role : Role) (c : List Scope) (gs : List Grant) {x : Clause}
      → Memᴰ x (granted e b role c k gs)
      → (x.scope ≡ b.scope) × (x.chain ≡ c)
  granted_place b role c [] m = elim m [ ]
  granted_place b role c (g ∷ gs) {x} m = elim (Option-cases (effective_permission e b.scope g)) [
    | inl skipped ↦ granted_place b role c gs (mem_of_eq (ground arith) m)
    | inr (p, counts) ↦ elim (Bool-cases (p.id == k)) [
      | inr another ↦ granted_place b role c gs (mem_of_eq (ground arith) m)
      | inl same ↦ elim (mem_cases (mem_of_eq (first_granted b role c g gs p counts same) m)) [
        | inl here ↦ ground arith
        | inr later ↦ granted_place b role c gs later
      ]
    ]
  ]

  binding_clauses-IsResolved :
      (b : Binding) {x : Clause} → Memᴰ x (binding_clauses e load k b) → IsResolved e.h e.parent x
  binding_clauses-IsResolved b {x} m = elim (Bool-cases (role_ref_valid b.role)) [
    | inr malformed ↦ nothing (ground arith)
    | inl valid ↦ elim (Result-cases (load b.role)) [
      | inr (err_x, failed) ↦ nothing (ground arith)
      | inl (role, loaded) ↦ elim (Result-cases (chain e.h e.parent b.scope [])) [
        | inr (err_x, failed) ↦ nothing (ground arith)
        | inl (c, resolved) ↦
            let (place, path) =
              granted_place b role c (resolve role e.cat) (mem_of_eq (ground arith) m) in
            rw (place, path) resolved
      ]
    ]
  ]
    where
      nothing : binding_clauses e load k b ≡ [] → IsResolved e.h e.parent x
      nothing empty = elim (mem_of_eq empty m) [ ]

  all_clauses-IsResolved :
      (bs : List Binding) {x : Clause}
      → Memᴰ x (all_clauses e load k bs)
      → IsResolved e.h e.parent x
  all_clauses-IsResolved [] m = elim m [ ]
  all_clauses-IsResolved (b ∷ bs) m = elim (mem_append (binding_clauses e load k b) m) [
    | inl first ↦ binding_clauses-IsResolved b first
    | inr later ↦ all_clauses-IsResolved bs later
  ]

  -- Every clause that build grants carries the chain of its own scope, as the resolver gives it.
  pub build-IsResolved :
      (s : Subject) (bs : List Binding) {eff : Effective} {x : Clause}
      → build e load s bs ≡ ok eff
      → Memᴰ x (clauses eff k)
      → IsResolved e.h e.parent x
  build-IsResolved s bs {x = x} h m =
      all_clauses-IsResolved bs (subst (λ cs. Memᴰ x cs) (build_clauses e load k s bs h) m)
