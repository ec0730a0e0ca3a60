-- ===== src/Authz/Role/Closed.antt =====
-- authz/role.go: what a role that Validate accepts grants.
use go_core.Prelude.{
  append_nil, String, string_eq, ◌≡◌, refl, sym, inl, inr, true, ◌&&◌, List, [], ◌∷◌, some, Memᴰ,
  lookup, lookup-mem, int_eq, arith, Bool-cases, Option-cases,
}
use mathlib.Core.Path.{subst}
use go_core.Authz.Errors.{ok, Problem, as_validation}
use go_core.Authz.Types.{Grant, Role, Qualifier, qualifier_covers, ownable}
use go_core.Authz.Catalogue.{Catalogue, lookup_permission}
use go_core.Authz.Role.{
  resolve, sorted_keys, Held, check_grants, check_required, check_requirements, each, or_bare,
  validate_role, check_role, check_role_attrs,
}
use go_core.Authz.Role.Grants.{each-nil, mem_sorted_keys, Sound, Checked, check_grants-Checked}

module _ (cat : Catalogue) where
  -- A grant has, for each permission that its own requires, a grant in the same role; when both can be owned,
  -- one that reaches as far.
  unfoldable pub HasRequired : List Grant → Grant → Type 0
  HasRequired gs g =
      (req : String)
      → Memᴰ req (or_bare (lookup_permission cat g.permission)).requires
      → (h : Grant) × Memᴰ h gs
        × (h.permission ≡ req)
        × ((ownable (or_bare (lookup_permission cat g.permission))
                && ownable (or_bare (lookup_permission cat req)))
              ≡ true
            → qualifier_covers h.qualifier g.qualifier ≡ true)

  required :
      (held : Held) (g : Grant) (req : String)
      → lookup g.permission held ≡ some g.qualifier
      → check_required cat held g.permission req ≡ []
      → (rq : Qualifier) × (lookup req held ≡ some rq)
        × ((ownable (or_bare (lookup_permission cat g.permission))
                && ownable (or_bare (lookup_permission cat req)))
              ≡ true
            → qualifier_covers rq g.qualifier ≡ true)
  unfolding check_required
  required held g req own clean = elim (Option-cases (lookup req held)) [
    | inl missing ↦ absurd (ground (arith, missing))
    | inr (rq, there) ↦ (
      rq,
      there,
      λ both. elim (Bool-cases (qualifier_covers rq g.qualifier)) [
        | inl wide ↦ wide
        | inr narrow ↦ absurd (ground (arith, there, own, both, narrow))
      ],
    )
  ]

  check_requirements-HasRequired :
      (gs : List Grant) (out : Held)
      → Checked cat [] gs out
      → check_requirements cat out ≡ []
      → (g : Grant) → Memᴰ g gs
      → HasRequired gs g
  unfolding check_requirements HasRequired lookup
  check_requirements-HasRequired gs out checked clean g m req needed =
      let own = checked.kept g m in
      let mine =
        each-nil
          (λ id. each (check_required cat out id) (or_bare (lookup_permission cat id)).requires)
          (sorted_keys out) clean g.permission
          (mem_sorted_keys out g.permission (lookup-mem g.permission out own)) in
      let fine =
        each-nil (check_required cat out g.permission)
          (or_bare (lookup_permission cat g.permission)).requires mine req needed in
      let (rq, there, covers) = required out g req own fine in
      elim (checked.only req rq there) [
        | inl none_held ↦ absurd (ground (arith, none_held))
        | inr (h, n, key, same) ↦ (
          h,
          n,
          key,
          subst
              (λ q.
                (ownable (or_bare (lookup_permission cat g.permission))
                    && ownable (or_bare (lookup_permission cat req)))
                  ≡ true
                → qualifier_covers q g.qualifier ≡ true)
              (sym same) covers,
        )
      ]

as_validation-nil : (ps : List Problem) → as_validation ps ≡ ok tt → ps ≡ []
as_validation-nil [] h = refl
as_validation-nil (p ∷ ps) h = absurd (ground arith)

-- A role that Validate accepts: each of its grants is of a declared permission, with a valid qualifier that
-- is "all" when the permission cannot be owned, and for each permission that this one requires the role has a
-- grant too, which reaches as far when both can be owned.
pub validate_role-closed :
    (r : Role) (cat : Catalogue)
    → validate_role r cat ≡ ok tt
    → (g : Grant) → Memᴰ g (resolve r cat)
    → Sound cat g × HasRequired cat (resolve r cat) g
unfolding validate_role
validate_role-closed r cat accepted g m =
    let (own, after_own) = append_nil (check_role r) _ (as_validation-nil _ accepted) in
    let (grants, after_grants) = append_nil (check_grants cat [] (resolve r cat)).0 _ after_own in
    let (requirements, attributes) =
      append_nil (check_requirements cat (check_grants cat [] (resolve r cat)).1)
        (check_role_attrs cat r) after_grants in
    let checked = check_grants-Checked cat [] (resolve r cat) grants in
    (
      checked.sound g m,
      check_requirements-HasRequired cat (resolve r cat) (check_grants cat [] (resolve r cat)).1
          checked requirements g m,
    )
