-- ===== src/Authz/Delegation/Assignment.antt =====
-- CanBind: where a role may be assigned, and which dangerous permissions it may carry.
use go_core.Prelude.{
  not, ◌||◌, ◌&&◌, none, some, Option-cases, all, all_intro, ℕ, String, ◌≡◌, refl, Bool, true,
  false, List, [], ◌∷◌, arith, Memᴰ, mem_cases, Bool-cases, inl, inr, if◌then◌else◌,
}
use go_core.Authz.Errors.{
  Result, ok, Result-cases, wrap_error, bad_request_from, forbidden_error, >>=-eq-ok, ◌>>◌, demand,
  demand_passed, both_ok, as_validation, Problem,
}
use go_core.Authz.Types.{Principal, Permission, Role, Grant, Scope}
use go_core.Authz.Hierarchy.{is_root, chain, within}
use go_core.Authz.Catalogue.{Catalogue, lookup_permission}
use go_core.Authz.Effective.{Effective}
use go_core.Authz.Cache.{Cache}
use go_core.Authz.Role.{resolve, validate_role}
use go_core.Authz.Engine.{Engine, load_effective}
use go_core.Authz.Engine.Cached.{IsFresh}
use go_core.Authz.Delegation.{
  holds_within, below_root_problems, dangerous, target_chain, bindable, may_bind, can_bind,
}
use go_core.Authz.Delegation.Escalation.{with_effective_sound}

-- What rules (2), (3) and (4) say of one grant of the role at `scope`: a System permission is one that
-- the actor holds on the scope's chain, and an OrganizationOnly permission is assigned at the root by an
-- actor who holds `manage` at the root.
abbrev pub allowed : Engine → Scope → String → List Scope → Effective → Grant → Bool
allowed e scope manage above eff g = elim (lookup_permission e.cat g.permission) [
  | none ↦ true
  | some p ↦
      (not p.system || holds_within eff p.id (within above))
      && (not p.organization_only || is_root e.h scope && holds_within eff manage (is_root e.h))
]

dangerous_sound :
    (cat : Catalogue) (eff : Effective) (inside : Scope → Bool) (at_root : Bool) (gs : List Grant)
    {g : Grant} {p : Permission}
    → dangerous cat eff inside at_root gs ≡ ok tt
    → Memᴰ g gs
    → lookup_permission cat g.permission ≡ some p
    → (p.system ≡ true → holds_within eff p.id inside ≡ true)
      × (p.organization_only ≡ true → at_root ≡ true)
unfolding dangerous
dangerous_sound cat eff inside at_root [] h m known = elim m [ ]
dangerous_sound cat eff inside at_root (x ∷ gs) {g} {p} h m known = elim (mem_cases m) [
  | inl same ↦
      let known' : lookup_permission cat x.permission ≡ some p = rw (← same) known in
      (λ system. ground arith, λ only. ground arith)
  | inr later ↦ dangerous_sound cat eff inside at_root gs (ground arith) later known
]

below_root_sound :
    (cat : Catalogue) (gs : List Grant) {g : Grant} {p : Permission}
    → below_root_problems cat gs ≡ []
    → Memᴰ g gs
    → lookup_permission cat g.permission ≡ some p
    → p.organization_only ≡ false
unfolding below_root_problems
below_root_sound cat [] h m known = elim m [ ]
below_root_sound cat (x ∷ gs) {g} {p} h m known = elim (mem_cases m) [
  | inl same ↦
      let known' : lookup_permission cat x.permission ≡ some p = rw (← same) known in ground arith
  | inr later ↦ below_root_sound cat gs (ground arith) later known
]

no_problems : (ps : List Problem) → wrap_error bad_request_from (as_validation ps) ≡ ok tt → ps ≡ []
no_problems [] h = refl
no_problems (p ∷ ps) h = absurd (ground arith)

target_chain_sound :
    (e : Engine) (scope : Scope) {above : List Scope}
    → target_chain e scope ≡ ok above
    → chain e.h e.parent scope [] ≡ ok above
unfolding target_chain
target_chain_sound e scope h = ground arith

module _ (e : Engine) (role : Role) (scope : Scope) (manage : String) where
  abbrev place_problems : Result (Unit {0})
  place_problems = wrap_error bad_request_from (
      if is_root e.h scope
      then ok tt
      else as_validation (below_root_problems e.cat (resolve role e.cat)))

  bindable_sound :
      {above : List Scope}
      → bindable e role scope ≡ ok above
      → (chain e.h e.parent scope [] ≡ ok above) × (place_problems ≡ ok tt)
  unfolding bindable
  bindable_sound {above} h =
      let (valid, more) = both_ok (wrap_error bad_request_from (validate_role role e.cat)) _ h in
      let (found, climbed, place) =
        >>=-eq-ok (target_chain e scope) (λ a. place_problems >> ok a) more in
      let (fits, same) = both_ok place_problems (ok found) place in
      (rw (← same) (target_chain_sound e scope climbed), fits)

  place_sound :
      {g : Grant} {p : Permission}
      → place_problems ≡ ok tt
      → Memᴰ g (resolve role e.cat)
      → lookup_permission e.cat g.permission ≡ some p
      → p.organization_only ≡ true
      → is_root e.h scope ≡ true
  place_sound {p = p} fits m known only = elim (Bool-cases (is_root e.h scope)) [
    | inl at_root ↦ at_root
    | inr below ↦
        let free = no_problems (below_root_problems e.cat (resolve role e.cat)) (ground arith) in
        absurd (ground (arith, below_root_sound e.cat (resolve role e.cat) {p = p} free m known))
  ]

  may_bind_sound :
      (above : List Scope) (eff : Effective)
      → may_bind e role manage above eff ≡ ok tt
      → (holds_within eff manage (within above) ≡ true)
        × (dangerous e.cat eff
              (within above)
              (holds_within eff manage (is_root e.h))
              (resolve role e.cat)
            ≡ ok tt)
  unfolding may_bind
  may_bind_sound above eff h =
      let (held, safe) =
        both_ok (demand (holds_within eff manage (within above)) (forbidden_error manage)) _ h in
      (demand_passed _ (forbidden_error manage) held, safe)

  grant_allowed :
      (above : List Scope) (eff : Effective)
      → place_problems ≡ ok tt
      → dangerous e.cat eff
          (within above)
          (holds_within eff manage (is_root e.h))
          (resolve role e.cat)
        ≡ ok tt
      → (g : Grant) → Memᴰ g (resolve role e.cat)
      → allowed e scope manage above eff g ≡ true
  grant_allowed above eff fits safe g m =
      elim (Option-cases (lookup_permission e.cat g.permission)) [
        | inl unknown ↦ ground arith
        | inr (p, known) ↦
            let (system, root) =
              dangerous_sound e.cat eff (within above) (holds_within eff manage (is_root e.h))
                (resolve role e.cat) {p = p} safe m known in
            elim (Bool-cases p.system) [
              | inl is_system ↦ elim (Bool-cases p.organization_only) [
                | inl only ↦
                    ground
                      (arith, system is_system, root only, place_sound {p = p} fits m known only)
                | inr anywhere ↦ ground (arith, system is_system)
              ]
              | inr plain ↦ elim (Bool-cases p.organization_only) [
                | inl only ↦ ground (arith, root only, place_sound {p = p} fits m known only)
                | inr anywhere ↦ ground arith
              ]
            ]
      ]

  -- Where CanBind, over a cache whose entries are what loading gives now, lets an actor assign a
  -- role at a scope: the scope's chain resolves, the actor holds `manage` at a scope on that chain,
  -- and every grant of the role on a permission of the catalogue is allowed there: the permission,
  -- if it is a System one, is one that the actor holds on the chain, and if it is an
  -- OrganizationOnly one, the scope is the root and the actor holds `manage` at the root.
  pub can_bind-allowed :
      (t : ℕ × ℕ) (actor : Principal) (c : Cache)
      → IsFresh e c
      → (can_bind e t actor role scope manage c).0 ≡ ok tt
      → (above : List Scope) × (chain e.h e.parent scope [] ≡ ok above)
        × ((eff : Effective) × (load_effective e actor.subject ≡ ok eff)
            × (holds_within eff manage (within above) ≡ true)
            × (all (allowed e scope manage above eff) (resolve role e.cat) ≡ true))
  unfolding can_bind
  can_bind-allowed t actor c fresh h = elim (Result-cases (bindable e role scope)) [
    | inr (x, refused) ↦ absurd (ground arith)
    | inl (above, placed) ↦
        let (climbed, fits) = bindable_sound placed in
        let (eff, loaded, passed) =
          with_effective_sound e t actor.subject (may_bind e role manage above) c fresh
            (ground arith) in
        let (held, safe) = may_bind_sound above eff passed in
        (
          above,
          climbed,
          (eff, loaded, held, all_intro _ (resolve role e.cat) (grant_allowed above eff fits safe)),
        )
  ]
