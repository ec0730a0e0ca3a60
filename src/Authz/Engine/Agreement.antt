-- ===== src/Authz/Engine/Agreement.antt =====
-- The list filter and the record check agree: Engine.Access and Engine.RequireOn give the same answer
-- about every record.
use go_core.Prelude.{
  ℕ, zero, suc, length, String, ◌≡◌, refl, sym, ◌∙◌, ◌↔◌, Bool, true, false, ◌||◌, List, [], ◌∷◌,
  Option, none, some, any, arith, Memᴰ, if◌then◌else◌, ◌==◌, string_eq, Bool-cases, inl, inr,
  or_elim, or_left, or_right, and_left, and_right, and_intro, ==-eq, ==_refl,
}
use mathlib.Core.Path.{subst}
use go_core.Authz.Errors.{
  Result, ok, fault, Error, Result-cases, rest_ok, wrap_error, internal_error, forbidden_error,
  >>=-eq-ok,
}
use go_core.Authz.Types.{
  Scope, scope_eq, scope_is_zero, Principal, Permission, Resource, Subject, Binding,
}
use go_core.Authz.Catalogue.{lookup_permission}
use go_core.Authz.Hierarchy.{root, root_level, is_root, within, chain, check, check_all, ancestors}
use go_core.Authz.Hierarchy.Containment.{within_trans}
use go_core.Authz.Clause.{Clause, covers, prune}
use go_core.Authz.Clause.Covers.{IsResolved, match_record-covers, covers_parts}
use go_core.Authz.Clause.Prune.{any-prune}
use go_core.Authz.Effective.{Effective, clauses, build}
use go_core.Authz.Effective.Resolved.{build-IsResolved}
use go_core.Authz.Cache.{Cache}
use go_core.Authz.Engine.{
  Engine, AccessSet, resource_chain, open_clauses, require_on, access, prepare, load_effective,
  lookup_role,
}
use go_core.Authz.Engine.Cached.{IsFresh, prepare_sound}
use go_core.Authz.Engine.Decisions.{feature_free, reaches, in_scope, require_on_reaches}

module _ (e : Engine) where
  -- The ancestors that the caller names, if any, lead to the chain that the resolver gives.
  abbrev pub Consistent : Resource → Type 0
  Consistent res = chain e.h e.parent res.scope res.ancestors ≡ chain e.h e.parent res.scope []

  ancestors_of_root :
      (fuel : ℕ) (s : Scope) (b : Bool) {c : List Scope}
      → is_root e.h s ≡ true
      → ancestors e.h e.parent [] fuel s b ≡ ok c
      → c ≡ s ∷ []
  unfolding ancestors
  ancestors_of_root zero s b at h = absurd (ground arith)
  ancestors_of_root (suc fuel) s b at h = ground arith

  -- What lies on a chain of one scope is that scope.
  within_one : (s u : Scope) → within (s ∷ []) u ≡ true → s ≡ u
  within_one s u h = ==-eq s u (ground arith)

  -- The chain of a root scope is that scope alone.
  chain_of_root :
      (s : Scope) {c : List Scope}
      → chain e.h e.parent s [] ≡ ok c
      → is_root e.h s ≡ true
      → c ≡ s ∷ []
  unfolding chain
  chain_of_root s h at =
      ancestors_of_root (length e.h.levels) s false at
        (rest_ok (check_all e.h []) _ (rest_ok (check e.h s) _ h))

  -- The chain that RequireOn tests a record against is closed under containment.
  resource_chain_closed :
      (res : Resource) (rc : List Scope) (s u : Scope) {c : List Scope}
      → Consistent res
      → resource_chain e res ≡ ok rc
      → chain e.h e.parent s [] ≡ ok c
      → within rc s ≡ true
      → within c u ≡ true
      → (is_root e.h u || within rc u) ≡ true
  unfolding resource_chain
  resource_chain_closed res rc s u {c} consistent found resolved rs cu =
      elim (Bool-cases (scope_is_zero res.scope)) [
        | inl wide ↦
            let only : root e.h ∷ [] ≡ rc = ground arith in
            let at_root = within_one (root e.h) s (subst (λ l. within l s ≡ true) (sym only) rs) in
            let s_root : is_root e.h s ≡ true =
              subst (λ x. is_root e.h x ≡ true) at_root (==_refl (root_level e.h)) in
            let alone = chain_of_root s resolved s_root in
            let same = within_one s u (subst (λ l. within l u ≡ true) alone cu) in
            or_left (is_root e.h u) _ (subst (λ x. is_root e.h x ≡ true) same s_root)
        | inr placed ↦ elim (Result-cases (chain e.h e.parent res.scope res.ancestors)) [
          | inl (rc', climbed) ↦
              let same : rc' ≡ rc = ground arith in
              let climbed' = sym consistent ∙ climbed in
              let rs' = subst (λ l. within l s ≡ true) (sym same) rs in
              let up = within_trans e.h e.parent res.scope s u climbed' resolved rs' cu in
              or_right (is_root e.h u) _ (subst (λ l. within l u ≡ true) same up)
          | inr (x, failed) ↦ absurd (ground arith)
        ]
      ]

  -- A covering clause reaches every record that the covered one reaches.
  reaches-covers :
      (permission : String) (perm : Permission) (p : Principal) (res : Resource) (rc : List Scope)
      (a b : Clause)
      → Consistent res
      → resource_chain e res ≡ ok rc
      → IsResolved e.h e.parent b
      → covers a b ≡ true
      → reaches e permission perm p res rc b ≡ true
      → reaches e permission perm p res rc a ≡ true
  reaches-covers permission perm p res rc a b consistent found resolved ab h =
      let (place, _, _) = covers_parts a b ab in
      let inside = and_left (in_scope e permission perm rc b) _ h in
      let matched = and_right (in_scope e permission perm rc b) _ h in
      and_intro _ _ (scope_widens place inside) (match_record-covers a b p perm res ab matched)
    where
      scope_widens :
          within b.chain a.scope ≡ true
          → (is_root e.h b.scope || within rc b.scope) ≡ true
          → (is_root e.h a.scope || within rc a.scope) ≡ true
      scope_widens place inside = elim (or_elim (is_root e.h b.scope) _ inside) [
        | inl at_root ↦
            let alone = chain_of_root b.scope resolved at_root in
            let same =
              within_one b.scope a.scope (subst (λ l. within l a.scope ≡ true) alone place) in
            or_left (is_root e.h a.scope) _ (subst (λ x. is_root e.h x ≡ true) same at_root)
        | inr holds ↦
            resource_chain_closed res rc b.scope a.scope consistent found resolved holds place
      ]

  pub wrapped_ok :
      {A : Type 0} (f : Error → Error) (r : Result A) {a : A} → wrap_error f r ≡ ok a → r ≡ ok a
  wrapped_ok f (ok x) h = h
  wrapped_ok f (fault x) h = absurd (ground arith)

  -- What loading gives was built from the store's bindings.
  pub load_effective_built :
      (s : Subject) {eff : Effective}
      → load_effective e s ≡ ok eff
      → (bs : List Binding) × (e.store.bindings_for s ≡ ok bs)
        × (build e.rules (lookup_role e) s bs ≡ ok eff)
  unfolding load_effective
  load_effective_built s h =
      let (bs, listed, built) =
        >>=-eq-ok (wrap_error internal_error (e.store.bindings_for s)) _ h in
      (bs, wrapped_ok internal_error _ listed, wrapped_ok internal_error _ built)

  open_free :
      (permission : String) (perm : Permission) (cs : List Clause)
      → (perm.feature == "") ≡ true
      → open_clauses e perm cs ≡ ok cs
  unfolding open_clauses
  open_free permission perm [] free = refl
  open_free permission perm (c ∷ cs) free = ground (
    arith,
    feature_free e permission perm c.scope c.chain free,
    open_free permission perm cs free,
  )

  answer_iff :
      (b s : Bool) (x : Error) {r : Result (Unit {0})}
      → r ≡ (if b then ok tt else fault x)
      → s ≡ b
      → (r ≡ ok tt) ↔ (s ≡ true)
  answer_iff true s x answer same = (λ _. same, λ _. answer)
  answer_iff false s x answer same = (λ h. absurd (ground arith), λ h. absurd (ground arith))

  module _ (t : ℕ × ℕ) (ctx : Option Principal) (permission : String) (perm : Permission)
      (res : Resource) (cache : Cache) (rc : List Scope) (fresh : IsFresh e cache)
      (known : lookup_permission e.cat permission ≡ some perm) (free : (perm.feature == "") ≡ true)
      (consistent : Consistent res) (found : resource_chain e res ≡ ok rc) where
    abbrev reached : Principal → List Clause → Bool
    reached p cs = any (reaches e permission perm p res rc) cs

    prune_reaches :
        (p : Principal) (eff : Effective)
        → load_effective e p.subject ≡ ok eff
        → reached p (prune (clauses eff permission)) ≡ reached p (clauses eff permission)
    prune_reaches p eff loaded =
        let (bs, listed, built) = load_effective_built p.subject loaded in
        let resolved = λ (c : Clause) (m : Memᴰ c (clauses eff permission)).
          build-IsResolved e.rules (lookup_role e) permission p.subject bs built m in
        any-prune e.h e.parent (clauses eff permission) resolved
          (reaches e permission perm p res rc)
          (λ a b ma mb ab h.
            reaches-covers permission perm p res rc a b consistent found (resolved b mb) ab h)

    access_set :
        (p : Principal) (eff : Effective) {set : AccessSet}
        → (prepare e t ctx permission cache).0 ≡ ok (p, perm, eff)
        → (access e t ctx permission cache).0 ≡ ok set
        → (set.clauses ≡ prune (clauses eff permission)) × (set.principal ≡ p)
    unfolding access
    access_set p eff prepared h =
        ground (arith, open_free permission perm (clauses eff permission) free)

    require_on_answer :
        (p : Principal) (eff : Effective)
        → (prepare e t ctx permission cache).0 ≡ ok (p, perm, eff)
        → (require_on e t ctx permission res cache).0 ≡ (
            if reached p (clauses eff permission)
            then ok tt
            else fault (forbidden_error permission))
    unfolding require_on
    require_on_answer p eff prepared = ground (
      arith,
      require_on_reaches e permission perm p res free rc none (clauses eff permission) found
          (inl refl),
    )

    agree :
        (p : Principal) (eff : Effective) {set : AccessSet}
        → (prepare e t ctx permission cache).0 ≡ ok (p, perm, eff)
        → (access e t ctx permission cache).0 ≡ ok set
        → load_effective e p.subject ≡ ok eff
        → ((require_on e t ctx permission res cache).0 ≡ ok tt)
          ↔ (reached set.principal set.clauses ≡ true)
    agree p eff prepared listed loaded =
        let answer = require_on_answer p eff prepared in
        let (pruned, who) = access_set p eff prepared listed in
        let same = prune_reaches p eff loaded in
        answer_iff _ _ (forbidden_error permission) answer (rw (who, pruned) same)

    -- The list filter and the record check agree. Take a cache whose entries are what loading gives
    -- now, a permission of the catalogue without a feature gate, and a record whose chain resolves,
    -- its place being unknown included, where the ancestors that the caller names, if any, lead to
    -- the chain that the resolver gives. Where Access answers, RequireOn lets the record through
    -- exactly when one of the clauses that Access returns, pruned as they are, reaches it.
    pub access-require_on :
        {set : AccessSet}
        → (access e t ctx permission cache).0 ≡ ok set
        → ((require_on e t ctx permission res cache).0 ≡ ok tt)
          ↔ (any (reaches e permission perm set.principal res rc) set.clauses ≡ true)
    access-require_on {set} listed = elim (Result-cases (prepare e t ctx permission cache).0) [
      | inr (x, refused) ↦ absurd (refused_access x refused)
      | inl ((p, perm', eff), prepared) ↦
          let (here, known', loaded) = prepare_sound e t ctx permission cache fresh prepared in
          let same : perm' ≡ perm = ground arith in agree p eff (rw (← same) prepared) listed loaded
    ]
      where
        refused_access : (x : Error) → (prepare e t ctx permission cache).0 ≡ fault x → ⊥
        refused_access x refused = unfold access in ground arith
