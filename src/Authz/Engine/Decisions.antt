-- ===== src/Authz/Engine/Decisions.antt =====
-- What each decision of the engine says of the clauses, for a permission without a feature gate and
-- with one.
use go_core.Prelude.{
  String, ◌≡◌, refl, ◌↔◌, Bool, true, false, ◌&&◌, ◌||◌, List, [], ◌∷◌, Option, none, some, any,
  arith, if◌then◌else◌, ◌==◌, string_eq, Bool-cases, inl, inr, ◌⊎◌,
}
use go_core.Authz.Errors.{Result, ok, fault, Error, forbidden_error, Result-cases}
use go_core.Authz.Types.{Scope, Principal, Permission, Resource}
use go_core.Authz.Hierarchy.{is_root, within}
use go_core.Authz.Clause.{Clause, match_record}
use go_core.Authz.Engine.{
  Engine, feature_on, require_clauses, require_on_clauses, judge, resource_chain, chain_once, gate,
}

-- Some clause's gate is open, and every gate before it answers that it is closed.
abbrev pub Opened : Engine → Permission → List Clause → Type 0
Opened e perm [] = ⊥
Opened e perm (c ∷ cs) =
    (feature_on e perm c.scope c.chain ≡ ok true)
    ⊎ ((feature_on e perm c.scope c.chain ≡ ok false) × Opened e perm cs)

module _ (e : Engine) (permission : String) (perm : Permission) where
  pub feature_free :
      (s : Scope) (c : List Scope) → (perm.feature == "") ≡ true → feature_on e perm s c ≡ ok true
  unfolding feature_on
  feature_free s c free = ground arith

  -- Require passes over a list of clauses exactly when some clause's gate is open and every gate before
  -- it answers that it is closed: a gate that fails to answer stops the check before it lets anyone in.
  pub require_clauses-Opened :
      (cs : List Clause) → (require_clauses e permission perm cs ≡ ok tt) ↔ Opened e perm cs
  unfolding require_clauses
  require_clauses-Opened [] = (λ h. absurd (ground arith), λ h. absurd h)
  require_clauses-Opened (c ∷ cs) =
      let (fwd, back) = require_clauses-Opened cs in
      elim (Result-cases (feature_on e perm c.scope c.chain)) [
        | inr (x, failed) ↦ (λ h. absurd (ground arith), λ h. absurd (gate_answers c x failed h))
        | inl (true, granting) ↦ (λ h. inl granting, λ h. ground arith)
        | inl (false, closed) ↦ (
          λ h. inr (closed, fwd (ground arith)),
          λ h. elim h [
            | inl granting ↦ absurd (ground arith)
            | inr (_, later) ↦ ground (arith, back later)
          ],
        )
      ]
    where
      gate_answers :
          (c : Clause) (x : Error)
          → feature_on e perm c.scope c.chain ≡ fault x
          → (feature_on e perm c.scope c.chain ≡ ok true)
            ⊎ ((feature_on e perm c.scope c.chain ≡ ok false) × Opened e perm cs)
          → ⊥
      gate_answers c x failed (inl granting) = ground arith
      gate_answers c x failed (inr (closed, later)) = ground arith

  -- The record lies within the clause's scope.
  abbrev pub in_scope : List Scope → Clause → Bool
  in_scope rc c = is_root e.h c.scope || within rc c.scope

  -- The clause reaches the record: its scope holds the record's place and it matches the record.
  abbrev pub reaches : Principal → Resource → List Scope → Clause → Bool
  reaches p res rc c = in_scope rc c && match_record c p perm res

  module _ (p : Principal) (res : Resource) (free : (perm.feature == "") ≡ true) where
    judge_free :
        (seen : Option (List Scope)) (c : Clause) (rest : Result (Unit {0}))
        → judge e p permission perm res seen c rest
          ≡ (if match_record c p perm res then ok tt else rest)
    unfolding judge
    judge_free seen c rest =
        ground (arith, feature_free (gate res seen c).0 (gate res seen c).1 free)

    -- The chain is not resolved yet, or it is the record's.
    abbrev Resolved : Option (List Scope) → List Scope → Type 0
    Resolved seen rc = (seen ≡ none) ⊎ (seen ≡ some rc)

    once :
        (rc : List Scope) (seen : Option (List Scope))
        → resource_chain e res ≡ ok rc
        → Resolved seen rc
        → chain_once e res seen ≡ ok rc
    once rc seen found (inl unresolved) = ground arith
    once rc seen found (inr resolved) = ground arith

    -- For a permission without a feature gate, and a record whose chain resolves, RequireOn answers
    -- exactly whether some clause reaches the record, and otherwise "forbidden".
    pub require_on_reaches :
        (rc : List Scope) (seen : Option (List Scope)) (cs : List Clause)
        → resource_chain e res ≡ ok rc
        → Resolved seen rc
        → require_on_clauses e p permission perm res seen cs
          ≡ (if any (reaches p res rc) cs then ok tt else fault (forbidden_error permission))
    unfolding require_on_clauses
    require_on_reaches rc seen [] found known = refl
    require_on_reaches rc seen (c ∷ cs) found known = elim (Bool-cases (is_root e.h c.scope)) [
      | inl at_root ↦
          let rest = require_on_clauses e p permission perm res seen cs in
          ground (arith, judge_free seen c rest, require_on_reaches rc seen cs found known)
      | inr below ↦
          let rest = require_on_clauses e p permission perm res (some rc) cs in
          ground (
            arith,
            once rc seen found known,
            judge_free (some rc) c rest,
            require_on_reaches rc (some rc) cs found (inr refl),
          )
    ]
