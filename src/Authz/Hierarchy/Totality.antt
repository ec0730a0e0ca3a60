-- ===== src/Authz/Hierarchy/Totality.antt =====
-- When Hierarchy.Chain succeeds, and what its failures are: the fuel of the loop never runs out.
use go_core.Prelude.{
  ℕ, suc, zero, ◌<◌, String, ◌≡◌, ◌⊎◌, inl, inr, Bool, true, false, ◌&&◌, List, [], ◌∷◌, ◌==◌,
  string_eq, length, arith, Bool-cases, some, Option-cases, ==_ne, get_elem_bound, get_elem_below,
}
use go_core.Authz.Errors.{Result, ok, fault, Error, invalid_scope, is_error, Result-cases}
use go_core.Authz.Types.{Scope, scope_eq}
use go_core.Authz.Hierarchy.{
  Hierarchy, root_level, is_root, depth_of, check, check_all, next_scope, ancestors, chain,
  ask_parent, find_level, level_above,
}
use go_core.Authz.Hierarchy.Valid.{IsValid}
use go_core.Authz.Hierarchy.Chains.{next_scope_sound, level_above_position, root_depth}

-- A failure that the program means: an invalid scope, or the resolver's own error.
abbrev pub Explained : (Scope → Result Scope) → Error → Type 0
Explained parent e = (is_error e invalid_scope ≡ true) ⊎ ((t : Scope) × (parent t ≡ fault e))

module _ (h : Hierarchy) (v : IsValid h) where
  check_explained : (s : Scope) {e : Error} → check h s ≡ fault e → is_error e invalid_scope ≡ true
  unfolding check
  check_explained s p = ground arith

  check_all_explained :
      (ss : List Scope) {e : Error} → check_all h ss ≡ fault e → is_error e invalid_scope ≡ true
  unfolding check_all
  check_all_explained [] p = absurd (ground arith)
  check_all_explained (s ∷ ss) {e} p = elim (Result-cases (check h s)) [
    | inr (e', invalid) ↦ check_explained s {e = e} (ground arith)
    | inl (unit, valid) ↦ check_all_explained ss {e = e} (ground arith)
  ]

  check_position : (s : Scope) → check h s ≡ ok tt → (d : ℕ) × (depth_of h s.level ≡ some d)
  unfolding check
  check_position s p = elim (Option-cases (depth_of h s.level)) [
    | inl unknown ↦ absurd (ground arith)
    | inr (d, at) ↦ (d, at)
  ]

  -- Below the root there is a level above.
  level_above_exists :
      (l : String) (d : ℕ) → depth_of h l ≡ some (suc d) → (up : String) × (level_above h l ≡ ok up)
  unfolding level_above
  level_above_exists l d at =
      let here = v.positions l (suc d) at in
      let bound = get_elem_bound h.levels (suc d) here in
      let (up, found) = get_elem_below h.levels d (omega arith) in (up, ground arith)

  -- A valid scope that is not at the root level has a level above it.
  above_exists :
      (s : Scope) (d : ℕ)
      → depth_of h s.level ≡ some d
      → is_root h s ≡ false
      → (up : String) × (level_above h s.level ≡ ok up)
  above_exists s zero at below =
      let here = v.positions s.level 0 at in
      let top = v.positions (root_level h) 0 (root_depth h v) in
      let same : s.level ≡ root_level h = ground arith in
      absurd (==_ne s.level (root_level h) below same)
  above_exists s (suc d) at below = level_above_exists s.level d at

  module _ (parent : Scope → Result Scope) (known : List Scope)
      (vetted : check_all h known ≡ ok tt) where
    ask_parent-Explained :
        (cur : Scope) (want : String) {e : Error}
        → ask_parent h parent known cur want ≡ fault e
        → Explained parent e
    unfolding ask_parent
    ask_parent-Explained cur want {e} p = elim (Result-cases (parent cur)) [
      | inr (e', failed) ↦ inr (cur, ground arith)
      | inl (next, answered) ↦ inl (ground (arith, check_explained next {e = e}))
    ]

    next_scope-Explained :
        (cur : Scope) (b : Bool) {up : String} {e : Error}
        → level_above h cur.level ≡ ok up
        → next_scope h parent known cur b ≡ fault e
        → Explained parent e
    unfolding next_scope
    next_scope-Explained cur b {up} {e} above p = elim (Option-cases (find_level known up)) [
      | inr (s, found) ↦ absurd (ground arith)
      | inl unknown ↦ elim (Bool-cases (b && up == root_level h)) [
        | inl at_root ↦ absurd (ground arith)
        | inr below ↦ ask_parent-Explained cur up {e = e} (ground arith)
      ]
    ]

    -- The next scope lies one position up.
    next_position :
        (cur : Scope) (b : Bool) (d : ℕ) {step : Scope × Bool}
        → depth_of h cur.level ≡ some d
        → next_scope h parent known cur b ≡ ok step
        → (d' : ℕ) × (d ≡ suc d') × (depth_of h step.0.level ≡ some d')
    next_position cur b d {step} at went =
        let (above, _) = next_scope_sound h v parent known vetted cur b went in
        let (d', lower, found) = level_above_position h v cur.level step.0.level d above at in
        (d', lower, v.complete step.0.level d' found)

    -- After a successful round below the root, a failure is the rest's.
    rest_failed :
        (fuel : ℕ) (cur : Scope) (b : Bool) (step : Scope × Bool) {e : Error}
        → next_scope h parent known cur b ≡ ok step
        → is_root h cur ≡ false
        → ancestors h parent known (suc fuel) cur b ≡ fault e
        → ancestors h parent known fuel step.0 step.1 ≡ fault e
    unfolding ancestors
    rest_failed fuel cur b step went below p =
        elim (Result-cases (ancestors h parent known fuel step.0 step.1)) [
          | inl (c, climbed) ↦ absurd (ground arith)
          | inr (e', failed) ↦ ground arith
        ]

    ancestors-Explained :
        (fuel : ℕ) (cur : Scope) (b : Bool) (d : ℕ) {e : Error}
        → depth_of h cur.level ≡ some d
        → d < fuel
        → ancestors h parent known fuel cur b ≡ fault e
        → Explained parent e
    unfolding ancestors
    ancestors-Explained zero cur b d at lt p = absurd (omega arith)
    ancestors-Explained (suc fuel) cur b d {e} at lt p = elim (Bool-cases (is_root h cur)) [
      | inl at_root ↦ absurd (ground arith)
      | inr below ↦
          let (up, above) = above_exists cur d at below in
          elim (Result-cases (next_scope h parent known cur b)) [
            | inr (e', failed) ↦ next_scope-Explained cur b {up = up} {e = e} above (ground arith)
            | inl (step, went) ↦
                let (d', lower, at') = next_position cur b d at went in
                ancestors-Explained fuel step.0 step.1 d' {e = e} at' (omega arith)
                  (rest_failed fuel cur b step went below p)
          ]
    ]

  -- In a valid hierarchy, whatever makes a chain fail, it is an invalid scope (asked for, known, or
  -- answered by the resolver) or the resolver's own error: the loop never runs out of its fuel or
  -- of the list of levels.
  pub chain-Explained :
      (parent : Scope → Result Scope) (s : Scope) (known : List Scope) {e : Error}
      → chain h parent s known ≡ fault e
      → Explained parent e
  unfolding chain
  chain-Explained parent s known {e} p = elim (Result-cases (check h s)) [
    | inr (e', invalid) ↦ inl (check_explained s {e = e} (ground arith))
    | inl (unit, valid) ↦ elim (Result-cases (check_all h known)) [
      | inr (e', invalid) ↦ inl (check_all_explained known {e = e} (ground arith))
      | inl (unit', vetted) ↦
          let (d, at) = check_position s valid in
          let bound = get_elem_bound h.levels d (v.positions s.level d at) in
          ancestors-Explained parent known vetted (length h.levels) s false d {e = e} at bound
            (ground arith)
    ]
  ]
