-- ===== src/Authz/Hierarchy/Containment.antt =====
-- Containment is transitive: the chain of a scope holds the whole chain of each of its ancestors.
use go_core.Prelude.{
  ℕ, suc, zero, ◌≤◌, ◌≡◌, refl, sym, ◌∙◌, mem_cases, ◌⊎◌, inl, inr, Bool, true, false, List, [],
  ◌∷◌, string_eq, length, arith, Bool-cases, Memᴰ, contains_intro, contains_elim,
}
use mathlib.Core.Path.{subst}
use go_core.Authz.Errors.{Result, ok, >>=-eq-ok, ok-injective, ◌>>=◌, rest_ok}
use go_core.Authz.Types.{Scope, scope_eq}
use go_core.Authz.Hierarchy.{
  Hierarchy, is_root, check, check_all, next_scope, ancestors, chain, within, ask_parent,
  find_level,
}

module _ (h : Hierarchy) (parent : Scope → Result Scope) where
  -- With no ancestors known, a round does not depend on where its scope came from.
  abbrev up_from : ℕ → Scope → Bool → Result (List Scope)
  up_from = ancestors h parent []

  next_scope_unknown :
      (cur : Scope) {step : Scope × Bool}
      → next_scope h parent [] cur false ≡ ok step
      → step.1 ≡ false
  unfolding next_scope find_level ask_parent
  next_scope_unknown cur e = ground arith

  -- What a successful round did.
  abbrev Round : ℕ → Scope → Bool → List Scope → Type 0
  Round fuel cur b c =
      ((is_root h cur ≡ true) × (c ≡ cur ∷ []))
      ⊎ ((is_root h cur ≡ false)
          × ((step : Scope × Bool) × (tail : List Scope) × (next_scope h parent [] cur b ≡ ok step)
              × (up_from fuel step.0 step.1 ≡ ok tail)
              × (c ≡ cur ∷ tail)))

  climb : ℕ → Scope → Scope × Bool → Result (List Scope)
  climb fuel cur (next, next_known) = do rest ← up_from fuel next next_known; ok (cur ∷ rest)

  round :
      (fuel : ℕ) (cur : Scope) (b : Bool) {c : List Scope}
      → up_from (suc fuel) cur b ≡ ok c
      → Round fuel cur b c
  unfolding ancestors climb
  round fuel cur b e = elim (Bool-cases (is_root h cur)) [
    | inl at_root ↦ inl (at_root, ground arith)
    | inr below ↦
        let (step, went, after) =
          >>=-eq-ok (next_scope h parent [] cur b) (λ step. climb fuel cur step) (ground arith) in
        let (tail, climbed, made) = >>=-eq-ok (up_from fuel step.0 step.1) _ after in
        inr (below, (step, tail, went, climbed, sym (ok-injective made)))
  ]

  Round-back :
      (fuel : ℕ) (cur : Scope) (b : Bool) {c : List Scope}
      → Round fuel cur b c
      → up_from (suc fuel) cur b ≡ ok c
  unfolding ancestors
  Round-back fuel cur b (inl (at_root, only)) = ground arith
  Round-back fuel cur b (inr (below, (step, tail, went, climbed, made))) =
      rw (below, went, climbed) (ground arith)

  -- More fuel gives the same chain.
  ancestors_more_fuel :
      (fuel more : ℕ) (cur : Scope) (b : Bool) {c : List Scope}
      → fuel ≤ more
      → up_from fuel cur b ≡ ok c
      → up_from more cur b ≡ ok c
  unfolding ancestors
  ancestors_more_fuel zero more cur b le e = absurd (ground arith)
  ancestors_more_fuel (suc fuel) zero cur b le e = absurd (omega arith)
  ancestors_more_fuel (suc fuel) (suc more) cur b le e = elim (round fuel cur b e) [
    | inl ended ↦ Round-back more cur b (inl ended)
    | inr (below, rest) ↦
        let (step, tail, went, climbed, made) = rest in
        let again = ancestors_more_fuel fuel more step.0 step.1 (omega arith) climbed in
        Round-back more cur b (inr (below, (step, tail, went, again, made)))
  ]

  -- An ancestor's own climb, inside a climb.
  abbrev Inside : ℕ → Scope → List Scope → Type 0
  Inside fuel t c =
      (fuel' : ℕ) × (d : List Scope) × (fuel' ≤ fuel)
      × (up_from fuel' t false ≡ ok d)
      × ((u : Scope) → Memᴰ u d → Memᴰ u c)

  ancestors_tail :
      (fuel : ℕ) (cur : Scope) (b : Bool) {t : Scope} {c : List Scope}
      → b ≡ false
      → up_from fuel cur b ≡ ok c
      → Memᴰ t c
      → Inside fuel t c
  unfolding ancestors
  ancestors_tail zero cur b flag e m = absurd (ground arith)
  ancestors_tail (suc fuel) cur b {t} {c} flag e m = elim (round fuel cur b e) [
    | inl (at_root, only) ↦ elim (mem_cases (subst (λ l. Memᴰ t l) only m)) [
      | inl here ↦ itself here
      | inr nowhere ↦ elim nowhere [ ]
    ]
    | inr (below, rest) ↦
        let (step, tail, went, climbed, made) = rest in
        elim (mem_cases (subst (λ l. Memᴰ t l) made m)) [
          | inl here ↦ itself here
          | inr later ↦
              let unknown = next_scope_unknown cur {step = step} (rw (← flag) went) in
              deeper tail made (ancestors_tail fuel step.0 step.1 unknown climbed later)
        ]
  ]
    where
      itself : t ≡ cur → Inside (suc fuel) t c
      itself p = (suc fuel, c, omega arith, rw (p, ← flag) e, λ u n. n)

      deeper : (tail : List Scope) → c ≡ cur ∷ tail → Inside fuel t tail → Inside (suc fuel) t c
      deeper tail made (f, d, le, again, sub) =
          (f, d, omega arith, again, λ u n. subst (λ l. Memᴰ u l) (sym made) (Memᴰ.tail (sub u n)))

  -- What contains an ancestor of a scope contains the scope: where the chains of `s` and `t`
  -- resolve with the resolver alone, `t` lies on the chain of `s` and `u` on the chain of `t`, `u`
  -- lies on the chain of `s`.
  pub within_trans :
      (s t u : Scope) {c d : List Scope}
      → chain h parent s [] ≡ ok c
      → chain h parent t [] ≡ ok d
      → within c t ≡ true
      → within d u ≡ true
      → within c u ≡ true
  unfolding chain
  within_trans s t u {c} {d} es et ct du =
      let climb_s = rest_ok (check_all h []) _ (rest_ok (check h s) _ es) in
      let climb_t = rest_ok (check_all h []) _ (rest_ok (check h t) _ et) in
      let (f, d', le, again, sub) =
        ancestors_tail (length h.levels) s false refl climb_s (contains_elim c t ct) in
      let same : d' ≡ d =
        ok-injective (sym (ancestors_more_fuel f (length h.levels) t false le again) ∙ climb_t) in
      contains_intro c u (sub u (subst (λ l. Memᴰ u l) (sym same) (contains_elim d u du)))
