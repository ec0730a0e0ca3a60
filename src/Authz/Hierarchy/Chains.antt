-- ===== src/Authz/Hierarchy/Chains.antt =====
-- What Hierarchy.Chain returns: the scope, then one scope for each wider level, up to the root.
use mathlib.Core.List.{reverse, reverse-append}
use go_core.Prelude.{
  ℕ, suc, zero, ◌<◌, String, pos, ◌≡◌, refl, sym, ap, ◌∙◌, inl, inr, Bool, true, false, ◌&&◌, List,
  [], ◌∷◌, ◌++◌, none, some, ◌==◌, string_eq, int_eq, ==_refl, ==-eq, get_elem?, take, length,
  arith, Bool-cases, Option-cases, Memᴰ, map, if◌then◌else◌, and_right, or_left, or_right, contains,
}
use go_core.Authz.Errors.{
  Result, ok, demand, >>=-eq-ok, ok-injective, ◌>>=◌, ◌>>◌, first_ok, rest_ok, both_ok,
  demand_passed, sentinel, invalid_scope,
}
use go_core.Authz.Types.{Scope, scope_eq}
use go_core.Authz.Hierarchy.{
  Hierarchy, root_level, root, is_root, depth_of, check, check_all, level_above, find_level,
  ask_parent, next_scope, ancestors, chain, within,
}
use go_core.Authz.Hierarchy.Valid.{IsValid}

-- From `s` up to the root, one level at a time, each scope valid.
abbrev pub Up : Hierarchy → Scope → List Scope → Type 0
Up h s [] = is_root h s ≡ true
Up h s (t ∷ rest) = (level_above h s.level ≡ ok t.level) × (check h t ≡ ok tt) × Up h t rest

pub find_level_sound :
    (ss : List Scope) (l : String) {s : Scope}
    → find_level ss l ≡ some s
    → (s.level ≡ l) × Memᴰ s ss
unfolding find_level
find_level_sound [] l e = absurd (ground arith)
find_level_sound (x ∷ xs) l {s} e = elim (Bool-cases (x.level == l)) [
  | inl hit ↦ (ground (arith, ==-eq x.level l hit), Memᴰ.head (ground arith))
  | inr miss ↦ let (at, m) = find_level_sound xs l {s = s} (ground arith) in (at, Memᴰ.tail m)
]

check_all_sound :
    (h : Hierarchy) (ss : List Scope) {s : Scope}
    → check_all h ss ≡ ok tt
    → Memᴰ s ss
    → check h s ≡ ok tt
unfolding check_all
check_all_sound h [] e m = elim m [ ]
check_all_sound h (x ∷ xs) e (Memᴰ.head p) = rw p (first_ok (check h x) (check_all h xs) e)
check_all_sound h (x ∷ xs) e (Memᴰ.tail m) =
    check_all_sound h xs (rest_ok (check h x) (check_all h xs) e) m

head_found :
    (ls : List String) → 0 < length ls → get_elem? ls 0 ≡ some (elim ls [ [] ↦ "" | l ∷ _ ↦ l ])
head_found [] h = absurd (omega arith)
head_found (l ∷ ls) h = refl

module _ (h : Hierarchy) (v : IsValid h) where
  pub root_depth : depth_of h (root_level h) ≡ some 0
  root_depth = v.complete (root_level h) 0 (head_found h.levels v.nonempty)

  pub check-root : check h (root h) ≡ ok tt
  unfolding check
  check-root = ground (arith, root_depth)

  module _ (parent : Scope → Result Scope) (known : List Scope)
      (vetted : check_all h known ≡ ok tt) where
    -- The checks on the resolver's answer.
    abbrev accept : String → Scope → Result (Scope × Bool)
    accept want next =
        demand (next.level == want) (sentinel invalid_scope next.level)
        >> (check h next >> ok (next, false))

    ask_parent_sound :
        (cur : Scope) (want : String) {next : Scope} {next_known : Bool}
        → ask_parent h parent known cur want ≡ ok (next, next_known)
        → (next.level ≡ want) × (check h next ≡ ok tt)
    unfolding ask_parent
    ask_parent_sound cur want {next} e =
        let (n, _, checks) = >>=-eq-ok (parent cur) (accept want) e in
        let (at, rest) = both_ok (demand (n.level == want) _) _ checks in
        let (valid, made) = both_ok (check h n) _ rest in
        let same : n ≡ next = ap (λ x. x.0) (ok-injective made) in
        (
          sym (ap (λ x. x.level) same) ∙ ==-eq n.level want (demand_passed (n.level == want) _ at),
          rw same at valid,
        )

    -- The choice that `next_scope` makes once it knows the level.
    abbrev pick : Scope → Bool → String → Result (Scope × Bool)
    pick cur cur_known want = elim (find_level known want) [
      | some next ↦ ok (next, true)
      | none ↦
          if cur_known && want == root_level h
          then ok (root h, true)
          else ask_parent h parent known cur want
    ]

    pick_sound :
        (cur : Scope) (b : Bool) (want : String) {next : Scope} {next_known : Bool}
        → pick cur b want ≡ ok (next, next_known)
        → (next.level ≡ want) × (check h next ≡ ok tt)
    pick_sound cur b want {next} {next_known} e = elim (Option-cases (find_level known want)) [
      | inr (s, found) ↦
          let (at, m) = find_level_sound known want found in
          let valid = check_all_sound h known vetted m in ground arith
      | inl unknown ↦ elim (Bool-cases (b && want == root_level h)) [
        | inl at_root ↦
            ground (arith, check-root, ==-eq want (root_level h) (and_right b _ at_root))
        | inr below ↦
            ask_parent_sound cur want {next = next} {next_known = next_known} (ground arith)
      ]
    ]

    pub next_scope_sound :
        (cur : Scope) (b : Bool) {next : Scope} {next_known : Bool}
        → next_scope h parent known cur b ≡ ok (next, next_known)
        → (level_above h cur.level ≡ ok next.level) × (check h next ≡ ok tt)
    unfolding next_scope
    next_scope_sound cur b {next} e =
        let (want, above, picked) = >>=-eq-ok (level_above h cur.level) (pick cur b) e in
        let (at, valid) = pick_sound cur b want picked in (rw at above, valid)

    -- The rest of a round, once the next scope is known.
    climb : ℕ → Scope → Scope × Bool → Result (List Scope)
    climb fuel cur (next, next_known) = do
      rest ← ancestors h parent known fuel next next_known
      ok (cur ∷ rest)

    ancestors-Up :
        (fuel : ℕ) (cur : Scope) (b : Bool) {c : List Scope}
        → ancestors h parent known fuel cur b ≡ ok c
        → (rest : List Scope) × (c ≡ cur ∷ rest) × Up h cur rest
    unfolding ancestors climb
    ancestors-Up zero cur b e = absurd (ground arith)
    ancestors-Up (suc fuel) cur b e = elim (Bool-cases (is_root h cur)) [
      | inl at_root ↦ ([], ground arith, at_root)
      | inr below ↦
          let (step, went, after) =
            >>=-eq-ok (next_scope h parent known cur b) (λ step. climb fuel cur step)
              (ground arith) in
          let (tail, rest_ok, made) =
            >>=-eq-ok (ancestors h parent known fuel step.0 step.1) _ after in
          let (above, valid) = next_scope_sound cur b went in
          let (rest, split, up) = ancestors-Up fuel step.0 step.1 rest_ok in
          (tail, sym (ok-injective made), rw split (above, valid, up))
    ]

  -- In a valid hierarchy, a successful chain starts at the scope asked for, which is valid, and
  -- climbs, one level at a time and through valid scopes only, to the root level.
  pub chain-Up :
      (parent : Scope → Result Scope) (s : Scope) (known : List Scope) {c : List Scope}
      → chain h parent s known ≡ ok c
      → (check h s ≡ ok tt) × ((rest : List Scope) × (c ≡ s ∷ rest) × Up h s rest)
  unfolding chain
  chain-Up parent s known e =
      let (valid, more) = both_ok (check h s) _ e in
      let (vetted, climbed) = both_ok (check_all h known) _ more in
      (valid, ancestors-Up parent known vetted (length h.levels) s false climbed)

  pub level_above_position :
      (l up : String) (d : ℕ)
      → level_above h l ≡ ok up
      → depth_of h l ≡ some d
      → (d' : ℕ) × (d ≡ suc d') × (get_elem? h.levels d' ≡ some up)
  unfolding level_above
  level_above_position l up zero e at = absurd (ground arith)
  level_above_position l up (suc d) e at = (d, refl, ground arith)

  take-suc :
      (ls : List String) (d : ℕ) (l : String)
      → get_elem? ls d ≡ some l
      → take (suc d) ls ≡ take d ls ++ l ∷ []
  take-suc [] d l e = absurd (ground arith)
  take-suc (x ∷ xs) zero l e = ground arith
  take-suc (x ∷ xs) (suc d) l e = ap (λ ys. x ∷ ys) (take-suc xs d l e)

  Up-levels :
      (s : Scope) (rest : List Scope) (d : ℕ)
      → Up h s rest
      → depth_of h s.level ≡ some d
      → map (λ x. x.level) (s ∷ rest) ≡ reverse (take (suc d) h.levels)
  Up-levels s [] d up at =
      let here : s.level ≡ root_level h = ==-eq s.level (root_level h) up in
      let bottom : d ≡ 0 = ground (arith, root_depth) in
      let first = take-suc h.levels 0 s.level (v.positions s.level 0 (rw here root_depth)) in
      sym (ap (λ k. reverse (take (suc k) h.levels)) bottom ∙ ap reverse first)
  Up-levels s (t ∷ rest) d (above, valid, up) at =
      let (d', below, found) = level_above_position s.level t.level d above at in
      let tail = Up-levels t rest d' up (v.complete t.level d' found) in
      let split = take-suc h.levels d s.level (v.positions s.level d at) in
      sym (
        ap reverse split
        ∙ reverse-append (take d h.levels) (s.level ∷ [])
        ∙ ap (λ k. s.level ∷ reverse (take k h.levels)) below
        ∙ ap (λ ls. s.level ∷ ls) (sym tail))

  -- In a valid hierarchy, the levels of a successful chain are the hierarchy's, from the scope's
  -- own up to the root, none left out.
  pub chain_levels :
      (parent : Scope → Result Scope) (s : Scope) (known : List Scope) {c : List Scope} (d : ℕ)
      → depth_of h s.level ≡ some d
      → chain h parent s known ≡ ok c
      → map (λ x. x.level) c ≡ reverse (take (suc d) h.levels)
  chain_levels parent s known d at e =
      let (_, up_chain) = chain-Up parent s known e in
      let (rest, split, up) = up_chain in rw split (Up-levels s rest d up at)

  -- A checked scope of the root level is the root scope.
  root_unique : (s : Scope) → is_root h s ≡ true → check h s ≡ ok tt → s ≡ root h
  unfolding check
  root_unique s at valid =
      let here : s.level ≡ root_level h = ==-eq s.level (root_level h) at in
      let bottom : depth_of h s.level ≡ some 0 = rw here root_depth in
      ground (arith, ==-eq s.id (pos 0))

  Up-root :
      (s : Scope) (rest : List Scope)
      → check h s ≡ ok tt
      → Up h s rest
      → contains (s ∷ rest) (root h) ≡ true
  Up-root s [] valid up = or_left (s == root h) _ (rw (root_unique s up valid) (==_refl (root h)))
  Up-root s (t ∷ rest) valid (above, valid', up) =
      or_right (s == root h) _ (Up-root t rest valid' up)

  -- In a valid hierarchy, the root scope lies above everything: every successful chain contains it.
  pub chain_within-root :
      (parent : Scope → Result Scope) (s : Scope) (known : List Scope) {c : List Scope}
      → chain h parent s known ≡ ok c
      → within c (root h) ≡ true
  chain_within-root parent s known e =
      let (valid, up_chain) = chain-Up parent s known e in
      let (rest, split, up) = up_chain in rw split (Up-root s rest valid up)
