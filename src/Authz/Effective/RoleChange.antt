-- ===== src/Authz/Effective/RoleChange.antt =====
-- What Cache.EvictRole relies on: the role IDs that build notes are all that an access rests on.
use go_core.Prelude.{
  ℤ, ◌≡◌, sym, ap, ◌∙◌, ◌⊎◌, true, false, List, [], ◌∷◌, lookup, insert, arith, ◌==◌, int_eq,
  string_eq, contains, is_positive, Bool-cases, Option-cases, inl, inr, ==_refl, ==-eq,
}
use go_core.Authz.Errors.{ok, >>=-eq-ok, Result-cases, ok-injective, ◌>>=◌}
use go_core.Authz.Types.{Subject, RoleRef, role_ref_eq, role_ref_valid, Role, Binding, Scope}
use go_core.Authz.Hierarchy.{chain}
use go_core.Authz.Effective.{
  Effective, Rules, RoleLookup, Memo, uses_role, no_access, add_id, pin, add_clauses, build_scope,
  note_role, build_round, build_from, build,
}

add_id-contains :
    (x id : ℤ) (ids : List ℤ) → contains ids id ≡ true → contains (add_id x ids) id ≡ true
add_id-contains x id ids h = ground arith

contains-add_id : (id : ℤ) (ids : List ℤ) → contains (add_id id ids) id ≡ true
contains-add_id id ids = ground (arith, ==_refl id)

module _ (e : Rules) (id : ℤ) (positive : is_positive id ≡ true) where
  note_role_keeps :
      (b : Binding) (eff : Effective)
      → uses_role eff id ≡ true
      → uses_role (note_role b eff) id ≡ true
  note_role_keeps b eff h = ground (arith, add_id-contains b.role.id id eff.role_ids)

  note_role_notes :
      (b : Binding) (eff : Effective)
      → (b.role.id == id) ≡ true
      → uses_role (note_role b eff) id ≡ true
  note_role_notes b eff same =
      ground (arith, contains-add_id id eff.role_ids, ==-eq b.role.id id same)

  add_clauses_ids :
      (b : Binding) (role : Role) (c : List Scope) (eff : Effective)
      → (add_clauses e b role c eff).role_ids ≡ eff.role_ids
  unfolding add_clauses pin
  add_clauses_ids b role c eff = ground arith

  build_scope_ids :
      (b : Binding) (role : Role) (eff : Effective) {eff' : Effective}
      → build_scope e b role eff ≡ ok eff'
      → eff'.role_ids ≡ eff.role_ids
  unfolding build_scope
  build_scope_ids b role eff h = elim (Result-cases (chain e.h e.parent b.scope [])) [
    | inl (c, up) ↦ ground (arith, add_clauses_ids b role c eff)
    | inr (x, failed) ↦ ground arith
  ]

  scope_round_ids :
      (b : Binding) (role : Role) (m : Memo) (eff : Effective) {state' : Memo × Effective}
      → (build_scope e b role eff >>= λ eff'. ok (m, eff')) ≡ ok state'
      → state'.1.role_ids ≡ eff.role_ids
  scope_round_ids b role m eff h =
      let (eff', scoped, made) = >>=-eq-ok (build_scope e b role eff) (λ eff'. ok (m, eff')) h in
      ap (λ st. st.1.role_ids) (sym (ok-injective made)) ∙ build_scope_ids b role eff scoped

  -- A round's role IDs are those before it with the binding's own noted, unless it is malformed.
  round_ids :
      (load : RoleLookup) (b : Binding) (roles : Memo) (eff : Effective) {state' : Memo × Effective}
      → role_ref_valid b.role ≡ true
      → build_round e load b (roles, eff) ≡ ok state'
      → state'.1.role_ids ≡ (note_role b eff).role_ids
  unfolding build_round
  round_ids load b roles eff {state'} valid h = elim (Option-cases (lookup b.role roles)) [
    | inr (role, kept) ↦
        scope_round_ids b role roles (note_role b eff) {state' = state'} (ground arith)
    | inl new ↦ elim (Result-cases (load b.role)) [
      | inl (role, loaded) ↦
          scope_round_ids b role (insert b.role role roles) (note_role b eff) {state' = state'}
            (ground arith)
      | inr (x, failed) ↦ ground arith
    ]
  ]

  round_keeps :
      (load : RoleLookup) (b : Binding) (roles : Memo) (eff : Effective) {state' : Memo × Effective}
      → build_round e load b (roles, eff) ≡ ok state'
      → uses_role eff id ≡ true
      → uses_role state'.1 id ≡ true
  unfolding build_round
  round_keeps load b roles eff {state'} h uses = elim (Bool-cases (role_ref_valid b.role)) [
    | inr malformed ↦ ground arith
    | inl valid ↦
        ground
          (arith, round_ids load b roles eff {state' = state'} valid h, note_role_keeps b eff uses)
  ]

  from_keeps :
      (load : RoleLookup) (bs : List Binding) (roles : Memo) (eff : Effective) {out : Effective}
      → build_from e load bs (roles, eff) ≡ ok out
      → uses_role eff id ≡ true
      → uses_role out id ≡ true
  unfolding build_from
  from_keeps load [] roles eff h uses = ground arith
  from_keeps load (b ∷ bs) roles eff h uses =
      let (state', round, rest) =
        >>=-eq-ok (build_round e load b (roles, eff)) (build_from e load bs) h in
      from_keeps load bs state'.0 state'.1 rest (round_keeps load b roles eff round uses)

  module _ (load load' : RoleLookup)
      (agree : (ref : RoleRef) → (ref.id == id) ≡ false → load' ref ≡ load ref) where
    -- A round over a binding that does not name the role is the same under both lookups.
    round_same :
        (b : Binding) (roles : Memo) (eff : Effective)
        → (role_ref_valid b.role ≡ false) ⊎ ((b.role.id == id) ≡ false)
        → build_round e load' b (roles, eff) ≡ build_round e load b (roles, eff)
    unfolding build_round
    round_same b roles eff (inl malformed) = ground arith
    round_same b roles eff (inr other) = ground (arith, agree b.role other)

    unnamed :
        (b : Binding) (bs : List Binding) (roles : Memo) (eff : Effective)
        {state' : Memo × Effective} {out : Effective}
        → build_round e load b (roles, eff) ≡ ok state'
        → build_from e load bs state' ≡ ok out
        → uses_role out id ≡ false
        → (role_ref_valid b.role ≡ false) ⊎ ((b.role.id == id) ≡ false)
    unnamed b bs roles eff {state'} round rest unused = elim (Bool-cases (role_ref_valid b.role)) [
      | inr malformed ↦ inl malformed
      | inl valid ↦ elim (Bool-cases (b.role.id == id)) [
        | inr other ↦ inr other
        | inl named ↦
            let noted : uses_role state'.1 id ≡ true =
              rw (round_ids load b roles eff valid round) (note_role_notes b eff named) in
            absurd (ground (arith, from_keeps load bs state'.0 state'.1 rest noted))
      ]
    ]

    from_same :
        (bs : List Binding) (roles : Memo) (eff : Effective) {out : Effective}
        → build_from e load bs (roles, eff) ≡ ok out
        → uses_role out id ≡ false
        → build_from e load' bs (roles, eff) ≡ ok out
    unfolding build_from
    from_same [] roles eff h unused = h
    from_same (b ∷ bs) roles eff h unused =
        let (state', round, rest) =
          >>=-eq-ok (build_round e load b (roles, eff)) (build_from e load bs) h in
        let same = round_same b roles eff (unnamed b bs roles eff round rest unused) in
        rw (same, round) (from_same bs state'.0 state'.1 rest unused)

    -- An access that does not note a stored role is not changed by any change to that role: where the
    -- lookups agree on every reference but those that name the role, build gives the same access.
    pub build-unused_role :
        (s : Subject) (bs : List Binding) {eff : Effective}
        → build e load s bs ≡ ok eff
        → uses_role eff id ≡ false
        → build e load' s bs ≡ ok eff
    unfolding build
    build-unused_role s bs h unused = from_same bs [] (no_access s) h unused
