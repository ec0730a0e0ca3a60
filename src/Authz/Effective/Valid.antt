-- ===== src/Authz/Effective/Valid.antt =====
-- Which answers of the role lookup an access depends on: those for references that are well formed.
use go_core.Prelude.{◌≡◌, refl, true, List, [], ◌∷◌, arith, Bool-cases, inl, inr}
use go_core.Authz.Errors.{Result-cases}
use go_core.Authz.Types.{Subject, RoleRef, role_ref_valid, Binding}
use go_core.Authz.Effective.{
  Effective, Rules, RoleLookup, Memo, no_access, build_round, build_from, build,
}

module _ (e : Rules) (load load' : RoleLookup)
    (agree : (ref : RoleRef) → role_ref_valid ref ≡ true → load' ref ≡ load ref) where
  round_valid :
      (b : Binding) (st : Memo × Effective) → build_round e load' b st ≡ build_round e load b st
  unfolding build_round
  round_valid b (roles, eff) = elim (Bool-cases (role_ref_valid b.role)) [
    | inl valid ↦ ground (arith, agree b.role valid)
    | inr malformed ↦ ground arith
  ]

  from_valid :
      (bs : List Binding) (st : Memo × Effective)
      → build_from e load' bs st ≡ build_from e load bs st
  unfolding build_from
  from_valid [] st = refl
  from_valid (b ∷ bs) st = elim (Result-cases (build_round e load b st)) [
    | inl (next, round) ↦ rw (round_valid b st, round) (from_valid bs next)
    | inr (x, failed) ↦ rw (round_valid b st, failed) refl
  ]

  pub build_valid : (s : Subject) (bs : List Binding) → build e load' s bs ≡ build e load s bs
  unfolding build
  build_valid s bs = from_valid bs ([], no_access s)
