-- ===== src/Authz/Engine/Setup/Checked.antt =====
-- authz/engine.go: what NewEngine has checked of the engine that it returns.
use go_core.Prelude.{
  pos, String, string_eq, int_eq, true, false, ◌||◌, not, List, [], ◌∷◌, Option, none, some, Map,
  lookup, insert, ◌==◌, ◌≡◌, refl, sym, ap, ◌∙◌, inl, inr, Memᴰ, lookup-insert, ==-eq, arith,
  Bool-cases, Option-cases,
}
use mathlib.Core.Path.{subst}
use go_core.Authz.Errors.{Result, ok, fault, Result-cases}
use go_core.Authz.Types.{Scope, Role, Grant}
use go_core.Authz.Hierarchy.{Hierarchy}
use go_core.Authz.Catalogue.{Catalogue, has_features}
use go_core.Authz.Catalogue.Requirements.{freeze, validate}
use go_core.Authz.Catalogue.Requirements.Acyclic.{Grounded}
use go_core.Authz.Catalogue.Requirements.Exact.{validate-Grounded}
use go_core.Authz.Role.{validate_role, resolve}
use go_core.Authz.Role.Grants.{Sound}
use go_core.Authz.Role.Closed.{HasRequired, validate_role-closed}
use go_core.Authz.Effective.{Reader}
use go_core.Authz.Cache.{Cache}
use go_core.Authz.Engine.{Engine, FeatureResolver}
use go_core.Authz.Engine.Setup.{
  Config, add_roles, needs_features, make_engine, new_engine, default_cache,
}

-- Every role stands under its own key, has no ID, and Validate accepts it.
unfoldable pub AllValid : Catalogue → Map String Role → Type 0
AllValid cat roles =
    (key : String) (r : Role)
    → lookup key roles ≡ some r
    → (r.key ≡ key) × ((r.key == "") ≡ false) × (r.id ≡ pos 0) × (validate_role r cat ≡ ok tt)

with_role :
    (cat : Catalogue) (r : Role) (roles : Map String Role)
    → (r.key == "") ≡ false
    → (r.id == pos 0) ≡ true
    → validate_role r cat ≡ ok tt
    → AllValid cat roles
    → AllValid cat (insert r.key r roles)
unfolding AllValid
with_role cat r roles named custom valid all key x found = elim (Bool-cases (r.key == key)) [
  | inr differs ↦ all key x (ground (arith, lookup-insert r.key key r roles, differs, found))
  | inl same ↦
      let is_r : r ≡ x = ground (arith, lookup-insert r.key key r roles, same, found) in
      subst
        (λ y.
          (y.key ≡ key) × ((y.key == "") ≡ false) × (y.id ≡ pos 0) × (validate_role y cat ≡ ok tt))
        is_r (==-eq r.key key same, named, ==-eq r.id (pos 0) custom, valid)
]

add_roles-AllValid :
    (cat : Catalogue) (rs : List Role) (roles out : Map String Role)
    → AllValid cat roles
    → add_roles cat rs roles ≡ ok out
    → AllValid cat out
unfolding add_roles
add_roles-AllValid cat [] roles out all done =
    subst (AllValid cat) (ap (λ o. elim o [ fault _ ↦ roles | ok x ↦ x ]) done) all
add_roles-AllValid cat (r ∷ rs) roles out all done =
    elim (Bool-cases (r.key == "" || not (r.id == pos 0))) [
      | inl bad ↦ absurd (ground (arith, bad))
      | inr good ↦ elim (Option-cases (lookup r.key roles)) [
        | inr (x, twice) ↦ absurd (ground (arith, good, twice))
        | inl new ↦ elim (Result-cases (validate_role r cat)) [
          | inr (err, invalid) ↦ absurd (ground (arith, good, new, invalid))
          | inl (u, valid) ↦
              add_roles-AllValid cat rs (insert r.key r roles) out
                (with_role cat r roles (ground (arith, good)) (ground (arith, good)) valid all)
                (ground (arith, good, new, valid))
        ]
      ]
    ]

-- What NewEngine promises of an engine: the catalogue is frozen and without cycles, features have their
-- resolver, and every grant of a predefined role is sound and has what it requires.
pub record Ready (e : Engine) : Type 0 where
  pub frozen : e.cat.frozen ≡ true
  pub acyclic : (id : String) → Memᴰ id e.cat.order → Grounded e.cat.perms id
  pub resolved : needs_features e.cat e.features ≡ false
  pub keyed : (key : String) (r : Role) → lookup key e.roles ≡ some r → r.key ≡ key
  pub closed :
      (key : String) (r : Role) (g : Grant)
      → lookup key e.roles ≡ some r
      → Memᴰ g (resolve r e.cat)
      → Sound e.cat g × HasRequired e.cat (resolve r e.cat) g

freeze-ok :
    (cat out : Catalogue)
    → freeze cat ≡ ok out
    → (out ≡ record cat { frozen = true }) × (validate cat ≡ ok tt)
unfolding freeze
freeze-ok cat out h = elim (Result-cases (validate cat)) [
  | inr (err, bad) ↦ absurd (ground (arith, bad))
  | inl (u, fine) ↦
      let same : freeze cat ≡ ok (record cat { frozen = true }) = ground (arith, fine) in
      (ap (λ o. elim o [ fault _ ↦ out | ok x ↦ x ]) (sym h ∙ same), fine)
]

no_roles : (cat : Catalogue) → AllValid cat []
unfolding AllValid lookup
no_roles cat key r found = absurd (ground arith)

frozen_features :
    (cat : Catalogue) (features : Option FeatureResolver)
    → needs_features (record cat { frozen = true }) features ≡ needs_features cat features
unfolding has_features
frozen_features cat none = refl
frozen_features cat (some f) = refl

built-Ready :
    (cat frozen : Catalogue) (h : Hierarchy) (store : Reader) (parent : Scope → Result Scope)
    (features : Option FeatureResolver) (roles : List Role) (by_key : Map String Role)
    → needs_features cat features ≡ false
    → freeze cat ≡ ok frozen
    → add_roles frozen roles [] ≡ ok by_key
    → Ready (record {
      rules = record { cat = frozen; h = h; parent = parent };
      roles = by_key;
      store = store;
      features = features;
    })
unfolding AllValid
built-Ready cat frozen h store parent features roles by_key resolved froze added =
    let (same, fine) = freeze-ok cat frozen froze in
    let valid = add_roles-AllValid frozen roles [] by_key (no_roles frozen) added in
    record {
      frozen = ap (λ c. c.frozen) same;
      acyclic =
          subst (λ c. (id : String) → Memᴰ id c.order → Grounded c.perms id) (sym same)
            ((validate-Grounded cat).0 fine).1;
      resolved =
          subst (λ c. needs_features c features ≡ false) (sym same)
            (frozen_features cat features ∙ resolved);
      keyed = λ key r found. (valid key r found).0;
      closed = λ key r g found m.
          let (named, full, custom, accepted) = valid key r found in
          validate_role-closed r frozen accepted g m;
    }

make_engine-Ready :
    (cat : Catalogue) (h : Hierarchy) (store : Reader) (parent : Scope → Result Scope)
    (features : Option FeatureResolver) (roles : List Role) (e : Engine)
    → make_engine cat h store parent features roles ≡ ok e
    → Ready e
unfolding make_engine
make_engine-Ready cat h store parent features roles e made =
    elim (Bool-cases (needs_features cat features)) [
      | inl missing ↦ absurd (ground (arith, missing))
      | inr resolved ↦ elim (Result-cases (freeze cat)) [
        | inr (err, bad) ↦ absurd (ground (arith, resolved, bad))
        | inl (frozen, froze) ↦ elim (Result-cases (add_roles frozen roles [])) [
          | inr (err, bad) ↦ absurd (ground (arith, resolved, froze, bad))
          | inl (by_key, added) ↦
              let built : Engine = record {
                rules = record { cat = frozen; h = h; parent = parent };
                roles = by_key;
                store = store;
                features = features;
              } in
              let same : make_engine cat h store parent features roles ≡ ok built =
                ground (arith, resolved, froze, added) in
              subst Ready (ap (λ o. elim o [ fault _ ↦ built | ok x ↦ x ]) (sym same ∙ made))
                (built-Ready cat frozen h store parent features roles by_key resolved froze added)
        ]
      ]
    ]

-- An engine that NewEngine returns is ready: its catalogue is frozen and has no cycle of requirements, a
-- permission with a feature has a FeatureResolver to ask, and of every predefined role each grant is of a
-- declared permission with a fitting qualifier and comes with the grants that it requires.
pub new_engine-Ready :
    (cfg : Config) (e : Engine) (cache : Cache) → new_engine cfg ≡ ok (e, cache) → Ready e
unfolding new_engine
new_engine-Ready cfg e cache made = elim (Option-cases cfg.catalogue) [
  | inl missing ↦ absurd (ground (arith, missing))
  | inr (cat, is_cat) ↦ elim (Option-cases cfg.hierarchy) [
    | inl missing ↦ absurd (ground (arith, is_cat, missing))
    | inr (h, is_h) ↦ elim (Option-cases cfg.store) [
      | inl missing ↦ absurd (ground (arith, is_cat, is_h, missing))
      | inr (store, is_store) ↦ elim (Option-cases cfg.resolver) [
        | inl missing ↦ absurd (ground (arith, is_cat, is_h, is_store, missing))
        | inr (parent, is_parent) ↦
            elim (Result-cases (make_engine cat h store parent cfg.features cfg.roles)) [
              | inr (err, bad) ↦ absurd (ground (arith, is_cat, is_h, is_store, is_parent, bad))
              | inl (built, fine) ↦
                  let same : new_engine cfg ≡ ok (built, default_cache cfg.cache) =
                    ground (arith, is_cat, is_h, is_store, is_parent, fine) in
                  subst Ready (ap (λ o. elim o [ fault _ ↦ built | ok x ↦ x.0 ]) (sym same ∙ made))
                    (make_engine-Ready cat h store parent cfg.features cfg.roles built fine)
            ]
      ]
    ]
  ]
]
