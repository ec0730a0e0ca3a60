-- ===== src/Authz/Engine/Setup.antt =====
-- authz/engine.go: NewEngine. A part of the Config that is missing is `none`; the logger is left out.
pub mod Checked
use go_core.Prelude.{
  pos, String, string_eq, int_eq, Bool, false, ◌||◌, not, List, [], ◌∷◌, Option, none, some, Map,
  lookup, insert, if◌then◌else◌, ◌==◌,
}
use go_core.Authz.Errors.{Result, ok, fault, other}
use go_core.Authz.Types.{Scope, Role}
use go_core.Authz.Hierarchy.{Hierarchy}
use go_core.Authz.Catalogue.{Catalogue, has_features}
use go_core.Authz.Catalogue.Requirements.{freeze}
use go_core.Authz.Role.{validate_role}
use go_core.Authz.Effective.{Reader}
use go_core.Authz.Cache.{Cache, new_cache}
use go_core.Authz.Engine.{Engine, FeatureResolver}

pub record Config : Type 0 where
  pub catalogue : Option Catalogue
  pub hierarchy : Option Hierarchy
  pub roles : List Role
  pub store : Option Reader
  pub resolver : Option (Scope → Result Scope)
  pub features : Option FeatureResolver
  pub cache : Option Cache

-- The loop of NewEngine over the predefined roles.
unfoldable pub add_roles : Catalogue → List Role → Map String Role → Result (Map String Role)
add_roles cat [] roles = ok roles
add_roles cat (r ∷ rs) roles =
    if r.key == "" || not (r.id == pos 0)
    then fault (other "needs a Key and no ID")
    else elim (lookup r.key roles) [
      | some _ ↦ fault (other "defined twice")
      | none ↦ elim (validate_role r cat) [
        | fault err ↦ fault err
        | ok _ ↦ add_roles cat rs (insert r.key r roles)
      ]
    ]

abbrev pub needs_features : Catalogue → Option FeatureResolver → Bool
needs_features cat none = has_features cat
needs_features cat (some _) = false

-- NewEngine once no part is missing.
unfoldable pub make_engine :
    Catalogue
    → Hierarchy
    → Reader
    → (Scope → Result Scope)
    → Option FeatureResolver
    → List Role
    → Result Engine
unfolding add_roles
make_engine cat h store parent features roles =
    if needs_features cat features
    then fault (other "no FeatureResolver is configured")
    else elim (freeze cat) [
      | fault err ↦ fault err
      | ok frozen ↦ elim (add_roles frozen roles []) [
        | fault err ↦ fault err
        | ok by_key ↦ ok (record {
          rules = record { cat = frozen; h = h; parent = parent };
          roles = by_key;
          store = store;
          features = features;
        })
      ]
    ]

abbrev pub default_cache : Option Cache → Cache
default_cache none = new_cache (pos 0)
default_cache (some c) = c

-- NewEngine: the engine, and the cache it starts with.
unfoldable pub new_engine : Config → Result (Engine × Cache)
unfolding make_engine
new_engine cfg = elim cfg.catalogue [
  | none ↦ fault (other "catalogue is required")
  | some cat ↦ elim cfg.hierarchy [
    | none ↦ fault (other "hierarchy is required")
    | some h ↦ elim cfg.store [
      | none ↦ fault (other "store is required")
      | some store ↦ elim cfg.resolver [
        | none ↦ fault (other "scope resolver is required")
        | some parent ↦ elim (make_engine cat h store parent cfg.features cfg.roles) [
          | fault err ↦ fault err
          | ok e ↦ ok (e, default_cache cfg.cache)
        ]
      ]
    ]
  ]
]
