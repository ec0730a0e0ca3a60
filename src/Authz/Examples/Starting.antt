-- ===== src/Authz/Examples/Starting.antt =====
-- NewEngine, applied: one predefined role over a catalogue of two permissions.
use go_core.Prelude.{
  true, pos, String, ◌≡◌, refl, [], ◌∷◌, none, some, string_eq, int_eq, lookup, insert, Memᴰ,
}
use go_core.Authz.Errors.{ok, fault, sentinel, role_not_found}
use go_core.Authz.Words.{is_word, matches_word}
use go_core.Authz.Types.{Role, Grant, qualifier_all}
use go_core.Authz.Catalogue.{has_features}
use go_core.Authz.Catalogue.Requirements.{freeze}
use go_core.Authz.Role.{resolve, validate_role}
use go_core.Authz.Role.Grants.{Sound}
use go_core.Authz.Role.Closed.{HasRequired, validate_role-closed}
use go_core.Authz.Effective.{Reader}
use go_core.Authz.Cache.{new_cache}
use go_core.Authz.Engine.{Engine}
use go_core.Authz.Engine.Setup.{Config, new_engine}
use go_core.Authz.Engine.Setup.Checked.{Ready, new_engine-Ready}
use go_core.Authz.Examples.{plain, parent_of}
use go_core.Authz.Examples.Catalogues.{edits}

abbrev grant : String → Grant
grant permission = record { permission = permission; qualifier = qualifier_all }

abbrev editor : Role
editor = record {
  id = pos 0;
  key = "editor";
  name = "Editor";
  grants = grant "crm.customers:edit" ∷ grant "crm.customers:view" ∷ [];
  attrs = [];
  computed = none;
}

abbrev empty_store : Reader
empty_store = record { bindings_for = λ _. ok []; role = λ id. fault (sentinel role_not_found "") }

abbrev cfg : Config
cfg = record {
  catalogue = some edits;
  hierarchy = some plain;
  roles = editor ∷ [];
  store = some empty_store;
  resolver = some parent_of;
  features = none;
  cache = none;
}

abbrev engine : Engine
engine = record {
  rules = record { cat = record edits { frozen = true }; h = plain; parent = parent_of };
  roles = ("editor", editor) ∷ [];
  store = empty_store;
  features = none;
}

editor_valid : validate_role editor edits ≡ ok tt
unfolding validate_role lookup insert is_word matches_word resolve
editor_valid = refl

validate_role-closed_example :
    Sound edits (grant "crm.customers:edit")
    × HasRequired edits (resolve editor edits) (grant "crm.customers:edit")
unfolding resolve
validate_role-closed_example =
    validate_role-closed editor edits editor_valid (grant "crm.customers:edit") (Memᴰ.head refl)

started : new_engine cfg ≡ ok (engine, new_cache (pos 0))
unfolding new_engine validate_role lookup insert is_word matches_word has_features freeze resolve
    new_cache
started = refl

new_engine-Ready_example : Ready engine
new_engine-Ready_example = new_engine-Ready cfg engine (new_cache (pos 0)) started
