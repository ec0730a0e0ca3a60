-- ===== src/Navigation/Examples.antt =====
-- A menu with one group of two pages, seen by somebody who may open one of them.
use go_core.Prelude.{String, ◌≡◌, ◌↔◌, refl, Bool, true, [], ◌∷◌}
use go_core.Navigation.{Label, Nodes, node, no_nodes, more, filter, held_of}
use go_core.Navigation.Filter.{Way, shown, open_all, filter-Way}

abbrev bare : String → String → Label
bare i18n route = record {
  i18n = i18n;
  icon = "";
  route = route;
  href = "";
  permissions = [];
  gate = [];
  requires = [];
}

abbrev group : Label
group = record (bare "nav.admin" "") { requires = "admin:use" ∷ [] }

abbrev roles_page : Label
roles_page = record (bare "nav.roles" "roles.index") { permissions = "access.role:view" ∷ [] }

abbrev users_page : Label
users_page = record (bare "nav.users" "users.index") { permissions = "access.user:view" ∷ [] }

abbrev menu : Nodes
menu =
    more (node group (more (node users_page no_nodes) (more (node roles_page no_nodes) no_nodes)))
      no_nodes

abbrev mine : String → Bool
mine = held_of ("admin:use" ∷ "access.role:view" ∷ [])

roles_in_menu : Way menu (group ∷ []) roles_page no_nodes
roles_in_menu = Way.down (Way.past Way.at)

roles_shown : shown mine roles_page no_nodes ≡ true
unfolding filter
roles_shown = refl

roles_left : Way (filter mine menu) (group ∷ []) roles_page no_nodes
unfolding filter
roles_left = Way.down Way.at

filter-Way_example : Way (filter mine menu) (group ∷ []) roles_page no_nodes ↔ (
    (below : Nodes) × Way menu (group ∷ []) roles_page below
    × (no_nodes ≡ filter mine below)
    × (open_all mine (group ∷ []) ≡ true)
    × (shown mine roles_page below ≡ true))
filter-Way_example = filter-Way mine menu (group ∷ []) roles_page no_nodes
