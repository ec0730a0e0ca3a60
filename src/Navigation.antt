-- ===== src/Navigation.antt =====
-- navigation/navigation.go: the menu tree, its validation and its filter. A node holds a list of
-- nodes, so the two are one mutual block. What net/url's Parse makes of an Href that is no path, an
-- http or https URL with a host or not, is the parameter `is_web_url`.
pub mod Filter
mod Examples
use go_core.Prelude.{
  ℕ, String, string_eq, Bool, true, false, ◌&&◌, ◌||◌, not, List, [], ◌∷◌, any, all, contains,
  if◌then◌else◌, ◌==◌, nat_beq, Option, none, some,
}
use go_core.Authz.Words.{codes}

pub record Label : Type 0 where
  pub i18n : String
  pub icon : String
  pub route : String
  pub href : String
  pub permissions : List String
  pub gate : List String
  pub requires : List String

mutual
  pub data Node : Type 0 where
    node : Label → Nodes → Node

  pub data Nodes : Type 0 where
    no_nodes : Nodes
    more : Node → Nodes → Nodes

abbrev pub nonempty : Nodes → Bool
nonempty no_nodes = false
nonempty (more n ns) = true

abbrev pub has_any : List String → Bool
has_any [] = false
has_any (p ∷ ps) = true

-- holdsAll and holdsOne
abbrev pub holds_all : List String → (String → Bool) → Bool
holds_all required held = all held required

abbrev pub holds_one : List String → (String → Bool) → Bool
holds_one permissions held = any held permissions

-- Held
abbrev pub held_of : List String → String → Bool
held_of permissions p = contains permissions p

-- Filter
unfoldable pub filter : (String → Bool) → Nodes → Nodes
filter held no_nodes = no_nodes
filter held (more (node n children) ns) =
    let kept = filter held children in
    let rest = filter held ns in
    if not (holds_all n.requires held)
    then rest
    else (if nonempty kept
        then more (node n kept) rest
        else (if has_any n.permissions || has_any n.gate
            then (if holds_one n.permissions held || holds_one n.gate held
                then more (node n kept) rest
                else rest)
            else (if nonempty children then rest else more (node n kept) rest)))

-- strings.ContainsAny(href, "\r\n\t")
abbrev pub has_break : List ℕ → Bool
has_break cs = any (λ c. nat_beq c 13 || nat_beq c 10 || nat_beq c 9) cs

-- The part of validHref for an href that starts with "/", over what comes after it.
abbrev pub valid_path : List ℕ → Bool
valid_path [] = true
valid_path (c ∷ cs) = not (nat_beq c b'/') && not (nat_beq c b'\\') && not (has_break (c ∷ cs))

-- validHref
unfoldable pub valid_href : (String → Bool) → String → Bool
valid_href is_web_url href = elim (codes href) [
  | [] ↦ is_web_url href
  | c ∷ cs ↦ if nat_beq c b'/' then valid_path cs else is_web_url href
]

-- Validate: the key of the node that it refuses, if any.
unfoldable pub validate : (String → Bool) → Nodes → Option String
unfolding valid_href
validate is_web_url no_nodes = none
validate is_web_url (more (node n children) ns) =
    let rest = validate is_web_url ns in
    let below = validate is_web_url children in
    if not (n.route == "") && not (n.href == "")
    then some n.i18n
    else (if not (n.href == "") && not (valid_href is_web_url n.href)
        then some n.i18n
        else elim below [ some key ↦ some key | none ↦ rest ])
