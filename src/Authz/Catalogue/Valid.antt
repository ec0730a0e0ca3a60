-- ===== src/Authz/Catalogue/Valid.antt =====
-- What Define establishes: every permission stands under its own identifier, has passed the checks, and
-- is in the definition order exactly once it is defined.
use go_core.Prelude.{
  String, string_eq, ◌≡◌, refl, sym, ◌∙◌, ◌⊎◌, inl, inr, Bool, true, false, ◌||◌, List, [], ◌∷◌,
  ◌++◌, Option, none, some, lookup, insert, lookup-insert, any-append, ◌==◌, ==-eq, contains, arith,
  Bool-cases,
}
use mathlib.Core.Path.{subst}
use go_core.Authz.Errors.{ok, Problem}
use go_core.Authz.Types.{Permission}
use go_core.Authz.Catalogue.{
  Catalogue, DefineOption, apply_options, bare_permission, check_identifier, check_permission,
  define,
}

abbrev pub is_some : Option Permission → Bool
is_some none = false
is_some (some p) = true

-- A permission that may stand under the identifier.
abbrev pub Defined : String → Permission → Type 0
Defined id p = (p.id ≡ id) × (check_identifier id ≡ true) × (check_permission p ≡ [])

pub record IsValid (c : Catalogue) : Type 0 where
  pub defined : (id : String) (p : Permission) → lookup id c.perms ≡ some p → Defined id p
  pub ordered : (id : String) → contains c.order id ≡ is_some (lookup id c.perms)

no_problems :
    (ps : List Problem) → (ps ≡ []) ⊎ ((q : Problem) × (qs : List Problem) × (ps ≡ q ∷ qs))
no_problems [] = inl refl
no_problems (q ∷ qs) = inr (q, qs, refl)

-- What a successful Define has passed, and what it leaves.
define_parts :
    (c : Catalogue) (id : String) (opts : List DefineOption) {c' : Catalogue}
    → define c id opts ≡ ok c'
    → (check_identifier id ≡ true)
      × (lookup id c.perms ≡ none)
      × (check_permission (apply_options opts (bare_permission id)) ≡ [])
      × (c'.perms ≡ insert id (apply_options opts (bare_permission id)) c.perms)
      × (c'.order ≡ c.order ++ id ∷ [])
unfolding define
define_parts c id opts h =
    elim (no_problems (check_permission (apply_options opts (bare_permission id)))) [
      | inl clean ↦ (ground arith, ground arith, clean, ground arith, ground arith)
      | inr (q, qs, found) ↦ absurd (ground arith)
    ]

module _ (c c' : Catalogue) (id : String) (made : Permission)
    (perms : c'.perms ≡ insert id made c.perms) (order : c'.order ≡ c.order ++ id ∷ []) where
  new_entry :
      (x : String) (p : Permission) → (id == x) ≡ true → lookup x c'.perms ≡ some p → made ≡ p
  new_entry x p same found = ground (arith, lookup-insert id x made c.perms)

  old_entry : (x : String) → (id == x) ≡ false → lookup x c'.perms ≡ lookup x c.perms
  old_entry x other = ground (arith, lookup-insert id x made c.perms)

  order_after : (x : String) → contains c'.order x ≡ (contains c.order x || (id == x))
  order_after x = ground (arith, any-append (λ y. y == x) c.order (id ∷ []))

  ordered_after : IsValid c → (x : String) → contains c'.order x ≡ is_some (lookup x c'.perms)
  ordered_after valid x =
      ground (arith, order_after x, valid.ordered x, lookup-insert id x made c.perms)

-- Define keeps the catalogue valid, as long as the options leave the identifier alone: every permission
-- stands under its own identifier, which has the form that the grammar asks for, and has passed the checks
-- on its metadata, and the definition order lists exactly the permissions that are defined.
pub define-IsValid :
    (c : Catalogue) (id : String) (opts : List DefineOption) {c' : Catalogue}
    → ((p : Permission) → (apply_options opts p).id ≡ p.id)
    → IsValid c
    → define c id opts ≡ ok c'
    → IsValid c'
define-IsValid c id opts {c'} keeps valid h =
    let (named, new, clean, perms, order) = define_parts c id opts h in
    let made : Permission = apply_options opts (bare_permission id) in
    record {
      defined = λ x p found. elim (Bool-cases (id == x)) [
        | inl same ↦
            subst (λ q. Defined x q) (new_entry c c' id made perms order x p same found)
              (subst (λ y. Defined y made) (==-eq id x same)
                (keeps (bare_permission id), named, clean))
        | inr other ↦ valid.defined x p (sym (old_entry c c' id made perms order x other) ∙ found)
      ];
      ordered = λ x. ordered_after c c' id made perms order valid x;
    }
