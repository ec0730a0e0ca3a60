-- ===== src/Authz/Engine/Holders/Roles.antt =====
-- authz/holders.go: the roles that HoldersOf looks through, and the bindings it finds.
use go_core.Prelude.{
  String, string_eq, ◌≡◌, ◌↔◌, refl, sym, ap, ◌∙◌, inl, inr, ◌⊎◌, true, List, [], ◌∷◌, ◌++◌, some,
  Map, Memᴰ, mem_cases, mem_of_eq, lookup-mem, mem_append, mem_append_left, mem_append_right,
  lookup, arith, Bool-cases, Option-cases,
}
use mathlib.Core.Path.{subst}
use go_core.Authz.Errors.{ok, Result-cases, ok-injective}
use go_core.Authz.Types.{subject_eq, Role, Binding}
use go_core.Authz.Catalogue.{Catalogue}
use go_core.Authz.Engine.{Engine}
use go_core.Authz.Role.{sorted_keys}
use go_core.Authz.Role.Grants.{mem_sorted_keys}
use go_core.Authz.Engine.Holders.{role_grants, ref, roles_at, predefined_roles, HoldersOf, held_by}

-- A binding of a role that grants the permission.
unfoldable pub HeldBy : Catalogue → HoldersOf → String → List Role → Binding → Type 0
HeldBy cat holders permission roles b =
    (r : Role) × Memᴰ r roles
    × (role_grants r cat permission ≡ true)
    × (bs : List Binding) × (holders (ref r) ≡ ok bs)
    × Memᴰ b bs

module _ (cat : Catalogue) (holders : HoldersOf) (permission : String) where
  HeldBy-later :
      (r : Role) (rs : List Role) (b : Binding)
      → HeldBy cat holders permission rs b
      → HeldBy cat holders permission (r ∷ rs) b
  unfolding HeldBy
  HeldBy-later r rs b (x, m, grants, bs, theirs, there) =
      (x, Memᴰ.tail m, grants, bs, theirs, there)

  pub held_by-HeldBy :
      (roles : List Role) (out : List Binding)
      → held_by cat holders permission roles ≡ ok out
      → (b : Binding) → Memᴰ b out ↔ HeldBy cat holders permission roles b
  unfolding held_by HeldBy
  held_by-HeldBy [] out h b = (
    λ m. absurd (elim (subst (λ l. Memᴰ b l) (sym (ok-injective h)) m) [ ]),
    λ (r, m, grants, bs, theirs, there). absurd (elim m [ ]),
  )
  held_by-HeldBy (r ∷ rs) out h b = elim (Bool-cases (role_grants r cat permission)) [
    | inr not_so ↦
        let rest = held_by-HeldBy rs out (ground (arith, not_so)) b in
        (
          λ m. HeldBy-later r rs b (rest.0 m),
          λ (x, m, grants, bs, theirs, there). elim (mem_cases m) [
            | inl same ↦ absurd (
                ground
                  (arith, subst (λ y. role_grants y cat permission ≡ true) same grants, not_so))
            | inr later ↦ rest.1 (x, later, grants, bs, theirs, there)
          ],
        )
    | inl does ↦ elim (Result-cases (holders (ref r))) [
      | inr (x, failed) ↦ absurd (ground (arith, does, failed))
      | inl (held, asked) ↦ elim (Result-cases (held_by cat holders permission rs)) [
        | inr (x, failed) ↦ absurd (ground (arith, does, asked, failed))
        | inl (others, listed) ↦
            let to : held_by cat holders permission (r ∷ rs) ≡ ok (held ++ others) =
              ground (arith, does, asked, listed) in
            let same = ok-injective (sym to ∙ h) in
            let rest = held_by-HeldBy rs others listed b in
            (
              λ m. elim (mem_append held (subst (λ l. Memᴰ b l) (sym same) m)) [
                | inl here ↦ (r, Memᴰ.head refl, does, held, asked, here)
                | inr later ↦ HeldBy-later r rs b (rest.0 later)
              ],
              λ (x, m, grants, bs, theirs, there).
                  subst (λ l. Memᴰ b l) same
                    (elim (mem_cases m) [
                      | inl is_r ↦
                          let found =
                            ok-injective (sym theirs ∙ ap (λ y. holders (ref y)) is_r ∙ asked) in
                          mem_append_left held others (subst (λ l. Memᴰ b l) found there)
                      | inr later ↦
                          mem_append_right held others
                            (rest.1 (x, later, grants, bs, theirs, there))
                    ]),
            )
      ]
    ]
  ]

-- A predefined role of the engine, or one of these custom roles.
abbrev pub Known : Engine → List Role → Role → Type 0
Known e custom r = ((key : String) × (lookup key e.roles ≡ some r)) ⊎ Memᴰ r custom

roles_at-lookup :
    (roles : Map String Role) (keys : List String) (r : Role)
    → Memᴰ r (roles_at roles keys)
    → (key : String) × (lookup key roles ≡ some r)
unfolding roles_at
roles_at-lookup roles [] r m = absurd (elim m [ ])
roles_at-lookup roles (key ∷ keys) r m = elim (Option-cases (lookup key roles)) [
  | inl missing ↦ roles_at-lookup roles keys r (mem_of_eq (ground (arith, missing)) m)
  | inr (x, found) ↦
      let to : roles_at roles (key ∷ keys) ≡ x ∷ roles_at roles keys = ground (arith, found) in
      elim (mem_cases (mem_of_eq to m)) [
        | inl same ↦ (key, found ∙ ap (λ y. some y) (sym same))
        | inr later ↦ roles_at-lookup roles keys r later
      ]
]

lookup-roles_at :
    (roles : Map String Role) (keys : List String) (key : String) (r : Role)
    → Memᴰ key keys
    → lookup key roles ≡ some r
    → Memᴰ r (roles_at roles keys)
unfolding roles_at
lookup-roles_at roles [] key r m found = absurd (elim m [ ])
lookup-roles_at roles (k ∷ keys) key r m found = elim (Option-cases (lookup k roles)) [
  | inl missing ↦ elim (mem_cases m) [
    | inl same ↦ absurd (ground (arith, ap (λ x. lookup x roles) same, missing, found))
    | inr later ↦
        let to : roles_at roles keys ≡ roles_at roles (k ∷ keys) = ground (arith, missing) in
        mem_of_eq to (lookup-roles_at roles keys key r later found)
  ]
  | inr (x, here) ↦
      let to : x ∷ roles_at roles keys ≡ roles_at roles (k ∷ keys) = ground (arith, here) in
      mem_of_eq to (elim (mem_cases m) [
        | inl same ↦ Memᴰ.head (ground (arith, ap (λ y. lookup y roles) same, here, found))
        | inr later ↦ Memᴰ.tail (lookup-roles_at roles keys key r later found)
      ])
]

pub mem_Known :
    (e : Engine) (custom : List Role) (r : Role)
    → Memᴰ r (predefined_roles e ++ custom) ↔ Known e custom r
mem_Known e custom r = (
  λ m. elim (mem_append (predefined_roles e) m) [
    | inl first ↦ inl (roles_at-lookup e.roles (sorted_keys e.roles) r first)
    | inr later ↦ inr later
  ],
  λ known. elim known [
    | inl (key, found) ↦
        let there = mem_sorted_keys e.roles key (lookup-mem key e.roles found) in
        mem_append_left (predefined_roles e) custom
          (lookup-roles_at e.roles (sorted_keys e.roles) key r there found)
    | inr m ↦ mem_append_right (predefined_roles e) custom m
  ],
)
