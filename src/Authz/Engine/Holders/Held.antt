-- ===== src/Authz/Engine/Holders/Held.antt =====
-- authz/holders.go: whom HoldersOf lists.
use go_core.Prelude.{
  String, string_eq, ◌≡◌, ◌↔◌, refl, sym, ◌∙◌, inl, inr, true, List, [], ◌++◌, some, Memᴰ, arith,
  Option-cases,
}
use go_core.Prelude.Counting.{no_duplicates}
use mathlib.Core.Path.{subst}
use go_core.Authz.Errors.{ok, Result-cases, ok-injective}
use go_core.Authz.Types.{Subject, subject_eq, Role, Binding}
use go_core.Authz.Catalogue.{lookup_permission}
use go_core.Authz.Engine.{Engine}
use go_core.Authz.Engine.Holders.{
  role_grants, ref, predefined_roles, HoldersOf, held_by, sort_bindings, add_subjects, holders_of,
}
use go_core.Authz.Engine.Holders.Roles.{HeldBy, held_by-HeldBy, Known, mem_Known}
use go_core.Authz.Engine.Holders.Order.{InOrder, InOrder-map, Earlier, add_subjects-InOrder}
use go_core.Authz.Engine.Holders.Subjects.{
  mem_sort_bindings, BoundBy, add_subjects-BoundBy, add_subjects_once,
}

-- A binding of a role that grants the permission, predefined or custom.
abbrev pub Counts : Engine → List Role → HoldersOf → String → Binding → Type 0
Counts e custom holders permission b =
    (r : Role) × Known e custom r
    × (role_grants r e.cat permission ≡ true)
    × (bs : List Binding) × (holders (ref r) ≡ ok bs)
    × Memᴰ b bs

-- What HoldersOf answers, from what the store does: each subject once, a subject exactly when a
-- binding of it counts, and the subjects in the order of their first bindings that count.
pub record Answers (e : Engine) (custom : List Role) (holders : HoldersOf) (permission : String)
    (out : List Subject) : Type 0 where
  pub once : no_duplicates out ≡ true
  pub exact :
      (s : Subject)
      → Memᴰ s out ↔ ((b : Binding) × Counts e custom holders permission b × (b.subject ≡ s))
  pub ordered : InOrder (Earlier (Counts e custom holders permission)) out

module _ (e : Engine) (custom : List Role) (holders : HoldersOf) (permission : String)
    (bs : List Binding)
    (held : held_by e.cat holders permission (predefined_roles e ++ custom) ≡ ok bs) where
  mem_Counts : (b : Binding) → Memᴰ b bs ↔ Counts e custom holders permission b
  unfolding HeldBy
  mem_Counts b =
      let all = held_by-HeldBy e.cat holders permission (predefined_roles e ++ custom) bs held b in
      (
        λ m.
            let (r, n, grants, theirs, asked, there) = all.0 m in
            (r, (mem_Known e custom r).0 n, grants, theirs, asked, there),
        λ (r, known, grants, theirs, asked, there).
            all.1 (r, (mem_Known e custom r).1 known, grants, theirs, asked, there),
      )

  listed : Answers e custom holders permission (add_subjects (sort_bindings bs) [])
  unfolding BoundBy
  listed = record {
    once = add_subjects_once (sort_bindings bs) [] refl;
    exact = λ s.
        let added = add_subjects-BoundBy (sort_bindings bs) [] s in
        (
          λ m. elim (added.0 m) [
            | inl past ↦ absurd (elim past [ ])
            | inr (b, n, is_s) ↦ (b, (mem_Counts b).0 ((mem_sort_bindings b bs).0 n), is_s)
          ],
          λ (b, counts, is_s).
              added.1 (inr (b, (mem_sort_bindings b bs).1 ((mem_Counts b).1 counts), is_s)),
        );
    ordered =
        InOrder-map (add_subjects (sort_bindings bs) [])
          (λ s t (b, is_in, is_s, first). (
            b,
            (mem_Counts b).0 is_in,
            is_s,
            λ c counts same. first c ((mem_Counts c).1 counts) same,
          ))
          (add_subjects-InOrder bs);
  }

-- When HoldersOf answers, over a store that lists the custom roles and the holders of a role, the
-- answer has no subject twice, a subject exactly when some role that grants the permission,
-- predefined or custom, has a binding of that subject, and the subjects in the order of the lowest
-- ids of these bindings.
pub holders_of-Answers :
    (e : Engine) (custom : List Role) (holders : HoldersOf) (permission : String)
    (out : List Subject)
    → holders_of e (some (ok custom)) (some holders) permission ≡ ok out
    → Answers e custom holders permission out
unfolding holders_of
holders_of-Answers e custom holders permission out answered =
    elim (Option-cases (lookup_permission e.cat permission)) [
      | inl unknown ↦ absurd (ground (arith, unknown))
      | inr (p, declared) ↦
          elim (Result-cases (held_by e.cat holders permission (predefined_roles e ++ custom))) [
            | inr (x, failed) ↦ absurd (ground (arith, declared, failed))
            | inl (bs, held) ↦
                let to : holders_of e (some (ok custom)) (some holders) permission
                    ≡ ok (add_subjects (sort_bindings bs) []) =
                  ground (arith, declared, held) in
                subst (Answers e custom holders permission) (ok-injective (sym to ∙ answered))
                  (listed e custom holders permission bs held)
          ]
    ]
