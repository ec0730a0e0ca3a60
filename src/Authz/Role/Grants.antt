-- ===== src/Authz/Role/Grants.antt =====
-- authz/role.go: what the first loop of Validate makes of grants that it finds nothing wrong with.
use go_core.Prelude.{
  map, Map, append_nil, append_cons_ne, String, string_eq, ◌≡◌, refl, sym, ap, ◌∙◌, inl, inr, ◌⊎◌,
  true, ◌&&◌, not, List, [], ◌∷◌, ◌++◌, none, some, Memᴰ, mem_cases, lookup, insert, lookup-insert,
  ◌==◌, ==-eq, ==_refl, int_eq, arith, Bool-cases, Option-cases,
}
use mathlib.Core.Path.{subst}
use go_core.Authz.Errors.{Problem, qualifier_not_allowed, duplicate_grant}
use go_core.Authz.Types.{Permission, Grant, Qualifier, qualifier_all, qualifier_valid, ownable}
use go_core.Authz.Words.{codes}
use go_core.Authz.Catalogue.{Catalogue, lookup_permission}
use go_core.Authz.Role.{before, place, sort, sorted_keys, Held, problem, check_grants, add_if, each}

pub each-nil :
    {A : Type 0} (f : A → List Problem) (xs : List A)
    → each f xs ≡ []
    → (x : A) → Memᴰ x xs
    → f x ≡ []
each-nil f [] h = λ x m. elim m [ ]
each-nil f (y ∷ ys) h = λ x m.
    let (first, rest) = append_nil (f y) (each f ys) h in
    elim (mem_cases m) [ inl e ↦ ap f e ∙ first | inr later ↦ each-nil f ys rest x later ]

mem_place : (s t : String) (ts : List String) → Memᴰ s (t ∷ ts) → Memᴰ s (place t ts)
mem_place s t [] m = m
mem_place s t (u ∷ us) m = elim (Bool-cases (before (codes u) (codes t))) [
  | inr first ↦ rw first m
  | inl later ↦ rw later (elim (mem_cases m) [
    | inl e ↦ Memᴰ.tail (mem_place s t us (Memᴰ.head e))
    | inr rest ↦ elim (mem_cases rest) [
      | inl e ↦ Memᴰ.head e
      | inr n ↦ Memᴰ.tail (mem_place s t us (Memᴰ.tail n))
    ]
  ])
]

pub mem_sort : (s : String) (ts : List String) → Memᴰ s ts → Memᴰ s (sort ts)
mem_sort s [] m = elim m [ ]
mem_sort s (t ∷ ts) (Memᴰ.head e) = mem_place s t (sort ts) (Memᴰ.head e)
mem_sort s (t ∷ ts) (Memᴰ.tail m) = mem_place s t (sort ts) (Memᴰ.tail (mem_sort s ts m))

mem_keys :
    {V : Type 0} (m : Map String V) {k : String} {v : V}
    → Memᴰ (k, v) m
    → Memᴰ k (map (λ entry. entry.0) m)
mem_keys [] there = elim there [ ]
mem_keys (entry ∷ m) (Memᴰ.head e) = Memᴰ.head (ap (λ x. x.0) e)
mem_keys (entry ∷ m) (Memᴰ.tail n) = Memᴰ.tail (mem_keys m n)

pub mem_sorted_keys :
    {V : Type 0} (m : Map String V) (k : String) {v : V} → Memᴰ (k, v) m → Memᴰ k (sorted_keys m)
mem_sorted_keys m k there = mem_sort k (map (λ entry. entry.0) m) (mem_keys m there)

-- A grant that the first loop finds nothing wrong with.
unfoldable pub Sound : Catalogue → Grant → Type 0
Sound cat g =
    (p : Permission) × (lookup_permission cat g.permission ≡ some p)
    × (qualifier_valid g.qualifier ≡ true)
    × ((ownable p ≡ true) ⊎ (g.qualifier ≡ qualifier_all))

-- What the first loop makes of the grants when it finds nothing.
pub record Checked (cat : Catalogue) (held : Held) (gs : List Grant) (out : Held) : Type 0 where
  pub sound : (g : Grant) → Memᴰ g gs → Sound cat g
  pub kept : (g : Grant) → Memᴰ g gs → lookup g.permission out ≡ some g.qualifier
  pub keeps : (k : String) (q : Qualifier) → lookup k held ≡ some q → lookup k out ≡ some q
  pub only :
      (k : String) (q : Qualifier)
      → lookup k out ≡ some q
      → (lookup k held ≡ some q)
        ⊎ ((g : Grant) × Memᴰ g gs × (g.permission ≡ k) × (g.qualifier ≡ q))

module _ (cat : Catalogue) where
  with_grant :
      (held out : Held) (g : Grant) (gs : List Grant)
      → Sound cat g
      → lookup g.permission held ≡ none
      → Checked cat (insert g.permission g.qualifier held) gs out
      → Checked cat held (g ∷ gs) out
  with_grant held out g gs sound new rest = record {
    sound = λ x m. elim (mem_cases m) [
      | inl e ↦ subst (Sound cat) (sym e) sound
      | inr n ↦ rest.sound x n
    ];
    kept = λ x m. elim (mem_cases m) [
      | inl e ↦
          subst (λ y. lookup y.permission out ≡ some y.qualifier) (sym e)
            (rest.keeps g.permission g.qualifier (
              ground (
                arith,
                lookup-insert g.permission g.permission g.qualifier held,
                ==_refl g.permission,
              )))
      | inr n ↦ rest.kept x n
    ];
    keeps = λ k q old. rest.keeps k q (elim (Bool-cases (g.permission == k)) [
      | inl same ↦
          absurd (none_some (sym new ∙ ap (λ x. lookup x held) (==-eq g.permission k same) ∙ old))
      | inr other ↦ ground (arith, lookup-insert g.permission k g.qualifier held, other, old)
    ]);
    only = λ k q there. elim (rest.only k q there) [
      | inr (x, n, key, same) ↦ inr (x, Memᴰ.tail n, key, same)
      | inl first ↦ elim (Bool-cases (g.permission == k)) [
        | inl same ↦ inr (
          g,
          Memᴰ.head refl,
          ==-eq g.permission k same,
          ground (arith, lookup-insert g.permission k g.qualifier held, same, first),
        )
        | inr other ↦
            inl (ground (arith, lookup-insert g.permission k g.qualifier held, other, first))
      ]
    ];
  }
    where
      none_some : {q : Qualifier} → none ≡ some q → ⊥
      none_some e = ground arith

  pub check_grants-Checked :
      (held : Held) (gs : List Grant)
      → (check_grants cat held gs).0 ≡ []
      → Checked cat held gs (check_grants cat held gs).1
  unfolding check_grants Sound
  check_grants-Checked held [] clean = record {
    sound = λ g m. elim m [ ];
    kept = λ g m. elim m [ ];
    keeps = λ k q h. h;
    only = λ k q h. inl h;
  }
  check_grants-Checked held (g ∷ gs) clean =
      elim (Option-cases (lookup_permission cat g.permission)) [
        | inl unknown ↦ absurd (ground (arith, unknown))
        | inr (p, there) ↦ elim (Bool-cases (qualifier_valid g.qualifier)) [
          | inr bad ↦ absurd (ground (arith, there, bad))
          | inl valid ↦ elim (Option-cases (lookup g.permission held)) [
            | inr (q, again) ↦ absurd (
                append_cons_ne
                  (add_if (not (ownable p) && not (g.qualifier == qualifier_all))
                    qualifier_not_allowed g.permission "")
                  (problem duplicate_grant g.permission "") (check_grants cat held gs).0
                  (twice p q there valid again ∙ clean))
            | inl new ↦
                let out = insert g.permission g.qualifier held in
                let same : check_grants cat held (g ∷ gs) ≡ (
                  add_if (not (ownable p) && not (g.qualifier == qualifier_all))
                        qualifier_not_allowed g.permission ""
                      ++ (check_grants cat out gs).0,
                  (check_grants cat out gs).1,
                ) =
                  ground (arith, there, valid, new) in
                let (fine, rest) =
                  append_nil _ (check_grants cat out gs).0 (ap (λ r. r.0) (sym same) ∙ clean) in
                subst (Checked cat held (g ∷ gs)) (ap (λ r. r.1) (sym same)) (
                  with_grant held _ g gs (sound_of p there valid fine) new
                    (check_grants-Checked out gs rest))
          ]
        ]
      ]
    where
      twice :
          (p : Permission) (q : Qualifier)
          → lookup_permission cat g.permission ≡ some p
          → qualifier_valid g.qualifier ≡ true
          → lookup g.permission held ≡ some q
          → add_if
                (not (ownable p) && not (g.qualifier == qualifier_all))
                qualifier_not_allowed
                g.permission
                ""
              ++ problem duplicate_grant g.permission "" ∷ (check_grants cat held gs).0
            ≡ (check_grants cat held (g ∷ gs)).0
      twice p q there valid again = ground (arith, there, valid, again)

      sound_of :
          (p : Permission)
          → lookup_permission cat g.permission ≡ some p
          → qualifier_valid g.qualifier ≡ true
          → add_if
              (not (ownable p) && not (g.qualifier == qualifier_all))
              qualifier_not_allowed
              g.permission
              ""
            ≡ []
          → Sound cat g
      sound_of p there valid fine = (
        p,
        there,
        valid,
        elim (Bool-cases (ownable p)) [
          | inl owned ↦ inl owned
          | inr plain ↦ inr (
              ==-eq g.qualifier qualifier_all (elim (Bool-cases (g.qualifier == qualifier_all)) [
                | inl whole ↦ whole
                | inr narrow ↦ absurd (ground (arith, plain, narrow))
              ]))
        ],
      )
