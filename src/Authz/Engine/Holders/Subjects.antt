-- ===== src/Authz/Engine/Holders/Subjects.antt =====
-- authz/holders.go: what HoldersOf makes of the bindings it has found.
use go_core.Prelude.{
  string_eq, ◌≡◌, ◌↔◌, refl, sym, ap, ◌∙◌, inl, inr, ◌⊎◌, true, false, List, [], ◌∷◌, ◌++◌, Memᴰ,
  mem_cases, mem_append, mem_append_left, mem_append_right, ◌==◌, int_leb, ==_refl, arith,
  Bool-cases, contains, contains_intro, contains_elim,
}
use go_core.Prelude.Counting.{no_duplicates}
use mathlib.Core.Path.{subst}
use go_core.Authz.Types.{Subject, subject_eq, Binding}
use go_core.Authz.Engine.Holders.{put_binding, sort_bindings, add_subjects}

pub mem_put_binding :
    (b c : Binding) (cs : List Binding) → Memᴰ b (put_binding c cs) ↔ Memᴰ b (c ∷ cs)
mem_put_binding b c [] = (λ m. m, λ m. m)
mem_put_binding b c (d ∷ ds) = elim (Bool-cases (int_leb c.id d.id)) [
  | inl first ↦ rw first (λ m. m, λ m. m)
  | inr later ↦
      let rest = mem_put_binding b c ds in
      rw later (
        λ m. elim (mem_cases m) [
          | inl e ↦ Memᴰ.tail (Memᴰ.head e)
          | inr n ↦ elim (mem_cases (rest.0 n)) [
            | inl e ↦ Memᴰ.head e
            | inr k ↦ Memᴰ.tail (Memᴰ.tail k)
          ]
        ],
        λ m. elim (mem_cases m) [
          | inl e ↦ Memᴰ.tail (rest.1 (Memᴰ.head e))
          | inr n ↦ elim (mem_cases n) [
            | inl e ↦ Memᴰ.head e
            | inr k ↦ Memᴰ.tail (rest.1 (Memᴰ.tail k))
          ]
        ],
      )
]

pub mem_sort_bindings : (b : Binding) (bs : List Binding) → Memᴰ b (sort_bindings bs) ↔ Memᴰ b bs
mem_sort_bindings b [] = (λ m. m, λ m. m)
mem_sort_bindings b (c ∷ cs) =
    let put = mem_put_binding b c (sort_bindings cs) in
    let rest = mem_sort_bindings b cs in
    (
      λ m. elim (mem_cases (put.0 m)) [ inl e ↦ Memᴰ.head e | inr n ↦ Memᴰ.tail (rest.0 n) ],
      λ m. put.1 (elim (mem_cases m) [ inl e ↦ Memᴰ.head e | inr n ↦ Memᴰ.tail (rest.1 n) ]),
    )

no_duplicates-append :
    (xs : List Subject) (s : Subject)
    → contains xs s ≡ false
    → no_duplicates xs ≡ true
    → no_duplicates (xs ++ (s ∷ [])) ≡ true
no_duplicates-append [] s new once = refl
no_duplicates-append (x ∷ xs) s new once = elim (Bool-cases (contains (xs ++ (s ∷ [])) x)) [
  | inl again ↦ elim (mem_append xs (contains_elim (xs ++ (s ∷ [])) x again)) [
    | inl here ↦ absurd (ground (arith, contains_intro xs x here))
    | inr last ↦ elim (mem_cases last) [
      | inl same ↦ absurd (ground (arith, ap (λ y. y == s) same, ==_refl s))
      | inr past ↦ absurd (elim past [ ])
    ]
  ]
  | inr first ↦ ground (arith, no_duplicates-append xs s)
]

-- A subject that one of these bindings is of.
unfoldable pub BoundBy : List Binding → Subject → Type 0
BoundBy bs s = (b : Binding) × Memᴰ b bs × (b.subject ≡ s)

-- What the last loop makes of the subjects found so far.
pub add_subjects-BoundBy :
    (bs : List Binding) (out : List Subject) (s : Subject)
    → Memᴰ s (add_subjects bs out) ↔ (Memᴰ s out ⊎ BoundBy bs s)
unfolding add_subjects BoundBy
add_subjects-BoundBy [] out s =
    (λ m. inl m, λ h. elim h [ inl m ↦ m | inr (b, m, e) ↦ absurd (elim m [ ]) ])
add_subjects-BoundBy (b ∷ bs) out s = elim (Bool-cases (contains out b.subject)) [
  | inl known ↦
      let rest = add_subjects-BoundBy bs out s in
      rw known (
        λ m. elim (rest.0 m) [ inl n ↦ inl n | inr (c, n, e) ↦ inr (c, Memᴰ.tail n, e) ],
        λ h. rest.1 (elim h [
          | inl n ↦ inl n
          | inr (c, n, e) ↦ elim (mem_cases n) [
            | inl same ↦ inl (
                subst (λ x. Memᴰ x out) (ap (λ x. x.subject) (sym same) ∙ e)
                  (contains_elim out b.subject known))
            | inr later ↦ inr (c, later, e)
          ]
        ]),
      )
  | inr new ↦
      let rest = add_subjects-BoundBy bs (out ++ (b.subject ∷ [])) s in
      rw new (
        λ m. elim (rest.0 m) [
          | inr (c, n, e) ↦ inr (c, Memᴰ.tail n, e)
          | inl n ↦ elim (mem_append out n) [
            | inl there ↦ inl there
            | inr last ↦ elim (mem_cases last) [
              | inl e ↦ inr (b, Memᴰ.head refl, sym e)
              | inr past ↦ absurd (elim past [ ])
            ]
          ]
        ],
        λ h. rest.1 (elim h [
          | inl n ↦ inl (mem_append_left out (b.subject ∷ []) n)
          | inr (c, n, e) ↦ elim (mem_cases n) [
            | inl same ↦ inl (
                mem_append_right out (b.subject ∷ [])
                  (Memᴰ.head (sym e ∙ ap (λ x. x.subject) same)))
            | inr later ↦ inr (c, later, e)
          ]
        ]),
      )
]

pub add_subjects_once :
    (bs : List Binding) (out : List Subject)
    → no_duplicates out ≡ true
    → no_duplicates (add_subjects bs out) ≡ true
unfolding add_subjects
add_subjects_once [] out once = once
add_subjects_once (b ∷ bs) out once = elim (Bool-cases (contains out b.subject)) [
  | inl known ↦ rw known (add_subjects_once bs out once)
  | inr new ↦
      rw new (
        add_subjects_once bs (out ++ (b.subject ∷ []))
          (no_duplicates-append out b.subject new once))
]
