-- ===== src/Authz/Engine/Holders/Order.antt =====
-- authz/holders.go: the order in which HoldersOf lists the subjects.
use go_core.Prelude.{
  ◌≡◌, refl, sym, ap, inl, inr, ◌⊎◌, true, false, List, [], ◌∷◌, ◌++◌, Memᴰ, mem_cases, mem_append,
  mem_append_left, mem_append_right, int_leb, int_leb_total, int_leb_trans, arith, Bool-cases,
  contains, contains_intro, contains_elim,
}
use mathlib.Core.Path.{subst}
use go_core.Authz.Types.{Subject, subject_eq, Binding}
use go_core.Authz.Engine.Holders.{put_binding, sort_bindings, add_subjects}
use go_core.Authz.Engine.Holders.Subjects.{mem_put_binding, mem_sort_bindings}

-- The first of the bindings is not later than those after it, and so on.
unfoldable pub IsSorted : List Binding → Type 0
IsSorted [] = Unit {0}
IsSorted (b ∷ bs) = ((c : Binding) → Memᴰ c bs → int_leb b.id c.id ≡ true) × IsSorted bs

put_binding-IsSorted : (b : Binding) (bs : List Binding) → IsSorted bs → IsSorted (put_binding b bs)
unfolding IsSorted
put_binding-IsSorted b [] sorted = (λ c m. elim m [ ], tt)
put_binding-IsSorted b (d ∷ ds) (first, rest) = elim (Bool-cases (int_leb b.id d.id)) [
  | inl before ↦ rw before (
    λ c m. elim (mem_cases m) [
      | inl e ↦ subst (λ x. int_leb b.id x.id ≡ true) (sym e) before
      | inr n ↦ int_leb_trans b.id d.id c.id before (first c n)
    ],
    (first, rest),
  )
  | inr after ↦ rw after (
    λ c m. elim (mem_cases ((mem_put_binding c b ds).0 m)) [
      | inl e ↦ subst (λ x. int_leb d.id x.id ≡ true) (sym e) (int_leb_total b.id d.id after)
      | inr n ↦ first c n
    ],
    put_binding-IsSorted b ds rest,
  )
]

pub sort_bindings-IsSorted : (bs : List Binding) → IsSorted (sort_bindings bs)
unfolding IsSorted
sort_bindings-IsSorted [] = tt
sort_bindings-IsSorted (b ∷ bs) =
    put_binding-IsSorted b (sort_bindings bs) (sort_bindings-IsSorted bs)

-- Every element stands in this relation to each of those after it.
unfoldable pub InOrder : (Subject → Subject → Type 0) → List Subject → Type 0
InOrder R [] = Unit {0}
InOrder R (s ∷ ss) = ((t : Subject) → Memᴰ t ss → R s t) × InOrder R ss

pub InOrder-map :
    {R S : Subject → Subject → Type 0} (ss : List Subject)
    → ((s t : Subject) → R s t → S s t)
    → InOrder R ss
    → InOrder S ss
unfolding InOrder
InOrder-map [] into ordered = tt
InOrder-map (s ∷ ss) into (first, rest) = (λ t m. into s t (first t m), InOrder-map ss into rest)

InOrder-append :
    (R : Subject → Subject → Type 0) (ss : List Subject) (t : Subject)
    → InOrder R ss
    → ((s : Subject) → Memᴰ s ss → R s t)
    → InOrder R (ss ++ (t ∷ []))
unfolding InOrder
InOrder-append R [] t ordered before = (λ x m. elim m [ ], tt)
InOrder-append R (s ∷ ss) t (first, rest) before = (
  λ x m. elim (mem_append ss m) [
    | inl there ↦ first x there
    | inr last ↦ elim (mem_cases last) [
      | inl e ↦ subst (R s) (sym e) (before s (Memᴰ.head refl))
      | inr past ↦ absurd (elim past [ ])
    ]
  ],
  InOrder-append R ss t rest (λ y m. before y (Memᴰ.tail m)),
)

-- Some binding of the one subject is not later than any of the other's, of the bindings that count.
abbrev pub Earlier : (Binding → Type 0) → Subject → Subject → Type 0
Earlier Counts s t =
    (b : Binding) × Counts b
    × (b.subject ≡ s)
    × ((c : Binding) → Counts c → c.subject ≡ t → int_leb b.id c.id ≡ true)

module _ (all : List Binding) where
  abbrev In : Binding → Type 0
  In b = Memᴰ b all

  -- The loop over the bindings `bs`, the last ones of all, with the subjects of the others in `out`.
  pub record Passed (bs : List Binding) (out : List Subject) : Type 0 where
    pub sorted : IsSorted bs
    pub within : (b : Binding) → Memᴰ b bs → In b
    pub found :
        (s : Subject)
        → Memᴰ s out
        → (b : Binding) × In b
          × (b.subject ≡ s)
          × ((c : Binding) → Memᴰ c bs → int_leb b.id c.id ≡ true)
    pub others : (b : Binding) → In b → Memᴰ b bs ⊎ Memᴰ b.subject out
    pub ordered : InOrder (Earlier In) out

  Passed-known :
      (c : Binding) (cs : List Binding) (out : List Subject)
      → Memᴰ c.subject out
      → Passed (c ∷ cs) out
      → Passed cs out
  unfolding IsSorted
  Passed-known c cs out known passed = record {
    sorted = passed.sorted.1;
    within = λ b m. passed.within b (Memᴰ.tail m);
    found = λ s m.
        let (b, is_in, is_s, first) = passed.found s m in
        (b, is_in, is_s, λ d n. first d (Memᴰ.tail n));
    others = λ b m. elim (passed.others b m) [
      | inr there ↦ inr there
      | inl n ↦ elim (mem_cases n) [
        | inl e ↦ inr (subst (λ x. Memᴰ x.subject out) (sym e) known)
        | inr later ↦ inl later
      ]
    ];
    ordered = passed.ordered;
  }

  Earlier-next :
      (c : Binding) (cs : List Binding) (out : List Subject)
      → contains out c.subject ≡ false
      → Passed (c ∷ cs) out
      → (s : Subject) → Memᴰ s out
      → Earlier In s c.subject
  Earlier-next c cs out new passed s m =
      let (b, is_in, is_s, first) = passed.found s m in
      (
        b,
        is_in,
        is_s,
        λ d there same. elim (passed.others d there) [
          | inl n ↦ first d n
          | inr already ↦ absurd (
              ground
                (arith, new, contains_intro out c.subject (subst (λ x. Memᴰ x out) same already)))
        ],
      )

  Passed-new :
      (c : Binding) (cs : List Binding) (out : List Subject)
      → contains out c.subject ≡ false
      → Passed (c ∷ cs) out
      → Passed cs (out ++ (c.subject ∷ []))
  unfolding IsSorted
  Passed-new c cs out new passed = record {
    sorted = passed.sorted.1;
    within = λ b m. passed.within b (Memᴰ.tail m);
    found = λ s m. elim (mem_append out m) [
      | inl old ↦
          let (b, is_in, is_s, first) = passed.found s old in
          (b, is_in, is_s, λ d n. first d (Memᴰ.tail n))
      | inr last ↦ elim (mem_cases last) [
        | inl e ↦ (c, passed.within c (Memᴰ.head refl), sym e, passed.sorted.0)
        | inr past ↦ absurd (elim past [ ])
      ]
    ];
    others = λ b m. elim (passed.others b m) [
      | inr there ↦ inr (mem_append_left out (c.subject ∷ []) there)
      | inl n ↦ elim (mem_cases n) [
        | inl e ↦ inr (mem_append_right out (c.subject ∷ []) (Memᴰ.head (ap (λ x. x.subject) e)))
        | inr later ↦ inl later
      ]
    ];
    ordered =
        InOrder-append (Earlier In) out c.subject passed.ordered (Earlier-next c cs out new passed);
  }

  Passed-ordered :
      (bs : List Binding) (out : List Subject)
      → Passed bs out
      → InOrder (Earlier In) (add_subjects bs out)
  unfolding add_subjects
  Passed-ordered [] out passed = passed.ordered
  Passed-ordered (c ∷ cs) out passed = elim (Bool-cases (contains out c.subject)) [
    | inl known ↦
        rw known
          (Passed-ordered cs out (Passed-known c cs out (contains_elim out c.subject known) passed))
    | inr new ↦
        rw new (Passed-ordered cs (out ++ (c.subject ∷ [])) (Passed-new c cs out new passed))
  ]

-- The last loop lists the subjects in the order of their first bindings.
pub add_subjects-InOrder :
    (bs : List Binding) → InOrder (Earlier (λ b. Memᴰ b bs)) (add_subjects (sort_bindings bs) [])
unfolding InOrder
add_subjects-InOrder bs = InOrder-map (add_subjects (sort_bindings bs) []) into (
    Passed-ordered (sort_bindings bs) (sort_bindings bs) [] (record {
      sorted = sort_bindings-IsSorted bs;
      within = λ b m. m;
      found = λ s m. absurd (elim m [ ]);
      others = λ b m. inl m;
      ordered = tt;
    }))
  where
    into :
        (s t : Subject)
        → Earlier (λ b. Memᴰ b (sort_bindings bs)) s t
        → Earlier (λ b. Memᴰ b bs) s t
    into s t (b, is_in, is_s, first) = (
      b,
      (mem_sort_bindings b bs).0 is_in,
      is_s,
      λ c m same. first c ((mem_sort_bindings c bs).1 m) same,
    )
