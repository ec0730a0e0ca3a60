-- ===== src/Authz/Clause/Prune.antt =====
-- What prune promises: the access that the clauses give is unchanged.
use go_core.Prelude.{
  ℕ, suc, ◌+◌, ◌<◌, ◌≡◌, and_intro, refl, sym, ◌∙◌, ap, Bool, true, false, ◌&&◌, not, List, [], ◌∷◌,
  some, ◌==◌, nat_eq, any, keep, ltb, arith, Memᴰ, get_elem?, map, Bool-cases, inl, inr, any_intro,
  all,
}
use mathlib.Core.Path.{subst}
use go_core.Prelude.Dominance.{undominated, any-keep-undominated, keep_elim}
use go_core.Authz.Types.{Scope}
use go_core.Authz.Errors.{Result}
use go_core.Authz.Hierarchy.{Hierarchy}
use go_core.Authz.Clause.{Clause, covers, redundant, prune_from, prune}
use go_core.Authz.Clause.Covers.{IsResolved, covers_trans}

-- A clause with its position in the list.
abbrev At : Type 0
At = ℕ × Clause

abbrev enumerate : ℕ → List Clause → List At
enumerate i [] = []
enumerate i (c ∷ cs) = (i, c) ∷ enumerate (suc i) cs

-- The clause at the first position makes the other redundant.
abbrev beats : At → At → Bool
beats (j, o) (i, c) = not (i == j) && covers o c && not (covers c o && ltb i j)

redundant-any :
    (i : ℕ) (c : Clause) (j : ℕ) (os : List Clause)
    → redundant i c j os ≡ any (λ y. beats y (i, c)) (enumerate j os)
unfolding redundant
redundant-any i c j [] = refl
redundant-any i c j (o ∷ os) = ground (arith, redundant-any i c (suc j) os)

prune_from-keep :
    (clauses : List Clause) (i : ℕ) (cs : List Clause)
    → prune_from clauses i cs
      ≡ map (λ x. x.1) (keep (undominated beats (enumerate 0 clauses)) (enumerate i cs))
unfolding prune_from
prune_from-keep clauses i [] = refl
prune_from-keep clauses i (c ∷ cs) =
    ground (arith, redundant-any i c 0 clauses, prune_from-keep clauses (suc i) cs)

any-map_clause :
    (p : Clause → Bool) (xs : List At) → any p (map (λ x. x.1) xs) ≡ any (λ x. p x.1) xs
any-map_clause p [] = refl
any-map_clause p (x ∷ xs) = ground (arith, any-map_clause p xs)

any-enumerate :
    (p : Clause → Bool) (i : ℕ) (cs : List Clause) → any (λ x. p x.1) (enumerate i cs) ≡ any p cs
any-enumerate p i [] = refl
any-enumerate p i (c ∷ cs) = ground (arith, any-enumerate p (suc i) cs)

-- A member of the enumeration stands at its position.
enumerate_position :
    (i : ℕ) (cs : List Clause) {x : At}
    → Memᴰ x (enumerate i cs)
    → (k : ℕ) × (x.0 ≡ i + k) × (get_elem? cs k ≡ some x.1)
enumerate_position i [] m = elim m [ ]
enumerate_position i (c ∷ cs) (Memᴰ.head e) = (0, ground (arith, e), ground (arith, e))
enumerate_position i (c ∷ cs) (Memᴰ.tail m) =
    let (k, at, found) = enumerate_position (suc i) cs m in (suc k, omega arith, found)

module _ (h : Hierarchy) (parent : Scope → Result Scope) (clauses : List Clause)
    (resolved : (c : Clause) → Memᴰ c clauses → IsResolved h parent c) where
  enumerate_mem : (i : ℕ) (cs : List Clause) {x : At} → Memᴰ x (enumerate i cs) → Memᴰ x.1 cs
  enumerate_mem i [] m = elim m [ ]
  enumerate_mem i (c ∷ cs) (Memᴰ.head e) = Memᴰ.head (ap (λ x. x.1) e)
  enumerate_mem i (c ∷ cs) (Memᴰ.tail m) = Memᴰ.tail (enumerate_mem (suc i) cs m)

  abbrev entries : List At
  entries = enumerate 0 clauses

  same_position : (x y : At) → Memᴰ x entries → Memᴰ y entries → x.0 ≡ y.0 → x.1 ≡ y.1
  same_position x y m n e =
      let (k, at, found) = enumerate_position 0 clauses m in
      let (k', at', found') = enumerate_position 0 clauses n in ground arith

  chained :
      (a b c : At)
      → Memᴰ b entries
      → Memᴰ c entries
      → covers a.1 b.1 ≡ true
      → covers b.1 c.1 ≡ true
      → covers a.1 c.1 ≡ true
  chained a b c mb mc =
      covers_trans h parent a.1 b.1 c.1 (resolved b.1 (enumerate_mem 0 clauses mb))
        (resolved c.1 (enumerate_mem 0 clauses mc))

  beats_irrefl : (x : At) → Memᴰ x entries → beats x x ≡ false
  beats_irrefl x m = ground arith

  beats_trans :
      (z y x : At)
      → Memᴰ z entries
      → Memᴰ y entries
      → Memᴰ x entries
      → beats z y ≡ true
      → beats y x ≡ true
      → beats z x ≡ true
  beats_trans z y x mz my mx zy yx =
      let zx = chained z y x my mx in
      let xy = chained x z y mz my in
      let yz = chained y x z mx mz in
      let same = same_position z x mz mx in ground (arith, zx, xy, yz, same)

  -- Among clauses that carry the chains of their own scopes, pruning keeps the union of what the
  -- clauses give: a predicate that a covering clause has whenever the covered one has it, such as
  -- reaching a record, holds of some clause before exactly when it holds of some clause after.
  pub any-prune :
      (p : Clause → Bool)
      → ((a b : Clause)
          → Memᴰ a clauses
          → Memᴰ b clauses
          → covers a b ≡ true
          → p b ≡ true
          → p a ≡ true)
      → any p (prune clauses) ≡ any p clauses
  unfolding prune
  any-prune p preserved =
      ap (any p) (prune_from-keep clauses 0 clauses)
      ∙ any-map_clause p (keep (undominated beats entries) entries)
      ∙ any-keep-undominated beats entries beats_irrefl beats_trans (λ x. p x.1)
          (λ y x my mx wins has.
            preserved y.1 x.1 (enumerate_mem 0 clauses my) (enumerate_mem 0 clauses mx)
              (beats_covers y x wins) has)
      ∙ any-enumerate p 0 clauses
    where
      beats_covers : (y x : At) → beats y x ≡ true → covers y.1 x.1 ≡ true
      beats_covers y x wins = ground arith

-- No two entries of the list are related by covering, in either direction.
abbrev pub Antichain : List Clause → Type 0
Antichain [] = Unit {0}
Antichain (c ∷ cs) = (all (λ o. not (covers o c) && not (covers c o)) cs ≡ true) × Antichain cs

not_beaten :
    (xs : List At) (y x : At) → Memᴰ y xs → undominated beats xs x ≡ true → beats y x ≡ false
not_beaten xs y x m free = elim (Bool-cases (beats y x)) [
  | inr loses ↦ loses
  | inl wins ↦ absurd (ground (arith, any_intro (λ z. beats z x) xs m wins))
]

-- Of two undominated entries at different positions neither covers the other.
undominated_apart :
    (xs : List At) (x y : At)
    → Memᴰ x xs
    → Memᴰ y xs
    → undominated beats xs x ≡ true
    → undominated beats xs y ≡ true
    → x.0 < y.0
    → (not (covers y.1 x.1) && not (covers x.1 y.1)) ≡ true
undominated_apart xs x y mx my ux uy lt =
    ground (arith, not_beaten xs y x my ux, not_beaten xs x y mx uy)

all-map_clause :
    (p : Clause → Bool) (xs : List At)
    → ((x : At) → Memᴰ x xs → p x.1 ≡ true)
    → all p (map (λ x. x.1) xs) ≡ true
all-map_clause p [] h = refl
all-map_clause p (x ∷ xs) h =
    and_intro (p x.1) _ (h x (Memᴰ.head refl)) (all-map_clause p xs (λ y m. h y (Memᴰ.tail m)))

kept-Antichain :
    (xs : List At) (i : ℕ) (cs : List Clause)
    → ((x : At) → Memᴰ x (enumerate i cs) → Memᴰ x xs)
    → Antichain (map (λ x. x.1) (keep (undominated beats xs) (enumerate i cs)))
kept-Antichain xs i [] sub = tt
kept-Antichain xs i (c ∷ cs) sub =
    let rest = kept-Antichain xs (suc i) cs (λ x m. sub x (Memᴰ.tail m)) in
    elim (Bool-cases (undominated beats xs (i, c))) [
      | inr dropped ↦ rw dropped rest
      | inl kept ↦
          rw kept (
            all-map_clause _ (keep (undominated beats xs) (enumerate (suc i) cs)) (apart kept),
            rest,
          )
    ]
  where
    apart :
        undominated beats xs (i, c) ≡ true
        → (y : At) → Memᴰ y (keep (undominated beats xs) (enumerate (suc i) cs))
        → (not (covers y.1 c) && not (covers c y.1)) ≡ true
    apart kept y m =
        let (n, free) = keep_elim (undominated beats xs) (enumerate (suc i) cs) m in
        let (k, at, _) = enumerate_position (suc i) cs n in
        undominated_apart xs (i, c) y (sub (i, c) (Memᴰ.head refl)) (sub y (Memᴰ.tail n)) kept free
          (omega arith)

-- After pruning no clause is covered by another.
pub prune-Antichain : (clauses : List Clause) → Antichain (prune clauses)
unfolding prune
prune-Antichain clauses =
    subst Antichain (sym (prune_from-keep clauses 0 clauses))
      (kept-Antichain (enumerate 0 clauses) 0 clauses (λ x m. m))
