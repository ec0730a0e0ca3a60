-- ===== src/Money/Allocation/Largest.antt =====
-- The leftover cents: the order of the indices holds each one once, and each index adds a cent to its part.
use go_core.Prelude.{
  ℕ, zero, suc, ◌+◌, ◌^◌, ◌≤◌, ◌<◌, ◌≡◌, refl, ◌∙◌, ap, ◌&&◌, List, [], ◌∷◌, some, leb, ltb,
  nat_beq, if◌then◌else◌, length, take, get_elem?, arith, Bool-cases, inl, inr,
}
use go_core.Money.{Int64, add_int64}
use go_core.Money.Allocation.{Share, insert_index, sort_from, increment, increment_each}

-- How often an index stands in the order.
abbrev pub hits : ℕ → List (ℕ × ℕ) → ℕ
hits j [] = 0
hits j ((i, rem) ∷ order) = (if nat_beq i j then 1 else 0) + hits j order

abbrev pub AllBelow : ℕ → List (ℕ × ℕ) → Type 0
AllBelow n [] = Unit {0}
AllBelow n ((i, rem) ∷ order) = (i < n) × AllBelow n order

abbrev pub sum_of : List ℕ → ℕ
sum_of [] = 0
sum_of (p ∷ ps) = p + sum_of ps

hits-insert_index :
    (j i rem : ℕ) (order : List (ℕ × ℕ))
    → hits j (insert_index (i, rem) order) ≡ (if nat_beq i j then 1 else 0) + hits j order
hits-insert_index j i rem [] = refl
hits-insert_index j i rem ((k, other) ∷ order) = ground (arith, hits-insert_index j i rem order)

length-insert_index :
    (i rem : ℕ) (order : List (ℕ × ℕ)) → length (insert_index (i, rem) order) ≡ suc (length order)
length-insert_index i rem [] = refl
length-insert_index i rem ((k, other) ∷ order) = ground (arith, length-insert_index i rem order)

insert_index-AllBelow :
    (n i rem : ℕ) (order : List (ℕ × ℕ))
    → i < n
    → AllBelow n order
    → AllBelow n (insert_index (i, rem) order)
insert_index-AllBelow n i rem [] lt below = (lt, tt)
insert_index-AllBelow n i rem ((k, other) ∷ order) lt (first, below) =
    elim (Bool-cases (leb other rem)) [
      | inl before ↦ rw before (lt, (first, below))
      | inr after ↦ rw after (first, insert_index-AllBelow n i rem order lt below)
    ]

-- Each index from i on stands in the order once, and no other.
pub hits-sort_from :
    (j i : ℕ) (shares : List Share)
    → hits j (sort_from i shares) ≡ (if leb i j && ltb j (i + length shares) then 1 else 0)
unfolding sort_from
hits-sort_from j i [] = ground arith
hits-sort_from j i (s ∷ ss) =
    ground (arith, hits-insert_index j i s.rem (sort_from (suc i) ss), hits-sort_from j (suc i) ss)

pub length-sort_from : (i : ℕ) (shares : List Share) → length (sort_from i shares) ≡ length shares
unfolding sort_from
length-sort_from i [] = refl
length-sort_from i (s ∷ ss) =
    length-insert_index i s.rem (sort_from (suc i) ss) ∙ ap suc (length-sort_from (suc i) ss)

pub sort_from-AllBelow :
    (n i : ℕ) (shares : List Share) → i + length shares ≤ n → AllBelow n (sort_from i shares)
unfolding sort_from
sort_from-AllBelow n i [] le = tt
sort_from-AllBelow n i (s ∷ ss) le =
    insert_index-AllBelow n i s.rem (sort_from (suc i) ss) (omega arith)
      (sort_from-AllBelow n (suc i) ss (omega arith))

pub take-AllBelow : (n k : ℕ) (order : List (ℕ × ℕ)) → AllBelow n order → AllBelow n (take k order)
take-AllBelow n zero order below = tt
take-AllBelow n (suc k) [] below = tt
take-AllBelow n (suc k) ((i, rem) ∷ order) (lt, below) = (lt, take-AllBelow n k order below)

pub hits-take : (j k : ℕ) (order : List (ℕ × ℕ)) → hits j (take k order) ≤ hits j order
hits-take j zero order = omega arith
hits-take j (suc k) [] = omega arith
hits-take j (suc k) ((i, rem) ∷ order) = ground (arith, hits-take j k order)

pub length-take : (k : ℕ) (order : List (ℕ × ℕ)) → k ≤ length order → length (take k order) ≡ k
length-take zero order le = refl
length-take (suc k) [] le = absurd (omega arith)
length-take (suc k) (x ∷ order) le = ap suc (length-take k order (omega arith))

length-increment : (i : ℕ) (ps : List Int64) → length (increment i ps) ≡ length ps
unfolding increment
length-increment i [] = refl
length-increment zero (p ∷ ps) = refl
length-increment (suc i) (p ∷ ps) = ap suc (length-increment i ps)

pub length-increment_each :
    (order : List (ℕ × ℕ)) (ps : List Int64) → length (increment_each order ps) ≡ length ps
unfolding increment_each
length-increment_each [] ps = refl
length-increment_each ((i, rem) ∷ order) ps =
    length-increment_each order (increment i ps) ∙ length-increment i ps

sum_of-increment :
    (i : ℕ) (ps : List Int64)
    → i < length ps
    → suc (sum_of ps) < 2 ^ 64
    → sum_of (increment i ps) ≡ suc (sum_of ps)
unfolding increment
sum_of-increment i [] lt fits = absurd (omega arith)
sum_of-increment zero (p ∷ ps) lt fits = omega arith
sum_of-increment (suc i) (p ∷ ps) lt fits = omega (arith, sum_of-increment i ps)

-- Every index of the order adds a cent to the sum.
pub sum_of-increment_each :
    (order : List (ℕ × ℕ)) (ps : List Int64)
    → AllBelow (length ps) order
    → sum_of ps + length order < 2 ^ 64
    → sum_of (increment_each order ps) ≡ sum_of ps + length order
unfolding increment_each
sum_of-increment_each [] ps below fits = omega arith
sum_of-increment_each ((i, rem) ∷ order) ps (lt, below) fits =
    let one = sum_of-increment i ps lt (omega arith) in
    omega (
      arith,
      sum_of-increment_each order (increment i ps) (rw (length-increment i ps) below) (omega arith),
    )

get_elem?-increment :
    (i j : ℕ) (ps : List Int64) {p : Int64}
    → get_elem? ps j ≡ some p
    → get_elem? (increment i ps) j ≡ some (if nat_beq i j then add_int64 p 1 else p)
unfolding increment
get_elem?-increment i j [] found = absurd (ground arith)
get_elem?-increment zero zero (q ∷ ps) found = ground arith
get_elem?-increment zero (suc j) (q ∷ ps) found = ground arith
get_elem?-increment (suc i) zero (q ∷ ps) found = ground arith
get_elem?-increment (suc i) (suc j) (q ∷ ps) {p} found =
    ground (arith, get_elem?-increment i j ps {p = p} found)

-- A part gets a cent for each time that its index stands in the order.
pub get_elem?-increment_each :
    (order : List (ℕ × ℕ)) (j : ℕ) (ps : List Int64) {p : Int64}
    → get_elem? ps j ≡ some p
    → p + hits j order < 2 ^ 64
    → get_elem? (increment_each order ps) j ≡ some (p + hits j order)
unfolding increment_each
get_elem?-increment_each [] j ps {p} found fits = found ∙ ap some (omega arith)
get_elem?-increment_each ((i, rem) ∷ order) j ps {p} found fits = elim (Bool-cases (nat_beq i j)) [
  | inl its ↦
      get_elem?-increment_each order j (increment i ps) {p = p + 1}
        (get_elem?-increment i j ps {p = p} found ∙ ground arith) (ground arith)
      ∙ ground arith
  | inr other ↦
      get_elem?-increment_each order j (increment i ps) {p = p}
        (get_elem?-increment i j ps {p = p} found ∙ ground arith) (ground arith)
      ∙ ground arith
]
