-- ===== src/Prelude/Counting.antt =====
-- Counting the elements that pass a test, against the length of the list.
use Prim.Native.Nat.{◌≤◌}
use mathlib.Core.Path.{◌≡◌, refl}
use mathlib.Core.Logic.{inl, inr}
use mathlib.Core.Bool.{Bool, true, false}
use mathlib.Core.List.{List, [], ◌∷◌, Memᴰ}
use native.Mathlib.Omega.{arith}
use go_core.Prelude.Tests.{ltb, if◌then◌else◌, Bool-cases}
use go_core.Prelude.Lists.{length, all, mem_cases, contains, contains_elim}
use go_core.Prelude.Equality.{Comparable}
use go_core.Prelude.Dominance.{count_if}

module _ {ℓ} {A : Type ℓ} (p : A → Bool) where
  pub count_if-le-length : (xs : List A) → count_if p xs ≤ length xs
  count_if-le-length [] = omega arith
  count_if-le-length (x ∷ xs) = ground (arith, count_if-le-length xs)

  -- The count falls short exactly when some element fails the test.
  pub ltb-count_if :
      (xs : List A) → ltb (count_if p xs) (length xs) ≡ (if all p xs then false else true)
  ltb-count_if [] = refl
  ltb-count_if (x ∷ xs) = ground (arith, ltb-count_if xs, count_if-le-length xs)

module _ {ℓ} {A : Type ℓ} ⦃e : Comparable A⦄ where
  -- Each element once.
  abbrev pub distinct : List A → List A
  distinct [] = []
  distinct (x ∷ xs) = let rest = distinct xs in if contains xs x then rest else x ∷ rest

  -- No element stands twice.
  abbrev pub no_duplicates : List A → Bool
  no_duplicates [] = true
  no_duplicates (x ∷ xs) = if contains xs x then false else no_duplicates xs

  pub length-distinct : (xs : List A) → length (distinct xs) ≤ length xs
  length-distinct [] = omega arith
  length-distinct (x ∷ xs) = ground (arith, length-distinct xs)

  pub distinct_of_no_duplicates : (xs : List A) → no_duplicates xs ≡ true → distinct xs ≡ xs
  distinct_of_no_duplicates [] h = refl
  distinct_of_no_duplicates (x ∷ xs) h = ground (arith, distinct_of_no_duplicates xs)

  pub distinct_mem : (xs : List A) {x : A} → Memᴰ x xs → Memᴰ x (distinct xs)
  distinct_mem [] m = elim m [ ]
  distinct_mem (y ∷ ys) {x} m = elim (Bool-cases (contains ys y)) [
    | inl again ↦ rw again (elim (mem_cases m) [
      | inl here ↦ distinct_mem ys (rw here (contains_elim ys y again))
      | inr later ↦ distinct_mem ys later
    ])
    | inr first ↦ rw first (elim (mem_cases m) [
      | inl here ↦ Memᴰ.head here
      | inr later ↦ Memᴰ.tail (distinct_mem ys later)
    ])
  ]
