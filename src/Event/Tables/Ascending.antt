-- ===== src/Event/Tables/Ascending.antt =====
-- Ascending lists of ids, and batches of their first elements.
use go_core.Prelude.{
  ℕ, zero, suc, ◌≤◌, ◌<◌, refl, inl, inr, Bool, List, [], ◌∷◌, ◌++◌, Memᴰ, mem_cases, keep, take,
  Bool-cases, arith,
}
use go_core.Event.Tables.{ids_to}
use go_core.Event.Tables.Ids.{ids_to_elim}

-- Each element is above the one before it, and the first above `low`.
abbrev pub Ascends : ℕ → List ℕ → Type 0
Ascends low [] = Unit {0}
Ascends low (x ∷ xs) = (low < x) × Ascends x xs

-- The last of the ids that start with `id`.
abbrev pub last_of : ℕ → List ℕ → ℕ
last_of id [] = id
last_of id (next ∷ ids) = last_of next ids

lower : (low high : ℕ) (xs : List ℕ) → low ≤ high → Ascends high xs → Ascends low xs
lower low high [] le up = tt
lower low high (x ∷ xs) le (lt, up) = (omega arith, up)

append-Ascends :
    (low n : ℕ) (xs : List ℕ)
    → Ascends low xs
    → ((x : ℕ) → Memᴰ x xs → x < n)
    → low < n
    → Ascends low (xs ++ n ∷ [])
append-Ascends low n [] up below lt = (lt, tt)
append-Ascends low n (x ∷ xs) (first, up) below lt =
    (first, append-Ascends x n xs up (λ y m. below y (Memᴰ.tail m)) (below x (Memᴰ.head refl)))

pub ids_to-Ascends : (n : ℕ) → Ascends 0 (ids_to n)
ids_to-Ascends zero = tt
ids_to-Ascends (suc n) =
    append-Ascends 0 (suc n) (ids_to n) (ids_to-Ascends n) (λ x m. omega (arith, ids_to_elim n m))
      (omega arith)

pub keep-Ascends : (p : ℕ → Bool) (low : ℕ) (xs : List ℕ) → Ascends low xs → Ascends low (keep p xs)
keep-Ascends p low [] up = tt
keep-Ascends p low (x ∷ xs) (lt, up) = elim (Bool-cases (p x)) [
  | inl kept ↦ rw kept (lt, keep-Ascends p x xs up)
  | inr dropped ↦ rw dropped (keep-Ascends p low xs (lower low x xs (omega arith) up))
]

pub above_low : (low : ℕ) (xs : List ℕ) {x : ℕ} → Ascends low xs → Memᴰ x xs → low < x
above_low low [] up m = elim m [ ]
above_low low (y ∷ ys) (lt, up) m = elim (mem_cases m) [
  | inl here ↦ omega arith
  | inr later ↦ omega (arith, above_low y ys up later)
]

pub last_of-mem : (id : ℕ) (ids : List ℕ) → Memᴰ (last_of id ids) (id ∷ ids)
last_of-mem id [] = Memᴰ.head refl
last_of-mem id (next ∷ ids) = Memᴰ.tail (last_of-mem next ids)

pub mem_take : (n : ℕ) (xs : List ℕ) {x : ℕ} → Memᴰ x (take n xs) → Memᴰ x xs
mem_take zero xs m = elim m [ ]
mem_take (suc n) [] m = elim m [ ]
mem_take (suc n) (y ∷ ys) m = elim (mem_cases m) [
  | inl here ↦ Memᴰ.head here
  | inr later ↦ Memᴰ.tail (mem_take n ys later)
]

-- What is not above the last of a batch is in it.
pub in_batch :
    (n low : ℕ) (xs : List ℕ) {x : ℕ}
    → Ascends low xs
    → Memᴰ x xs
    → x ≤ last_of low (take n xs)
    → Memᴰ x (take n xs)
in_batch zero low xs up m le = absurd (omega (arith, above_low low xs up m))
in_batch (suc n) low [] up m le = elim m [ ]
in_batch (suc n) low (y ∷ ys) (lt, up) m le = elim (mem_cases m) [
  | inl here ↦ Memᴰ.head here
  | inr later ↦ Memᴰ.tail (in_batch n y ys up later le)
]
