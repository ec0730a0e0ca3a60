-- ===== src/Prelude/Dominance.antt =====
-- Keeping the elements of a list that no other dominates loses nothing that domination preserves.
use Prim.Native.Nat.{ℕ, zero, suc, ◌≤◌, ◌<◌}
use mathlib.Core.Path.{◌≡◌, refl}
use mathlib.Core.Logic.{inl, inr}
use mathlib.Core.Bool.{Bool, true, false, not}
use mathlib.Core.List.{List, [], ◌∷◌, Memᴰ}
use native.Mathlib.Omega.{arith}
use go_core.Prelude.Tests.{if◌then◌else◌, Bool-cases, Bool_ext}
use go_core.Prelude.Lists.{any, keep, any_intro, any_elim, mem_cases}

module _ {ℓ} {A : Type ℓ} where
  -- How many elements pass the test.
  abbrev pub count_if : (A → Bool) → List A → ℕ
  count_if p [] = 0
  count_if p (x ∷ xs) = let rest = count_if p xs in if p x then suc rest else rest

  pub count_if_mono :
      (p q : A → Bool) (xs : List A)
      → ((x : A) → Memᴰ x xs → p x ≡ true → q x ≡ true)
      → count_if p xs ≤ count_if q xs
  count_if_mono p q [] sub = omega arith
  count_if_mono p q (x ∷ xs) sub =
      ground (arith, count_if_mono p q xs (λ y m. sub y (Memᴰ.tail m)), sub x (Memᴰ.head refl))

  pub count_if_strict :
      (p q : A → Bool) (xs : List A) {y : A}
      → ((x : A) → Memᴰ x xs → p x ≡ true → q x ≡ true)
      → Memᴰ y xs
      → p y ≡ false
      → q y ≡ true
      → count_if p xs < count_if q xs
  count_if_strict p q [] sub m np qy = elim m [ ]
  count_if_strict p q (x ∷ xs) {y} sub m np qy = elim (mem_cases m) [
    | inl here ↦ ground (arith, count_if_mono p q xs (λ z n. sub z (Memᴰ.tail n)))
    | inr later ↦ ground (
      arith,
      count_if_strict p q xs (λ z n. sub z (Memᴰ.tail n)) later np qy,
      sub x (Memᴰ.head refl),
    )
  ]

  pub keep_intro :
      (p : A → Bool) (xs : List A) {x : A} → Memᴰ x xs → p x ≡ true → Memᴰ x (keep p xs)
  keep_intro p [] m h = elim m [ ]
  keep_intro p (y ∷ ys) {x} m h = elim (Bool-cases (p y)) [
    | inl kept ↦ rw kept (elim (mem_cases m) [
      | inl here ↦ Memᴰ.head here
      | inr later ↦ Memᴰ.tail (keep_intro p ys later h)
    ])
    | inr dropped ↦ rw dropped (elim (mem_cases m) [
      | inl here ↦ absurd (ground arith)
      | inr later ↦ keep_intro p ys later h
    ])
  ]

  pub keep_elim :
      (p : A → Bool) (xs : List A) {x : A} → Memᴰ x (keep p xs) → Memᴰ x xs × (p x ≡ true)
  keep_elim p [] m = elim m [ ]
  keep_elim p (y ∷ ys) {x} m = elim (Bool-cases (p y)) [
    | inl kept ↦ elim (mem_cases (rw kept at m)) [
      | inl here ↦ (Memᴰ.head here, rw here kept)
      | inr later ↦ let (n, h) = keep_elim p ys later in (Memᴰ.tail n, h)
    ]
    | inr dropped ↦ let (n, h) = keep_elim p ys (rw dropped at m) in (Memᴰ.tail n, h)
  ]

  -- `beats y x`: y dominates x.
  module _ (beats : A → A → Bool) (xs : List A) where
    abbrev pub undominated : A → Bool
    undominated x = not (any (λ y. beats y x) xs)

    module _ (irreflexive : (x : A) → Memᴰ x xs → beats x x ≡ false)
        (transitive : (z y x : A)
          → Memᴰ z xs
          → Memᴰ y xs
          → Memᴰ x xs
          → beats z y ≡ true
          → beats y x ≡ true
          → beats z x ≡ true)
        (good : A → Bool)
        (preserved : (y x : A)
          → Memᴰ y xs
          → Memᴰ x xs
          → beats y x ≡ true
          → good x ≡ true
          → good y ≡ true) where
      survivor :
          (fuel : ℕ) (x : A)
          → Memᴰ x xs
          → count_if (λ y. beats y x) xs < fuel
          → good x ≡ true
          → (z : A) × Memᴰ z xs × (undominated z ≡ true) × (good z ≡ true)
      survivor zero x m lt h = absurd (omega arith)
      survivor (suc fuel) x m lt h = elim (Bool-cases (any (λ y. beats y x) xs)) [
        | inr free ↦ (x, m, ground arith, h)
        | inl beaten ↦
            let (y, n, wins) = any_elim (λ y. beats y x) xs beaten in
            let fewer =
              count_if_strict (λ z. beats z y) (λ z. beats z x) xs
                (λ z k bz. transitive z y x k n m bz wins) n (irreflexive y n) wins in
            survivor fuel y n (omega arith) (preserved y x n m wins h)
      ]

      pub any-keep-undominated : any good (keep undominated xs) ≡ any good xs
      any-keep-undominated =
          Bool_ext _ _
            (λ h.
              let (x, m, g) = any_elim good (keep undominated xs) h in
              any_intro good xs (keep_elim undominated xs m).0 g)
            (λ h.
              let (x, m, g) = any_elim good xs h in
              let (z, n, free, gz) =
                survivor (suc (count_if (λ y. beats y x) xs)) x m (omega arith) g in
              any_intro good (keep undominated xs) (keep_intro undominated xs n free) gz)
