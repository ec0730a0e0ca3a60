-- ===== src/Prelude/Lists.antt =====
-- Lists: Boolean quantifiers, membership, and lengths over the native numbers.
use Prim.Native.Nat.{ℕ, zero, suc, ◌<◌, ◌+◌, ◌-◌}
use mathlib.Core.Option.{Option, none, some}
use mathlib.Core.Path.{◌≡◌, refl, sym, ap, ◌∙◌, subst}
use mathlib.Core.Logic.{◌⊎◌, inl, inr}
use mathlib.Core.Bool.{Bool, true, false, ◌&&◌, ◌||◌}
use mathlib.Core.List.{List, [], ◌∷◌, ◌++◌, Memᴰ}
use native.Mathlib.Omega.{arith}
use go_core.Prelude.Tests.{if◌then◌else◌, and_left, and_right, or_elim, or_left, or_right}
use go_core.Prelude.Equality.{Comparable, ◌==◌, ==-eq, ==_refl}

module _ {ℓ} {A : Type ℓ} where
  abbrev pub length : List A → ℕ
  length [] = 0
  length (x ∷ xs) = suc (length xs)

  abbrev pub get_elem? : List A → ℕ → Option A
  get_elem? [] i = none
  get_elem? (x ∷ xs) zero = some x
  get_elem? (x ∷ xs) (suc i) = get_elem? xs i

  abbrev pub take : ℕ → List A → List A
  take zero xs = []
  take (suc n) [] = []
  take (suc n) (x ∷ xs) = x ∷ take n xs

  abbrev pub drop : ℕ → List A → List A
  drop zero xs = xs
  drop (suc n) [] = []
  drop (suc n) (x ∷ xs) = drop n xs

  pub take-drop : (n : ℕ) (xs : List A) → take n xs ++ drop n xs ≡ xs
  take-drop zero xs = refl
  take-drop (suc n) [] = refl
  take-drop (suc n) (x ∷ xs) = ap (λ ys. x ∷ ys) (take-drop n xs)

  drop_nil : (k : ℕ) → drop k [] ≡ []
  drop_nil zero = refl
  drop_nil (suc k) = refl

  pub drop-drop : (m n : ℕ) (xs : List A) → drop n (drop m xs) ≡ drop (m + n) xs
  drop-drop zero n xs = ap (λ k. drop k xs) (omega arith)
  drop-drop (suc m) n [] = drop_nil n ∙ sym (drop_nil (suc m + n))
  drop-drop (suc m) n (x ∷ xs) =
      let same : suc (m + n) ≡ suc m + n = omega arith in
      drop-drop m n xs ∙ ap (λ k. drop k (x ∷ xs)) same

  pub length-drop : (n : ℕ) (xs : List A) → length (drop n xs) ≡ length xs - n
  length-drop zero xs = omega arith
  length-drop (suc n) [] = omega arith
  length-drop (suc n) (x ∷ xs) = ground (arith, length-drop n xs)

  -- Some element passes the test.
  abbrev pub any : (A → Bool) → List A → Bool
  any p [] = false
  any p (x ∷ xs) = p x || any p xs

  -- Every element passes the test.
  abbrev pub all : (A → Bool) → List A → Bool
  all p [] = true
  all p (x ∷ xs) = p x && all p xs

  -- The elements that pass the test, in order.
  abbrev pub keep : (A → Bool) → List A → List A
  keep p [] = []
  keep p (x ∷ xs) = let rest = keep p xs in if p x then x ∷ rest else rest

  pub any-append : (p : A → Bool) (xs ys : List A) → any p (xs ++ ys) ≡ (any p xs || any p ys)
  any-append p [] ys = refl
  any-append p (x ∷ xs) ys = ground (arith, any-append p xs ys)

  pub append_nil : (xs ys : List A) → xs ++ ys ≡ [] → (xs ≡ []) × (ys ≡ [])
  append_nil [] ys h = (refl, h)
  append_nil (x ∷ xs) ys h = absurd (ground arith)

  pub append_cons_ne : (xs : List A) (y : A) (ys : List A) → xs ++ y ∷ ys ≡ [] → ⊥
  append_cons_ne [] y ys h = ground arith
  append_cons_ne (x ∷ xs) y ys h = ground arith

  pub mem_cases : {a x : A} {xs : List A} → Memᴰ a (x ∷ xs) → (a ≡ x) ⊎ Memᴰ a xs
  mem_cases (Memᴰ.head e) = inl e
  mem_cases (Memᴰ.tail m) = inr m

  pub mem_of_eq : {a : A} {xs ys : List A} → xs ≡ ys → Memᴰ a xs → Memᴰ a ys
  mem_of_eq {a = a} e m = subst (λ l. Memᴰ a l) e m

  pub mem_append : {a : A} (xs : List A) {ys : List A} → Memᴰ a (xs ++ ys) → Memᴰ a xs ⊎ Memᴰ a ys
  mem_append [] m = inr m
  mem_append (x ∷ xs) (Memᴰ.head e) = inl (Memᴰ.head e)
  mem_append (x ∷ xs) (Memᴰ.tail m) = elim (mem_append xs m) [
    | inl first ↦ inl (Memᴰ.tail first)
    | inr later ↦ inr later
  ]

  pub mem_append_left : {x : A} (xs ys : List A) → Memᴰ x xs → Memᴰ x (xs ++ ys)
  mem_append_left [] ys m = elim m [ ]
  mem_append_left (y ∷ xs) ys (Memᴰ.head e) = Memᴰ.head e
  mem_append_left (y ∷ xs) ys (Memᴰ.tail m) = Memᴰ.tail (mem_append_left xs ys m)

  pub mem_append_right : {x : A} (xs ys : List A) → Memᴰ x ys → Memᴰ x (xs ++ ys)
  mem_append_right [] ys m = m
  mem_append_right (y ∷ xs) ys m = Memᴰ.tail (mem_append_right xs ys m)

  pub any_intro : (p : A → Bool) (xs : List A) {x : A} → Memᴰ x xs → p x ≡ true → any p xs ≡ true
  any_intro p [] m h = elim m [ ]
  any_intro p (y ∷ ys) (Memᴰ.head e) h = or_left (p y) _ (rw (← e) h)
  any_intro p (y ∷ ys) (Memᴰ.tail m) h = or_right (p y) _ (any_intro p ys m h)

  pub any_elim : (p : A → Bool) (xs : List A) → any p xs ≡ true → (x : A) × Memᴰ x xs × (p x ≡ true)
  any_elim p [] h = absurd (ground arith)
  any_elim p (x ∷ xs) h = elim (or_elim (p x) (any p xs) h) [
    | inl here ↦ (x, Memᴰ.head refl, here)
    | inr later ↦ let (y, m, hy) = any_elim p xs later in (y, Memᴰ.tail m, hy)
  ]

  pub all_elim : (p : A → Bool) (xs : List A) {x : A} → all p xs ≡ true → Memᴰ x xs → p x ≡ true
  all_elim p [] h m = elim m [ ]
  all_elim p (y ∷ ys) h (Memᴰ.head e) = rw e (and_left (p y) _ h)
  all_elim p (y ∷ ys) h (Memᴰ.tail m) = all_elim p ys (and_right (p y) _ h) m

  pub all_intro :
      (p : A → Bool) (xs : List A) → ((x : A) → Memᴰ x xs → p x ≡ true) → all p xs ≡ true
  all_intro p [] h = refl
  all_intro p (x ∷ xs) h =
      ground (arith, h x (Memᴰ.head refl), all_intro p xs (λ y m. h y (Memᴰ.tail m)))

module _ {ℓ} {A : Type ℓ} where
  pub get_elem_bound : (ls : List A) (i : ℕ) {l : A} → get_elem? ls i ≡ some l → i < length ls
  get_elem_bound [] i e = absurd (ground arith)
  get_elem_bound (x ∷ xs) zero e = omega arith
  get_elem_bound (x ∷ xs) (suc i) e = omega (arith, get_elem_bound xs i e)

  pub get_elem_below : (ls : List A) (i : ℕ) → i < length ls → (l : A) × (get_elem? ls i ≡ some l)
  get_elem_below [] i lt = absurd (omega arith)
  get_elem_below (x ∷ xs) zero lt = (x, refl)
  get_elem_below (x ∷ xs) (suc i) lt = get_elem_below xs i (omega arith)

module _ {ℓ} {A : Type ℓ} ⦃e : Comparable A⦄ where
  -- slices.Contains
  abbrev pub contains : List A → A → Bool
  contains xs a = any (λ x. x == a) xs

  pub contains_elim : (xs : List A) (a : A) → contains xs a ≡ true → Memᴰ a xs
  contains_elim [] a h = absurd (ground arith)
  contains_elim (x ∷ xs) a h = elim (or_elim (x == a) _ h) [
    | inl here ↦ Memᴰ.head (sym (==-eq x a here))
    | inr later ↦ Memᴰ.tail (contains_elim xs a later)
  ]

  pub contains_intro : (xs : List A) (a : A) → Memᴰ a xs → contains xs a ≡ true
  contains_intro xs a m = any_intro (λ x. x == a) xs m (==_refl a)
