-- ===== src/Prelude/Assoc.antt =====
-- Go's maps as association lists: a key has the value of its first entry.
use mathlib.Core.Path.{◌≡◌, refl}
use mathlib.Core.Option.{Option, none, some}
use mathlib.Core.List.{List, [], ◌∷◌, Memᴰ}
use native.Mathlib.Omega.{arith}
use mathlib.Core.Logic.{◌⊎◌, inl, inr}
use mathlib.Core.Bool.{true, false}
use go_core.Prelude.Lists.{mem_cases, mem_of_eq}
use go_core.Prelude.Tests.{if◌then◌else◌, Bool-cases}
use go_core.Prelude.Equality.{Comparable, ◌==◌, ==-eq, ==_refl}

abbrev pub Map {ℓ κ} : Type ℓ → Type κ → Type (ℓ ⊔ κ)
Map K V = List (K × V)

module _ {ℓ κ} {K : Type ℓ} {V : Type κ} ⦃e : Comparable K⦄ where
  unfoldable pub lookup : K → Map K V → Option V
  lookup key [] = none
  lookup key ((held, val) ∷ rest) = if held == key then some val else lookup key rest

  unfoldable pub insert : K → V → Map K V → Map K V
  insert key val [] = (key, val) ∷ []
  insert key val ((held, old) ∷ rest) =
      if held == key then (held, val) ∷ rest else (held, old) ∷ insert key val rest

  unfoldable pub delete : K → Map K V → Map K V
  delete key [] = []
  delete key ((held, val) ∷ rest) =
      let kept = delete key rest in if held == key then kept else (held, val) ∷ kept

  pub lookup-insert :
      (key at : K) (val : V) (rest : Map K V)
      → lookup at (insert key val rest) ≡ (if key == at then some val else lookup at rest)
  unfolding lookup insert
  lookup-insert key at val [] = refl
  lookup-insert key at val ((held, old) ∷ rest) =
      ground
        (arith, e.agrees key at, e.agrees held key, e.agrees held at, lookup-insert key at val rest)

  pub lookup-delete :
      (key at : K) (rest : Map K V)
      → lookup at (delete key rest) ≡ (if key == at then none else lookup at rest)
  unfolding lookup delete
  lookup-delete key at [] = ground arith
  lookup-delete key at ((held, old) ∷ rest) =
      ground
        (arith, e.agrees key at, e.agrees held key, e.agrees held at, lookup-delete key at rest)

  -- A key that is found stands in the list with its value.
  pub lookup-mem : (k : K) (m : Map K V) {v : V} → lookup k m ≡ some v → Memᴰ (k, v) m
  unfolding lookup
  lookup-mem k [] h = absurd (ground arith)
  lookup-mem k ((j, w) ∷ m) {v} h = elim (Bool-cases (j == k)) [
    | inl hit ↦ Memᴰ.head (ground (arith, ==-eq j k hit))
    | inr miss ↦ Memᴰ.tail (lookup-mem k m (ground arith))
  ]

  -- What stands in the list after a change stood in it before, or is the new pair.
  pub mem_insert :
      (key : K) (val : V) (rest : Map K V) {x : K × V}
      → Memᴰ x (insert key val rest)
      → ((x.1 ≡ val) × ((x.0 == key) ≡ true)) ⊎ Memᴰ x rest
  unfolding insert
  mem_insert key val [] m = elim (mem_cases m) [
    | inl new ↦ inl (rw new refl, rw new (==_refl key))
    | inr past ↦ elim past [ ]
  ]
  mem_insert key val ((held, old) ∷ rest) m = elim (Bool-cases (held == key)) [
    | inl hit ↦ elim (mem_cases (mem_of_eq {ys = (held, val) ∷ rest} (ground arith) m)) [
      | inl new ↦ inl (ground (arith, new), ground (arith, new))
      | inr past ↦ inr (Memᴰ.tail past)
    ]
    | inr miss ↦
        elim (mem_cases (mem_of_eq {ys = (held, old) ∷ insert key val rest} (ground arith) m)) [
          | inl here ↦ inr (Memᴰ.head here)
          | inr later ↦ elim (mem_insert key val rest later) [
            | inl new ↦ inl new
            | inr past ↦ inr (Memᴰ.tail past)
          ]
        ]
  ]

  pub mem_delete :
      (key : K) (rest : Map K V) {x : K × V}
      → Memᴰ x (delete key rest)
      → ((x.0 == key) ≡ false) × Memᴰ x rest
  unfolding delete
  mem_delete key [] m = elim m [ ]
  mem_delete key ((held, val) ∷ rest) m = elim (Bool-cases (held == key)) [
    | inl hit ↦
        let (other, past) =
          mem_delete key rest (mem_of_eq {ys = delete key rest} (ground arith) m) in
        (other, Memᴰ.tail past)
    | inr miss ↦
        elim (mem_cases (mem_of_eq {ys = (held, val) ∷ delete key rest} (ground arith) m)) [
          | inl here ↦ (ground (arith, here), Memᴰ.head here)
          | inr later ↦ let (other, past) = mem_delete key rest later in (other, Memᴰ.tail past)
        ]
  ]
