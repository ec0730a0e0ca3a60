-- ===== src/Prelude/Equality.antt =====
-- Go's `==` on comparable types, as an interface with its law.
use Prim.Native.Nat.{ℕ}
use Prim.Native.String.{String}
use mathlib.Core.Path.{◌≡◌, refl}
use mathlib.Core.Logic.{◌↔◌, ◌≢◌}
use mathlib.Core.Bool.{Bool, true, false}
use text.Mathlib.Text.{◌==◌ as str_eq}
use text.Mathlib.TextEquality.{eq_iff}
use native.Mathlib.Omega.{arith}
use go_core.Prelude.Tests.{nat_beq, nat_beq_iff}
use go_core.Prelude.Int.{ℤ, int_beq, int_beq_iff}

pub record Comparable {ℓ} (A : Type ℓ) : Type ℓ where
  pub test : A → A → Bool
  pub agrees : (x y : A) → (test x y ≡ true) ↔ (x ≡ y)

module _ {ℓ} {A : Type ℓ} ⦃e : Comparable A⦄ where
  infix 50 ◌==◌
  abbrev pub ◌==◌ : A → A → Bool
  x == y = e.test x y

instance abbrev pub string_eq : Comparable String
string_eq = record { agrees = eq_iff; test = str_eq }

instance abbrev pub int_eq : Comparable ℤ
int_eq = record { test = int_beq; agrees = int_beq_iff }

instance abbrev pub nat_eq : Comparable ℕ
nat_eq = record { test = nat_beq; agrees = nat_beq_iff }

module _ {ℓ} {A : Type ℓ} ⦃e : Comparable A⦄ where
  pub ==-eq : (a b : A) → (a == b) ≡ true → a ≡ b
  ==-eq a b h = (e.agrees a b).0 h

  pub ==_refl : (a : A) → (a == a) ≡ true
  ==_refl a = (e.agrees a a).1 refl

  pub ==_ne : (a b : A) → (a == b) ≡ false → a ≢ b
  ==_ne a b h p = ground (arith, (e.agrees a b).1 p)
