-- ===== src/Prelude/Int.antt =====
-- Go's `int` as an integer: only compared and tested for its sign here, so its width plays no part.
use Prim.Native.Nat.{ℕ, zero, suc}
use mathlib.Core.Path.{◌≡◌, refl}
use mathlib.Core.Logic.{◌↔◌}
use mathlib.Core.Bool.{Bool, true, false, not}
use native.Mathlib.Omega.{arith}
use go_core.Prelude.Tests.{nat_beq, leb}

-- `negsuc n` is -(n + 1).
pub data ℤ : Type 0 where
  pos : ℕ → ℤ
  negsuc : ℕ → ℤ

abbrev pub int_beq : ℤ → ℤ → Bool
int_beq (pos a) (pos b) = nat_beq a b
int_beq (negsuc a) (negsuc b) = nat_beq a b
int_beq _ _ = false

pub int_beq_iff : (a b : ℤ) → (int_beq a b ≡ true) ↔ (a ≡ b)
int_beq_iff (pos a) (pos b) = ground arith
int_beq_iff (pos a) (negsuc b) = ground arith
int_beq_iff (negsuc a) (pos b) = ground arith
int_beq_iff (negsuc a) (negsuc b) = ground arith

-- a > 0.
abbrev pub is_positive : ℤ → Bool
is_positive (pos zero) = false
is_positive (pos (suc n)) = true
is_positive (negsuc n) = false

-- a ≤ b and a < b.
abbrev pub int_leb : ℤ → ℤ → Bool
int_leb (pos a) (pos b) = leb a b
int_leb (pos a) (negsuc b) = false
int_leb (negsuc a) (pos b) = true
int_leb (negsuc a) (negsuc b) = leb b a

pub int_leb_total : (a b : ℤ) → int_leb a b ≡ false → int_leb b a ≡ true
int_leb_total (pos a) (pos b) h = ground arith
int_leb_total (pos a) (negsuc b) h = refl
int_leb_total (negsuc a) (pos b) h = absurd (ground arith)
int_leb_total (negsuc a) (negsuc b) h = ground arith

pub int_leb_trans : (a b c : ℤ) → int_leb a b ≡ true → int_leb b c ≡ true → int_leb a c ≡ true
int_leb_trans (pos a) (pos b) (pos c) h k = ground arith
int_leb_trans (pos a) (pos b) (negsuc c) h k = absurd (ground arith)
int_leb_trans (pos a) (negsuc b) c h k = absurd (ground arith)
int_leb_trans (negsuc a) b (pos c) h k = refl
int_leb_trans (negsuc a) (pos b) (negsuc c) h k = absurd (ground arith)
int_leb_trans (negsuc a) (negsuc b) (negsuc c) h k = ground arith

abbrev pub int_ltb : ℤ → ℤ → Bool
int_ltb a b = not (int_leb b a)

-- The number that a non-negative integer is; 0 for a negative one.
abbrev pub pos_part : ℤ → ℕ
pos_part (pos n) = n
pos_part (negsuc n) = 0
