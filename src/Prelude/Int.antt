-- ===== src/Prelude/Int.antt =====
-- Python's integers.
use Prim.Native.Nat.{ℕ}
use mathlib.Core.Bool.{Bool, true, false}
use mathlib.Core.Path.{◌≡◌}
use trackrelay.Prelude.Tests.{nat_beq}
use trackrelay.Prelude.Classes.{beq_refl, nat_equality}

-- `negsuc n` is -(n + 1).
pub data ℤ : Type 0 where
  pos : ℕ → ℤ
  negsuc : ℕ → ℤ

abbrev pub int_beq : ℤ → ℤ → Bool
int_beq (pos a) (pos b) = nat_beq a b
int_beq (pos _) (negsuc _) = false
int_beq (negsuc _) (pos _) = false
int_beq (negsuc a) (negsuc b) = nat_beq a b

pub int_beq_refl : (z : ℤ) → int_beq z z ≡ true
int_beq_refl (pos n) = beq_refl n
int_beq_refl (negsuc n) = beq_refl n
