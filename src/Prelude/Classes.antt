-- ===== src/Prelude/Classes.antt =====
-- Python's `==` on the keys of the program, as an interface with its law.
use mathlib.Core.Option.{Option, none, some}
use mathlib.Core.Bool.{Bool, true, false, ◌&&◌}
use mathlib.Core.Path.{◌≡◌}
use mathlib.Core.Logic.{◌↔◌}
use text.Mathlib.TextEquality
use text.Mathlib.Text
use native.Mathlib.Omega.{arith}
use Prim.Native.String.{String}
use Prim.Native.Nat.{ℕ}
use trackrelay.Prelude.Tests.{nat_beq_iff, nat_beq}

-- A decided equality of the values of one type.
pub record Equality {ℓ} (Value : Type ℓ) : Type ℓ where
  pub equal : Value → Value → Bool
  pub equal_iff : (x y : Value) → (equal x y ≡ true) ↔ (x ≡ y)

module _ {ℓ} {A : Type ℓ} ⦃e : Equality A⦄ where
  infix 50 ◌==◌
  abbrev pub ◌==◌ : A → A → Bool
  x == y = e.equal x y

instance abbrev pub string_equality : Equality String
string_equality = record { equal_iff = TextEquality.eq_iff; equal = Text.◌==◌ }

-- identifiers are numbers
instance abbrev pub nat_equality : Equality ℕ
nat_equality = record { equal_iff = nat_beq_iff; equal = nat_beq }

module _ {ℓ} {A : Type ℓ} ⦃e : Equality A⦄ where
  abbrev pub option_beq : Option A → Option A → Bool
  option_beq none none = true
  option_beq none (some _) = false
  option_beq (some _) none = false
  option_beq (some a) (some b) = a == b

  pub option_beq_iff : (a b : Option A) → (option_beq a b ≡ true) ↔ (a ≡ b)
  option_beq_iff none none = ground arith
  option_beq_iff none (some b) = ground arith
  option_beq_iff (some a) none = ground arith
  option_beq_iff (some a) (some b) = ground (arith, e.equal_iff a b)

instance abbrev pub option_equality {ℓ} : {A : Type ℓ} ⦃e : Equality A⦄ → Equality (Option A)
option_equality = record { equal = option_beq; equal_iff = option_beq_iff }

module _ {ℓ κ} {A : Type ℓ} {B : Type κ} ⦃e : Equality A⦄ ⦃f : Equality B⦄ where
  abbrev pub pair_beq : A × B → A × B → Bool
  pair_beq x y = e.equal x.0 y.0 && f.equal x.1 y.1

  pub pair_beq_iff : (x y : A × B) → (pair_beq x y ≡ true) ↔ (x ≡ y)
  pair_beq_iff (a, b) (c, d) = ground (arith, e.equal_iff a c, f.equal_iff b d)

instance abbrev pub pair_equality {ℓ κ} :
    {A : Type ℓ} {B : Type κ} ⦃e : Equality A⦄ ⦃f : Equality B⦄ → Equality (A × B)
pair_equality = record { equal = pair_beq; equal_iff = pair_beq_iff }

module _ {ℓ} {A : Type ℓ} ⦃e : Equality A⦄ where
  pub beq_refl : (a : A) → (a == a) ≡ true
  beq_refl a = (e.equal_iff a a).1 (λ i. a)
