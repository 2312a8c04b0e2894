-- ===== src/Prelude/Int.antt =====
-- The values of C++ `int`: integers over the native numbers, the 32-bit range, and checked
-- arithmetic. A result out of range, and a division by zero, is undefined behaviour in C++: `none`.
use weak_memory_models_simul.Prelude.Tests.{ltb, leb, if◌then◌else◌, EqTest, ◌==◌, nat_eq}
use Prim.Native.Nat.{ℕ, suc, ◌+◌, ◌-◌, ◌*◌, ◌/◌, ◌^◌}
use mathlib.Core.Path.{◌≡◌}
use mathlib.Core.Logic.{◌↔◌}
use mathlib.Core.Bool.{Bool, true, false, ◌&&◌}
use mathlib.Core.Option.{Option, none, some}
use native.Mathlib.Omega.{arith}

-- `negsuc n` is -(n + 1).
pub data ℤ : Type 0 where
  pos : ℕ → ℤ
  negsuc : ℕ → ℤ

abbrev pub pos_part : ℤ → ℕ
pos_part (pos n) = n
pos_part (negsuc n) = 0

abbrev pub neg_part : ℤ → ℕ
neg_part (pos n) = 0
neg_part (negsuc n) = suc n

-- a - b, as an integer.
abbrev pub sub_ℕ : ℕ → ℕ → ℤ
sub_ℕ a b = if leb b a then pos (a - b) else negsuc (b - a - 1)

infixl 65 ◌+ℤ◌ ◌-ℤ◌
infixl 70 ◌*ℤ◌
unfoldable pub ◌+ℤ◌ : ℤ → ℤ → ℤ
a +ℤ b = sub_ℕ (pos_part a + pos_part b) (neg_part a + neg_part b)

unfoldable pub ◌-ℤ◌ : ℤ → ℤ → ℤ
a -ℤ b = sub_ℕ (pos_part a + neg_part b) (neg_part a + pos_part b)

unfoldable pub ◌*ℤ◌ : ℤ → ℤ → ℤ
a *ℤ b =
    sub_ℕ (pos_part a * pos_part b + neg_part a * neg_part b)
      (pos_part a * neg_part b + neg_part a * pos_part b)

-- the quotient rounded towards zero
unfoldable pub quot : ℤ → ℤ → ℤ
quot (pos n) (pos m) = pos (n / m)
quot (pos n) (negsuc m) = sub_ℕ 0 (n / suc m)
quot (negsuc n) (pos m) = sub_ℕ 0 (suc n / m)
quot (negsuc n) (negsuc m) = pos (suc n / suc m)

abbrev pub int_beq : ℤ → ℤ → Bool
int_beq (pos n) (pos m) = n == m
int_beq (pos n) (negsuc m) = false
int_beq (negsuc n) (pos m) = false
int_beq (negsuc n) (negsuc m) = n == m

pub int_beq_iff : (a b : ℤ) → (int_beq a b ≡ true) ↔ (a ≡ b)
int_beq_iff (pos n) (pos m) = ground arith
int_beq_iff (pos n) (negsuc m) = ground arith
int_beq_iff (negsuc n) (pos m) = ground arith
int_beq_iff (negsuc n) (negsuc m) = ground arith

instance abbrev pub int_eq : EqTest ℤ
int_eq = record { test = int_beq; test_iff = int_beq_iff }

-- from INT_MIN to INT_MAX
abbrev pub in_range : ℤ → Bool
in_range a = ltb (pos_part a) (2 ^ 31) && leb (neg_part a) (2 ^ 31)

unfoldable pub checked : ℤ → Option ℤ
checked a = if in_range a then some a else none
