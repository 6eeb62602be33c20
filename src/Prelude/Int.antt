-- ===== src/Prelude/Int.antt =====
-- C's signed integers, their sign tests and the casts between `int` and `size_t`.
use Prim.Native.Nat.{ℕ, zero, suc, ◌-◌, ◌%◌, ◌^◌, ◌<◌}
use mathlib.Core.Path.{◌≡◌, refl}
use mathlib.Core.Logic.{◌↔◌}
use mathlib.Core.Bool.{Bool, true, false}
use native.Mathlib.Omega.{arith}
use dlms_transport.Prelude.Tests.{◌==◌, ltb, if◌then◌else◌}

-- `negsuc n` is -(n + 1).
pub data ℤ : Type 0 where
  pos : ℕ → ℤ
  negsuc : ℕ → ℤ

infix 50 ◌==ℤ◌
abbrev pub ◌==ℤ◌ : ℤ → ℤ → Bool
pos a ==ℤ pos b = a == b
pos a ==ℤ negsuc b = false
negsuc a ==ℤ pos b = false
negsuc a ==ℤ negsuc b = a == b

pub ==ℤ_iff : (a b : ℤ) → ((a ==ℤ b) ≡ true) ↔ (a ≡ b)
==ℤ_iff (pos a) (pos b) = ground arith
==ℤ_iff (pos a) (negsuc b) = ground arith
==ℤ_iff (negsuc a) (pos b) = ground arith
==ℤ_iff (negsuc a) (negsuc b) = ground arith

pub ==ℤ_refl : (a : ℤ) → (a ==ℤ a) ≡ true
==ℤ_refl a = (==ℤ_iff a a).1 refl

-- z > 0, z == 0 and z < 0.
abbrev pub is_positive : ℤ → Bool
is_positive (pos zero) = false
is_positive (pos (suc n)) = true
is_positive (negsuc n) = false

abbrev pub is_zero : ℤ → Bool
is_zero (pos zero) = true
is_zero (pos (suc n)) = false
is_zero (negsuc n) = false

abbrev pub is_negative : ℤ → Bool
is_negative (pos n) = false
is_negative (negsuc n) = true

-- static_cast<int> of a 64-bit size: the low 32 bits, read as two's complement.
abbrev pub to_int : ℕ → ℤ
to_int n = if ltb (n % 2 ^ 32) (2 ^ 31) then pos (n % 2 ^ 32) else negsuc (2 ^ 32 - n % 2 ^ 32 - 1)

-- static_cast<std::size_t> of an int.
abbrev pub to_size : ℤ → ℕ
to_size (pos n) = n
to_size (negsuc n) = 2 ^ 64 - suc n

-- A size that fits an int survives the two casts.
pub to_size-to_int : (n : ℕ) → n < 2 ^ 31 → to_size (to_int n) ≡ n
to_size-to_int n h = ground arith
