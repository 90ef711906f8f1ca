-- ===== src/Prelude/Int.antt =====
-- Signed integers over the native numbers, and C's conversions between 32-bit types.
use Prim.Native.Nat.{ℕ, ◌-◌, ◌%◌, ◌^◌, ◌<◌}
use mathlib.Core.Path.{◌≡◌}
use mathlib.Core.Logic.{◌↔◌}
use mathlib.Core.Bool.{Bool, true, false}
use native.Mathlib.Omega.{arith}
use equipment_control.Prelude.Tests.{ltb, ◌==◌, if◌then◌else◌}

-- `negsuc n` is -(n + 1).
pub data ℤ : Type 0 where
  pos : ℕ → ℤ
  negsuc : ℕ → ℤ

abbrev pub minus_one : ℤ
minus_one = negsuc 0

abbrev pub eqb_ℤ : ℤ → ℤ → Bool
eqb_ℤ (pos a) (pos b) = a == b
eqb_ℤ (negsuc a) (negsuc b) = a == b
eqb_ℤ (pos a) (negsuc b) = false
eqb_ℤ (negsuc a) (pos b) = false

pub eqb_ℤ_iff : (a b : ℤ) → (eqb_ℤ a b ≡ true) ↔ (a ≡ b)
eqb_ℤ_iff (pos a) (pos b) = ground arith
eqb_ℤ_iff (pos a) (negsuc b) = ground arith
eqb_ℤ_iff (negsuc a) (pos b) = ground arith
eqb_ℤ_iff (negsuc a) (negsuc b) = ground arith

-- `(int32_t)` of an unsigned value of any width, as gcc and clang define it: modulo 2^32.
unfoldable pub to_int32 : ℕ → ℤ
to_int32 n = let r = n % 2 ^ 32 in if ltb r (2 ^ 31) then pos r else negsuc (2 ^ 32 - 1 - r)

-- `(int32_t)` of a 64-bit signed value.
unfoldable pub narrow : ℤ → ℤ
unfolding to_int32
narrow (pos n) = to_int32 n
narrow (negsuc n) = to_int32 (2 ^ 32 - 1 - n % 2 ^ 32)

abbrev pub IsInt32 : ℤ → Type 0
IsInt32 (pos n) = n < 2 ^ 31
IsInt32 (negsuc n) = n < 2 ^ 31

-- A 32-bit value is unchanged.
pub narrow-IsInt32 : (z : ℤ) → IsInt32 z → narrow z ≡ z
unfolding narrow
narrow-IsInt32 (pos n) h = ground arith
narrow-IsInt32 (negsuc n) h = ground arith

pub to_int32-IsInt32 : (n : ℕ) → IsInt32 (to_int32 n)
unfolding to_int32
to_int32-IsInt32 n = ground arith

-- Device ids are compared as `int` where they came as `uint32_t`: the conversion loses nothing.
pub to_int32_injective : (a b : ℕ) → a < 2 ^ 32 → b < 2 ^ 32 → to_int32 a ≡ to_int32 b → a ≡ b
unfolding to_int32
to_int32_injective a b ha hb e = ground arith
