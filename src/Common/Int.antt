-- ===== src/Common/Int.antt =====
-- The C `int` that a system call returns, and the value of a byte of a C++ object.
use Prim.Native.Nat.{ℕ, ◌-◌, ◌%◌, ◌^◌, ◌<◌}
use mathlib.Core.Path.{◌≡◌, refl}
use mathlib.Core.Logic.{◌↔◌}
use mathlib.Core.Bool.{Bool, true, false}
use native.Mathlib.Omega.{arith}
use sydn.Common.Tests.{◌==◌, ltb, if◌then◌else◌}

-- `negsuc n` is -(n + 1).
pub data ℤ : Type 0 where
  pos : ℕ → ℤ
  negsuc : ℕ → ℤ

abbrev pub minus_one : ℤ
minus_one = negsuc 0

infix 50 ◌==ℤ◌
unfoldable pub ◌==ℤ◌ : ℤ → ℤ → Bool
pos a ==ℤ pos b = a == b
pos a ==ℤ negsuc b = false
negsuc a ==ℤ pos b = false
negsuc a ==ℤ negsuc b = a == b

pub ==ℤ_iff : (a b : ℤ) → ((a ==ℤ b) ≡ true) ↔ (a ≡ b)
unfolding ◌==ℤ◌
==ℤ_iff (pos a) (pos b) = ground arith
==ℤ_iff (pos a) (negsuc b) = ground arith
==ℤ_iff (negsuc a) (pos b) = ground arith
==ℤ_iff (negsuc a) (negsuc b) = ground arith

pub ==ℤ_refl : (a : ℤ) → (a ==ℤ a) ≡ true
==ℤ_refl a = (==ℤ_iff a a).1 refl

-- `0 <= a`.
unfoldable pub is_nonneg : ℤ → Bool
is_nonneg (pos n) = true
is_nonneg (negsuc n) = false

-- `static_cast<size_t>(a)`, with a 64-bit `size_t`.
unfoldable pub to_size : ℤ → ℕ
to_size (pos n) = n
to_size (negsuc n) = 2 ^ 64 - 1 - n

-- The conversion of an integer to a 32-bit `int`.
unfoldable pub narrow : ℤ → ℤ
narrow (pos n) = let m = n % 2 ^ 32 in if ltb m (2 ^ 31) then pos m else negsuc (2 ^ 32 - 1 - m)
narrow (negsuc n) = let m = n % 2 ^ 32 in if ltb m (2 ^ 31) then negsuc m else pos (2 ^ 32 - 1 - m)

pub narrow-pos : (n : ℕ) → n < 2 ^ 31 → narrow (pos n) ≡ pos n
unfolding narrow
narrow-pos n h = ground arith

pub narrow-minus_one : narrow minus_one ≡ minus_one
unfolding narrow
narrow-minus_one = refl

-- A byte of an object: its value, or no value that the program has determined (memory that is not
-- initialised, or that holds the bytes of a pointer).
pub data Cell : Type 0 where
  byte : ℕ → Cell
  unspecified : Cell
