-- ===== src/Common/Int.antt =====
-- Integers, and the 16-bit signed number that a word stands for.
use Prim.Native.Nat.{ℕ, suc, ◌+◌, ◌-◌, ◌%◌, ◌^◌}
use native.Mathlib.Omega.{arith}
use mathlib.Core.Path.{◌≡◌}
use mod_audio_stream.Common.Tests.{ltb, leb, if◌then◌else◌}

-- `negsuc n` is -(n + 1).
pub data ℤ : Type 0 where
  pos : ℕ → ℤ
  negsuc : ℕ → ℤ

abbrev pub sub_ℕ : ℕ → ℕ → ℤ
sub_ℕ a b = if leb b a then pos (a - b) else negsuc (b - a - 1)

infixl 65 ◌+ℤ◌
abbrev pub ◌+ℤ◌ : ℤ → ℤ → ℤ
pos a +ℤ pos b = pos (a + b)
pos a +ℤ negsuc b = sub_ℕ a (suc b)
negsuc a +ℤ pos b = sub_ℕ b (suc a)
negsuc a +ℤ negsuc b = negsuc (a + b + 1)

-- A word read as an int16_t, and an integer cut down to one.
abbrev pub int16 : ℕ → ℤ
int16 w = if ltb w (2 ^ 15) then pos w else negsuc (2 ^ 16 - 1 - w)

abbrev pub word16 : ℤ → ℕ
word16 (pos n) = n % 2 ^ 16
word16 (negsuc n) = 2 ^ 16 - 1 - n % 2 ^ 16

-- The nearest integer that an int16_t holds.
abbrev pub nearest16 : ℤ → ℤ
nearest16 (pos n) = if ltb n (2 ^ 15) then pos n else pos (2 ^ 15 - 1)
nearest16 (negsuc n) = if ltb n (2 ^ 15) then negsuc n else negsuc (2 ^ 15 - 1)

pub int16-nearest : (z : ℤ) → int16 (word16 (nearest16 z)) ≡ nearest16 z
int16-nearest (pos n) = ground arith
int16-nearest (negsuc n) = ground arith
