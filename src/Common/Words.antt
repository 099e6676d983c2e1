-- ===== src/Common/Words.antt =====
-- Bytes, and how facts about every byte are checked by evaluation.
use mod_audio_stream.Common.Lists.{All}
use mod_audio_stream.Common.Tests.{◌==◌, ==_iff, Bool-cases}
use mathlib.Core.Logic.{inl, inr}
use native.Mathlib.Omega.{arith}
use mathlib.Core.List.{List}
use mathlib.Core.Bool.{◌&&◌, Bool, true}
use mathlib.Core.Path.{◌≡◌}
use Prim.Native.Nat.{ℕ, zero, suc, ◌+◌, ◌*◌, ◌/◌, ◌%◌, ◌^◌, ◌≤◌, ◌<◌}

-- An `unsigned char` value.
abbrev pub IsByte : ℕ → Type 0
IsByte b = b < 256

abbrev pub AllBytes : List ℕ → Type 0
AllBytes = All IsByte

-- x >> k and x << k.
abbrev pub shr : ℕ → ℕ → ℕ
shr x k = x / 2 ^ k

abbrev pub shl : ℕ → ℕ → ℕ
shl x k = x * 2 ^ k

-- What is stored in an unsigned char, a uint32_t, a size_t.
abbrev pub u8 : ℕ → ℕ
u8 x = x % 2 ^ 8

abbrev pub u32 : ℕ → ℕ
u32 x = x % 2 ^ 32

abbrev pub u64 : ℕ → ℕ
u64 x = x % 2 ^ 64

-- The test of the `n` numbers from `k` on.
unfoldable pub true_from : (ℕ → Bool) → ℕ → ℕ → Bool
true_from test k zero = true
true_from test k (suc n) = test k && true_from test (k + 1) n

pub true_from-at :
    (test : ℕ → Bool) (k n a : ℕ)
    → (k ≤ a) × (a < k + n)
    → true_from test k n ≡ true
    → test a ≡ true
unfolding true_from
true_from-at test k zero a h e = absurd (omega arith)
true_from-at test k (suc n) a h e = elim (Bool-cases (k == a)) [
  | inl same ↦ ground (arith, (==_iff k a).0 same)
  | inr other ↦ true_from-at test (k + 1) n a (ground arith) (ground arith)
]

-- Two functions that agree on every value below `n`, by evaluation.
pub agree_below :
    (n : ℕ) (f g : ℕ → ℕ) → true_from (λ x. f x == g x) 0 n ≡ true → (x : ℕ) → x < n → f x ≡ g x
agree_below n f g table x h =
    (==_iff (f x) (g x)).0 (true_from-at (λ x. f x == g x) 0 n x (omega arith, omega arith) table)
