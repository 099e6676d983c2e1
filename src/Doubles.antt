-- ===== src/Doubles.antt =====
-- The arithmetic of `double`, which the buffers of src/adaptive_buffer.cpp use and this library
-- takes as it is.
use mod_audio_stream.Common.{ℕ, ◌+◌, ◌*◌, ◌/◌, Bool, max, min, ltb}

pub record Doubles (D : Type 0) : Type 0 where
  -- from a size_t, and from a 64-bit word that stands for a signed number
  pub of_size : ℕ → D
  pub of_long : ℕ → D
  -- the literal n / k
  pub ratio : ℕ → ℕ → D
  pub add : D → D → D
  pub times : D → D → D
  pub divide : D → D → D
  pub is_greater : D → D → Bool
  pub max_of : D → D → D
  pub min_of : D → D → D
  -- static_cast<size_t>
  pub truncate : D → ℕ

-- Thousandths in place of doubles.
abbrev pub thousandths : Doubles ℕ
thousandths = record {
  of_size = λ n. n * 1000;
  of_long = λ n. n * 1000;
  ratio = λ n k. n * 1000 / k;
  add = λ a b. a + b;
  times = λ a b. a * b / 1000;
  divide = λ a b. a * 1000 / b;
  is_greater = λ a b. ltb b a;
  max_of = max;
  min_of = min;
  truncate = λ a. a / 1000;
}
