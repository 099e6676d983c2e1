-- ===== src/Uri/Ports.antt =====
-- The port that parse_ws_uri of src/lws_glue.cpp reads: decimal digits and their number.
use mod_audio_stream.Common.{
  ℕ, zero, suc, ◌+◌, ◌-◌, ◌*◌, ◌/◌, ◌%◌, ◌^◌, ◌<◌, ◌≡◌, refl, ◌∙◌, List, [], ◌∷◌, ◌++◌, some,
  length, length-append, ltb, inl, inr, Bool-cases, arith, All-append, decimal, decimal_fuel,
}
use mod_audio_stream.Uri.{number_from, atoi, given_port}
use mod_audio_stream.Uri.Groups.{AllDigits}

-- The number that digits stand for.
number_from-append :
    (n : ℕ) (s t : List ℕ) → number_from n (s ++ t) ≡ number_from (number_from n s) t
unfolding number_from
number_from-append n [] t = refl
number_from-append n (c ∷ s) t = number_from-append (n * 10 + (c - b'0')) s t

-- The first number with more than `f` digits.
abbrev limit : ℕ → ℕ
limit zero = 1
limit (suc f) = 10 * limit f

decimal_fuel-number :
    (f n : ℕ) → n < limit f → (number_from 0 (decimal_fuel f n) ≡ n) × AllDigits (decimal_fuel f n)
unfolding number_from decimal_fuel
decimal_fuel-number zero n h = (omega (arith, h), tt)
decimal_fuel-number (suc f) n h = elim (Bool-cases (ltb n 10)) [
  | inl small ↦ rw small (omega arith, (ground arith, tt))
  | inr large ↦
      let (v, d) = decimal_fuel-number f (n / 10) (omega arith) in
      let front = decimal_fuel f (n / 10) in
      rw large (
        number_from-append 0 front ((b'0' + n % 10) ∷ []) ∙ omega (arith, v),
        All-append _ front ((b'0' + n % 10) ∷ []) (d, (ground arith, tt)),
      )
]

pub decimal-number : (n : ℕ) → n < 2 ^ 31 → (number_from 0 (decimal n) ≡ n) × AllDigits (decimal n)
unfolding decimal
decimal-number n h = decimal_fuel-number 20 n (omega arith)

pub length-decimal_pos : (n : ℕ) → 0 < length (decimal n)
unfolding decimal decimal_fuel
length-decimal_pos n = elim (Bool-cases (ltb n 10)) [
  | inl small ↦ rw small (omega arith)
  | inr large ↦
      rw large (omega (arith, length-append (decimal_fuel 19 (n / 10)) ((b'0' + n % 10) ∷ [])))
]

-- The port that is written, whatever the scheme says.
pub given_port-number :
    (s : List ℕ) (n port : ℕ)
    → 0 < length s
    → number_from 0 s ≡ n
    → n < 2 ^ 31
    → given_port s port ≡ some n
unfolding atoi
given_port-number [] n port l e h = absurd (omega (arith, l))
given_port-number (c ∷ s) n port l e h = ground (arith, e)
