-- ===== src/Base64/Bits.antt =====
-- The masks and shifts of src/base64.hpp read as quotients and remainders.
use mod_audio_stream.Common.{
  ℕ, ◌+◌, ◌*◌, ◌/◌, ◌%◌, ◌<◌, ◌≡◌, refl, bit_and, arith, shr, IsByte, agree_below, true_from,
}
use mod_audio_stream.Base64.{sextet0, sextet1, sextet2, sextet3, octet0, octet1, octet2}

and_fc : (a : ℕ) → IsByte a → bit_and a 0xfc ≡ a / 4 * 4
unfolding true_from
and_fc = agree_below 256 (λ a. bit_and a 0xfc) (λ a. a / 4 * 4) refl

and_03 : (a : ℕ) → IsByte a → bit_and a 0x03 ≡ a % 4
unfolding true_from
and_03 = agree_below 256 (λ a. bit_and a 0x03) (λ a. a % 4) refl

and_f0 : (a : ℕ) → IsByte a → bit_and a 0xf0 ≡ a / 16 * 16
unfolding true_from
and_f0 = agree_below 256 (λ a. bit_and a 0xf0) (λ a. a / 16 * 16) refl

and_0f : (a : ℕ) → IsByte a → bit_and a 0x0f ≡ a % 16
unfolding true_from
and_0f = agree_below 256 (λ a. bit_and a 0x0f) (λ a. a % 16) refl

and_c0 : (a : ℕ) → IsByte a → bit_and a 0xc0 ≡ a / 64 * 64
unfolding true_from
and_c0 = agree_below 256 (λ a. bit_and a 0xc0) (λ a. a / 64 * 64) refl

and_3f : (a : ℕ) → IsByte a → bit_and a 0x3f ≡ a % 64
unfolding true_from
and_3f = agree_below 256 (λ a. bit_and a 0x3f) (λ a. a % 64) refl

and_30 : (x : ℕ) → x < 64 → bit_and x 0x30 ≡ x / 16 * 16
unfolding true_from
and_30 = agree_below 64 (λ a. bit_and a 0x30) (λ a. a / 16 * 16) refl

and_3c : (x : ℕ) → x < 64 → bit_and x 0x3c ≡ x / 4 * 4
unfolding true_from
and_3c = agree_below 64 (λ a. bit_and a 0x3c) (λ a. a / 4 * 4) refl

pub sextet0_lem : (a : ℕ) → IsByte a → sextet0 a ≡ a / 4
unfolding sextet0
sextet0_lem a h = rw (and_fc a h) (omega arith)

pub sextet1_lem : (a b : ℕ) → IsByte a → IsByte b → sextet1 a b ≡ a % 4 * 16 + b / 16
unfolding sextet1
sextet1_lem a b h k = rw (and_03 a h, and_f0 b k) (omega arith)

pub sextet2_lem : (b c : ℕ) → IsByte b → IsByte c → sextet2 b c ≡ b % 16 * 4 + c / 64
unfolding sextet2
sextet2_lem b c h k = rw (and_0f b h, and_c0 c k) (omega arith)

pub sextet3_lem : (c : ℕ) → IsByte c → sextet3 c ≡ c % 64
unfolding sextet3
sextet3_lem c h = and_3f c h

pub octet0_lem : (w x : ℕ) → w < 64 → x < 64 → octet0 w x ≡ w * 4 + x / 16
unfolding octet0
octet0_lem w x h k = rw (and_30 x k) (omega arith)

pub octet1_lem : (x y : ℕ) → x < 64 → y < 64 → octet1 x y ≡ x % 16 * 16 + y / 4
unfolding octet1
octet1_lem x y h k = rw (and_0f x (omega arith), and_3c y k) (omega arith)

pub octet2_lem : (y z : ℕ) → y < 64 → z < 64 → octet2 y z ≡ y % 4 * 64 + z
unfolding octet2
octet2_lem y z h k = rw (and_03 y (omega arith)) (omega arith)

pub ruleset sextets = (arith, sextet0_lem, sextet1_lem, sextet2_lem, sextet3_lem)

-- Every sextet of three bytes is an index of the alphabet.
pub sextet0-lt : (a : ℕ) → IsByte a → sextet0 a < 64
sextet0-lt a h = omega (arith, sextet0_lem a h)

pub sextet1-lt : (a b : ℕ) → IsByte a → IsByte b → sextet1 a b < 64
sextet1-lt a b h k = omega (arith, sextet1_lem a b h k)

pub sextet2-lt : (b c : ℕ) → IsByte b → IsByte c → sextet2 b c < 64
sextet2-lt b c h k = omega (arith, sextet2_lem b c h k)

pub sextet3-lt : (c : ℕ) → IsByte c → sextet3 c < 64
sextet3-lt c h = omega (arith, sextet3_lem c h)

-- The octets of the sextets of three bytes are those bytes, whatever fills the last sextets.
pub octet0_back : (a b : ℕ) → IsByte a → IsByte b → octet0 (sextet0 a) (sextet1 a b) ≡ a
octet0_back a b h k = omega (
  arith,
  octet0_lem (sextet0 a) (sextet1 a b) (sextet0-lt a h) (sextet1-lt a b h k),
  sextet0_lem a h,
  sextet1_lem a b h k,
)

pub octet1_back :
    (a b c : ℕ) → IsByte a → IsByte b → IsByte c → octet1 (sextet1 a b) (sextet2 b c) ≡ b
octet1_back a b c h k l = omega (
  arith,
  octet1_lem (sextet1 a b) (sextet2 b c) (sextet1-lt a b h k) (sextet2-lt b c k l),
  sextet1_lem a b h k,
  sextet2_lem b c k l,
)

pub octet2_back : (b c : ℕ) → IsByte b → IsByte c → octet2 (sextet2 b c) (sextet3 c) ≡ c
octet2_back b c k l = omega (
  arith,
  octet2_lem (sextet2 b c) (sextet3 c) (sextet2-lt b c k l) (sextet3-lt c l),
  sextet2_lem b c k l,
  sextet3_lem c l,
)
