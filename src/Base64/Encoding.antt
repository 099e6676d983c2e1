-- ===== src/Base64/Encoding.antt =====
-- The shape of what the encoder of src/base64.hpp writes.
use mod_audio_stream.Common.{
  ℕ, ◌+◌, ◌*◌, ◌/◌, ◌<◌, ◌≡◌, refl, true, ◌||◌, List, [], ◌∷◌, ◌++◌, arith, length, length-append,
  All, All-append, AllBytes, IsByte, ◌==◌, true_from, true_from-at,
}
use mod_audio_stream.Base64.{
  char_of, is_base64, quad, sextet0, sextet1, sextet2, sextet3, Pending, none_yet, one, two,
  encode_rest, encode_loop, encode_all,
}
use mod_audio_stream.Base64.Bits.{sextet0-lt, sextet1-lt, sextet2-lt, sextet3-lt}

abbrev pending_size : Pending → ℕ
pending_size none_yet = 0
pending_size (one a) = 1
pending_size (two a b) = 2

length-encode_loop :
    (s : List ℕ) (p : Pending) (ret : List ℕ)
    → length (encode_loop s p ret) ≡ length ret + (pending_size p + length s + 2) / 3 * 4
unfolding encode_loop encode_rest quad
length-encode_loop [] none_yet ret = omega (arith, length-append ret [])
length-encode_loop [] (one a) ret = omega (arith, length-append ret (encode_rest (one a)))
length-encode_loop [] (two a b) ret = omega (arith, length-append ret (encode_rest (two a b)))
length-encode_loop (a ∷ s) none_yet ret = omega (arith, length-encode_loop s (one a) ret)
length-encode_loop (b ∷ s) (one a) ret = omega (arith, length-encode_loop s (two a b) ret)
length-encode_loop (c ∷ s) (two a b) ret =
    omega (arith, length-encode_loop s none_yet (ret ++ quad a b c), length-append ret (quad a b c))

-- The encoding of n bytes has (n + 2) / 3 * 4 characters, the padded length of RFC 4648.
pub length-encode : (s : List ℕ) → length (encode_all s) ≡ (length s + 2) / 3 * 4
length-encode s = unfold encode_all in omega (arith, length-encode_loop s none_yet [])

-- A character of the alphabet, or the padding.
abbrev pub IsOutput : ℕ → Type 0
IsOutput c = (is_base64 c || c == b'=') ≡ true

char_of-IsOutput : (k : ℕ) → k < 64 → IsOutput (char_of k)
unfolding true_from is_base64 char_of
char_of-IsOutput k h =
    true_from-at (λ k. is_base64 (char_of k) || char_of k == b'=') 0 64 k (omega arith, omega arith)
      refl

padding-IsOutput : IsOutput b'='
unfolding is_base64
padding-IsOutput = refl

abbrev PendingBytes : Pending → Type 0
PendingBytes none_yet = Unit {0}
PendingBytes (one a) = IsByte a
PendingBytes (two a b) = IsByte a × IsByte b

encode_rest-IsOutput : (p : Pending) → PendingBytes p → All IsOutput (encode_rest p)
unfolding encode_rest
encode_rest-IsOutput none_yet h = tt
encode_rest-IsOutput (one a) h = (
  char_of-IsOutput (sextet0 a) (sextet0-lt a h),
  (
    char_of-IsOutput (sextet1 a 0) (sextet1-lt a 0 h (omega arith)),
    (padding-IsOutput, (padding-IsOutput, tt)),
  ),
)
encode_rest-IsOutput (two a b) h = (
  char_of-IsOutput (sextet0 a) (sextet0-lt a h.0),
  (
    char_of-IsOutput (sextet1 a b) (sextet1-lt a b h.0 h.1),
    (char_of-IsOutput (sextet2 b 0) (sextet2-lt b 0 h.1 (omega arith)), (padding-IsOutput, tt)),
  ),
)

quad-IsOutput : (a b c : ℕ) → IsByte a → IsByte b → IsByte c → All IsOutput (quad a b c)
unfolding quad
quad-IsOutput a b c ha hb hc = (
  char_of-IsOutput (sextet0 a) (sextet0-lt a ha),
  (
    char_of-IsOutput (sextet1 a b) (sextet1-lt a b ha hb),
    (
      char_of-IsOutput (sextet2 b c) (sextet2-lt b c hb hc),
      (char_of-IsOutput (sextet3 c) (sextet3-lt c hc), tt),
    ),
  ),
)

encode_loop-IsOutput :
    (s : List ℕ) (p : Pending) (ret : List ℕ)
    → AllBytes s
    → PendingBytes p
    → All IsOutput ret
    → All IsOutput (encode_loop s p ret)
unfolding encode_loop
encode_loop-IsOutput [] p ret h k r = All-append IsOutput ret _ (r, encode_rest-IsOutput p k)
encode_loop-IsOutput (a ∷ s) none_yet ret h k r = encode_loop-IsOutput s (one a) ret h.1 h.0 r
encode_loop-IsOutput (b ∷ s) (one a) ret h k r = encode_loop-IsOutput s (two a b) ret h.1 (k, h.0) r
encode_loop-IsOutput (c ∷ s) (two a b) ret h k r =
    encode_loop-IsOutput s none_yet (ret ++ quad a b c) h.1 tt
      (All-append IsOutput ret _ (r, quad-IsOutput a b c k.0 k.1 h.0))

-- The encoding of a list of bytes has only characters of the alphabet and padding, none of which
-- needs an escape in a JSON string.
pub encode-IsOutput : (s : List ℕ) → AllBytes s → All IsOutput (encode_all s)
encode-IsOutput s h = unfold encode_all in encode_loop-IsOutput s none_yet [] h tt tt
