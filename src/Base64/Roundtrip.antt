-- ===== src/Base64/Roundtrip.antt =====
-- Decoding what the encoder of src/base64.hpp wrote.
use mod_audio_stream.Common.{
  ℕ, zero, suc, ◌<◌, ◌≤◌, ◌^◌, length, take, u32, ◌≡◌, refl, sym, ◌∙◌, ap, List, [], ◌∷◌, ◌++◌,
  append_assoc, arith, AllBytes, IsByte,
}
use mod_audio_stream.Base64.{
  char_of, quad, sextet0, sextet1, sextet2, sextet3, octet0, octet1, octet2, Pending, none_yet, one,
  two, encode_rest, encode_loop, encode_all, base64_encode, Group, g0, g1, g2, g3, decode_step,
  decode_rest, decode_loop, decode_all, base64_decode, is_base64, accepts,
}
use mod_audio_stream.Base64.Bits.{
  sextet0-lt, sextet1-lt, sextet2-lt, sextet3-lt, octet0_back, octet1_back, octet2_back,
}
use mod_audio_stream.Base64.Encoding.{length-encode}
use mod_audio_stream.Base64.Alphabet.{sextet_of-char_of, accepts-char_of}

-- The accumulator of the encoder is a prefix of its result.
pub encode_loop-append :
    (s : List ℕ) (p : Pending) (ret : List ℕ) → encode_loop s p ret ≡ ret ++ encode_loop s p []
unfolding encode_loop
encode_loop-append [] p ret = refl
encode_loop-append (a ∷ s) none_yet ret = encode_loop-append s (one a) ret
encode_loop-append (b ∷ s) (one a) ret = encode_loop-append s (two a b) ret
encode_loop-append (c ∷ s) (two a b) ret =
    encode_loop-append s none_yet (ret ++ quad a b c)
    ∙ append_assoc ret (quad a b c) (encode_loop s none_yet [])
    ∙ ap (λ t. ret ++ t) (sym (encode_loop-append s none_yet (quad a b c)))

-- One accepted character is one round of the decoder.
decode_loop-char_of :
    (k : ℕ) (s : List ℕ) (g : Group) (ret : List ℕ)
    → k < 64
    → decode_loop (char_of k ∷ s) g ret
      ≡ decode_loop s (decode_step g (char_of k) ret).0 (decode_step g (char_of k) ret).1
decode_loop-char_of k s g ret h = unfold decode_loop in rw (accepts-char_of k h)

stops_at_padding :
    (s : List ℕ) (g : Group) (ret : List ℕ) → decode_loop (b'=' ∷ s) g ret ≡ ret ++ decode_rest g
stops_at_padding s g ret = unfold decode_loop accepts is_base64 in refl

decode_rest-g2 :
    (w x : ℕ) → w < 64 → x < 64 → decode_rest (g2 (char_of w) (char_of x)) ≡ octet0 w x ∷ []
unfolding decode_rest
decode_rest-g2 w x hw hx = rw (sextet_of-char_of w hw, sextet_of-char_of x hx)

decode_rest-g3 :
    (w x y : ℕ)
    → w < 64
    → x < 64
    → y < 64
    → decode_rest (g3 (char_of w) (char_of x) (char_of y)) ≡ octet0 w x ∷ octet1 x y ∷ []
unfolding decode_rest
decode_rest-g3 w x y hw hx hy =
    rw (sextet_of-char_of w hw, sextet_of-char_of x hx, sextet_of-char_of y hy)

-- The fourth character closes a group: its bytes are the octets of the four indices.
decode_step-g3 :
    (w x y z : ℕ) (ret : List ℕ)
    → w < 64
    → x < 64
    → y < 64
    → z < 64
    → decode_step (g3 (char_of w) (char_of x) (char_of y)) (char_of z) ret
      ≡ (g0, ret ++ octet0 w x ∷ octet1 x y ∷ octet2 y z ∷ [])
unfolding decode_step
decode_step-g3 w x y z ret hw hx hy hz =
    rw (
      sextet_of-char_of w hw,
      sextet_of-char_of x hx,
      sextet_of-char_of y hy,
      sextet_of-char_of z hz,
    )

-- Four characters of the alphabet are one group of the decoder.
decode_group :
    (w x y z : ℕ) (s ret : List ℕ)
    → w < 64
    → x < 64
    → y < 64
    → z < 64
    → decode_loop (char_of w ∷ char_of x ∷ char_of y ∷ char_of z ∷ s) g0 ret
      ≡ decode_loop s g0 (ret ++ octet0 w x ∷ octet1 x y ∷ octet2 y z ∷ [])
unfolding decode_step
decode_group w x y z s ret hw hx hy hz =
    decode_loop-char_of w (char_of x ∷ char_of y ∷ char_of z ∷ s) g0 ret hw
    ∙ decode_loop-char_of x (char_of y ∷ char_of z ∷ s) (g1 (char_of w)) ret hx
    ∙ decode_loop-char_of y (char_of z ∷ s) (g2 (char_of w) (char_of x)) ret hy
    ∙ decode_loop-char_of z s (g3 (char_of w) (char_of x) (char_of y)) ret hz
    ∙ ap (λ r. decode_loop s r.0 r.1) (decode_step-g3 w x y z ret hw hx hy hz)

decode_quad :
    (a b c : ℕ) (s ret : List ℕ)
    → IsByte a
    → IsByte b
    → IsByte c
    → decode_loop (quad a b c ++ s) g0 ret ≡ decode_loop s g0 (ret ++ a ∷ b ∷ c ∷ [])
unfolding quad
decode_quad a b c s ret ha hb hc =
    decode_group (sextet0 a) (sextet1 a b) (sextet2 b c) (sextet3 c) s ret (sextet0-lt a ha)
      (sextet1-lt a b ha hb) (sextet2-lt b c hb hc) (sextet3-lt c hc)
    ∙ rw (octet0_back a b ha hb, octet1_back a b c ha hb hc, octet2_back b c hb hc) refl

-- The padded groups that end a text.
decode_one :
    (a : ℕ) (ret : List ℕ) → IsByte a → decode_loop (encode_rest (one a)) g0 ret ≡ ret ++ a ∷ []
unfolding encode_rest decode_step
decode_one a ret h =
    let w = sextet0 a in
    let x = sextet1 a 0 in
    let hw : w < 64 = sextet0-lt a h in
    let hx : x < 64 = sextet1-lt a 0 h (omega arith) in
    decode_loop-char_of w (char_of x ∷ b'=' ∷ b'=' ∷ []) g0 ret hw
    ∙ decode_loop-char_of x (b'=' ∷ b'=' ∷ []) (g1 (char_of w)) ret hx
    ∙ stops_at_padding (b'=' ∷ []) (g2 (char_of w) (char_of x)) ret
    ∙ ap (λ t. ret ++ t) (decode_rest-g2 w x hw hx ∙ rw (octet0_back a 0 h (omega arith)))

decode_two :
    (a b : ℕ) (ret : List ℕ)
    → IsByte a
    → IsByte b
    → decode_loop (encode_rest (two a b)) g0 ret ≡ ret ++ a ∷ b ∷ []
unfolding encode_rest decode_step
decode_two a b ret h k =
    let w = sextet0 a in
    let x = sextet1 a b in
    let y = sextet2 b 0 in
    let hw : w < 64 = sextet0-lt a h in
    let hx : x < 64 = sextet1-lt a b h k in
    let hy : y < 64 = sextet2-lt b 0 k (omega arith) in
    decode_loop-char_of w (char_of x ∷ char_of y ∷ b'=' ∷ []) g0 ret hw
    ∙ decode_loop-char_of x (char_of y ∷ b'=' ∷ []) (g1 (char_of w)) ret hx
    ∙ decode_loop-char_of y (b'=' ∷ []) (g2 (char_of w) (char_of x)) ret hy
    ∙ stops_at_padding [] (g3 (char_of w) (char_of x) (char_of y)) ret
    ∙ ap (λ t. ret ++ t)
        (decode_rest-g3 w x y hw hx hy
          ∙ rw (octet0_back a b h k, octet1_back a b 0 h k (omega arith)))

decode_empty : (ret : List ℕ) → decode_loop (encode_loop [] none_yet []) g0 ret ≡ ret ++ []
unfolding encode_loop encode_rest decode_loop decode_rest
decode_empty ret = refl

-- The loops undo one another from any state in which the decoder stands between two groups.
decode_encode_loop :
    (s ret : List ℕ) → AllBytes s → decode_loop (encode_loop s none_yet []) g0 ret ≡ ret ++ s
unfolding encode_loop
decode_encode_loop [] ret h = decode_empty ret
decode_encode_loop (a ∷ []) ret h = decode_one a ret h.0
decode_encode_loop (a ∷ b ∷ []) ret h = decode_two a b ret h.0 h.1.0
decode_encode_loop (a ∷ b ∷ c ∷ s) ret h =
    ap (λ t. decode_loop t g0 ret) (encode_loop-append s none_yet (quad a b c))
    ∙ decode_quad a b c (encode_loop s none_yet []) ret h.0 h.1.0 h.1.1.0
    ∙ decode_encode_loop s (ret ++ a ∷ b ∷ c ∷ []) h.1.1.1
    ∙ append_assoc ret (a ∷ b ∷ c ∷ []) s

-- The loops undo one another on any bytes.
pub decode_all-encode_all : (s : List ℕ) → AllBytes s → decode_all (encode_all s) ≡ s
decode_all-encode_all s h = unfold decode_all encode_all in decode_encode_loop s [] h

take_whole : (s : List ℕ) (n : ℕ) → length s ≤ n → take n s ≡ s
take_whole [] zero h = refl
take_whole [] (suc n) h = refl
take_whole (x ∷ s) zero h = absurd (omega (arith, h))
take_whole (x ∷ s) (suc n) h = ap (λ t. x ∷ t) (take_whole s n (omega (arith, h)))

-- The counters of the codec hold such a length.
whole_u32 : (s : List ℕ) → length s < 2 ^ 32 → take (u32 (length s)) s ≡ s
whole_u32 s h = take_whole s (u32 (length s)) (omega (arith, h))

pub base64_encode_all : (s : List ℕ) → length s < 2 ^ 32 → base64_encode s ≡ encode_all s
unfolding base64_encode
base64_encode_all s h = ap encode_all (whole_u32 s h)

pub base64_decode_all : (s : List ℕ) → length s < 2 ^ 32 → base64_decode s ≡ decode_all s
unfolding base64_decode
base64_decode_all s h = ap decode_all (whole_u32 s h)

-- The longest list whose encoding is counted by an int.
abbrev pub max_bytes : ℕ
max_bytes = 1_610_612_733

-- For a list of at most 1610612733 bytes (numbers below 256), whose encoding has fewer than 2^31
-- characters, decoding its encoding gives the list back.
pub decode-encode :
    (s : List ℕ) → AllBytes s → length s ≤ max_bytes → base64_decode (base64_encode s) ≡ s
decode-encode s h l =
    let size = length-encode s in
    ap base64_decode (base64_encode_all s (omega (arith, l)))
    ∙ base64_decode_all (encode_all s) (omega (arith, size, l))
    ∙ decode_all-encode_all s h
