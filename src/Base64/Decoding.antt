-- ===== src/Base64/Decoding.antt =====
-- The decoder of src/base64.hpp on any text, well formed or not.
use mod_audio_stream.Common.{
  u32, take, ℕ, ◌+◌, ◌*◌, ◌/◌, ◌≡◌, refl, true, false, List, [], ◌∷◌, ◌++◌, arith, length,
  length-append, All, All-append, AllBytes, IsByte, inl, inr, Bool-cases,
}
use mod_audio_stream.Base64.{
  accepts, octet0, octet1, octet2, sextet_of, Group, g0, g1, g2, g3, decode_step, decode_rest,
  decode_loop, decode_all, base64_decode,
}

octet0-IsByte : (w x : ℕ) → IsByte (octet0 w x)
unfolding octet0
octet0-IsByte w x = omega arith

octet1-IsByte : (x y : ℕ) → IsByte (octet1 x y)
unfolding octet1
octet1-IsByte x y = omega arith

octet2-IsByte : (y z : ℕ) → IsByte (octet2 y z)
unfolding octet2
octet2-IsByte y z = omega arith

decode_rest-AllBytes : (g : Group) → AllBytes (decode_rest g)
unfolding decode_rest
decode_rest-AllBytes g0 = tt
decode_rest-AllBytes (g1 a) = tt
decode_rest-AllBytes (g2 a b) = (octet0-IsByte (sextet_of a) (sextet_of b), tt)
decode_rest-AllBytes (g3 a b c) =
    (octet0-IsByte (sextet_of a) (sextet_of b), (octet1-IsByte (sextet_of b) (sextet_of c), tt))

decode_step-AllBytes :
    (g : Group) (c : ℕ) (ret : List ℕ) → AllBytes ret → AllBytes (decode_step g c ret).1
unfolding decode_step
decode_step-AllBytes g0 c ret h = h
decode_step-AllBytes (g1 a) c ret h = h
decode_step-AllBytes (g2 a b) c ret h = h
decode_step-AllBytes (g3 a b c) d ret h = All-append IsByte ret _ (
  h,
  (
    octet0-IsByte (sextet_of a) (sextet_of b),
    (octet1-IsByte (sextet_of b) (sextet_of c), (octet2-IsByte (sextet_of c) (sextet_of d), tt)),
  ),
)

-- One round of the loop: it goes on with the next character, or it ends.
pub decode_loop-accepts :
    (c : ℕ) (s : List ℕ) (g : Group) (ret : List ℕ)
    → accepts c ≡ true
    → decode_loop (c ∷ s) g ret ≡ decode_loop s (decode_step g c ret).0 (decode_step g c ret).1
decode_loop-accepts c s g ret e = unfold decode_loop in rw e

pub decode_loop-stops :
    (c : ℕ) (s : List ℕ) (g : Group) (ret : List ℕ)
    → accepts c ≡ false
    → decode_loop (c ∷ s) g ret ≡ ret ++ decode_rest g
decode_loop-stops c s g ret e = unfold decode_loop in rw e

decode_loop-AllBytes :
    (s : List ℕ) (g : Group) (ret : List ℕ) → AllBytes ret → AllBytes (decode_loop s g ret)
decode_loop-AllBytes [] g ret h =
    unfold decode_loop in All-append IsByte ret _ (h, decode_rest-AllBytes g)
decode_loop-AllBytes (c ∷ s) g ret h = elim (Bool-cases (accepts c)) [
  | inl e ↦ rw (decode_loop-accepts c s g ret e) (
      decode_loop-AllBytes s (decode_step g c ret).0 (decode_step g c ret).1
        (decode_step-AllBytes g c ret h))
  | inr e ↦ rw (decode_loop-stops c s g ret e) (All-append IsByte ret _ (h, decode_rest-AllBytes g))
]

-- Whatever the text, the decoder returns bytes.
pub decode-AllBytes : (s : List ℕ) → AllBytes (base64_decode s)
decode-AllBytes s = unfold base64_decode in decode_loop-AllBytes (take (u32 (length s)) s) g0 [] tt

decode_loop-cut :
    (s t : List ℕ) (c : ℕ) (g : Group) (ret : List ℕ)
    → accepts c ≡ false
    → decode_loop (s ++ c ∷ t) g ret ≡ decode_loop s g ret
decode_loop-cut [] t c g ret e = rw (decode_loop-stops c t g ret e) (unfold decode_loop in refl)
decode_loop-cut (x ∷ s) t c g ret e = elim (Bool-cases (accepts x)) [
  | inl p ↦
      rw (decode_loop-accepts x (s ++ c ∷ t) g ret p, decode_loop-accepts x s g ret p)
        (decode_loop-cut s t c (decode_step g x ret).0 (decode_step g x ret).1 e)
  | inr p ↦ rw (decode_loop-stops x (s ++ c ∷ t) g ret p, decode_loop-stops x s g ret p)
]

-- A character that the decoder does not accept (padding, or one outside the alphabet) ends the
-- decoding: what follows it is ignored.
pub decode-cut : (s t : List ℕ) (c : ℕ) → accepts c ≡ false → decode_all (s ++ c ∷ t) ≡ decode_all s
decode-cut s t c e = unfold decode_all in decode_loop-cut s t c g0 [] e

abbrev AllAccepted : List ℕ → Type 0
AllAccepted = All (λ c. accepts c ≡ true)

abbrev group_size : Group → ℕ
group_size g0 = 0
group_size (g1 a) = 1
group_size (g2 a b) = 2
group_size (g3 a b c) = 3

-- A round takes one character in, and three bytes leave for each four.
decode_step-size :
    (g : Group) (c : ℕ) (ret : List ℕ)
    → let (g', ret') = decode_step g c ret in
      length ret' * 4 + group_size g' * 3 ≡ length ret * 4 + (group_size g + 1) * 3
unfolding decode_step
decode_step-size g0 c ret = omega arith
decode_step-size (g1 a) c ret = omega arith
decode_step-size (g2 a b) c ret = omega arith
decode_step-size (g3 a b c) d ret = omega (arith, length-append ret (decode_step (g3 a b c) d []).1)

length-decode_loop :
    (s : List ℕ) (g : Group) (ret : List ℕ)
    → AllAccepted s
    → length (decode_loop s g ret) ≡ length ret + (group_size g + length s) * 3 / 4
length-decode_loop [] g0 ret h =
    unfold decode_loop decode_rest in omega (arith, length-append ret [])
length-decode_loop [] (g1 a) ret h =
    unfold decode_loop decode_rest in omega (arith, length-append ret [])
length-decode_loop [] (g2 a b) ret h =
    unfold decode_loop decode_rest in omega (arith, length-append ret (decode_rest (g2 a b)))
length-decode_loop [] (g3 a b c) ret h =
    unfold decode_loop decode_rest in omega (arith, length-append ret (decode_rest (g3 a b c)))
length-decode_loop (x ∷ s) g ret h = rw (decode_loop-accepts x s g ret h.0) (
    omega (
      arith,
      length-decode_loop s (decode_step g x ret).0 (decode_step g x ret).1 h.1,
      decode_step-size g x ret,
    ))

-- A text of n characters that the decoder accepts decodes to n * 3 / 4 bytes, rounded down.
pub length-decode : (s : List ℕ) → AllAccepted s → length (decode_all s) ≡ length s * 3 / 4
length-decode s h = unfold decode_all in omega (arith, length-decode_loop s g0 [] h)
