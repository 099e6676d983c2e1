-- ===== src/Base64.antt =====
-- src/base64.hpp: the encoder and the decoder of the media payloads. A text is the list of its
-- character codes, a byte string a list of numbers below 256.
pub mod Bits
pub mod Alphabet
pub mod Encoding
pub mod Roundtrip
pub mod Decoding
mod Tests
use mod_audio_stream.Common.{
  ℕ, zero, suc, ◌+◌, Bool, ◌&&◌, ◌||◌, not, List, [], ◌∷◌, ◌++◌, String, bit_and, leb, ◌==◌,
  if◌then◌else◌, get_or, codes, shr, shl, u8, u32, take, length,
}

abbrev pub chars : List ℕ
chars = codes "ABCDEFGHIJKLMNOPQRSTUVWXYZabcdefghijklmnopqrstuvwxyz0123456789+/"

-- `chars[i]`.
pub char_of : ℕ → ℕ
char_of i = get_or chars i 0

-- `std::isalnum` in the C locale, '+' or '/'.
pub is_base64 : ℕ → Bool
is_base64 c =
    leb b'0' c && leb c b'9'
    || leb b'A' c && leb c b'Z'
    || leb b'a' c && leb c b'z'
    || c == b'+'
    || c == b'/'

-- `chars.find(c)` from position `i` on; `npos` is 2^64 - 1.
pub find_from : ℕ → List ℕ → ℕ → ℕ
find_from c [] i = 0xffff_ffff_ffff_ffff
find_from c (x ∷ xs) i = if x == c then i else find_from c xs (i + 1)

-- What an `unsigned char` keeps of `chars.find(c)`.
pub sextet_of : ℕ → ℕ
sextet_of c = u8 (find_from c chars 0)

-- `char_array_4` from `char_array_3`, one function for an entry.
pub sextet0 : ℕ → ℕ
sextet0 a = shr (bit_and a 0xfc) 2

pub sextet1 : ℕ → ℕ → ℕ
sextet1 a b = u8 (shl (bit_and a 0x03) 4 + shr (bit_and b 0xf0) 4)

pub sextet2 : ℕ → ℕ → ℕ
sextet2 b c = u8 (shl (bit_and b 0x0f) 2 + shr (bit_and c 0xc0) 6)

pub sextet3 : ℕ → ℕ
sextet3 c = bit_and c 0x3f

-- `char_array_3` from `char_array_4`.
pub octet0 : ℕ → ℕ → ℕ
octet0 w x = u8 (shl w 2 + shr (bit_and x 0x30) 4)

pub octet1 : ℕ → ℕ → ℕ
octet1 x y = u8 (shl (bit_and x 0xf) 4 + shr (bit_and y 0x3c) 2)

pub octet2 : ℕ → ℕ → ℕ
octet2 y z = u8 (shl (bit_and y 0x3) 6 + z)

-- `char_array_3[0..i)` between two rounds of the encoder's loop.
pub data Pending : Type 0 where
  none_yet : Pending
  one : ℕ → Pending
  two : ℕ → ℕ → Pending

pub encode_rest : Pending → List ℕ
encode_rest none_yet = []
encode_rest (one a) = char_of (sextet0 a) ∷ char_of (sextet1 a 0) ∷ b'=' ∷ b'=' ∷ []
encode_rest (two a b) =
    char_of (sextet0 a) ∷ char_of (sextet1 a b) ∷ char_of (sextet2 b 0) ∷ b'=' ∷ []

pub quad : ℕ → ℕ → ℕ → List ℕ
quad a b c =
    char_of (sextet0 a) ∷ char_of (sextet1 a b) ∷ char_of (sextet2 b c) ∷ char_of (sextet3 c) ∷ []

pub encode_loop : List ℕ → Pending → List ℕ → List ℕ
encode_loop [] p ret = ret ++ encode_rest p
encode_loop (a ∷ s) none_yet ret = encode_loop s (one a) ret
encode_loop (b ∷ s) (one a) ret = encode_loop s (two a b) ret
encode_loop (c ∷ s) (two a b) ret = encode_loop s none_yet (ret ++ quad a b c)

-- All the bytes.
unfoldable pub encode_all : List ℕ → List ℕ
unfolding encode_loop encode_rest quad char_of sextet0 sextet1 sextet2 sextet3
encode_all bytes = encode_loop bytes none_yet []

-- `in_len` is an unsigned int, so that of 2^32 bytes and more only so many are read.
unfoldable pub base64_encode : List ℕ → List ℕ
unfolding encode_all
base64_encode bytes = encode_all (take (u32 (length bytes)) bytes)

-- `char_array_4[0..i)` between two rounds of the decoder's loop: characters, not yet looked up.
pub data Group : Type 0 where
  g0 : Group
  g1 : ℕ → Group
  g2 : ℕ → ℕ → Group
  g3 : ℕ → ℕ → ℕ → Group

pub decode_step : Group → ℕ → List ℕ → Group × List ℕ
decode_step g0 c ret = (g1 c, ret)
decode_step (g1 a) c ret = (g2 a c, ret)
decode_step (g2 a b) c ret = (g3 a b c, ret)
decode_step (g3 a b c) d ret =
    let w = sextet_of a in
    let x = sextet_of b in
    let y = sextet_of c in
    let z = sextet_of d in (g0, ret ++ octet0 w x ∷ octet1 x y ∷ octet2 y z ∷ [])

-- The `i - 1` bytes of an unfinished group.
pub decode_rest : Group → List ℕ
decode_rest g0 = []
decode_rest (g1 a) = []
decode_rest (g2 a b) = octet0 (sextet_of a) (sextet_of b) ∷ []
decode_rest (g3 a b c) =
    octet0 (sextet_of a) (sextet_of b) ∷ octet1 (sextet_of b) (sextet_of c) ∷ []

pub accepts : ℕ → Bool
accepts c = not (c == b'=') && is_base64 c

pub decode_loop : List ℕ → Group → List ℕ → List ℕ
decode_loop [] g ret = ret ++ decode_rest g
decode_loop (c ∷ s) g ret =
    let (g', ret') = decode_step g c ret in
    let rest = decode_loop s g' ret' in if accepts c then rest else ret ++ decode_rest g

-- The whole text.
unfoldable pub decode_all : List ℕ → List ℕ
unfolding decode_loop decode_step decode_rest accepts is_base64 sextet_of find_from octet0 octet1
    octet2
decode_all s = decode_loop s g0 []

-- `in_len` is an int that counts down to 0: modulo 2^32, where it starts below 0.
unfoldable pub base64_decode : List ℕ → List ℕ
unfolding decode_all
base64_decode s = decode_all (take (u32 (length s)) s)
