-- ===== src/Base64/Tests.antt =====
-- Runs of src/base64.hpp on short texts, and the theorems at concrete inputs.
use mod_audio_stream.Common.{ℕ, ◌≡◌, refl, List, [], ◌∷◌, arith, false, codes}
use mod_audio_stream.Base64.{base64_encode, base64_decode, accepts, is_base64}
use mod_audio_stream.Base64.Roundtrip.{decode-encode}

abbrev many_hands : List ℕ
many_hands = codes "Many hands"

encode_many_hands : base64_encode many_hands ≡ codes "TWFueSBoYW5kcw=="
unfolding base64_encode
encode_many_hands = refl

decode_many_hands : base64_decode (codes "TWFueSBoYW5kcw==") ≡ many_hands
unfolding base64_decode
decode_many_hands = refl

decode-encode_example :
    base64_decode (base64_encode (0 ∷ 255 ∷ 128 ∷ 7 ∷ [])) ≡ 0 ∷ 255 ∷ 128 ∷ 7 ∷ []
decode-encode_example = decode-encode (0 ∷ 255 ∷ 128 ∷ 7 ∷ []) (omega arith) (omega arith)

star_refused : accepts b'*' ≡ false
unfolding accepts is_base64
star_refused = refl
