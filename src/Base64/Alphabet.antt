-- ===== src/Base64/Alphabet.antt =====
-- The alphabet of src/base64.hpp: looking a character up undoes indexing.
use mod_audio_stream.Common.{ℕ, ◌<◌, ◌≡◌, refl, true, arith, agree_below, true_from, true_from-at}
use mod_audio_stream.Base64.{char_of, sextet_of, find_from, is_base64, accepts}

pub sextet_of-char_of : (k : ℕ) → k < 64 → sextet_of (char_of k) ≡ k
unfolding true_from sextet_of find_from char_of
sextet_of-char_of = agree_below 64 (λ k. sextet_of (char_of k)) (λ k. k) refl

pub accepts-char_of : (k : ℕ) → k < 64 → accepts (char_of k) ≡ true
unfolding true_from accepts is_base64 char_of
accepts-char_of k h = true_from-at (λ k. accepts (char_of k)) 0 64 k (omega arith, omega arith) refl
