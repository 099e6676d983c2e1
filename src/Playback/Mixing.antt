-- ===== src/Playback/Mixing.antt =====
-- The samples that the media callback of src/mod_audio_stream.c mixes.
use mod_audio_stream.Common.{
  ℕ, ◌+◌, ◌*◌, ◌^◌, ◌≤◌, ◌≡◌, refl, ap, ap₂, ◌∙◌, List, [], ◌∷◌, map, some, arith, length,
  bind-some,
}
use mod_audio_stream.Common.Int.{ℤ, ◌+ℤ◌, int16, word16, nearest16, int16-nearest}
use mod_audio_stream.Playback.{Services}
use mod_audio_stream.Playback.Frames.{mix, mix_samples}

-- The sums as integers, each as near as 16 bits allow.
abbrev pub sums : List ℕ → List ℕ → List ℤ
sums [] bytes = []
sums (a ∷ samples) [] = []
sums (a ∷ samples) (low ∷ []) = []
sums (a ∷ samples) (low ∷ high ∷ bytes) =
    nearest16 (int16 a +ℤ int16 (low + 2 ^ 8 * high)) ∷ sums samples bytes

module _ {J R : Type 0} (v : Services J R) where
  pub mix_samples-sums :
      (samples bytes : List ℕ)
      → ((z : ℤ) → v.normalize_to_16bit z ≡ nearest16 z)
      → 2 * length samples ≤ length bytes
      → (mixed : List ℕ) × (mix_samples v samples bytes ≡ some mixed)
        × (map int16 mixed ≡ sums samples bytes)
  unfolding mix_samples
  mix_samples-sums [] bytes near enough = ([], refl, refl)
  mix_samples-sums (a ∷ samples) [] near enough = absurd (omega arith)
  mix_samples-sums (a ∷ samples) (low ∷ []) near enough = absurd (omega arith)
  mix_samples-sums (a ∷ samples) (low ∷ high ∷ bytes) near enough =
      let (others, e, same) = mix_samples-sums samples bytes near (omega arith) in
      let sum = int16 a +ℤ int16 (low + 2 ^ 8 * high) in
      (
        mix v a (low + 2 ^ 8 * high) ∷ others,
        bind-some (mix_samples v samples bytes) _ others e,
        ap₂ (λ (z : ℤ) (zs : List ℤ). z ∷ zs)
            (ap (λ z. int16 (word16 z)) (near sum) ∙ int16-nearest sum) same,
      )
