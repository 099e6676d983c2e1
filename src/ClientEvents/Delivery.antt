-- ===== src/ClientEvents/Delivery.antt =====
-- What a server reads in the media events of src/stream_utils.cpp.
use mod_audio_stream.Common.{
  ℕ, ◌+◌, ◌≡◌, refl, ap, List, [], ◌∷◌, Option, none, some, arith, u32, AllBytes, length,
  length-append, ◌<◌, ◌^◌, ◌∙◌,
}
use mod_audio_stream.Json.{Json, get_item, get_cstr, number_value}
use mod_audio_stream.Base64.{decode_all}
use mod_audio_stream.Base64.Roundtrip.{decode_all-encode_all, base64_encode_all}
use mod_audio_stream.SwitchBuffer.{SwitchBuffer, IsFifo}
use mod_audio_stream.StreamBuffer.{Buffer, read}
use mod_audio_stream.StreamBuffer.Fifo.{Holds, concat, read-front, read-empty}
use mod_audio_stream.ClientEvents.{EventArgs, media_json, media_event}

-- The bytes of `media.payload`, as the server decodes them.
abbrev pub payload_of : Json → Option (List ℕ)
payload_of j = elim (get_item "media" j) [
  | none ↦ none
  | some m ↦ elim (get_cstr "payload" m) [ none ↦ none | some s ↦ some (decode_all s) ]
]

abbrev pub chunk_of : Json → Option ℕ
chunk_of j = elim (get_item "media" j) [
  | none ↦ none
  | some m ↦ elim (get_item "chunk" m) [ none ↦ none | some n ↦ number_value n ]
]

-- The event carries the frame `f`, numbered `n`.
abbrev pub Carries : List ℕ → ℕ → Option Json → Type 0
Carries f n none = ⊥
Carries f n (some j) = (payload_of j ≡ some f) × (chunk_of j ≡ some n)

module _ {B : Type 0} {o : SwitchBuffer B} (law : IsFifo o) where
  media_json-Carries :
      (a : EventArgs) (b : Buffer B) (f : List ℕ)
      → AllBytes f
      → length f < 2 ^ 32
      → Carries f b.transmitted_chunk_count (some (media_json a b f))
  unfolding media_json
  media_json-Carries a b f h l =
      (ap some (ap decode_all (base64_encode_all f l) ∙ decode_all-encode_all f h), refl)

  media_event-some :
      (a : EventArgs) (b : Buffer B) (x : ℕ) (f : List ℕ)
      → (read o b).0 ≡ some (x ∷ f)
      → media_event o a b ≡ (some (media_json a (read o b).1 (x ∷ f)), (read o b).1)
  unfolding media_event
  media_event-some a b x f e = rw (e, media_event)

  -- Over a FreeSWITCH buffer that obeys the laws of a queue, the media event of a buffer that holds
  -- the frame `f` of bytes and then `fs` has a payload that decodes to `f` and the next chunk
  -- number, and leaves the buffer with `fs`.
  pub media_event-Carries :
      (a : EventArgs) (b : Buffer B) (f : List ℕ) (fs : List (List ℕ))
      → Holds law b (f ∷ fs)
      → AllBytes f
      → Carries f (u32 (b.transmitted_chunk_count + 1)) (media_event o a b).0
        × Holds law (media_event o a b).1 fs
  media_event-Carries a b [] fs v h = absurd (omega arith)
  media_event-Carries a b (x ∷ f) fs v h =
      let r = read-front law (x ∷ f) fs v in
      let small : length (x ∷ f) < 2 ^ 32 =
        omega (arith, v.bounded, v.within, length-append (x ∷ f) (concat fs)) in
      rw (media_event-some a b x f r.0)
        (rw (r.2) at (media_json-Carries a (read o b).1 (x ∷ f) h small), r.1)

  -- Over a FreeSWITCH buffer that obeys the laws of a queue, a buffer that holds no frame gives no
  -- media event and still holds none.
  pub media_event-empty :
      (a : EventArgs) (b : Buffer B)
      → Holds law b []
      → ((media_event o a b).0 ≡ none) × Holds law (media_event o a b).1 []
  unfolding media_event
  media_event-empty a b v = let r = read-empty law v in rw (r.0, media_event) (refl, r.1)
