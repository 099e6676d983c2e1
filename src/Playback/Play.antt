-- ===== src/Playback/Play.antt =====
-- A media.play message that the server is expected to send (processPlayAudioEvent of
-- src/lws_glue.cpp), and one that breaks the stack.
use mod_audio_stream.Common.{
  ◌*◌, ◌/◌, ◌≤◌, arith, ◌>>=◌, ℕ, ◌+◌, ◌%◌, ◌≡◌, refl, ap, ◌∙◌, List, ◌++◌, true, false, none, some,
  length, u32, codes, AllBytes, ==_iff, if-true, if-false, ◌⊎◌, inl, inr, subst, sym, Option, ◌==◌,
  Bool-cases,
}
use mod_audio_stream.Base64.{base64_encode, base64_decode}
use mod_audio_stream.Base64.Roundtrip.{decode-encode, max_bytes}
use mod_audio_stream.ClientEvents.{l16}
use mod_audio_stream.SwitchBuffer.{SwitchBuffer, IsFifo}
use mod_audio_stream.Playback.{Session, Services, copy_into-fits, copy_into-over}
use mod_audio_stream.Playback.Incoming.{
  play, known_rate, content, request, store_bytes, store_payload, current_rate, carry_out, dispatch,
  resampler, store_resampled, read_event, read_message, process_play_audio_event,
  process_incoming_message,
}
use mod_audio_stream.Playback.Account.{room}

-- A text that asks to play some base64, as 16-bit samples of a rate.
pub record AsksToPlay {J R : Type 0} (v : Services J R) (text payload : List ℕ) (rate : ℕ)
    : Type 0 where
  pub json : J
  pub media : J
  pub sample_rate : J
  pub parsed : v.parse text ≡ some json
  pub event : v.get_object_cstr json "event" ≡ some (codes "media.play")
  pub has_media : v.get_object_item json "media" ≡ some media
  pub has_payload : v.get_object_cstr media "payload" ≡ some payload
  pub content_type : v.get_object_cstr media "contentType" ≡ some (codes "audio/x-l16")
  pub has_rate : v.get_object_item media "sampleRate" ≡ some sample_rate
  pub known : known_rate (v.valueint sample_rate) ≡ rate

module _ {B J R : Type 0} (o : SwitchBuffer B) (v : Services J R) where
  request_of :
      (text payload : List ℕ) (rate : ℕ) (a : AsksToPlay v text payload rate)
      → request o v a.json ≡ play payload l16 rate
  unfolding request content
  request_of text payload rate a =
      rw (a.has_media)
        (rw (a.has_payload) (rw (a.content_type) (rw (a.has_rate) (ap (play payload l16) a.known))))

  -- Such a text is carried out.
  message_of :
      (fuel address : ℕ) (s : Session B R) (text payload : List ℕ) (rate : ℕ)
      → v.has_channel ≡ true
      → AsksToPlay v text payload rate
      → process_incoming_message o v fuel address s text
        ≡ store_payload o v s (base64_decode payload) l16 rate (current_rate o v)
  unfolding process_incoming_message read_message read_event dispatch process_play_audio_event
      carry_out
  message_of fuel address s text payload rate channel a =
      if-true _ _ channel
      ∙ ap (read_message o v fuel address s text) a.parsed
      ∙ ap (read_event o v fuel address s text a.json) a.event
      ∙ if-true _ _ channel
      ∙ ap (carry_out o v s text) (request_of text payload rate a)

module _ {B J R : Type 0} {o : SwitchBuffer B} (fifo : IsFifo o) (v : Services J R) where
  -- Over a FreeSWITCH buffer that obeys the laws of a queue and has no limit: a media.play message
  -- whose payload is the encoding of at most 1610612733 bytes, as audio/x-l16 of the rate of the
  -- channel's read codec, stores exactly these bytes after those that were there, counts them
  -- modulo 2^32 as received, and leaves the count of played bytes, the checkpoints and what was
  -- sent.
  pub play-Stores :
      (fuel address : ℕ) (s : Session B R) (text bytes : List ℕ) (rate : ℕ)
      → v.has_channel ≡ true
      → AsksToPlay v text (base64_encode bytes) rate
      → rate ≡ current_rate o v
      → AllBytes bytes
      → length bytes ≤ max_bytes
      → fifo.max_len s.write_buffer ≡ 0
      → (t : Session B R) × (process_incoming_message o v fuel address s text ≡ some t)
        × (fifo.contents t.write_buffer ≡ fifo.contents s.write_buffer ++ bytes)
        × (t.stream_input_received ≡ u32 (s.stream_input_received + length bytes))
        × (t.stream_input_played ≡ s.stream_input_played)
        × (t.checkpoints ≡ s.checkpoints)
        × (t.calls ≡ s.calls)
  unfolding store_payload store_bytes
  play-Stores fuel address s text bytes rate channel a same all short unlimited = (
    store_bytes o v s bytes,
    message_of o v fuel address s text (base64_encode bytes) rate channel a
        ∙ ap (λ raw. store_payload o v s raw l16 rate (current_rate o v))
            (decode-encode bytes all short)
        ∙ if-true _ _ ((==_iff rate (current_rate o v)).1 same),
    fifo.contents-write s.write_buffer bytes (room fifo s.write_buffer bytes unlimited),
    refl,
    refl,
    refl,
    refl,
  )

  -- What `t` has when the resampler has turned `bytes` into `out` and is left as `r`.
  pub record Resampled (s t : Session B R) (out : List ℕ × R) : Type 0 where
    pub stored : fifo.contents t.write_buffer ≡ fifo.contents s.write_buffer ++ out.0
    pub counted : t.stream_input_received ≡ u32 (s.stream_input_received + length out.0)
    pub resampler_kept : t.resampler_outbound ≡ some out.1
    pub played_kept : t.stream_input_played ≡ s.stream_input_played
    pub checkpoints_kept : t.checkpoints ≡ s.checkpoints
    pub calls_kept : t.calls ≡ s.calls

  -- What becomes of a session that is sent `bytes` of another rate: whole samples are resampled
  -- and stored, and with half a sample more the array that they are copied to is too short.
  pub Resamples : Session B R → List ℕ → ℕ → Option (Session B R) → Type 0
  Resamples s bytes rate result =
      ((length bytes % 2 ≡ 0)
        × (t : Session B R) × (result ≡ some t)
        × Resampled s t (v.resample (resampler o v s rate (current_rate o v)) bytes (length bytes)))
      ⊎ ((length bytes % 2 ≡ 1) × (result ≡ none))

  even-or-odd : (n : ℕ) → (n % 2 ≡ 0) ⊎ (n % 2 ≡ 1)
  even-or-odd n = elim (Bool-cases (n % 2 == 0)) [
    | inl e ↦ inl (ground (arith, e))
    | inr e ↦ inr (ground (arith, e))
  ]

  store_payload-Resamples :
      (s : Session B R) (bytes : List ℕ) (rate : ℕ)
      → ¬ (rate ≡ current_rate o v)
      → fifo.max_len s.write_buffer ≡ 0
      → Resamples s bytes rate (store_payload o v s bytes l16 rate (current_rate o v))
  unfolding store_payload store_bytes Resamples
  store_payload-Resamples s bytes rate other unlimited =
      let out = v.resample (resampler o v s rate (current_rate o v)) bytes (length bytes) in
      let resample : List ℕ → Option (Session B R) = λ input.
        store_resampled o v s
          (v.resample (resampler o v s rate (current_rate o v)) input (length bytes)) in
      let differs : (rate == current_rate o v) ≡ false = ground (arith, other) in
      elim (even-or-odd (length bytes)) [
        | inl even ↦ inl (
          even,
          _,
          if-false _ _ differs
              ∙ ap (λ r. r >>= resample)
                  (copy_into-fits (2 * (length bytes / 2)) bytes (omega (arith, even))),
          record {
            stored =
                fifo.contents-write s.write_buffer out.0 (room fifo s.write_buffer out.0 unlimited);
            counted = refl;
            resampler_kept = refl;
            played_kept = refl;
            checkpoints_kept = refl;
            calls_kept = refl;
          },
        )
        | inr odd ↦ inr (
          odd,
          if-false _ _ differs
              ∙ ap (λ r. r >>= resample)
                  (copy_into-over (2 * (length bytes / 2)) bytes (omega (arith, odd))),
        )
      ]

  -- Over a FreeSWITCH buffer that obeys the laws of a queue and has no limit: a media.play message
  -- whose payload is the encoding of at most 1610612733 bytes, as audio/x-l16 of a known rate other
  -- than that of the channel's read codec. If the number of bytes is even, the resampler (a new
  -- one, if there was none) is given exactly these bytes, and what it gives is stored after what
  -- was there and counted modulo 2^32 as received; the resampler is kept, and the count of played
  -- bytes, the checkpoints and what was sent stay. If it is odd, the message is a fault: the bytes
  -- are one more than the array that they are copied to has.
  pub play-Resamples :
      (fuel address : ℕ) (s : Session B R) (text bytes : List ℕ) (rate : ℕ)
      → v.has_channel ≡ true
      → AsksToPlay v text (base64_encode bytes) rate
      → ¬ (rate ≡ current_rate o v)
      → AllBytes bytes
      → length bytes ≤ max_bytes
      → fifo.max_len s.write_buffer ≡ 0
      → Resamples s bytes rate (process_incoming_message o v fuel address s text)
  play-Resamples fuel address s text bytes rate channel a other all short unlimited =
      subst (Resamples s bytes rate)
        (sym (
          message_of o v fuel address s text (base64_encode bytes) rate channel a
          ∙ ap (λ raw. store_payload o v s raw l16 rate (current_rate o v))
              (decode-encode bytes all short)))
        (store_payload-Resamples s bytes rate other unlimited)
