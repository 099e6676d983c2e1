-- ===== src/Playback/Closed.antt =====
-- What holds of a session after processIncomingMessage of src/lws_glue.cpp, if it held before.
use mod_audio_stream.Common.{
  ◌>>=◌, ◌*◌, ◌/◌, ℕ, ◌≡◌, refl, List, Bool, true, false, Option, none, some, length, if◌then◌else◌,
  AllResults, ◌==◌, bind-AllResults, lookup-AllResults, codes, text_eq,
}
use mod_audio_stream.SwitchBuffer.{SwitchBuffer}
use mod_audio_stream.AudioPipe.{AudioPipe}
use mod_audio_stream.Checkpoints.{Checkpoints, add_checkpoint}
use mod_audio_stream.Playback.{
  copy_into, Session, Services, response_handler, transcription_received, note,
  send_incorrect_payload_event, report_invalid,
}
use mod_audio_stream.ClientEvents.{Codec, l16, ulaw}
use mod_audio_stream.Playback.Clear.{IsCleared, clear_checkpoints-IsCleared}
use mod_audio_stream.Playback.Incoming.{
  resampler, store_resampled, after_clear, store_bytes, store_payload, clear_checkpoints,
  process_clear_event, process_play_audio_event, add_named, read_message, process_incoming_message,
  carry_out, dispatch, read_event, request, Request, reject, play,
}

module _ {B J R : Type 0} (o : SwitchBuffer B) (v : Services J R) where
  -- A property of sessions that what a message may do keeps.
  pub record Closed (P : Session B R → Type 0) : Type 0 where
    pub stored :
        (s : Session B R) (r : Option R) (bytes : List ℕ)
        → P s
        → P (store_bytes o v (record s { resampler_outbound = r }) bytes)
    pub told :
        (s : Session B R) (p : AudioPipe B) (payload reason : List ℕ)
        → s.invalid_stream_input_notified ≡ false
        → P s
        → P (report_invalid v p payload reason (record s { invalid_stream_input_notified = true }))
    pub added :
        (a : ℕ) (s : Session B R) (name : List ℕ) (c : Checkpoints)
        → s.checkpoints.cells a ≡ none
        → add_checkpoint a s.stream_input_received name s.checkpoints ≡ some c
        → P s
        → P (record s { checkpoints = c })
    pub cleared :
        (s : Session B R) (c : Checkpoints) (p : AudioPipe B)
        → IsCleared c
        → P s
        → P (after_clear o s c p)
    pub transcribed :
        (s : Session B R) (text : List ℕ)
        → P s
        → P (note (response_handler transcription_received text) s)

module _ {B J R : Type 0} (o : SwitchBuffer B) (v : Services J R) (P : Session B R → Type 0)
    (closed : Closed o v P) where
  -- Whatever session an operation leaves, `P` holds of it.
  pub record Kept (r : Option (Session B R)) : Type 0 where
    pub all : AllResults P r

  done : (s : Session B R) → P s → Kept (some s)
  done s a = record { all = a }

  branch :
      (b : Bool) (x y : Option (Session B R))
      → (b ≡ true → Kept x)
      → (b ≡ false → Kept y)
      → Kept (if b then x else y)
  branch true x y h k = h refl
  branch false x y h k = k refl

  resampled-Kept :
      (s : Session B R) (raw : List ℕ) (r : R) (copied : Option (List ℕ))
      → P s
      → Kept (copied >>= λ input. store_resampled o v s (v.resample r input (length raw)))
  resampled-Kept s raw r none a = record { all = tt }
  resampled-Kept s raw r (some input) a =
      let (out, r') = v.resample r input (length raw) in done _ (closed.stored s (some r') out a)

  store_payload-Kept :
      (s : Session B R) (raw : List ℕ) (codec : Codec) (rcvd current : ℕ)
      → P s
      → Kept (store_payload o v s raw codec rcvd current)
  unfolding store_payload
  store_payload-Kept s raw ulaw rcvd current a = done _ (closed.stored s s.resampler_outbound _ a)
  store_payload-Kept s raw l16 rcvd current a =
      branch (rcvd == current) (some (store_bytes o v s raw)) _
        (λ _. done _ (closed.stored s s.resampler_outbound raw a))
        λ _.
          resampled-Kept s raw (resampler o v s rcvd current) (copy_into (2 * (length raw / 2)) raw)
            a

  invalid-Kept :
      (s : Session B R) (payload reason : List ℕ)
      → P s
      → Kept (send_incorrect_payload_event v s payload reason)
  unfolding send_incorrect_payload_event
  invalid-Kept s payload reason a =
      let told = record s { invalid_stream_input_notified = true } in
      let next = λ (p : AudioPipe B). some (report_invalid v p payload reason told) in
      branch s.invalid_stream_input_notified (some s) _ (λ _. done s a)
        λ new. record {
          all = lookup-AllResults P s.audio_pipe next (λ p _. closed.told s p payload reason new a);
        }

  carry_out-Kept :
      (s : Session B R) (payload : List ℕ) (r : Request) → P s → Kept (carry_out o v s payload r)
  unfolding carry_out
  carry_out-Kept s payload (reject reason) a = invalid-Kept s payload _ a
  carry_out-Kept s payload (play text codec rate) a = store_payload-Kept s _ codec rate _ a

  play-Kept :
      (s : Session B R) (text : List ℕ) (json : J)
      → P s
      → Kept (process_play_audio_event o v s text json)
  unfolding process_play_audio_event
  play-Kept s text json a =
      branch v.has_channel (carry_out o v s text (request o v json)) _
        (λ _. carry_out-Kept s text (request o v json) a) (λ _. done s a)

  add_named-Kept :
      (a : ℕ) (s : Session B R) (name : Option (List ℕ))
      → s.checkpoints.cells a ≡ none
      → P s
      → Kept (add_named o v a s name)
  unfolding add_named
  add_named-Kept a s none fresh r = done s r
  add_named-Kept a s (some name) fresh r =
      let next =
        λ (c : Checkpoints). let t : Session B R = record s { checkpoints = c } in some t in
      branch (s.stream_input_received == 0) (some s) _ (λ _. done s r)
        λ _. record {
          all =
              lookup-AllResults P (add_checkpoint a s.stream_input_received name s.checkpoints) next
                (λ c e. closed.added a s name c fresh e r);
        }

  process_clear_event-Kept :
      (fuel : ℕ) (s : Session B R) → P s → Kept (process_clear_event o v fuel s)
  unfolding process_clear_event
  process_clear_event-Kept fuel s a = record {
    all =
        bind-AllResults IsCleared P (clear_checkpoints fuel s.checkpoints) _
          (clear_checkpoints-IsCleared fuel s.checkpoints)
          λ c empty. lookup-AllResults P s.audio_pipe _ λ p _. closed.cleared s c p empty a;
  }

  dispatch-Kept :
      (fuel a : ℕ) (s : Session B R) (text : List ℕ) (json : J) (event : List ℕ)
      → s.checkpoints.cells a ≡ none
      → P s
      → Kept (dispatch o v fuel a s text json event)
  unfolding dispatch
  dispatch-Kept fuel a s text json event fresh r =
      let named = v.get_object_cstr json "name" in
      let sent = note (response_handler transcription_received text) s in
      branch (text_eq event (codes "media.play")) (process_play_audio_event o v s text json) _
        (λ _. play-Kept s text json r)
        λ _.
          branch (text_eq event (codes "media.checkpoint")) (add_named o v a s named) _
            (λ _. add_named-Kept a s named fresh r)
            λ _.
              branch (text_eq event (codes "media.clear")) (process_clear_event o v fuel s) _
                (λ _. process_clear_event-Kept fuel s r)
                λ _.
                  branch (text_eq event (codes "transcription.send")) (some sent) _
                    (λ _. done sent (closed.transcribed s text r))
                    (λ _. invalid-Kept s text (codes "Invalid event") r)

  read_event-Kept :
      (fuel a : ℕ) (s : Session B R) (text : List ℕ) (json : J) (event : Option (List ℕ))
      → s.checkpoints.cells a ≡ none
      → P s
      → Kept (read_event o v fuel a s text json event)
  unfolding read_event
  read_event-Kept fuel a s text json none fresh r = invalid-Kept s text _ r
  read_event-Kept fuel a s text json (some event) fresh r =
      dispatch-Kept fuel a s text json event fresh r

  read_message-Kept :
      (fuel a : ℕ) (s : Session B R) (text : List ℕ) (tree : Option J)
      → s.checkpoints.cells a ≡ none
      → P s
      → Kept (read_message o v fuel a s text tree)
  unfolding read_message
  read_message-Kept fuel a s text none fresh r = invalid-Kept s text _ r
  read_message-Kept fuel a s text (some json) fresh r =
      read_event-Kept fuel a s text json (v.get_object_cstr json "event") fresh r

  pub process_incoming_message-Kept :
      (fuel a : ℕ) (s : Session B R) (text : List ℕ)
      → s.checkpoints.cells a ≡ none
      → P s
      → Kept (process_incoming_message o v fuel a s text)
  unfolding process_incoming_message
  process_incoming_message-Kept fuel a s text fresh r =
      branch v.has_channel (read_message o v fuel a s text (v.parse text)) _
        (λ _. read_message-Kept fuel a s text (v.parse text) fresh r) (λ _. done s r)
