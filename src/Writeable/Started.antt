-- ===== src/Writeable/Started.antt =====
-- The writeable handler of src/audio_pipe.cpp leaves m_stream_started alone.
use mod_audio_stream.Common.{
  ℕ, ◌≡◌, refl, ◌∙◌, ◌+◌, leb, String, Bool, true, false, ◌&&◌, not, List, [], ◌∷◌, Option, none,
  some, if◌then◌else◌, arith,
}
use mod_audio_stream.SwitchBuffer.{SwitchBuffer}
use mod_audio_stream.StreamBuffer.{Buffer}
use mod_audio_stream.ClientEvents.{
  ClientEvent, client_event_start, client_event_stop, client_event_media, generate_json_data_event,
}
use mod_audio_stream.AudioPipe.{
  AudioPipe, same_state, lws_client_disconnecting, all_buffers_are_empty, event_args,
  get_event_data, increase_sequence_number,
}
use mod_audio_stream.Writeable.{
  Env, Turn, send_stop, send_start, send_event, audio_turn, put_back, flip_switch, finish_media,
  write_audio, write_next, client_writeable,
}
use mod_audio_stream.Common.{AllResults}

if-either {ℓ} :
    {A : Type 0} (P : A → Type ℓ) (b : Bool) (x y : A) → P x → P y → P (if b then x else y)
if-either P true x y h k = h
if-either P false x y h k = k

module _ {B : Type 0} (o : SwitchBuffer B) (env : Env) where
  -- The turn leaves the flag as it was in `p`.
  abbrev pub KeepsStarted : AudioPipe B → Turn B → Type 0
  KeepsStarted p t = t.pipe.stream_started ≡ p.stream_started

  put_back-started :
      (p : AudioPipe B) (b : Buffer B) → (put_back o env p b).stream_started ≡ p.stream_started
  unfolding put_back
  put_back-started p b = ground arith

  flip_switch-started : (p : AudioPipe B) → (flip_switch o env p).stream_started ≡ p.stream_started
  unfolding flip_switch
  flip_switch-started p = ground arith

  finish_media-started :
      (p : AudioPipe B) (b : Buffer B) (r : Option (List ℕ) × ClientEvent B)
      → KeepsStarted p (finish_media o env p b r)
  unfolding finish_media put_back flip_switch increase_sequence_number
  finish_media-started p b (none, e) = ground arith
  finish_media-started p b (some x, e) = ground arith

  write_audio-started :
      (p : AudioPipe B) (r : Option (Buffer B) × String) → KeepsStarted p (write_audio o env p r)
  unfolding write_audio
  write_audio-started p (none, track) = refl
  write_audio-started p (some b, track) =
      if-either (KeepsStarted p) env.try_lock _ _
        (finish_media-started p b
          (generate_json_data_event o env.print (client_event_media b) (event_args p track)))
        refl

  write_next-started : (r : List ℕ × AudioPipe B) → KeepsStarted r.1 (write_next o env r)
  unfolding write_next send_event
  write_next-started (x ∷ xs, p) = ground arith
  write_next-started ([], p) =
      if-either (KeepsStarted p) (same_state p.state lws_client_disconnecting) _ _ refl
        (write_audio-started p (audio_turn o env p))

  get_event_data-started :
      (p : AudioPipe B) → (get_event_data p).1.stream_started ≡ p.stream_started
  unfolding get_event_data
  get_event_data-started p = ground arith

  sent-started :
      (p : AudioPipe B) (t : List ℕ → Turn B) (m : Option (List ℕ))
      → ((x : List ℕ) → KeepsStarted p (t x))
      → AllResults (KeepsStarted p) (elim m [ none ↦ none | some x ↦ some (t x) ])
  sent-started p t none h = tt
  sent-started p t (some x) h = h x

  send_stop-started : (p : AudioPipe B) → AllResults (KeepsStarted p) (send_stop o env p)
  unfolding send_stop increase_sequence_number
  send_stop-started p =
      sent-started p _
        (generate_json_data_event o env.print client_event_stop (event_args p p.track)).0
        (λ x. refl)

  send_start-started : (p : AudioPipe B) → AllResults (KeepsStarted p) (send_start o env p)
  unfolding send_start increase_sequence_number
  send_start-started p =
      sent-started p _
        (generate_json_data_event o env.print client_event_start (event_args p p.track)).0
        (λ x. refl)

  pub client_writeable-started :
      (p : AudioPipe B) → AllResults (KeepsStarted p) (client_writeable o env p)
  unfolding client_writeable
  client_writeable-started p =
      let P = AllResults (KeepsStarted p) in
      if-either P (p.graceful_shutdown && leb (p.graceful_shutdown_at + 60) env.now) _ _ refl (
        if-either P (p.graceful_shutdown && (all_buffers_are_empty p && not p.last_msg_sent)) _ _
          (send_stop-started p)
          (if-either P (not p.first_msg_sent) _ _ (send_start-started p)
            (write_next-started (get_event_data p) ∙ get_event_data-started p)))
