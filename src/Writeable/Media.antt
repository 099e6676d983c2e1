-- ===== src/Writeable/Media.antt =====
-- A stream in its steady state sends its frames, one in each turn, and a graceful shutdown ends by
-- itself (src/audio_pipe.cpp).
use text.Mathlib.Text.{◌==◌}
use mod_audio_stream.Common.{
  ℕ, ◌+◌, ◌<◌, ◌≡◌, refl, ap, ◌∙◌, String, true, false, ◌&&◌, not, List, [], ◌∷◌, Option, none,
  some, arith, AllBytes, u32, leb, if◌then◌else◌, length-append, if-true, if-false, if-true,
  if-false,
}
use mod_audio_stream.Json.{Json}
use mod_audio_stream.SwitchBuffer.{SwitchBuffer, IsFifo}
use mod_audio_stream.StreamBuffer.{Buffer, is_data_available}
use mod_audio_stream.StreamBuffer.Fifo.{Holds, concat}
use mod_audio_stream.ClientEvents.{
  EventArgs, client_event_media, media_event, generate_json_data_event,
}
use mod_audio_stream.ClientEvents.Delivery.{Carries, media_event-Carries}
use mod_audio_stream.AudioPipe.{
  AudioPipe, lws_client_connected, lws_client_disconnecting, same_state, event_args,
  all_buffers_are_empty, get_event_data, increase_sequence_number,
}
use mod_audio_stream.Writeable.{
  Env, finish_media, audio_turn, put_back, flip_switch, write_audio, write_next, client_writeable,
}

-- The track that a stream of one track names.
abbrev pub one_track : String → String
one_track track = if track == "inbound" then "inbound" else "outbound"

module _ {B : Type 0} {o : SwitchBuffer B} (law : IsFifo o) (env : Env) where
  -- A connected stream of one track: the START event is out, no text is queued, and the buffer
  -- holds `fs`.
  pub record IsSteady (p : AudioPipe B) (b : Buffer B) (fs : List (List ℕ)) : Type 0 where
    pub one : p.both_tracks ≡ false
    pub buffer : p.audio_buffer ≡ some b
    pub no_other : p.ob_audio_buffer ≡ none
    pub holds : Holds law b fs
    pub started : p.first_msg_sent ≡ true
    pub no_events : p.events ≡ []
    pub connected : p.state ≡ lws_client_connected
    pub not_stopped : p.last_msg_sent ≡ false

  -- The deadline of a shutdown is not reached.
  abbrev pub InTime : AudioPipe B → Type 0
  InTime p = env.now < p.graceful_shutdown_at + 60

  -- The event of one turn of the audio.
  abbrev pub event_of : AudioPipe B → Buffer B → Option Json × Buffer B
  event_of p b = media_event o (event_args p (one_track p.track)) b

  -- `p` after a media event was sent.
  abbrev pub after_media : AudioPipe B → Buffer B → AudioPipe B
  after_media p b = record p { audio_buffer = some b; sequence_number = p.sequence_number + 1 }

  generate-media :
      (a : EventArgs) (b b' : Buffer B) (j : Json) (text : List ℕ)
      → media_event o a b ≡ (some j, b')
      → env.print j ≡ some text
      → generate_json_data_event o env.print (client_event_media b) a
        ≡ (some text, client_event_media b')
  unfolding generate_json_data_event
  generate-media a b b' j text k l = rw (k, generate_json_data_event) (rw l)

  finish_media-some :
      (p : AudioPipe B) (b b' : Buffer B) (text : List ℕ)
      → p.both_tracks ≡ false
      → finish_media o env p b (some text, client_event_media b')
        ≡ record { pipe = after_media p b'; sent = some text; asks = true; closes = false }
  unfolding finish_media put_back flip_switch increase_sequence_number
  finish_media-some p b b' text e = ground arith

  -- With a frame at hand, one turn of the audio sends it.
  write_audio-some :
      (p : AudioPipe B) (b b' : Buffer B) (j : Json) (text : List ℕ)
      → p.both_tracks ≡ false
      → env.try_lock ≡ true
      → event_of p b ≡ (some j, b')
      → env.print j ≡ some text
      → write_audio o env p (some b, one_track p.track)
        ≡ record { pipe = after_media p b'; sent = some text; asks = true; closes = false }
  unfolding write_audio
  write_audio-some p b b' j text e k l m =
      if-true _ _ k
      ∙ ap (finish_media o env p b)
          (generate-media (event_args p (one_track p.track)) b b' j text l m)
      ∙ finish_media-some p b b' text e

  audio_turn-one :
      (p : AudioPipe B) (b : Buffer B)
      → p.both_tracks ≡ false
      → p.audio_buffer ≡ some b
      → audio_turn o env p ≡ (some b, one_track p.track)
  unfolding audio_turn
  audio_turn-one p b e k = ground arith

  pub get_event_data-none : (p : AudioPipe B) → p.events ≡ [] → get_event_data p ≡ ([], p)
  unfolding get_event_data
  get_event_data-none p e = ground arith

  write_next-audio :
      (p : AudioPipe B) (b : Buffer B)
      → p.both_tracks ≡ false
      → p.audio_buffer ≡ some b
      → p.events ≡ []
      → p.state ≡ lws_client_connected
      → write_next o env (get_event_data p) ≡ write_audio o env p (some b, one_track p.track)
  unfolding write_next
  write_next-audio p b e f g h =
      ap (write_next o env) (get_event_data-none p g)
      ∙ if-false _ _ (ap (λ t. same_state t lws_client_disconnecting) h)
      ∙ ap (write_audio o env p) (audio_turn-one p b e f)

  pub in_time :
      (p : AudioPipe B)
      → InTime p
      → (p.graceful_shutdown && leb (p.graceful_shutdown_at + 60) env.now) ≡ false
  in_time p h = ground arith

  -- A buffer with a frame counts as data.
  data-at_hand :
      (p : AudioPipe B) (b : Buffer B) (f : List ℕ) (fs : List (List ℕ))
      → IsSteady p b (f ∷ fs)
      → all_buffers_are_empty p ≡ false
  unfolding all_buffers_are_empty is_data_available
  data-at_hand p b f fs v =
      let h = v.holds in
      let usage : 0 < b.current_usage_bytes =
        omega (arith, h.usage, h.whole.0, h.some_size, length-append f (concat fs)) in
      ground (arith, v.buffer, usage)

  pub no_data : (p : AudioPipe B) (b : Buffer B) → IsSteady p b [] → all_buffers_are_empty p ≡ true
  unfolding all_buffers_are_empty is_data_available
  no_data p b v = let usage = v.holds.usage in ground (arith, v.buffer, v.no_other, usage)

  -- While frames are at hand the handler comes to the audio.
  client_writeable-audio :
      (p : AudioPipe B) (b : Buffer B) (f : List ℕ) (fs : List (List ℕ))
      → IsSteady p b (f ∷ fs)
      → InTime p
      → client_writeable o env p ≡ some (write_audio o env p (some b, one_track p.track))
  unfolding client_writeable
  client_writeable-audio p b f fs v t =
      if-false _ _ (in_time p t)
      ∙ if-false {b = p.graceful_shutdown && (all_buffers_are_empty p && not p.last_msg_sent)} _ _
          (ground (arith, data-at_hand p b f fs v))
      ∙ if-false _ _ (ap not v.started)
      ∙ ap some (write_next-audio p b v.one v.buffer v.no_events v.connected)

  -- The next frame is `f`, and cJSON_Print gives `text` for its event: the turn sends `text`, and
  -- what is left is steady.
  pub record SendsFrame (p : AudioPipe B) (b : Buffer B) (f : List ℕ) (fs : List (List ℕ))
      : Type 0 where
    pub json : Json
    pub text : List ℕ
    pub rest : Buffer B
    pub printed : env.print json ≡ some text
    pub carries : Carries f (u32 (b.transmitted_chunk_count + 1)) (some json)
    pub turn :
        client_writeable o env p
        ≡ some (record { pipe = after_media p rest; sent = some text; asks = true; closes = false })
    pub steady : IsSteady (after_media p rest) rest fs

  after_media-IsSteady :
      (p : AudioPipe B) (b b' : Buffer B) (fs gs : List (List ℕ))
      → IsSteady p b fs
      → Holds law b' gs
      → IsSteady (after_media p b') b' gs
  after_media-IsSteady p b b' fs gs v h = record {
    one = v.one;
    buffer = refl;
    no_other = v.no_other;
    holds = h;
    started = v.started;
    no_events = v.no_events;
    connected = v.connected;
    not_stopped = v.not_stopped;
  }

  sends_frame :
      (p : AudioPipe B) (b b' : Buffer B) (f : List ℕ) (fs : List (List ℕ)) (e : Option Json)
      → ((j : Json) → (text : List ℕ) × (env.print j ≡ some text))
      → IsSteady p b (f ∷ fs)
      → InTime p
      → env.try_lock ≡ true
      → event_of p b ≡ (e, b')
      → Carries f (u32 (b.transmitted_chunk_count + 1)) e
      → Holds law b' fs
      → SendsFrame p b f fs
  sends_frame p b b' f fs none prints v t l k c h = absurd c
  sends_frame p b b' f fs (some j) prints v t l k c h =
      let (text, printed) = prints j in
      record {
        json = j;
        text = text;
        rest = b';
        printed = printed;
        carries = c;
        turn =
            client_writeable-audio p b f fs v t
            ∙ ap some (write_audio-some p b b' j text v.one l k printed);
        steady = after_media-IsSteady p b b' (f ∷ fs) fs v h;
      }

  -- In a steady stream of one track whose buffer holds the frame `f` of bytes and then `fs`, with a
  -- buffer that obeys the laws of a queue, before the deadline of a shutdown, with a free lock and
  -- a printer that never fails, one turn sends the event that carries `f` and the next chunk
  -- number, asks for another turn, adds one to the sequence number and leaves the stream steady
  -- with `fs`.
  pub client_writeable-SendsFrame :
      (p : AudioPipe B) (b : Buffer B) (f : List ℕ) (fs : List (List ℕ))
      → ((j : Json) → (text : List ℕ) × (env.print j ≡ some text))
      → IsSteady p b (f ∷ fs)
      → InTime p
      → env.try_lock ≡ true
      → AllBytes f
      → SendsFrame p b f fs
  client_writeable-SendsFrame p b f fs prints v t l bytes =
      let r = media_event-Carries law (event_args p (one_track p.track)) b f fs v.holds bytes in
      sends_frame p b (event_of p b).1 f fs (event_of p b).0 prints v t l refl r.0 r.1
