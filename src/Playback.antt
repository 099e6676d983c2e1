-- ===== src/Playback.antt =====
-- The way back: audio that the server sends is stored, mixed into the call frame by frame, and its
-- checkpoints are reported (private_data_t of src/mod_audio_stream.h, src/lws_glue.cpp and
-- src/mod_audio_stream.c). Incoming has the messages, Frames the media callback. The write buffer's
-- lock is held by both sides, so an operation is one step.
pub mod Incoming
pub mod Frames
pub mod Due
pub mod Clear
pub mod Account
pub mod Closed
pub mod Messages
pub mod Mixing
pub mod Replace
pub mod Plays
pub mod Run
pub mod Once
pub mod Play
mod Tests
use mod_audio_stream.Common.{
  ◌≤◌, ◌<◌, leb, if-true, if-false, arith, ℕ, ◌+◌, ◌≡◌, List, [], ◌∷◌, ◌++◌, Bool, true, false,
  Option, none, some, String, codes, length, u32, if◌then◌else◌, ◌>>=◌,
}
use mod_audio_stream.Common.Int.{ℤ}
use mod_audio_stream.Json.{Json, string, number, object, fields}
use mod_audio_stream.SwitchBuffer.{SwitchBuffer}
use mod_audio_stream.AudioPipe.{AudioPipe, increase_sequence_number}
use mod_audio_stream.Checkpoints.{Checkpoints}

-- The events that the response handler is given here: EVENT_INVALID_STREAM_INPUT,
-- EVENT_CLEARED_AUDIO, EVENT_PLAYED and EVENT_TRANSCRIPTION_RECEIVED.
pub data Response : Type 0 where
  invalid_stream_input cleared_audio played transcription_received : Response

-- A call of AudioPipe::addEventBuffer, or of tech_pvt->response_handler.
pub data Call : Type 0 where
  add_event_buffer : List ℕ → Call
  response_handler : Response → List ℕ → Call

-- The part of the session that playback uses, and the calls that it made, in order.
pub record Session (B R : Type 0) : Type 0 where
  pub stream_id : List ℕ
  pub audio_pipe : Option (AudioPipe B)
  pub write_buffer : B
  pub stream_input_received : ℕ
  pub stream_input_played : ℕ
  pub checkpoints : Checkpoints
  pub invalid_stream_input_notified : Bool
  pub resampler_outbound : Option R
  pub calls : List Call

-- The functions of other libraries: cJSON over parsed trees `J`, the speex resampler with states
-- `R` (the samples and bytes are those of a little-endian machine), and FreeSWITCH's G.711 table
-- and saturation.
pub record Services (J R : Type 0) : Type 0 where
  -- cJSON_Parse, cJSON_GetObjectItem, cJSON_GetObjectCstr
  pub parse : List ℕ → Option J
  pub get_object_item : J → String → Option J
  pub get_object_cstr : J → String → Option (List ℕ)
  -- the field `valueint`, as a word
  pub valueint : J → ℕ
  -- cJSON_Print
  pub print : Json → Option (List ℕ)
  -- a sample, as a word
  pub ulaw_to_linear : ℕ → ℕ
  -- speex_resampler_init, from one rate to another
  pub resampler_init : ℕ → ℕ → R
  -- speex_resampler_process_interleaved_int on the bytes of the input: at most so many samples
  pub resample : R → List ℕ → ℕ → List ℕ × R
  pub normalize_to_16bit : ℤ → ℤ
  -- SWITCH_RECOMMENDED_BUFFER_SIZE
  pub recommended_buffer_size : ℕ
  -- switch_core_session_get_channel finds the channel
  pub has_channel : Bool
  -- the rate of the read codec, if there is one
  pub read_rate : Option ℕ

-- What is stored and due is the same in two sessions.
pub record Untouched {B R : Type 0} (s t : Session B R) : Type 0 where
  pub write_buffer : t.write_buffer ≡ s.write_buffer
  pub received : t.stream_input_received ≡ s.stream_input_received
  pub played : t.stream_input_played ≡ s.stream_input_played
  pub checkpoints : t.checkpoints ≡ s.checkpoints

-- Bytes copied into an array that has room for `n`; `none` is a write beyond it.
unfoldable pub copy_into : ℕ → List ℕ → Option (List ℕ)
copy_into n bytes = if leb (length bytes) n then some bytes else none

pub copy_into-fits : (n : ℕ) (bytes : List ℕ) → length bytes ≤ n → copy_into n bytes ≡ some bytes
unfolding copy_into
copy_into-fits n bytes h = ground (arith, h)

pub copy_into-over : (n : ℕ) (bytes : List ℕ) → n < length bytes → copy_into n bytes ≡ none
unfolding copy_into
copy_into-over n bytes h = ground (arith, h)

abbrev pub note : {B R : Type 0} → Call → Session B R → Session B R
note c s = record s { calls = s.calls ++ c ∷ [] }

-- A text for the server, and the next sequence number.
abbrev pub queue_event : {B R : Type 0} → AudioPipe B → List ℕ → Session B R → Session B R
queue_event p text s =
    note (add_event_buffer text) (record s { audio_pipe = some (increase_sequence_number p) })

-- A new bidirectional session: `write_buffer` is unlimited. Of a stream of both tracks that is
-- resampled, `outbound` is the resampler that stream_data_init has made for the outbound track.
unfoldable pub new_session :
    {B R : Type 0} → SwitchBuffer B → List ℕ → ℕ → Option R → AudioPipe B → Session B R
new_session o stream_id len outbound p = record {
  stream_id = stream_id;
  audio_pipe = some p;
  write_buffer = o.create_dynamic len len 0;
  stream_input_received = 0;
  stream_input_played = 0;
  checkpoints = record { cells = λ a. none; first = none };
  invalid_stream_input_notified = false;
  resampler_outbound = outbound;
  calls = [];
}

abbrev pub incorrect_payload : {B : Type 0} → AudioPipe B → List ℕ → Json
incorrect_payload p payload = object (
    fields (
      ("event", string (codes "incorrectPayload"))
      ∷ ("stream_id", string (codes p.streamid))
      ∷ ("payload", string payload)
      ∷ ("sequenceNumber", number p.sequence_number)
      ∷ []))

abbrev pub invalid_reason : {B : Type 0} → AudioPipe B → List ℕ → Json
invalid_reason p reason =
    object (fields (("stream_id", string (codes p.streamid)) ∷ ("reason", string reason) ∷ []))

module _ {B J R : Type 0} (v : Services J R) where
  -- The second of the two notices, and the first one.
  unfoldable pub notify_invalid : AudioPipe B → List ℕ → Session B R → Session B R
  notify_invalid p reason s = elim (v.print (invalid_reason p reason)) [
    | none ↦ s
    | some text ↦ note (response_handler invalid_stream_input text) s
  ]

  unfoldable pub report_invalid : AudioPipe B → List ℕ → List ℕ → Session B R → Session B R
  unfolding notify_invalid
  report_invalid p payload reason s = elim (v.print (incorrect_payload p payload)) [
    | none ↦ s
    | some text ↦ notify_invalid p reason (queue_event p text s)
  ]

  -- `none` is a null audio pipe that is used.
  unfoldable pub send_incorrect_payload_event : Session B R → List ℕ → List ℕ → Option (Session B R)
  unfolding report_invalid
  send_incorrect_payload_event s payload reason =
      if s.invalid_stream_input_notified then some s else (do
        p ← s.audio_pipe
        some (report_invalid p payload reason (record s { invalid_stream_input_notified = true })))
