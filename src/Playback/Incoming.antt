-- ===== src/Playback/Incoming.antt =====
-- storePayload, processClearEvent, processCheckpointEvent, processPlayAudioEvent and
-- processIncomingMessage of src/lws_glue.cpp. `none` is a fault: a null or dangling pointer, or a
-- write beyond an array.
use mod_audio_stream.Common.{
  ◌*◌, ℕ, zero, suc, ◌+◌, ◌/◌, ◌%◌, ◌^◌, List, [], ◌∷◌, ◌++◌, ◌||◌, Option, none, some, String,
  codes, decimal, text_eq, length, u32, ◌==◌, if◌then◌else◌, ◌>>=◌, update,
}
use mod_audio_stream.Base64.{base64_decode}
use mod_audio_stream.SwitchBuffer.{SwitchBuffer}
use mod_audio_stream.AudioPipe.{AudioPipe}
use mod_audio_stream.ClientEvents.{Codec, l16, ulaw}
use mod_audio_stream.Checkpoints.{Checkpoints, add_checkpoint}
use mod_audio_stream.Playback.{
  Session, Services, response_handler, copy_into, cleared_audio, transcription_received, note,
  queue_event, send_incorrect_payload_event,
}

-- What processPlayAudioEvent finds in a message: a reason to reject it, or a payload with its codec
-- and sampling rate.
pub data Request : Type 0 where
  reject : String → Request
  play : List ℕ → Codec → ℕ → Request

abbrev pub require : {A : Type 0} → Option A → String → (A → Request) → Request
require none reason next = reject reason
require (some a) reason next = next a

abbrev pub known_rate : ℕ → ℕ
known_rate rate = if (rate == 8000) || (rate == 16000) then rate else 8000

unfoldable pub content : List ℕ → ℕ → List ℕ → Request
content payload rate type =
    if text_eq type (codes "audio/x-l16")
    then play payload l16 rate
    else (if text_eq type (codes "audio/x-mulaw")
        then (if rate == 8000
            then play payload ulaw rate
            else reject "Unsupported combination of codec, samplerate")
        else (if text_eq type (codes "raw") || text_eq type (codes "wav")
            then play payload l16 rate
            else reject "Invalid Content type"))

-- The loop ends when no node is left; each round frees one.
unfoldable pub clear_checkpoints : ℕ → Checkpoints → Option Checkpoints
clear_checkpoints zero c = none
clear_checkpoints (suc fuel) c = elim c.first [
  | none ↦ some c
  | some h ↦ do
    node ← c.cells h
    clear_checkpoints fuel (record { cells = update c.cells h none; first = node.next })
]

abbrev pub cleared_text : ℕ → List ℕ → List ℕ
cleared_text n id =
    codes "{\"sequenceNumber\":"
    ++ (decimal n ++ (codes ",\"streamId\":\"" ++ (id ++ codes "\",\"event\":\"media.cleared\"}")))

abbrev pub cleared_notice : List ℕ → List ℕ
cleared_notice id = codes "{\"streamId\":\"" ++ (id ++ codes "\",\"event\":\"media.cleared\"}")

module _ {B R : Type 0} (o : SwitchBuffer B) where
  -- Nothing is stored and counted, and both sides are told.
  abbrev pub after_clear : Session B R → Checkpoints → AudioPipe B → Session B R
  after_clear s c p = note (response_handler cleared_audio (cleared_notice (codes p.streamid))) (
      queue_event p (cleared_text p.sequence_number s.stream_id) (record s {
        write_buffer = o.zero_out s.write_buffer;
        checkpoints = c;
        stream_input_played = 0;
        stream_input_received = 0;
      }))

module _ {B J R : Type 0} (o : SwitchBuffer B) (v : Services J R) where
  unfoldable pub request : J → Request
  unfolding content
  request json = require (v.get_object_item json "media") "media key not available" λ media.
      require (v.get_object_cstr media "payload") "payload not available" λ payload.
        require (v.get_object_cstr media "contentType") "Incorrect ContentType" λ type.
          require (v.get_object_item media "sampleRate") "sampleRate not available"
            λ rate. content payload (known_rate (v.valueint rate)) type

  -- g711u_decode
  unfoldable pub g711u_decode : List ℕ → List ℕ
  g711u_decode [] = []
  g711u_decode (b ∷ bytes) =
      let sample = v.ulaw_to_linear b in
      (sample % 2 ^ 8) ∷ (sample / 2 ^ 8 % 2 ^ 8) ∷ g711u_decode bytes

  unfoldable pub store_bytes : Session B R → List ℕ → Session B R
  store_bytes s bytes = record s {
    write_buffer = (o.write s.write_buffer bytes).1;
    stream_input_received = u32 (s.stream_input_received + length bytes);
  }

  abbrev pub resampler : Session B R → ℕ → ℕ → R
  resampler s from to = elim s.resampler_outbound [ none ↦ v.resampler_init from to | some r ↦ r ]

  abbrev pub store_resampled : Session B R → List ℕ × R → Option (Session B R)
  store_resampled s (out, r) = some (store_bytes (record s { resampler_outbound = some r }) out)

  -- `input` has room for whole samples, and all bytes are copied there.
  unfoldable pub store_payload : Session B R → List ℕ → Codec → ℕ → ℕ → Option (Session B R)
  unfolding store_bytes g711u_decode copy_into
  store_payload s raw ulaw rcvd current = some (store_bytes s (g711u_decode raw))
  store_payload s raw l16 rcvd current =
      if rcvd == current
      then some (store_bytes s raw)
      else (copy_into (2 * (length raw / 2)) raw >>= λ input.
          store_resampled s (v.resample (resampler s rcvd current) input (length raw)))

  -- `fuel` bounds the rounds of the loop over the checkpoints.
  unfoldable pub process_clear_event : ℕ → Session B R → Option (Session B R)
  unfolding clear_checkpoints
  process_clear_event fuel s = do
    c ← clear_checkpoints fuel s.checkpoints
    p ← s.audio_pipe
    some (after_clear o s c p)

  -- `a` is the address that malloc gives.
  unfoldable pub add_named : ℕ → Session B R → Option (List ℕ) → Option (Session B R)
  add_named a s none = some s
  add_named a s (some name) = if s.stream_input_received == 0 then some s else (do
    c ← add_checkpoint a s.stream_input_received name s.checkpoints
    some (record s { checkpoints = c }))

  unfoldable pub process_checkpoint_event : ℕ → Session B R → J → Option (Session B R)
  unfolding add_named
  process_checkpoint_event a s json = add_named a s (v.get_object_cstr json "name")

  abbrev pub current_rate : ℕ
  current_rate = elim v.read_rate [ none ↦ 8000 | some rate ↦ rate ]

  unfoldable pub carry_out : Session B R → List ℕ → Request → Option (Session B R)
  unfolding store_payload
  carry_out s payload (reject reason) = send_incorrect_payload_event v s payload (codes reason)
  carry_out s payload (play text codec rate) =
      store_payload s (base64_decode text) codec rate current_rate

  unfoldable pub process_play_audio_event : Session B R → List ℕ → J → Option (Session B R)
  unfolding carry_out request
  process_play_audio_event s payload json =
      if v.has_channel then carry_out s payload (request json) else some s

  unfoldable pub dispatch : ℕ → ℕ → Session B R → List ℕ → J → List ℕ → Option (Session B R)
  unfolding process_play_audio_event process_checkpoint_event process_clear_event
  dispatch fuel a s text json event =
      if text_eq event (codes "media.play")
      then process_play_audio_event s text json
      else (if text_eq event (codes "media.checkpoint")
          then process_checkpoint_event a s json
          else (if text_eq event (codes "media.clear")
              then process_clear_event fuel s
              else (if text_eq event (codes "transcription.send")
                  then some (note (response_handler transcription_received text) s)
                  else send_incorrect_payload_event v s text (codes "Invalid event"))))

  -- With the event's name, if it has one, and with the tree, if the text is JSON.
  unfoldable pub read_event :
      ℕ → ℕ → Session B R → List ℕ → J → Option (List ℕ) → Option (Session B R)
  unfolding dispatch
  read_event fuel a s text json none = send_incorrect_payload_event v s text (codes "No event key")
  read_event fuel a s text json (some event) = dispatch fuel a s text json event

  unfoldable pub read_message : ℕ → ℕ → Session B R → List ℕ → Option J → Option (Session B R)
  unfolding read_event
  read_message fuel a s text none = send_incorrect_payload_event v s text (codes "Invalid Json")
  read_message fuel a s text (some json) =
      read_event fuel a s text json (v.get_object_cstr json "event")

  unfoldable pub process_incoming_message : ℕ → ℕ → Session B R → List ℕ → Option (Session B R)
  unfolding read_message
  process_incoming_message fuel a s text =
      if v.has_channel then read_message fuel a s text (v.parse text) else some s
