-- ===== src/Playback/Tests.antt =====
-- A session that is sent audio and a checkpoint, and plays them.
use mod_audio_stream.Common.{
  ℕ, String, ◌≡◌, refl, List, [], ◌∷◌, map, true, Option, none, some, arith, codes, text_eq,
  if◌then◌else◌,
}
use mod_audio_stream.Common.Int.{pos, nearest16, int16}
use mod_audio_stream.Json.{Json, string, number, object, fields, get_item, get_cstr, number_value}
use mod_audio_stream.Base64.{base64_encode, base64_decode}
use mod_audio_stream.SwitchBuffer.{ByteQueue, byte_queue, byte_queue-IsFifo}
use mod_audio_stream.ClientEvents.{l16}
use mod_audio_stream.Uri.{no_ssl}
use mod_audio_stream.AudioPipe.{AudioPipe, new_pipe}
use mod_audio_stream.Playback.{Session, Services, new_session, send_incorrect_payload_event}
use mod_audio_stream.Playback.Incoming.{process_incoming_message}
use mod_audio_stream.Playback.Frames.{Frame, write_replace}
use mod_audio_stream.Playback.Run.{message, frame, Steps, here, next, run-Accounts}
use mod_audio_stream.Playback.Plays.{write_replace-Plays, write_replace-ReportsAll}
use mod_audio_stream.Playback.Account.{Accounts}
use mod_audio_stream.Playback.Due.{report_all}
use mod_audio_stream.Playback.Replace.{taken}
use mod_audio_stream.Checkpoints.{Checkpoints, add_checkpoint, remove_first, new_checkpoint}
use mod_audio_stream.Checkpoints.Chain.{Cell, nil, cons}
use mod_audio_stream.Checkpoints.Refine.{Represents, cell}
use mod_audio_stream.Playback.Play.{AsksToPlay, Resamples, play-Stores, play-Resamples}

abbrev play_text : List ℕ → ℕ → Json
play_text bytes rate = object (
    fields (
      ("event", string (codes "media.play"))
      ∷ (
        "media",
        object (
            fields (
              ("payload", string (base64_encode bytes))
              ∷ ("contentType", string (codes "audio/x-l16"))
              ∷ ("sampleRate", number rate)
              ∷ [])),
      )
      ∷ []))

abbrev checkpoint_text : Json
checkpoint_text =
    object
      (fields (("event", string (codes "media.checkpoint")) ∷ ("name", string (codes "a")) ∷ []))

abbrev samples : List ℕ
samples = 1 ∷ 0 ∷ 255 ∷ 127 ∷ []

-- Four texts that can be parsed; the resampler gives back its input.
abbrev services : Services Json (Unit {0})
services = record {
  parse = λ text.
      if text_eq text (codes "play")
      then some (play_text samples 8000)
      else (if text_eq text (codes "odd")
          then some (play_text (7 ∷ []) 16000)
          else (if text_eq text (codes "even")
              then some (play_text samples 16000)
              else (if text_eq text (codes "checkpoint") then some checkpoint_text else none)));
  get_object_item = λ j k. get_item k j;
  get_object_cstr = λ j k. get_cstr k j;
  valueint = λ j. elim (number_value j) [ none ↦ 0 | some n ↦ n ];
  print = λ j. some (codes "{}");
  ulaw_to_linear = λ b. b;
  resampler_init = λ from to. tt;
  resample = λ r input limit. (input, r);
  normalize_to_16bit = nearest16;
  recommended_buffer_size = 8192;
  has_channel = true;
  read_rate = some 8000;
}

pipe : AudioPipe ByteQueue
pipe =
    new_pipe byte_queue
      (record {
        uuid = "call-1";
        stream_id = "s1";
        host = codes "example.org";
        port = 443;
        path = codes "/";
        ssl_flags = no_ssl;
        buf_len = 64000;
        credentials = none;
        track = "inbound";
        extra_headers = "";
        codec = l16;
        sampling = 8000;
        is_bidirectional = true;
      })
      1700000000000000

start : Session ByteQueue (Unit {0})
unfolding new_session pipe
start = new_session byte_queue (codes "s1") 320 none pipe

play-Stores_example :
    (t : Session ByteQueue (Unit {0})) × (process_incoming_message byte_queue services 1 1 start
        (codes "play")
      ≡ some t)
    × (t.write_buffer.bytes ≡ samples)
    × (t.stream_input_received ≡ 4)
    × (t.stream_input_played ≡ 0)
    × (t.checkpoints ≡ start.checkpoints)
    × (t.calls ≡ [])
unfolding start
play-Stores_example =
    play-Stores byte_queue-IsFifo services 1 1 start (codes "play") samples 8000 refl
      (record {
        json = play_text samples 8000;
        media = _;
        sample_rate = number 8000;
        parsed = refl;
        event = refl;
        has_media = refl;
        has_payload = refl;
        content_type = refl;
        has_rate = refl;
        known = refl;
      })
      refl (omega arith) (omega arith) refl

abbrev other_rate : ¬ (◌≡◌ {A = ℕ} 16000 8000)
other_rate e = omega (arith, e)

-- What becomes of some bytes of another rate.
abbrev Received : List ℕ → String → Type 0
Received bytes text =
    Resamples byte_queue-IsFifo services start bytes 16000
      (process_incoming_message byte_queue services 1 1 start (codes text))

abbrev asks_other :
    (bytes : List ℕ) (text : String)
    → services.parse (codes text) ≡ some (play_text bytes 16000)
    → AsksToPlay services (codes text) (base64_encode bytes) 16000
asks_other bytes text parsed = record {
  json = play_text bytes 16000;
  media = _;
  sample_rate = number 16000;
  parsed = parsed;
  event = refl;
  has_media = refl;
  has_payload = refl;
  content_type = refl;
  has_rate = refl;
  known = refl;
}

play-Resamples_example : Received samples "even" × Received (7 ∷ []) "odd"
unfolding start
play-Resamples_example = (
  play-Resamples byte_queue-IsFifo services 1 1 start (codes "even") samples 16000 refl
      (asks_other samples "even" refl) other_rate (omega arith) (omega arith) refl,
  play-Resamples byte_queue-IsFifo services 1 1 start (codes "odd") (7 ∷ []) 16000 refl
      (asks_other (7 ∷ []) "odd" refl) other_rate (omega arith) (omega arith) refl,
)

or_else : {A : Type 0} → Option A → A → A
or_else none a = a
or_else (some b) a = b

-- The session after it was sent the audio, then the checkpoint, then a text that is no JSON.
stored : Session ByteQueue (Unit {0})
unfolding process_incoming_message or_else start
stored = or_else (process_incoming_message byte_queue services 1 1 start (codes "play")) start

marked : Session ByteQueue (Unit {0})
unfolding process_incoming_message or_else stored add_checkpoint
marked =
    or_else (process_incoming_message byte_queue services 1 1 stored (codes "checkpoint")) stored

told : Session ByteQueue (Unit {0})
unfolding process_incoming_message or_else marked
told = or_else (process_incoming_message byte_queue services 1 2 marked (codes "nonsense")) marked

call_frame : Frame
call_frame = record { datalen = 4; samples = 1 ∷ 32000 ∷ [] }

played_frame : Frame × Session ByteQueue (Unit {0})
unfolding write_replace or_else told call_frame
played_frame = or_else (write_replace byte_queue services 2 call_frame told) (call_frame, told)

run : Steps byte_queue-IsFifo services start played_frame.1
unfolding stored marked told played_frame base64_decode base64_encode send_incorrect_payload_event
    remove_first
run =
    next
      (next
        (next (next here (message 1 1 start stored (codes "play") refl refl))
          (message 1 1 stored marked (codes "checkpoint") refl refl))
        (message 1 2 marked told (codes "nonsense") refl refl))
      (frame 2 call_frame told played_frame played_frame.1 (omega arith) refl refl)

run-Accounts_example : Accounts byte_queue-IsFifo played_frame.1
unfolding start
run-Accounts_example =
    run-Accounts byte_queue-IsFifo services (codes "s1") 320 none pipe played_frame.1 run

abbrev queue : List Cell
queue = cell 1 4 (codes "a") ∷ []

told-Represents : Represents told.checkpoints queue
unfolding told marked stored start add_checkpoint process_incoming_message base64_decode
    base64_encode send_incorrect_payload_event or_else
told-Represents = record {
  chain = cons (record { tail = 1; stored = refl }) refl nil;
  tail = (new_checkpoint 1 4 (codes "a"), refl, refl);
}

told-Accounts : Accounts byte_queue-IsFifo told
unfolding told marked stored start add_checkpoint process_incoming_message base64_decode
    base64_encode send_incorrect_payload_event or_else
told-Accounts = record {
  queue = queue;
  represents = told-Represents;
  unlimited = refl;
  balance = refl;
  reached = (omega arith, tt);
}

write_replace-Plays_example :
    (out : List ℕ) × (c : Checkpoints) × (write_replace byte_queue services 2 call_frame told
      ≡ some (
        record call_frame { samples = out },
        record (report_all services queue (taken byte_queue call_frame told)) { checkpoints = c },
      ))
    × Represents c []
    × (map int16 out ≡ pos 2 ∷ pos 32767 ∷ [])
    × ((taken byte_queue call_frame told).write_buffer.bytes ≡ [])
    × ((taken byte_queue call_frame told).stream_input_played ≡ 4)
unfolding told marked stored start add_checkpoint process_incoming_message base64_decode
    base64_encode send_incorrect_payload_event or_else call_frame
write_replace-Plays_example =
    write_replace-Plays byte_queue-IsFifo services 2 call_frame told queue told-Represents
      (omega arith) (omega arith) (omega arith) (omega arith) (omega arith) refl (λ z. refl)

write_replace-ReportsAll_example :
    (out : List ℕ) × (c : Checkpoints) × (write_replace byte_queue services 2 call_frame told
      ≡ some (
        record call_frame { samples = out },
        record (report_all services queue (taken byte_queue call_frame told)) { checkpoints = c },
      ))
    × (c.first ≡ none)
unfolding told-Accounts told marked stored start add_checkpoint process_incoming_message
    base64_decode base64_encode send_incorrect_payload_event or_else call_frame
write_replace-ReportsAll_example =
    write_replace-ReportsAll byte_queue-IsFifo services 2 call_frame told told-Accounts
      (omega arith) (omega arith) (omega arith) (omega arith) (omega arith) refl (omega arith)
      (λ z. refl)
