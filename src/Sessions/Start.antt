-- ===== src/Sessions/Start.antt =====
-- start_capture and add_media_bug of src/mod_audio_stream.c, with stream_session_init and
-- stream_data_init of src/lws_glue.cpp. The names fit their arrays.
use text.Mathlib.Text.{◌==◌ as str_eq}
use mod_audio_stream.Common.{
  ℕ, List, ◌==◌, ◌*◌, ◌/◌, Bool, true, false, Option, none, some, String, if◌then◌else◌,
}
use mod_audio_stream.Common.Int.{ℤ}
use mod_audio_stream.Common.Maps.{find, assign}
use mod_audio_stream.Uri.{SslFlags}
use mod_audio_stream.SwitchBuffer.{SwitchBuffer}
use mod_audio_stream.ClientEvents.{Codec, l16, ulaw}
use mod_audio_stream.AudioPipe.{PipeArgs, new_pipe, frame_size_8khz_20ms}
use mod_audio_stream.Connections.{add_pending_connect}
use mod_audio_stream.Sessions.{
  Context, Channel, Direction, inbound, outbound, keep_context, keep_bug, keep_pipe,
  destroy_tech_pvt,
}

pub record StartArgs : Type 0 where
  pub stream_id : String
  pub service_url : List ℕ
  pub host : List ℕ
  pub port : ℕ
  pub path : List ℕ
  pub ssl_flags : SslFlags
  pub codec : String
  pub sampling : ℕ
  pub track : String
  pub timeout : ℤ
  pub is_bidirectional : Bool
  pub metadata : String

-- What FreeSWITCH and the allocator give: switch_channel_pre_answer succeeds, the rate of the read
-- codec (8000 if there is none), the resamplers (`none` for an error), the addresses of the context, the pipe and
-- the two bugs, and whether switch_core_media_bug_add succeeds for each.
pub record Setup (R : Type 0) : Type 0 where
  pub pre_answered : Bool
  pub uuid : String
  pub credentials : Option (String × String)
  pub read_rate : ℕ
  pub micro_now : ℕ
  -- nAudioBufferSecs
  pub buffer_secs : ℕ
  pub resampler : Option R
  pub resampler_outbound : Option R
  pub context : ℕ
  pub pipe : ℕ
  pub first_bug : ℕ
  pub second_bug : ℕ
  pub first_added : Bool
  pub second_added : Bool

abbrev pub codec_of : StartArgs → Codec
codec_of a = if str_eq a.codec "mulaw" then ulaw else l16

-- One channel, packets of 20 ms.
abbrev pub buffer_length : ℕ → StartArgs → ℕ
buffer_length secs a = frame_size_8khz_20ms (codec_of a) * a.sampling / 8000 * 1000 / 20 * secs

abbrev pub pipe_args : {R : Type 0} → Setup R → StartArgs → PipeArgs
pipe_args e a = record {
  uuid = e.uuid;
  stream_id = a.stream_id;
  host = a.host;
  port = a.port;
  path = a.path;
  ssl_flags = a.ssl_flags;
  buf_len = buffer_length e.buffer_secs a;
  credentials = e.credentials;
  track = a.track;
  extra_headers = a.metadata;
  codec = codec_of a;
  sampling = a.sampling;
  is_bidirectional = a.is_bidirectional;
}

module _ {B R : Type 0} where
  -- stream_data_init up to the resamplers.
  unfoldable pub new_context : SwitchBuffer B → Setup R → StartArgs → Context B R
  new_context o e a =
      let len = a.sampling / 10 * 2 in
      record {
        stream_id = a.stream_id;
        service_url = a.service_url;
        host = a.host;
        port = a.port;
        path = a.path;
        audio_pipe_ptr = some e.pipe;
        mutex = true;
        resampler = none;
        resampler_outbound = none;
        task_id = 0;
        stream_timeout_task_id = 0;
        is_started = false;
        stream_end_timeout = a.timeout;
        audio_paused = false;
        graceful_shutdown = false;
        channel_closing = false;
        invalid_stream_input_notified = false;
        stream_termination_reason = "";
        start_time = 0;
        end_time = 0;
        write_buffer = if a.is_bidirectional then some (o.create_dynamic len len 0) else none;
        stream_input_received = 0;
        stream_input_played = 0;
        checkpoints = record { cells = λ n. none; first = none };
      }

  abbrev pub with_outbound : Option R → Context B R → Bool × Context B R
  with_outbound none c = (false, c)
  with_outbound (some r) c = (true, record c { resampler_outbound = some r })

  -- The resamplers, which a stream of the call's own rate does without: `false` for an error.
  unfoldable pub with_resamplers : Setup R → StartArgs → Context B R → Bool × Context B R
  with_resamplers e a c = if e.read_rate == a.sampling then (true, c) else elim e.resampler [
    | none ↦ (false, c)
    | some r ↦
        let c' = record c { resampler = some r } in
        if str_eq a.track "both" then with_outbound e.resampler_outbound c' else (true, c')
  ]

  unfoldable pub stream_session_init :
      SwitchBuffer B → Setup R → StartArgs → Channel B R → Bool × Channel B R
  unfolding new_context with_resamplers destroy_tech_pvt add_pending_connect
  stream_session_init o e a s =
      let (made, c) = with_resamplers e a (new_context o e a) in
      let s' = keep_pipe e.pipe (new_pipe o (pipe_args e a) e.micro_now) s in
      if made
      then (let s'' = keep_context e.context c s' in
          (true, record s'' { pipes = add_pending_connect e.pipe s''.pipes }))
      else (false, keep_context e.context (destroy_tech_pvt c) s')

  -- The bug, and whether FreeSWITCH takes it.
  unfoldable pub add_media_bug : ℕ → Direction → ℕ → Bool → Channel B R → Bool × Channel B R
  add_media_bug b direction t added s =
      if added
      then (
        true,
        keep_bug b
            (record {
              direction = direction;
              session_context = some t;
              attached = true;
              frames_processed = 0;
              frames_dropped = 0;
            })
            s,
      )
      else (false, s)

  unfoldable pub add_bugs : Setup R → String → Channel B R → Bool × Channel B R
  unfolding add_media_bug
  add_bugs e track s =
      if str_eq track "inbound"
      then add_media_bug e.first_bug inbound e.context e.first_added s
      else (if str_eq track "outbound"
          then add_media_bug e.first_bug outbound e.context e.first_added s
          else (let (first, s') = add_media_bug e.first_bug inbound e.context e.first_added s in
              if first
              then add_media_bug e.second_bug outbound e.context e.second_added s'
              else (false, s')))

  abbrev pub attach : Setup R → String → Bool × Channel B R → Bool × Channel B R
  attach e id (false, s) = (false, s)
  attach e id (true, s) = (true, record s { privates = assign id e.first_bug s.privates })

  unfoldable pub add_bugs_to : Setup R → String → String → Bool × Channel B R → Bool × Channel B R
  unfolding add_bugs
  add_bugs_to e id track (false, s) = (false, s)
  add_bugs_to e id track (true, s) = attach e id (add_bugs e track s)

  unfoldable pub start_capture :
      SwitchBuffer B → Setup R → StartArgs → Channel B R → Bool × Channel B R
  unfolding stream_session_init add_bugs_to
  start_capture o e a s = elim (find a.stream_id s.privates) [
    | some b ↦ (false, s)
    | none ↦
        if e.pre_answered
        then add_bugs_to e a.stream_id a.track (stream_session_init o e a s)
        else (false, s)
  ]
