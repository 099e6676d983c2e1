-- ===== src/AudioPipe.antt =====
-- The class `AudioPipe` of src/audio_pipe.hpp and src/audio_pipe.cpp: one websocket stream. Static
-- members are in Connections. The connection's address and the logger have no field.
use text.Mathlib.Text.{◌==◌}
use mod_audio_stream.Common.{
  ℕ, ◌+◌, ◌*◌, ◌/◌, String, Bool, true, false, ◌&&◌, not, List, [], ◌∷◌, Option, none, some,
  if◌then◌else◌,
}
use mod_audio_stream.SwitchBuffer.{SwitchBuffer}
use mod_audio_stream.StreamBuffer.{Buffer, new_buffer, is_data_available}
use mod_audio_stream.ClientEvents.{Codec, l16, ulaw, EventArgs}
use mod_audio_stream.Uri.{SslFlags}
use mod_audio_stream.Receive.{Recv, no_recv}

-- LwsState_t
pub data LwsState : Type 0 where
  lws_client_idle lws_client_connecting lws_client_connected lws_client_failed : LwsState
  lws_client_disconnecting lws_client_disconnected lws_client_reconnecting : LwsState

abbrev pub same_state : LwsState → LwsState → Bool
same_state lws_client_idle lws_client_idle = true
same_state lws_client_connecting lws_client_connecting = true
same_state lws_client_connected lws_client_connected = true
same_state lws_client_failed lws_client_failed = true
same_state lws_client_disconnecting lws_client_disconnecting = true
same_state lws_client_disconnected lws_client_disconnected = true
same_state lws_client_reconnecting lws_client_reconnecting = true
same_state _ _ = false

-- NotifyEvent_t, with the text that goes along.
pub data NotifyEvent : Type 0 where
  connect_success connect_fail connection_dropped connection_closed_gracefully : NotifyEvent
  connection_timeout connection_degraded : NotifyEvent
  message : List ℕ → NotifyEvent

-- A pointer is an `Option`; a `wsi` and a vhost are known by a number.
pub record AudioPipe (B : Type 0) : Type 0 where
  pub audio_buffer : Option (Buffer B)
  pub ob_audio_buffer : Option (Buffer B)
  pub switch : Bool
  pub is_bidirectional : Bool
  pub uuid : String
  pub streamid : String
  pub host : List ℕ
  pub port : ℕ
  pub path : List ℕ
  pub ssl_flags : SslFlags
  pub codec : Codec
  pub connection_attempts : ℕ
  pub events : List (List ℕ)
  pub state : LwsState
  pub sampling : ℕ
  pub track : String
  pub extra_headers : String
  pub wsi : Option ℕ
  pub sequence_number : ℕ
  pub recv : Recv
  pub vhd : Option ℕ
  pub username : String
  pub password : String
  pub graceful_shutdown : Bool
  pub graceful_shutdown_at : ℕ
  pub first_msg_sent : Bool
  pub last_msg_sent : Bool
  pub both_tracks : Bool
  pub stream_started : Bool

-- The constructor's arguments that the stream depends on.
pub record PipeArgs : Type 0 where
  pub uuid : String
  pub stream_id : String
  pub host : List ℕ
  pub port : ℕ
  pub path : List ℕ
  pub ssl_flags : SslFlags
  pub buf_len : ℕ
  pub credentials : Option (String × String)
  pub track : String
  pub extra_headers : String
  pub codec : Codec
  pub sampling : ℕ
  pub is_bidirectional : Bool

-- L16_FRAME_SIZE_8KHZ_20MS and ULAW_FRAME_SIZE_8KHZ_20MS
abbrev pub frame_size_8khz_20ms : Codec → ℕ
frame_size_8khz_20ms l16 = 320
frame_size_8khz_20ms ulaw = 160

unfoldable pub step_frame_size : Codec → ℕ → ℕ
step_frame_size codec sampling = frame_size_8khz_20ms codec * (sampling / 8000)

abbrev pub credential : (String × String → String) → Option (String × String) → String
credential part none = ""
credential part (some c) = part c

-- The constructor. `now` is switch_micro_time_now().
unfoldable pub new_pipe : {B : Type 0} → SwitchBuffer B → PipeArgs → ℕ → AudioPipe B
unfolding step_frame_size
new_pipe o a now =
    let buffer = some (new_buffer o a.buf_len (step_frame_size a.codec a.sampling) 20 now) in
    let both = a.track == "both" in
    record {
      audio_buffer = buffer;
      ob_audio_buffer = if both then buffer else none;
      switch = true;
      is_bidirectional = a.is_bidirectional;
      uuid = a.uuid;
      streamid = a.stream_id;
      host = a.host;
      port = a.port;
      path = a.path;
      ssl_flags = a.ssl_flags;
      codec = a.codec;
      connection_attempts = 0;
      events = [];
      state = lws_client_idle;
      sampling = a.sampling;
      track = a.track;
      extra_headers = a.extra_headers;
      wsi = none;
      sequence_number = 0;
      recv = no_recv;
      vhd = none;
      username = credential (λ c. c.0) a.credentials;
      password = credential (λ c. c.1) a.credentials;
      graceful_shutdown = false;
      graceful_shutdown_at = 0;
      first_msg_sent = false;
      last_msg_sent = false;
      both_tracks = both;
      stream_started = false;
    }

unfoldable pub increase_sequence_number : {B : Type 0} → AudioPipe B → AudioPipe B
increase_sequence_number p = record p { sequence_number = p.sequence_number + 1 }

-- The next text of the event queue, or "".
unfoldable pub get_event_data : {B : Type 0} → AudioPipe B → List ℕ × AudioPipe B
get_event_data p = elim p.events [ [] ↦ ([], p) | e ∷ es ↦ (e, record p { events = es }) ]

abbrev pub has_data : {B : Type 0} → Option (Buffer B) → Bool
has_data none = false
has_data (some b) = is_data_available b

unfoldable pub all_buffers_are_empty : {B : Type 0} → AudioPipe B → Bool
unfolding is_data_available
all_buffers_are_empty p = not (has_data p.audio_buffer) && not (has_data p.ob_audio_buffer)

-- The arguments of generate_json_data_event for this stream and a track.
abbrev pub event_args : {B : Type 0} → AudioPipe B → String → EventArgs
event_args p track = record {
  sequence_number = p.sequence_number;
  uuid = p.uuid;
  streamid = p.streamid;
  track = track;
  extra_headers = p.extra_headers;
  codec = p.codec;
  sampling = p.sampling;
}
