-- ===== src/Writeable/Tests.antt =====
-- The theorems about the turns of a stream, for a stream with one frame and for a new one.
use mod_audio_stream.Common.{codes, refl, true, false, [], ◌∷◌, none, some, arith}
use mod_audio_stream.SwitchBuffer.{ByteQueue, byte_queue-IsFifo}
use mod_audio_stream.StreamBuffer.{Buffer}
use mod_audio_stream.StreamBuffer.Fifo.{Holds}
use mod_audio_stream.ClientEvents.{ulaw}
use mod_audio_stream.Receive.{no_recv}
use mod_audio_stream.Uri.{no_ssl}
use mod_audio_stream.AudioPipe.{AudioPipe, lws_client_connected, all_buffers_are_empty}
use mod_audio_stream.StreamBuffer.{is_data_available}
use mod_audio_stream.Writeable.{Env}
use mod_audio_stream.Writeable.Media.{IsSteady, SendsFrame, client_writeable-SendsFrame}
use mod_audio_stream.Writeable.Shutdown.{Ends, shutdown-Ends}
use mod_audio_stream.Writeable.Order.{IsFresh, StopsFirst, shutdown-StopsFirst}

abbrev env : Env
env = record { now = 1000; write = λ n. n; print = λ j. some (1 ∷ []); try_lock = true }

abbrev one_frame : Buffer ByteQueue
one_frame = record {
  freeswitch_buffer = record { bytes = 1 ∷ 255 ∷ []; limit = 500 };
  time_step_increment = 20000;
  start_time = 0;
  generated_time = 20000;
  generated_chunk_count = 1;
  chunk_size_bytes = 2;
  current_usage_bytes = 2;
  maximum_capacity_bytes = 500;
  degradation_notification_sent = 1;
  last_send_time = 1_694_712_000_123_456;
  transmitted_chunk_count = 4;
}

one_frame-Holds : Holds byte_queue-IsFifo one_frame ((1 ∷ 255 ∷ []) ∷ [])
one_frame-Holds = record {
  stored = refl;
  whole = (refl, tt);
  some_size = omega arith;
  usage = refl;
  limit = refl;
  bounded = omega arith;
  within = omega arith;
}

abbrev stream : AudioPipe ByteQueue
stream = record {
  audio_buffer = some one_frame;
  ob_audio_buffer = none;
  switch = true;
  is_bidirectional = true;
  uuid = "call-1";
  streamid = "s1";
  host = codes "example.org";
  port = 443;
  path = codes "/";
  ssl_flags = no_ssl;
  codec = ulaw;
  connection_attempts = 0;
  events = [];
  state = lws_client_connected;
  sampling = 8000;
  track = "inbound";
  extra_headers = "";
  wsi = some 7;
  sequence_number = 1;
  recv = no_recv;
  vhd = some 1;
  username = "";
  password = "";
  graceful_shutdown = true;
  graceful_shutdown_at = 990;
  first_msg_sent = true;
  last_msg_sent = false;
  both_tracks = false;
  stream_started = true;
}

stream-IsSteady : IsSteady byte_queue-IsFifo env stream one_frame ((1 ∷ 255 ∷ []) ∷ [])
stream-IsSteady = record {
  one = refl;
  buffer = refl;
  no_other = refl;
  holds = one_frame-Holds;
  started = refl;
  no_events = refl;
  connected = refl;
  not_stopped = refl;
}

abbrev early : AudioPipe ByteQueue
early = record stream {
  audio_buffer = some (record one_frame {
    freeswitch_buffer = record { bytes = []; limit = 500 };
    current_usage_bytes = 0;
  });
  first_msg_sent = false;
  sequence_number = 0;
}

early-IsFresh : IsFresh byte_queue-IsFifo env early
unfolding all_buffers_are_empty is_data_available
early-IsFresh = record {
  shuts_down = refl;
  empty = refl;
  not_started = refl;
  not_stopped = refl;
  no_events = refl;
}

client_writeable-SendsFrame_example :
    SendsFrame byte_queue-IsFifo env stream one_frame (1 ∷ 255 ∷ []) []
client_writeable-SendsFrame_example =
    client_writeable-SendsFrame byte_queue-IsFifo env stream one_frame (1 ∷ 255 ∷ []) []
      (λ j. (1 ∷ [], refl)) stream-IsSteady (omega arith) refl (omega arith)

shutdown-Ends_example : Ends byte_queue-IsFifo env stream ((1 ∷ 255 ∷ []) ∷ [])
shutdown-Ends_example =
    shutdown-Ends byte_queue-IsFifo env ((1 ∷ 255 ∷ []) ∷ []) stream one_frame (λ j. (1 ∷ [], refl))
      stream-IsSteady refl (omega arith) refl (omega arith, tt)

shutdown-StopsFirst_example : StopsFirst byte_queue-IsFifo env early
shutdown-StopsFirst_example =
    shutdown-StopsFirst byte_queue-IsFifo env early (λ j. (1 ∷ [], refl)) early-IsFresh
      (omega arith)
