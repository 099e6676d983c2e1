-- ===== src/ClientEvents/Tests.antt =====
-- Events of generate_json_data_event at concrete arguments, and the theorems about them.
use mod_audio_stream.Common.{◌≡◌, refl, [], ◌∷◌, some, arith, codes}
use mod_audio_stream.Json.{get_cstr}
use mod_audio_stream.SwitchBuffer.{ByteQueue, byte_queue, byte_queue-IsFifo}
use mod_audio_stream.StreamBuffer.{Buffer}
use mod_audio_stream.StreamBuffer.Fifo.{Holds}
use mod_audio_stream.ClientEvents.{EventArgs, ulaw, start_event, media_event}
use mod_audio_stream.ClientEvents.Delivery.{Carries, media_event-Carries}

abbrev arguments : EventArgs
arguments = record {
  sequence_number = 3;
  uuid = "call-1";
  streamid = "s1";
  track = "both";
  extra_headers = "";
  codec = ulaw;
  sampling = 8000;
}

abbrev one_frame : Buffer ByteQueue
one_frame = record {
  freeswitch_buffer = record { bytes = 1 ∷ 255 ∷ []; limit = 500 };
  time_step_increment = 20000;
  start_time = 0;
  generated_time = 20000;
  generated_chunk_count = 1;
  chunk_size_bytes = 2;
  current_usage_bytes = 2;
  maximum_capacity_bytes = 500;
  degradation_notification_sent = 1;
  last_send_time = 1_694_712_000_123_456;
  transmitted_chunk_count = 4;
}

one_frame-Holds : Holds byte_queue-IsFifo one_frame ((1 ∷ 255 ∷ []) ∷ [])
one_frame-Holds = record {
  stored = refl;
  whole = (refl, tt);
  some_size = omega arith;
  usage = refl;
  limit = refl;
  bounded = omega arith;
  within = omega arith;
}

abbrev no_frame : Buffer ByteQueue
no_frame = record one_frame {
  freeswitch_buffer = record { bytes = []; limit = 500 };
  current_usage_bytes = 0;
}

no_frame-Holds : Holds byte_queue-IsFifo no_frame []
no_frame-Holds = record {
  stored = refl;
  whole = tt;
  some_size = omega arith;
  usage = refl;
  limit = refl;
  bounded = omega arith;
  within = omega arith;
}

start_names_event : get_cstr "event" (start_event arguments) ≡ some (codes "start")
unfolding start_event
start_names_event = refl

media_event-Carries_example :
    Carries (1 ∷ 255 ∷ []) 5 (media_event byte_queue arguments one_frame).0
    × Holds byte_queue-IsFifo (media_event byte_queue arguments one_frame).1 []
media_event-Carries_example =
    media_event-Carries byte_queue-IsFifo arguments one_frame (1 ∷ 255 ∷ []) [] one_frame-Holds
      (omega arith)
