-- ===== src/StreamBuffer/Tests.antt =====
-- A `Buffer` of two-byte frames over a list, and the theorems about it.
use mod_audio_stream.Common.{◌≡◌, refl, false, [], ◌∷◌, some, arith}
use mod_audio_stream.SwitchBuffer.{ByteQueue, byte_queue, byte_queue-IsFifo}
use mod_audio_stream.StreamBuffer.{Buffer, read, write}
use mod_audio_stream.StreamBuffer.Fifo.{Holds, read-front, write-Writes, Writes}

abbrev two_frames : Buffer ByteQueue
two_frames = record {
  freeswitch_buffer = record { bytes = 1 ∷ 2 ∷ 3 ∷ 4 ∷ []; limit = 5 };
  time_step_increment = 20000;
  start_time = 100;
  generated_time = 40100;
  generated_chunk_count = 2;
  chunk_size_bytes = 2;
  current_usage_bytes = 4;
  maximum_capacity_bytes = 5;
  degradation_notification_sent = 1;
  last_send_time = 100;
  transmitted_chunk_count = 0;
}

two_frames-Holds : Holds byte_queue-IsFifo two_frames ((1 ∷ 2 ∷ []) ∷ (3 ∷ 4 ∷ []) ∷ [])
two_frames-Holds = record {
  stored = refl;
  whole = (refl, (refl, tt));
  some_size = omega arith;
  usage = refl;
  limit = refl;
  bounded = omega arith;
  within = omega arith;
}

abbrev drained : Buffer ByteQueue
drained = record two_frames {
  freeswitch_buffer = record { bytes = []; limit = 5 };
  current_usage_bytes = 0;
}

drained-Holds : Holds byte_queue-IsFifo drained []
drained-Holds = record {
  stored = refl;
  whole = tt;
  some_size = omega arith;
  usage = refl;
  limit = refl;
  bounded = omega arith;
  within = omega arith;
}

read_runs : (read byte_queue two_frames).0 ≡ some (1 ∷ 2 ∷ [])
unfolding read
read_runs = refl

write_runs : (write byte_queue two_frames (5 ∷ 6 ∷ [])).0 ≡ false
unfolding write
write_runs = refl

read-front_example : (read byte_queue two_frames).0 ≡ some (1 ∷ 2 ∷ [])
read-front_example =
    (read-front byte_queue-IsFifo (1 ∷ 2 ∷ []) ((3 ∷ 4 ∷ []) ∷ []) two_frames-Holds).0

write-Writes_example :
    Writes byte_queue-IsFifo drained [] (5 ∷ 6 ∷ []) (write byte_queue drained (5 ∷ 6 ∷ []))
write-Writes_example = write-Writes byte_queue-IsFifo [] (5 ∷ 6 ∷ []) drained-Holds refl
