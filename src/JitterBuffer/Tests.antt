-- ===== src/JitterBuffer/Tests.antt =====
-- A buffer with two packets.
use mod_audio_stream.Common.{ℕ, [], arith}
use mod_audio_stream.Doubles.{thousandths}
use mod_audio_stream.MessageQueue.{Message, priority_normal, priority_high}
use mod_audio_stream.JitterBuffer.{JitterBuffer, new_jitter_buffer, add_packet, get_next_packet}
use mod_audio_stream.JitterBuffer.Playing.{Answers, get_next_packet-Answers}

packet : Message
packet = record {
  sequence_number = 1;
  priority = priority_normal;
  payload = [];
  timestamp = 1000000000;
  deadline = 2000000000;
  retry_count = 0;
  stream_id = "s1";
}

urgent : Message
urgent = record packet { priority = priority_high; timestamp = 1100000000 }

buffer : JitterBuffer ℕ
buffer = add_packet urgent (add_packet packet (new_jitter_buffer thousandths 60 200))

get_next_packet-Answers_example : Answers 1200000000 buffer (get_next_packet 1200000000 buffer)
unfolding buffer add_packet packet urgent new_jitter_buffer
get_next_packet-Answers_example =
    get_next_packet-Answers 1200000000 buffer (omega arith) (omega arith) (omega arith)
