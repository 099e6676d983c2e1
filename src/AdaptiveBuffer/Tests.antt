-- ===== src/AdaptiveBuffer/Tests.antt =====
-- A buffer that is filled, flushed and read.
use mod_audio_stream.Common.{ℕ, List, [], ◌∷◌, arith}
use mod_audio_stream.Common.Maps.{AllValues}
use mod_audio_stream.Doubles.{thousandths}
use mod_audio_stream.MessageQueue.{Message, priority_critical, priority_normal, priority_bulk}
use mod_audio_stream.AdaptiveBuffer.{BufferConfig, new_manager}
use mod_audio_stream.AdaptiveBuffer.Bounds.{Fits}
use mod_audio_stream.AdaptiveBuffer.Runs.{
  Call, create, enqueue, dequeue, flush, monitoring, calls, calls-Fit,
}

config : BufferConfig ℕ
config = record {
  initial_size_bytes = 1024;
  min_size_bytes = 1024;
  max_size_bytes = 2048;
  adaptation_interval_ms = 1000;
  max_packet_loss_rate = 50;
  token_bucket_rate = 1000;
  token_bucket_capacity = 10;
}

message : Message
message = record {
  sequence_number = 1;
  priority = priority_bulk;
  payload = [];
  timestamp = 1000000000;
  deadline = 2000000000;
  retry_count = 0;
  stream_id = "s1";
}

abbrev history : List (Call ℕ)
history =
    create "s1" config 1000000000
    ∷ enqueue "s1" message 1000000000
    ∷ enqueue "s1" (record message { priority = priority_critical }) 1000000000
    ∷ enqueue "s1" message 1000000000
    ∷ dequeue "s1" 1500000000
    ∷ monitoring 1600000000
    ∷ flush "s1" priority_normal
    ∷ []

calls-Fit_example : AllValues (Fits 7) (calls thousandths history (new_manager config)).buffers
calls-Fit_example = calls-Fit thousandths history config (omega arith)
