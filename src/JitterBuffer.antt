-- ===== src/JitterBuffer.antt =====
-- class JitterBuffer of src/adaptive_buffer.hpp and src/adaptive_buffer.cpp.
pub mod Playing
mod Tests
use mod_audio_stream.Common.{
  ℕ, ◌+◌, ◌-◌, ◌/◌, ◌^◌, List, [], ◌∷◌, Bool, true, false, Option, none, some, u64, leb, min,
  if◌then◌else◌,
}
use mod_audio_stream.Doubles.{Doubles}
use mod_audio_stream.MessageQueue.{Message, milliseconds_since, push, pop}

-- The counters of late, early and duplicate packets are never changed.
pub record JitterStats (D : Type 0) : Type 0 where
  pub current_jitter_ms : D
  pub max_jitter_ms : D
  pub buffer_delay_ms : D

pub record JitterBuffer (D : Type 0) : Type 0 where
  pub target_delay_ms : ℕ
  pub max_delay_ms : ℕ
  pub jitter_queue : List Message
  pub stats : JitterStats D

-- The signed age is compared with a size_t, which makes it an unsigned number.
unfoldable pub should_play_packet : {D : Type 0} → ℕ → Message → JitterBuffer D → Bool
should_play_packet now packet b = leb b.target_delay_ms (milliseconds_since now packet.timestamp)

-- update_jitter_statistics does nothing.
unfoldable pub add_packet : {D : Type 0} → Message → JitterBuffer D → JitterBuffer D
add_packet packet b = record b { jitter_queue = push b.jitter_queue packet }

-- `none` is `return false`.
unfoldable pub play_top :
    {D : Type 0}
    → ℕ
    → Option (Message × List Message)
    → JitterBuffer D
    → Option Message × JitterBuffer D
unfolding should_play_packet
play_top now none b = (none, b)
play_top now (some (packet, others)) b =
    if should_play_packet now packet b
    then (some packet, record b { jitter_queue = others })
    else (none, b)

unfoldable pub get_next_packet : {D : Type 0} → ℕ → JitterBuffer D → Option Message × JitterBuffer D
unfolding play_top
get_next_packet now b = play_top now (pop b.jitter_queue) b

module _ {D : Type 0} (d : Doubles D) where
  unfoldable pub new_jitter_buffer : ℕ → ℕ → JitterBuffer D
  new_jitter_buffer initial_size_ms max_size_ms = record {
    target_delay_ms = initial_size_ms;
    max_delay_ms = max_size_ms;
    jitter_queue = [];
    stats = record {
      current_jitter_ms = d.ratio 0 1;
      max_jitter_ms = d.ratio 0 1;
      buffer_delay_ms = d.of_size initial_size_ms;
    };
  }

  unfoldable pub adapt_to_jitter : D → JitterBuffer D → JitterBuffer D
  adapt_to_jitter jitter b =
      let stats = record b.stats {
        current_jitter_ms = jitter;
        max_jitter_ms = d.max_of b.stats.max_jitter_ms jitter;
      } in
      let target = min b.max_delay_ms (d.truncate (d.times jitter (d.ratio 15 10))) in
      if d.is_greater jitter (d.times (d.of_size b.target_delay_ms) (d.ratio 8 10))
      then record b {
        target_delay_ms = target;
        stats = record stats { buffer_delay_ms = d.of_size target };
      }
      else record b { stats = stats }
