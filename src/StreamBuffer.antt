-- ===== src/StreamBuffer.antt =====
-- The class `Buffer` of src/stream_utils.hpp and src/stream_utils.cpp: frames of one size between
-- the media thread and the socket, with their counters. `now` is switch_micro_time_now(). Times
-- are microseconds since 1970 and stay far below 2^63.
pub mod Fifo
mod Tests
use mod_audio_stream.Common.{
  ℕ, ◌+◌, ◌*◌, ◌/◌, ◌<◌, ◌≡◌, Bool, true, false, List, [], ◌∷◌, Option, none, some, length, ltb,
  ◌==◌, if◌then◌else◌, u32,
}
use mod_audio_stream.SwitchBuffer.{SwitchBuffer}

pub record Buffer (B : Type 0) : Type 0 where
  pub freeswitch_buffer : B
  pub time_step_increment : ℕ
  pub start_time : ℕ
  pub generated_time : ℕ
  pub generated_chunk_count : ℕ
  pub chunk_size_bytes : ℕ
  pub current_usage_bytes : ℕ
  pub maximum_capacity_bytes : ℕ
  pub degradation_notification_sent : ℕ
  pub last_send_time : ℕ
  pub transmitted_chunk_count : ℕ

unfoldable pub is_data_available : {B : Type 0} → Buffer B → Bool
is_data_available b = ltb 0 b.current_usage_bytes

unfoldable pub set_start_time : {B : Type 0} → Buffer B → ℕ → Buffer B
set_start_time b time = record b { start_time = time }

module _ {B : Type 0} (o : SwitchBuffer B) where
  -- The constructor.
  unfoldable pub new_buffer : ℕ → ℕ → ℕ → ℕ → Buffer B
  new_buffer max_len step_buffer_len step_time_increase now = record {
    freeswitch_buffer = o.create_dynamic (max_len / 10) (max_len / 10) max_len;
    time_step_increment = step_time_increase * 1000;
    start_time = now;
    generated_time = now;
    generated_chunk_count = 0;
    chunk_size_bytes = u32 step_buffer_len;
    current_usage_bytes = 0;
    maximum_capacity_bytes = u32 max_len;
    degradation_notification_sent = 1;
    last_send_time = now;
    transmitted_chunk_count = 0;
  }

  -- `none` is `return false`: no whole chunk was there. What was read is freed then, and gone.
  unfoldable pub read : Buffer B → Option (List ℕ) × Buffer B
  read b =
      let (copy, rest) = o.read b.freeswitch_buffer b.chunk_size_bytes in
      if length copy == b.chunk_size_bytes
      then (
        some copy,
        record b {
          freeswitch_buffer = rest;
          current_usage_bytes = u32 (o.inuse rest);
          last_send_time = b.last_send_time + b.time_step_increment;
          transmitted_chunk_count = u32 (b.transmitted_chunk_count + 1);
        },
      )
      else (none, record b { freeswitch_buffer = rest })

  -- `frame` is what `data` points to, `chunk_size_bytes` of it.
  unfoldable pub write : Buffer B → List ℕ → Bool × Buffer B
  write b frame =
      let (w, store) = o.write b.freeswitch_buffer frame in
      if w == 0 then (false, record b { freeswitch_buffer = store }) else (
        true,
        record b {
          freeswitch_buffer = store;
          current_usage_bytes = u32 (o.inuse store);
          generated_time = b.generated_time + b.time_step_increment;
          generated_chunk_count = u32 (b.generated_chunk_count + 1);
        },
      )
