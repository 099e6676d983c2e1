-- ===== src/Sessions/Tests/Media.antt =====
-- Frames of four bytes for a stream whose buffer has ten bytes.
use mod_audio_stream.Common.{◌≡◌, refl, ◌∷◌, [], List, ℕ, true, some, arith, length}
use mod_audio_stream.SwitchBuffer.{ByteQueue, byte_queue, byte_queue-IsFifo}
use mod_audio_stream.StreamBuffer.{Buffer}
use mod_audio_stream.StreamBuffer.Fifo.{Holds, concat}
use mod_audio_stream.Doubles.{thousandths}
use mod_audio_stream.AudioPipe.{AudioPipe, new_pipe}
use mod_audio_stream.Sessions.{Channel}
use mod_audio_stream.Sessions.Start.{new_context, with_resamplers}
use mod_audio_stream.Sessions.Media.{Scratch, MediaEnv, stream_frame}
use mod_audio_stream.Sessions.Steady.{Steady}
use mod_audio_stream.Sessions.Stored.{stream_frame-Stores}
use mod_audio_stream.Sessions.Overflow.{ShutDown, stream_frame-ShutDown}
use mod_audio_stream.Sessions.Tests.{
  env, bug_of, context, connected, attached_to, attached_lem, services,
}

abbrev buffer_of_two : List ℕ → Buffer ByteQueue
buffer_of_two bytes = record {
  freeswitch_buffer = record { bytes = bytes; limit = 10 };
  time_step_increment = 20000;
  start_time = 100;
  generated_time = 100;
  generated_chunk_count = 0;
  chunk_size_bytes = 4;
  current_usage_bytes = length bytes;
  maximum_capacity_bytes = 10;
  degradation_notification_sent = 1;
  last_send_time = 100;
  transmitted_chunk_count = 0;
}

abbrev pipe_of : List ℕ → AudioPipe ByteQueue
pipe_of bytes = record connected { audio_buffer = some (buffer_of_two bytes) }

abbrev channel : List ℕ → Channel ByteQueue (Unit {0})
channel bytes = attached_to (pipe_of bytes)

abbrev media : MediaEnv
media = record { linear_to_ulaw = λ n. n; context_free = true }

abbrev scratch : Scratch
scratch = record {
  array = 0 ∷ 0 ∷ 0 ∷ 0 ∷ 0 ∷ 0 ∷ 0 ∷ 0 ∷ [];
  encoded_data = 0 ∷ 0 ∷ 0 ∷ 0 ∷ 0 ∷ 0 ∷ 0 ∷ 0 ∷ [];
  fresh = 0 ∷ 0 ∷ 0 ∷ 0 ∷ 0 ∷ 0 ∷ 0 ∷ 0 ∷ [];
  write_success = true;
}

steady :
    (bytes : List ℕ) (fs : List (List ℕ))
    → Holds byte_queue-IsFifo (buffer_of_two bytes) fs
    → Steady byte_queue-IsFifo env "s1" 3 7 5 1 bug_of 4 10 fs (channel bytes)
unfolding new_pipe new_context with_resamplers
steady bytes fs h = record {
  context = context;
  pipe = pipe_of bytes;
  buffer = buffer_of_two bytes;
  attached = attached_lem (pipe_of bytes);
  unpaused = refl;
  unshut = refl;
  no_resampler = refl;
  named_pipe = refl;
  up = refl;
  served = refl;
  linear = refl;
  inner = refl;
  has_buffer = refl;
  holds = h;
  chunk = refl;
  capacity = refl;
}

abbrev frames : List (List ℕ)
frames = (1 ∷ 2 ∷ 3 ∷ 4 ∷ []) ∷ (5 ∷ 6 ∷ 7 ∷ 8 ∷ []) ∷ []

none-Holds : Holds byte_queue-IsFifo (buffer_of_two []) []
none-Holds = record {
  stored = refl;
  whole = tt;
  some_size = omega arith;
  usage = refl;
  limit = refl;
  bounded = omega arith;
  within = omega arith;
}

two-Holds : Holds byte_queue-IsFifo (buffer_of_two (concat frames)) frames
two-Holds = record {
  stored = refl;
  whole = (refl, (refl, tt));
  some_size = omega arith;
  usage = refl;
  limit = refl;
  bounded = omega arith;
  within = omega arith;
}

stream_frame-Stores_example :
    (s' : Channel ByteQueue (Unit {0})) × (stream_frame byte_queue services thousandths media env 8
        1 3 scratch frames
        (channel [])
      ≡ some s')
    × Steady byte_queue-IsFifo env "s1" 3 7 5 1 bug_of 4 10 frames s'
    × (s'.pipes.pending_writes ≡ 5 ∷ [])
stream_frame-Stores_example =
    stream_frame-Stores byte_queue-IsFifo services thousandths media env 8 1 "s1" 3 7 5 1 bug_of 4
      10 [] frames scratch (channel []) refl (steady [] [] none-Holds) (refl, (refl, tt))
      (omega arith)

-- Two bytes are left of ten.
stream_frame-ShutDown_example :
    (s' : Channel ByteQueue (Unit {0})) × (stream_frame byte_queue services thousandths media env 8
        1 3 scratch
        ((1 ∷ 2 ∷ 3 ∷ 4 ∷ []) ∷ [])
        (channel (concat frames))
      ≡ some s')
    × ShutDown byte_queue-IsFifo services thousandths media env 8 1 "s1" 3 7 5 1 bug_of frames [] s'
    × (stream_frame byte_queue services thousandths media env 8 1 3 scratch frames s' ≡ some s')
stream_frame-ShutDown_example =
    stream_frame-ShutDown byte_queue-IsFifo services thousandths media env 8 1 "s1" 3 7 5 1 bug_of 4
      10 frames frames (1 ∷ 2 ∷ 3 ∷ 4 ∷ []) scratch scratch (channel (concat frames)) refl
      (steady (concat frames) frames two-Holds) refl (omega arith)
