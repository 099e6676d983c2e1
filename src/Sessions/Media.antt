-- ===== src/Sessions/Media.antt =====
-- stream_frame of src/lws_glue.cpp, which takes the media of a call from FreeSWITCH to the buffer
-- of the stream, as the media callback of src/mod_audio_stream.c calls it. A frame is the list of
-- its bytes, and the frames are those that switch_core_media_bug_read gives before it fails or
-- gives comfort noise; a frame's samples are half its bytes. The lock of the buffer is waited for.
use mod_audio_stream.Common.{
  u8, ℕ, ◌+◌, ◌*◌, ◌∷◌, [], List, ◌++◌, ◌/◌, length, drop, take, Bool, true, false, ◌||◌, not,
  Option, none, some, ◌==◌, if◌then◌else◌, ◌>>=◌,
}
use mod_audio_stream.Doubles.{Doubles}
use mod_audio_stream.SwitchBuffer.{SwitchBuffer}
use mod_audio_stream.StreamBuffer
use mod_audio_stream.StreamBuffer.{Buffer}
use mod_audio_stream.ClientEvents.{Codec, l16, ulaw}
use mod_audio_stream.AudioPipe.{
  AudioPipe, lws_client_connected, same_state, connection_degraded, connection_timeout,
}
use mod_audio_stream.Connections.{add_pending_write}
use mod_audio_stream.Playback.{Services}
use mod_audio_stream.Sessions.{
  Env, Context, Channel, Direction, inbound, outbound, with_context, keep_bug, keep_context,
  keep_pipe,
}
use mod_audio_stream.Sessions.Events.{event_callback}

-- What the loop over the frames keeps on the stack: the arrays of the frame and of its code, and
-- write_success. `fresh` is the array `out`, which each round finds as it lies.
pub record Scratch : Type 0 where
  pub array : List ℕ
  pub encoded_data : List ℕ
  pub fresh : List ℕ
  pub write_success : Bool

-- The parameters: the table of G.711, from a 16-bit word, and switch_mutex_trylock of the mutex of
-- the context.
pub record MediaEnv : Type 0 where
  pub linear_to_ulaw : ℕ → ℕ
  pub context_free : Bool

-- The bytes that are written over the front of an array.
abbrev pub overlay : List ℕ → List ℕ → List ℕ
overlay bytes array = bytes ++ drop (length bytes) array

-- Words of little-endian bytes; half a word is left.
unfoldable pub g711u_encode : (ℕ → ℕ) → List ℕ → List ℕ
g711u_encode table (low ∷ high ∷ bytes) = table (low + 256 * high) ∷ g711u_encode table bytes
g711u_encode table bytes = []

-- Which buffer and resampler a bug's media go to: the outbound ones, or not.
abbrev pub goes_outbound : {B : Type 0} → AudioPipe B → Direction → Bool
goes_outbound p inbound = false
goes_outbound p outbound = p.both_tracks

abbrev pub buffer_of : {B : Type 0} → Bool → AudioPipe B → Option (Buffer B)
buffer_of true p = p.ob_audio_buffer
buffer_of false p = p.audio_buffer

abbrev pub keep_buffer : {B : Type 0} → Bool → Buffer B → AudioPipe B → AudioPipe B
keep_buffer true b p = record p { ob_audio_buffer = some b }
keep_buffer false b p = record p { audio_buffer = some b }

abbrev pub resampler_of : {B R : Type 0} → Bool → Context B R → Option R
resampler_of true c = c.resampler_outbound
resampler_of false c = c.resampler

abbrev pub keep_resampler : {B R : Type 0} → Bool → Option R → Context B R → Context B R
keep_resampler true r c = record c { resampler_outbound = r }
keep_resampler false r c = record c { resampler = r }

module _ {J R : Type 0} (v : Services J R) (media : MediaEnv) where
  -- The array that is written to the buffer, the scratch, and the resampler.
  unfoldable pub coded : Option R → Codec → List ℕ → Scratch → List ℕ × Scratch × Option R
  unfolding g711u_encode
  coded (some r) codec bytes k =
      let array = overlay bytes k.array in
      let (out, r') = v.resample r bytes (length k.fresh / 2) in
      (overlay out k.fresh, record k { array = array }, some r')
  coded none l16 bytes k =
      let array = overlay bytes k.array in (array, record k { array = array }, none)
  coded none ulaw bytes k =
      let code = overlay (g711u_encode media.linear_to_ulaw bytes) k.encoded_data in
      (code, record k { array = overlay bytes k.array; encoded_data = code }, none)

-- Usage beyond so many times three tenths of the capacity.
unfoldable pub is_degraded : {B D : Type 0} → Doubles D → Buffer B → Bool
is_degraded d b = d.is_greater (d.of_size b.current_usage_bytes) (
    d.times (d.of_size b.maximum_capacity_bytes)
      (d.times (d.of_size b.degradation_notification_sent) (d.ratio 3 10)))

module _ {B J R D : Type 0} (o : SwitchBuffer B) (v : Services J R) (d : Doubles D)
    (media : MediaEnv) (env : Env) (fuel a : ℕ) where
  -- The notice of a degraded connection, and its count.
  unfoldable pub notify_degraded : ℕ → Bool → Channel B R → Option (Channel B R)
  notify_degraded i out s = do
    p ← s.pipes.pipes i
    s' ← event_callback o v env fuel a p.streamid connection_degraded [] s
    p' ← s'.pipes.pipes i
    b ← buffer_of out p'
    let b' = record b { degradation_notification_sent = u8 (b.degradation_notification_sent + 1) }
    some (keep_pipe i (keep_buffer out b' p') s')

  unfoldable pub notify_timeout : ℕ → Channel B R → Option (Channel B R)
  notify_timeout i s =
      s.pipes.pipes i >>= λ p. event_callback o v env fuel a p.streamid connection_timeout [] s

  -- What follows the write to the buffer: the two notices.
  unfoldable pub after_write :
      ℕ
      → Bool
      → Scratch
      → Bool × Buffer B
      → AudioPipe B
      → Channel B R
      → Option (Scratch × Channel B R)
  unfolding is_degraded notify_degraded notify_timeout
  after_write i out k (written, b) p s = do
    let stored = keep_pipe i (keep_buffer out b p) s
    s' ← if is_degraded d b then notify_degraded i out stored else some stored
    s'' ← if written then some s' else notify_timeout i s'
    some (record k { write_success = written }, s'')

  -- Of the array, as many bytes are written as a chunk has.
  unfoldable pub store_frame :
      ℕ
      → ℕ
      → Bool
      → Context B R
      → AudioPipe B
      → Buffer B
      → List ℕ × Scratch × Option R
      → Channel B R
      → Option (Scratch × Channel B R)
  unfolding after_write
  store_frame t i out c p b (array, k, r) s =
      after_write i out k (StreamBuffer.write o b (take b.chunk_size_bytes array)) p
        (keep_context t (keep_resampler out r c) s)

  -- One frame that is not empty.
  unfoldable pub frame_step :
      ℕ → ℕ → Bool → List ℕ → Scratch × Channel B R → Option (Scratch × Channel B R)
  unfolding coded store_frame
  frame_step t i out bytes (k, s) = do
    c ← s.contexts t
    p ← s.pipes.pipes i
    b ← buffer_of out p
    store_frame t i out c p b (coded v media (resampler_of out c) p.codec bytes k) s

  unfoldable pub frames_loop :
      ℕ → ℕ → Bool → List (List ℕ) → Scratch × Channel B R → Option (Scratch × Channel B R)
  unfolding frame_step
  frames_loop t i out [] z = some z
  frames_loop t i out (bytes ∷ frames) z =
      let rest = λ (z' : Scratch × Channel B R). frames_loop t i out frames z' in
      if length bytes == 0 then rest z else (frame_step t i out bytes z >>= rest)

  -- What follows the loop.
  abbrev pub keep_pending : ℕ → Scratch × Channel B R → Option (Channel B R)
  keep_pending i (k, s) =
      if k.write_success
      then (add_pending_write i s.pipes >>= λ w. some (record s { pipes = w }))
      else some s

  -- The frames of a pipe that is connected, whose buffer is locked before the first is read.
  unfoldable pub take_frames :
      ℕ → ℕ → Bool → Scratch → List (List ℕ) → Channel B R → Option (Channel B R)
  unfolding frames_loop
  take_frames t i out k frames s = do
    p ← s.pipes.pipes i
    b ← buffer_of out p
    z ← frames_loop t i out frames (record k { write_success = true }, s)
    keep_pending i z

  abbrev pub frames_of_pipe :
      Direction → ℕ → Scratch → List (List ℕ) → Option ℕ → Channel B R → Option (Channel B R)
  unfolding take_frames
  frames_of_pipe direction t k frames none s = some s
  frames_of_pipe direction t k frames (some i) s = s.pipes.pipes i >>= λ p.
      if same_state p.state lws_client_connected
      then take_frames t i (goes_outbound p direction) k frames s
      else some s

  -- It always returns SWITCH_TRUE.
  unfoldable pub stream_frame : ℕ → Scratch → List (List ℕ) → Channel B R → Option (Channel B R)
  unfolding frames_of_pipe
  stream_frame b k frames s = s.bugs b >>= λ bug.
      with_context s
        (λ t. s.contexts t >>= λ c.
          if c.audio_paused || (c.graceful_shutdown || (not c.mutex || not media.context_free))
          then some s
          else frames_of_pipe bug.direction t k frames c.audio_pipe_ptr s)
        bug.session_context

  -- SWITCH_ABC_TYPE_READ and SWITCH_ABC_TYPE_WRITE.
  unfoldable pub media_frame : ℕ → Scratch → List (List ℕ) → Channel B R → Option (Channel B R)
  unfolding stream_frame
  media_frame b k frames s = s.bugs b >>= λ bug.
      stream_frame b k frames
        (keep_bug b (record bug { frames_processed = bug.frames_processed + 1 }) s)
