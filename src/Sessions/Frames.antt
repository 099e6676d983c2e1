-- ===== src/Sessions/Frames.antt =====
-- stream_frame of src/lws_glue.cpp on a steady stream: its guards, and one frame.
use mod_audio_stream.Common.{
  ℕ, ◌<◌, ◌≡◌, ap, ap₂, sym, ◌∙◌, List, Bool, true, false, ◌||◌, not, Option, none, String, length,
  drop, bind-some, arith, ◌>>=◌, ◌==◌, if-true, if-false,
}
use mod_audio_stream.Doubles.{Doubles}
use mod_audio_stream.SwitchBuffer.{SwitchBuffer, IsFifo}
use mod_audio_stream.StreamBuffer
use mod_audio_stream.StreamBuffer.{Buffer}
use mod_audio_stream.StreamBuffer.Fifo.{take-append_length}
use mod_audio_stream.ClientEvents.{Codec}
use mod_audio_stream.AudioPipe.{lws_client_connected, same_state}
use mod_audio_stream.Playback.{Services}
use mod_audio_stream.Sessions.{Env, Bug, Channel, keep_context, with_context}
use mod_audio_stream.Sessions.Media.{
  Scratch, MediaEnv, overlay, coded, keep_pending, after_write, store_frame, frame_step,
  frames_loop, frames_of_pipe, take_frames, stream_frame,
}
use mod_audio_stream.Sessions.Steady.{Steady}

pub not_empty : (f : List ℕ) (n : ℕ) → length f ≡ n → 0 < n → (length f == 0) ≡ false
not_empty f n e h = ground (arith, e, h)

-- The guard of stream_frame.
admitted :
    {paused shut mutex free : Bool}
    → paused ≡ false
    → shut ≡ false
    → mutex ≡ true
    → free ≡ true
    → (paused || (shut || (not mutex || not free))) ≡ false
admitted e f g h = rw (e, f, g, h)

module _ {B J R D : Type 0} {o : SwitchBuffer B} (law : IsFifo o) (v : Services J R) (d : Doubles D)
    (media : MediaEnv) (env : Env) (fuel a : ℕ) (id : String) (b t i vhost : ℕ) (bug : Bug) where
  abbrev Ready : ℕ → ℕ → List (List ℕ) → Channel B R → Type 0
  Ready = Steady law env id b t i vhost bug

  -- A frame of one chunk is written as it comes.
  pub frame_step_lem :
      (n most : ℕ) (fs : List (List ℕ)) (s : Channel B R) (f : List ℕ) (k : Scratch)
      (y : Ready n most fs s)
      → length f ≡ n
      → frame_step o v d media env fuel a t i false f (k, s)
        ≡ after_write o v d media env fuel a i false
            (record k { array = overlay f k.array })
            (StreamBuffer.write o y.buffer f)
            y.pipe
            (keep_context t (record y.context { resampler = none }) s)
  unfolding frame_step store_frame coded
  frame_step_lem n most fs s f k y e =
      let k' = record k { array = overlay f k.array } in
      let written = λ (u : List ℕ).
        after_write o v d media env fuel a i false k' (StreamBuffer.write o y.buffer u) y.pipe
          (keep_context t (record y.context { resampler = none }) s) in
      let step = λ (r : Option R) (x : Codec).
        store_frame o v d media env fuel a t i false y.context y.pipe y.buffer
          (coded v media r x f k) s in
      bind-some _ _ y.context y.attached.context_at
      ∙ (bind-some _ _ y.pipe y.attached.pipe_at
          ∙ (bind-some _ _ y.buffer y.has_buffer
              ∙ (ap₂ step y.no_resampler y.linear
                  ∙ ap written (
                      take-append_length f (drop (length f) k.array) y.buffer.chunk_size_bytes
                        (y.chunk ∙ sym e)))))

  -- With the mutex free, the frames are taken.
  pub stream_frame_lem :
      (n most : ℕ) (fs frames : List (List ℕ)) (k : Scratch) (s : Channel B R)
      → media.context_free ≡ true
      → Ready n most fs s
      → stream_frame o v d media env fuel a b k frames s ≡ (
          frames_loop o v d media env fuel a t i false frames (record k { write_success = true }, s)
          >>= keep_pending o v d media env fuel a i)
  unfolding stream_frame take_frames
  stream_frame_lem n most fs frames k s free y =
      let of_pipe =
        λ (r : Option ℕ). frames_of_pipe o v d media env fuel a bug.direction t k frames r s in
      let outward = λ (r : Bool). take_frames o v d media env fuel a t i r k frames s in
      bind-some _ _ bug y.attached.bug_at
      ∙ (ap (with_context s _) y.attached.of_context
          ∙ (bind-some _ _ y.context y.attached.context_at
              ∙ (if-false _ _ (admitted y.unpaused y.unshut y.attached.mutex free)
                  ∙ (ap of_pipe y.attached.of_pipe
                      ∙ (bind-some _ _ y.pipe y.attached.pipe_at
                          ∙ (if-true _ _ (ap (λ r. same_state r lws_client_connected) y.up)
                              ∙ (ap outward y.inner
                                  ∙ (bind-some _ _ y.pipe y.attached.pipe_at
                                      ∙ bind-some _ _ y.buffer y.has_buffer))))))))
