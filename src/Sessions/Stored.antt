-- ===== src/Sessions/Stored.antt =====
-- That stream_frame of src/lws_glue.cpp stores the frames of a call.
use mod_audio_stream.Common.{
  ℕ, ◌+◌, ◌≤◌, ◌<◌, ◌≡◌, refl, ap, sym, ◌∙◌, List, [], ◌∷◌, ◌++◌, true, false, some, String, length,
  length-append, append_assoc, append-nil, bind-some, arith, if-true, if-false, subst,
}
use mod_audio_stream.Doubles.{Doubles}
use mod_audio_stream.SwitchBuffer.{SwitchBuffer, IsFifo}
use mod_audio_stream.StreamBuffer
use mod_audio_stream.StreamBuffer.{Buffer}
use mod_audio_stream.StreamBuffer.Fifo.{write-Holds, write_sizes, length-concat, concat, AllOfSize}
use mod_audio_stream.Connections.{emit, cancels_service, add_pending_write}
use mod_audio_stream.Playback.{Services}
use mod_audio_stream.Sessions.{Env, Bug, Channel}
use mod_audio_stream.Sessions.Media.{
  Scratch, MediaEnv, overlay, keep_pending, frame_step, frames_loop, stream_frame,
}
use mod_audio_stream.Sessions.Steady.{Steady, renewed}
use mod_audio_stream.Sessions.Notices.{Takes, after_write-Takes}
use mod_audio_stream.Sessions.Frames.{not_empty, frame_step_lem, stream_frame_lem}

module _ {B J R D : Type 0} {o : SwitchBuffer B} (law : IsFifo o) (v : Services J R) (d : Doubles D)
    (media : MediaEnv) (env : Env) (fuel a : ℕ) (id : String) (b t i vhost : ℕ) (bug : Bug) where
  frame-Takes :
      (n most : ℕ) (fs : List (List ℕ)) (s : Channel B R) (f : List ℕ) (k : Scratch)
      → Steady law env id b t i vhost bug n most fs s
      → length f ≡ n
      → length (concat fs) + n ≤ most
      → Takes law v d media env fuel a id b t i vhost bug n most
          (fs ++ f ∷ [])
          s.pipes.pending_writes
          (frame_step o v d media env fuel a t i false f (k, s))
  frame-Takes n most fs s f k y e l =
      let k' = record k { array = overlay f k.array } in
      let g = write-Holds law y.buffer fs f y.holds (e ∙ sym y.chunk) (
        subst (λ u. length (concat fs) + u ≤ y.buffer.maximum_capacity_bytes) (sym y.chunk)
          (subst (λ u. length (concat fs) + n ≤ u) (sym y.capacity) l)) in
      let c = write_sizes o y.buffer f in
      let (k'', s'', h, w, z, p) =
        after_write-Takes law v d media env fuel a id b t i vhost bug n most fs (fs ++ f ∷ []) s y
          k' (StreamBuffer.write o y.buffer f) g.0 g.1 (c.0 ∙ y.chunk) (c.1 ∙ y.capacity) in
      (
        k'',
        s'',
        frame_step_lem law v d media env fuel a id b t i vhost bug n most fs s f k y e ∙ h,
        w,
        z,
        p,
      )

  frames-Takes :
      (n most : ℕ) (frames fs : List (List ℕ)) (s : Channel B R) (k : Scratch)
      → k.write_success ≡ true
      → Steady law env id b t i vhost bug n most fs s
      → AllOfSize n frames
      → length (concat (fs ++ frames)) ≤ most
      → Takes law v d media env fuel a id b t i vhost bug n most
          (fs ++ frames)
          s.pipes.pending_writes
          (frames_loop o v d media env fuel a t i false frames (k, s))
  unfolding frames_loop
  frames-Takes n most [] fs s k e y h l = (
    k,
    s,
    refl,
    e,
    subst (λ r. Steady law env id b t i vhost bug n most r s) (sym (append-nil fs)) y,
    refl,
  )
  frames-Takes n most (f ∷ frames) fs s k e y h l =
      let some_size = subst (λ u. 0 < u) y.chunk y.holds.some_size in
      let total = length-concat fs (f ∷ frames) in
      let parts = length-append f (concat frames) in
      let joined = append_assoc fs (f ∷ []) frames in
      let (k', s', g, w, z, p) =
        frame-Takes n most fs s f k y h.0 (ground (arith, h.0, total, parts, l)) in
      let (k'', s'', g', w', z', p') =
        frames-Takes n most frames (fs ++ f ∷ []) s' k' w z h.1
          (subst (λ u. length (concat u) ≤ most) (sym joined) l) in
      (
        k'',
        s'',
        if-false _ _ (not_empty f n h.0 some_size) ∙ (bind-some _ _ (k', s') g ∙ g'),
        w',
        subst (λ r. Steady law env id b t i vhost bug n most r s'') joined z',
        p' ∙ p,
      )

  queued :
      (n most : ℕ) (fs : List (List ℕ)) (s : Channel B R) (k : Scratch)
      → k.write_success ≡ true
      → Steady law env id b t i vhost bug n most fs s
      → (s' : Channel B R) × (keep_pending o v d media env fuel a i (k, s) ≡ some s')
        × Steady law env id b t i vhost bug n most fs s'
        × (s'.pipes.pending_writes ≡ s.pipes.pending_writes ++ i ∷ [])
  unfolding add_pending_write
  queued n most fs s k e y =
      let w =
        emit (record s.pipes { pending_writes = s.pipes.pending_writes ++ i ∷ [] })
          cancels_service in
      let s' = record s { pipes = w } in
      (
        s',
        if-true _ _ e
            ∙ bind-some _ _ w
                (bind-some _ _ y.pipe y.attached.pipe_at ∙ bind-some _ _ vhost y.served),
        renewed law env id b t i vhost bug n most fs fs s s' y y.buffer refl refl
            (y.attached.context_at
              ∙ ap (λ r. some (record y.context { resampler = r })) y.no_resampler)
            (y.attached.pipe_at ∙ ap (λ r. some (record y.pipe { audio_buffer = r })) y.has_buffer)
            y.holds y.chunk y.capacity,
        refl,
      )

  -- Over a FreeSWITCH buffer that obeys the laws of a queue, on a stream that is attached, neither
  -- paused nor shutting down, connected with a vhost, and whose linear samples go to its first
  -- buffer without a resampler, with the mutex free: if the frames that the bug gives have the
  -- chunk size and fit in the room that is left, stream_frame returns, the buffer holds them, in
  -- order, after the frames that it held, the stream stays as it was, and its pipe is queued once
  -- for the writeable handler, whatever notices of a degraded connection are given.
  pub stream_frame-Stores :
      (n most : ℕ) (fs frames : List (List ℕ)) (k : Scratch) (s : Channel B R)
      → media.context_free ≡ true
      → Steady law env id b t i vhost bug n most fs s
      → AllOfSize n frames
      → length (concat (fs ++ frames)) ≤ most
      → (s' : Channel B R) × (stream_frame o v d media env fuel a b k frames s ≡ some s')
        × Steady law env id b t i vhost bug n most (fs ++ frames) s'
        × (s'.pipes.pending_writes ≡ s.pipes.pending_writes ++ i ∷ [])
  stream_frame-Stores n most fs frames k s free y h l =
      let k0 = record k { write_success = true } in
      let (k', s', g, w, z, p) = frames-Takes n most frames fs s k0 refl y h l in
      let (s'', g', z', p') = queued n most (fs ++ frames) s' k' w z in
      (
        s'',
        stream_frame_lem law v d media env fuel a id b t i vhost bug n most fs frames k s free y
            ∙ (bind-some _ _ (k', s') g ∙ g'),
        z',
        p' ∙ ap (λ r. r ++ i ∷ []) p,
      )
