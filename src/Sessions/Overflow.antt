-- ===== src/Sessions/Overflow.antt =====
-- What stream_frame of src/lws_glue.cpp does with a frame that finds no room.
use mod_audio_stream.Common.{
  ℕ, ◌+◌, ◌<◌, ◌≡◌, refl, ap, sym, ◌∙◌, List, [], ◌∷◌, ◌++◌, Bool, true, false, ◌||◌, not, Option,
  none, some, String, length, update-same, bind-some, if◌then◌else◌, ◌>>=◌, if-true, if-false,
  subst,
}
use mod_audio_stream.Doubles.{Doubles}
use mod_audio_stream.SwitchBuffer.{SwitchBuffer, IsFifo}
use mod_audio_stream.StreamBuffer
use mod_audio_stream.StreamBuffer.{Buffer}
use mod_audio_stream.StreamBuffer.Fifo.{Holds, write_full, write_sizes, concat}
use mod_audio_stream.AudioPipe.{AudioPipe, connection_timeout}
use mod_audio_stream.Connections
use mod_audio_stream.Connections.{store, World, emit, cancels_service, add_pending_write}
use mod_audio_stream.Playback.{Services}
use mod_audio_stream.Sessions.{
  Env, Bug, Context, Channel, Fired, connect_timeout, responds, fire_event, keep_context,
  with_context,
}
use mod_audio_stream.Sessions.Found.{on_stream-some}
use mod_audio_stream.Sessions.Events.{
  event_callback, on_event, on_timeout, stream_session_graceful_shutdown, shut_pipe_of, reason_json,
  termination_reason_connection_error,
}
use mod_audio_stream.Sessions.Media.{
  Scratch, MediaEnv, overlay, keep_pending, is_degraded, after_write, frame_step, frames_loop,
  frames_of_pipe, notify_timeout, stream_frame,
}
use mod_audio_stream.Sessions.Steady.{Steady, stored, stored-Steady}
use mod_audio_stream.Sessions.Notices.{if-Gives}
use mod_audio_stream.Sessions.Frames.{not_empty, frame_step_lem, stream_frame_lem}

module _ {B J R D : Type 0} {o : SwitchBuffer B} (law : IsFifo o) (v : Services J R) (d : Doubles D)
    (media : MediaEnv) (env : Env) (fuel a : ℕ) (id : String) (b t i vhost : ℕ) (bug : Bug) where
  abbrev Ready : ℕ → ℕ → List (List ℕ) → Channel B R → Type 0
  Ready = Steady law env id b t i vhost bug

  -- The stream `c` on the pipe `p` is told that it timed out, and shuts down.
  abbrev ending : Context B R → Context B R
  ending c = record c { stream_termination_reason = termination_reason_connection_error }

  abbrev shut : Context B R → Context B R
  shut c = record (ending c) { graceful_shutdown = true }

  abbrev shut_pipe : AudioPipe B → AudioPipe B
  shut_pipe p = record p { graceful_shutdown = true; graceful_shutdown_at = env.now }

  abbrev told : Context B R → Channel B R → Channel B R
  told c s = keep_context t (ending c) (fire_event (responds connect_timeout (reason_json id [])) s)

  abbrev timed_out : Context B R → AudioPipe B → Channel B R → Channel B R
  timed_out c p s = record (keep_context t (shut c) (told c s)) {
    pipes =
        emit
          (record (store s.pipes i (shut_pipe p)) {
            pending_writes = s.pipes.pending_writes ++ i ∷ [];
          })
          cancels_service;
  }

  abbrev on_timeout_of : String → Context B R → Channel B R → Option (Channel B R)
  on_timeout_of r c s =
      stream_session_graceful_shutdown env.now r
        (keep_context t (ending c) (fire_event (responds connect_timeout (reason_json r [])) s))
      >>= λ (done, s'). some s'

  shutdown_lem :
      (n most : ℕ) (fs : List (List ℕ)) (s : Channel B R) (y : Ready n most fs s)
      → stream_session_graceful_shutdown env.now id (told y.context s)
        ≡ some (true, timed_out y.context y.pipe s)
  unfolding stream_session_graceful_shutdown shut_pipe_of Connections.graceful_shutdown
      add_pending_write
  shutdown_lem n most fs s y =
      on_stream-some _ _ id (told y.context s) b t bug y.attached.found y.attached.bug_at
        y.attached.of_context
      ∙ (bind-some _ _ (ending y.context) (update-same s.contexts t (some (ending y.context)))
          ∙ (ap (λ r. shut_pipe_of env.now r (keep_context t (shut y.context) (told y.context s)))
                y.attached.of_pipe
              ∙ bind-some _ _ _ (
                  bind-some _ _ y.pipe y.attached.pipe_at
                  ∙ (bind-some _ _ (shut_pipe y.pipe)
                        (update-same s.pipes.pipes i (some (shut_pipe y.pipe)))
                      ∙ bind-some _ _ vhost y.served))))

  timeout_lem :
      (n most : ℕ) (fs : List (List ℕ)) (s : Channel B R) (y : Ready n most fs s)
      → notify_timeout o v d media env fuel a i s ≡ some (timed_out y.context y.pipe s)
  unfolding notify_timeout event_callback on_event on_timeout
  timeout_lem n most fs s y =
      bind-some _ _ y.pipe y.attached.pipe_at
      ∙ (ap (λ r. event_callback o v env fuel a r connection_timeout [] s) y.named_pipe
          ∙ (on_stream-some _ _ id s b t bug y.attached.found y.attached.bug_at
                y.attached.of_context
              ∙ (bind-some _ _ y.context y.attached.context_at
                  ∙ (ap (λ r. on_timeout_of r y.context s) y.attached.named
                      ∙ bind-some _ _ (true, timed_out y.context y.pipe s)
                          (shutdown_lem n most fs s y)))))

  -- A frame that finds no room is not kept, and the stream is told.
  abbrev Refuses : ℕ → ℕ → List (List ℕ) → List ℕ → Option (Scratch × Channel B R) → Type 0
  Refuses n most fs pending r =
      (k : Scratch) × (s : Channel B R) × (y : Ready n most fs s) × (r
        ≡ some (k, timed_out y.context y.pipe s))
      × (k.write_success ≡ false)
      × (s.pipes.pending_writes ≡ pending)

  after_write-Refuses :
      (n most : ℕ) (fs : List (List ℕ)) (s : Channel B R) (y : Ready n most fs s) (k : Scratch)
      (r : Bool × Buffer B)
      → r.0 ≡ false
      → Holds law r.1 fs
      → r.1.chunk_size_bytes ≡ n
      → r.1.maximum_capacity_bytes ≡ most
      → Refuses n most fs s.pipes.pending_writes (
          after_write o v d media env fuel a i false k r y.pipe
            (keep_context t (record y.context { resampler = none }) s))
  unfolding after_write
  after_write-Refuses n most fs s y k r e h l m =
      let s' = stored t i s y.context y.pipe r.1 in
      let (s'', g, z, w) =
        if-Gives law v d media env fuel a id b t i vhost bug n most fs s' (is_degraded d r.1)
          (stored-Steady law env id b t i vhost bug n most fs fs s y r.1 h l m) in
      (
        record k { write_success = false },
        s'',
        z,
        bind-some _ _ s'' g
            ∙ (bind-some _ _ (timed_out z.context z.pipe s'')
                  (if-false _ _ e ∙ timeout_lem n most fs s'' z)
                ∙ ap (λ u. some (record k { write_success = u }, timed_out z.context z.pipe s''))
                    e),
        refl,
        w,
      )

  frame-Refuses :
      (n most : ℕ) (fs : List (List ℕ)) (s : Channel B R) (f : List ℕ) (k : Scratch)
      → Ready n most fs s
      → length f ≡ n
      → most < length (concat fs) + n
      → Refuses n most fs s.pipes.pending_writes
          (frame_step o v d media env fuel a t i false f (k, s))
  frame-Refuses n most fs s f k y e l =
      let g = write_full law y.buffer fs f y.holds (e ∙ sym y.chunk) (
        subst (λ u. y.buffer.maximum_capacity_bytes < length (concat fs) + u) (sym y.chunk)
          (subst (λ u. u < length (concat fs) + n) (sym y.capacity) l)) in
      let c = write_sizes o y.buffer f in
      subst (Refuses n most fs s.pipes.pending_writes)
        (sym (frame_step_lem law v d media env fuel a id b t i vhost bug n most fs s f k y e))
        (after_write-Refuses n most fs s y (record k { array = overlay f k.array })
          (StreamBuffer.write o y.buffer f) g.0 g.1 (c.0 ∙ y.chunk) (c.1 ∙ y.capacity))

  kept_shut :
      (c : Context B R) (s : Channel B R)
      → (keep_context t (shut c) (told c s)).contexts t ≡ some (shut c)
  kept_shut c s = update-same (told c s).contexts t (some (shut c))

  ignored :
      (n most : ℕ) (fs later : List (List ℕ)) (k : Scratch) (s : Channel B R)
      (z : Ready n most fs s)
      → stream_frame o v d media env fuel a b k later (timed_out z.context z.pipe s)
        ≡ some (timed_out z.context z.pipe s)
  unfolding stream_frame
  ignored n most fs later k s z =
      let s' = timed_out z.context z.pipe s in
      let guarded = λ (u : ℕ) (c : Context B R).
        if c.audio_paused || (c.graceful_shutdown || (not c.mutex || not media.context_free))
        then some s'
        else frames_of_pipe o v d media env fuel a bug.direction u k later c.audio_pipe_ptr s' in
      let e = ap (λ r. r || true) z.unpaused in
      bind-some _ _ bug z.attached.bug_at
      ∙ (ap (with_context s' (λ u. s'.contexts u >>= λ c. guarded u c)) z.attached.of_context
          ∙ (bind-some _ (guarded t) (shut z.context) (kept_shut z.context s) ∙ if-true _ _ e))

  -- The stream is shut down and its buffer holds the frames `fs`.
  pub record ShutDown (fs : List (List ℕ)) (pending : List ℕ) (s : Channel B R) : Type 0 where
    pub context :
        (c : Context B R) × (s.contexts t ≡ some c)
        × (c.graceful_shutdown ≡ true)
        × (c.stream_termination_reason ≡ termination_reason_connection_error)
    pub pipe :
        (p : AudioPipe B) × (q : Buffer B) × (s.pipes.pipes i ≡ some p)
        × (p.graceful_shutdown ≡ true)
        × (p.graceful_shutdown_at ≡ env.now)
        × (p.audio_buffer ≡ some q)
        × Holds law q fs
    pub queued : s.pipes.pending_writes ≡ pending ++ i ∷ []
    pub told_last :
        (before : List Fired) × (s.fired
          ≡ before ++ responds connect_timeout (reason_json id []) ∷ [])

  -- Over a FreeSWITCH buffer that obeys the laws of a queue, on a stream that is attached, neither
  -- paused nor shutting down, connected with a vhost, and whose linear samples go to its first
  -- buffer without a resampler, with the mutex free: when the bug gives one frame, of the chunk
  -- size, that does not fit in the room that is left, stream_frame returns; the buffer holds the
  -- frames that it held; the stream and its pipe are marked for a graceful shutdown, with the time
  -- and the reason of a connection error; the pipe is queued for the writeable handler;
  -- EVENT_CONNECT_TIMEOUT is the last event fired; and no later frames of that bug change anything.
  pub stream_frame-ShutDown :
      (n most : ℕ) (fs later : List (List ℕ)) (f : List ℕ) (k k' : Scratch) (s : Channel B R)
      → media.context_free ≡ true
      → Ready n most fs s
      → length f ≡ n
      → most < length (concat fs) + n
      → (s' : Channel B R) × (stream_frame o v d media env fuel a b k (f ∷ []) s ≡ some s')
        × ShutDown fs s.pipes.pending_writes s'
        × (stream_frame o v d media env fuel a b k' later s' ≡ some s')
  unfolding frames_loop
  stream_frame-ShutDown n most fs later f k k' s free y e l =
      let some_size = subst (λ u. 0 < u) y.chunk y.holds.some_size in
      let k0 = record k { write_success = true } in
      let (k'', s'', z, g, w, p) = frame-Refuses n most fs s f k0 y e l in
      let s' = timed_out z.context z.pipe s'' in
      (
        s',
        stream_frame_lem law v d media env fuel a id b t i vhost bug n most fs (f ∷ []) k s free y
            ∙ (ap (λ r. r >>= keep_pending o v d media env fuel a i)
                  (if-false _ _ (not_empty f n e some_size) ∙ bind-some _ _ (k'', s') g)
                ∙ if-false _ _ w),
        record {
          context = (shut z.context, kept_shut z.context s'', refl, refl);
          pipe = (
            shut_pipe z.pipe,
            z.buffer,
            update-same s''.pipes.pipes i (some (shut_pipe z.pipe)),
            refl,
            refl,
            z.has_buffer,
            z.holds,
          );
          queued = ap (λ r. r ++ i ∷ []) p;
          told_last = (s''.fired, refl);
        },
        ignored n most fs later k' s'' z,
      )
