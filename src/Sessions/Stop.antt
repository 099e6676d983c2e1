-- ===== src/Sessions/Stop.antt =====
-- stream_session_cleanup of src/lws_glue.cpp and do_stop of src/mod_audio_stream.c, on a stream that
-- is attached.
use mod_audio_stream.Common.{
  ℕ, ◌==◌, codes, ◌≡◌, refl, ap, ◌∙◌, List, [], ◌∷◌, ◌++◌, Bool, true, false, Option, none, some,
  String, if◌then◌else◌, update-same, bind-some, arith, if-true,
}
use mod_audio_stream.Common.Maps.{find, erase}
use mod_audio_stream.AudioPipe.{AudioPipe}
use mod_audio_stream.Connections.{World, close}
use mod_audio_stream.Sessions.{
  Env, Bug, Context, Channel, responds, stop, publishes_stop, termination_reason_call_hangup,
  keep_context, keep_bug, destroy_tech_pvt, end_context, drop_tasks, release, take_down,
  cleanup_with, remove_bug, stream_session_cleanup,
}
use mod_audio_stream.Sessions.Found.{on_stream-some}
use mod_audio_stream.Sessions.Closing.{closing, hung_up, last_attempt, after_close, media_close_lem}
use mod_audio_stream.Sessions.Commands.{
  do_stop, begin_stop, context_at, stop_json, reason_of, termination_reason_api_request,
}

-- The stream `id` has the bug `b` with the context `t`, whose pipe lives; the lock is free, and a
-- bug that is removed is closed at once.
pub record Attached {B R : Type 0} (env : Env) (id : String) (b t i : ℕ) (bug : Bug)
    (c : Context B R) (p : AudioPipe B) (s : Channel B R) : Type 0 where
  pub lock_free : env.lock_free ≡ true
  pub removal_closes : env.removal_closes ≡ true
  pub found : find id s.privates ≡ some b
  pub once : find id (erase id s.privates) ≡ none
  pub bug_at : s.bugs b ≡ some bug
  pub of_context : bug.session_context ≡ some t
  pub context_at : s.contexts t ≡ some c
  pub named : c.stream_id ≡ id
  pub mutex : c.mutex ≡ true
  pub of_pipe : c.audio_pipe_ptr ≡ some i
  pub pipe_at : s.pipes.pipes i ≡ some p

module _ {B R : Type 0} (env : Env) (id : String) (zero_billing : Bool) (b t i : ℕ) (bug : Bug)
    (c : Context B R) (p : AudioPipe B) (w : World B) (s : Channel B R) where
  -- Before the bug is removed.
  abbrev pub ending : Context B R
  unfolding end_context
  ending = end_context env.now zero_billing c

  abbrev pub leaving : Channel B R
  leaving = record (keep_context t ending s) {
    tasks = drop_tasks c s.tasks;
    privates = erase id s.privates;
  }

  abbrev pub detached : Bug
  detached = record bug { attached = false }

  abbrev pub removed : Channel B R
  removed = after_close t detached ending w (keep_bug b detached leaving)

  abbrev pub taken_down : Channel B R
  taken_down =
      keep_bug b (record detached { session_context = none })
        (keep_context t (destroy_tech_pvt (hung_up ending)) removed)

  remove_bug_lem :
      Attached env id b t i bug c p s
      → close i (last_attempt i p s.pipes) ≡ some w
      → remove_bug env b leaving ≡ some removed
  unfolding remove_bug end_context
  remove_bug_lem a k =
      let e =
        media_close_lem env b t i detached ending p w (keep_bug b detached leaving)
          (update-same s.bugs b (some detached)) a.of_context
          (update-same s.contexts t (some ending))
          (ap (λ k. find k (erase id s.privates)) a.named ∙ a.once) a.of_pipe a.pipe_at k in
      bind-some _ _ bug a.bug_at ∙ (if-true _ _ a.removal_closes ∙ e)

  release_lem : release b t removed ≡ some taken_down
  unfolding release
  release_lem =
      let e =
        update-same (keep_context t (closing ending) leaving).contexts t (some (hung_up ending)) in
      let f = update-same s.bugs b (some detached) in rw e (rw f)

  take_down_lem :
      Attached env id b t i bug c p s
      → close i (last_attempt i p s.pipes) ≡ some w
      → take_down (remove_bug env) env id zero_billing b t s ≡ some taken_down
  unfolding take_down
  take_down_lem a k =
      bind-some _ _ c a.context_at
      ∙ (if-true _ _ a.mutex ∙ (bind-some _ _ removed (remove_bug_lem a k) ∙ release_lem))

  pub cleanup_lem :
      Attached env id b t i bug c p s
      → close i (last_attempt i p s.pipes) ≡ some w
      → stream_session_cleanup env id zero_billing s ≡ some (true, taken_down)
  unfolding stream_session_cleanup cleanup_with
  cleanup_lem a k =
      on_stream-some _ _ id s b t bug a.found a.bug_at a.of_context
      ∙ (if-true _ _ a.lock_free ∙ bind-some _ _ taken_down (take_down_lem a k))

-- What the response handler is given by do_stop.
abbrev pub stop_text : String → Option (List ℕ) → List ℕ
stop_text id text = stop_json (codes "stream_id") id (reason_of text)

-- What is left of an attached stream, and of nothing else, once it has been stopped: the bug
-- without its context, the context without its resources, and the pointer to the pipe.
pub record Ended {B R : Type 0} (env : Env) (id : String) (b t i : ℕ) (bug : Bug) (c : Context B R)
    (w : World B) (s s' : Channel B R) : Type 0 where
  pub gone : find id s'.privates ≡ none
  pub bug_left : s'.bugs b ≡ some (record bug { session_context = none; attached = false })
  pub context_left :
      (c' : Context B R) × (s'.contexts t ≡ some c')
      × (c'.mutex ≡ false)
      × (c'.write_buffer ≡ none)
      × (c'.resampler ≡ none)
      × (c'.resampler_outbound ≡ none)
      × (c'.audio_pipe_ptr ≡ some i)
      × (c'.stream_termination_reason ≡ termination_reason_call_hangup)
      × (c'.end_time ≡ env.now)
      × (c'.start_time ≡ (if c.start_time == 0 then env.now else c.start_time))
  pub other_bugs : (j : ℕ) → (b == j) ≡ false → s'.bugs j ≡ s.bugs j
  pub other_contexts : (j : ℕ) → (t == j) ≡ false → s'.contexts j ≡ s.contexts j
  pub connections : s'.pipes ≡ w
  pub tasks_left : s'.tasks ≡ drop_tasks c s.tasks

module _ {B R : Type 0} (env : Env) (id : String) (text : Option (List ℕ)) (b t i : ℕ) (bug : Bug)
    (c : Context B R) (p : AudioPipe B) (w : World B) (s : Channel B R) where
  abbrev stopping : Context B R
  stopping = record c {
    end_time = env.now;
    stream_termination_reason = termination_reason_api_request;
  }

  abbrev told : Channel B R
  told = begin_stop env.now t c (stop_text id text) termination_reason_api_request s

  abbrev stopped : Channel B R
  stopped = taken_down env id false b t i bug stopping p w told

  do_stop_lem :
      Attached env id b t i bug c p s
      → close i (last_attempt i p s.pipes) ≡ some w
      → do_stop env id text s ≡ some (true, stopped)
  unfolding do_stop
  do_stop_lem a k =
      let e : context_at id s ≡ some (some (t, c)) =
        rw (a.found, context_at)
          (bind-some _ _ bug a.bug_at
            ∙ (bind-some _ _ t a.of_context ∙ bind-some _ _ c a.context_at)) in
      let attached : Attached env id b t i bug stopping p told = record {
        lock_free = a.lock_free;
        removal_closes = a.removal_closes;
        found = a.found;
        once = a.once;
        bug_at = a.bug_at;
        of_context = a.of_context;
        context_at = update-same s.contexts t (some stopping);
        named = a.named;
        mutex = a.mutex;
        of_pipe = a.of_pipe;
        pipe_at = a.pipe_at;
      } in
      bind-some _ _ (some (t, c)) e
      ∙ cleanup_lem env id false b t i bug stopping p w told attached k

  stopped-Ended : Attached env id b t i bug c p s → Ended env id b t i bug c w s stopped
  unfolding destroy_tech_pvt end_context drop_tasks
  stopped-Ended a =
      let before = removed env id false b t i bug stopping p w told in
      record {
        gone = a.once;
        bug_left = update-same before.bugs b _;
        context_left = (
          destroy_tech_pvt (hung_up (ending env id false b t i bug stopping p w told)),
          update-same before.contexts t _,
          refl,
          refl,
          refl,
          refl,
          a.of_pipe,
          refl,
          refl,
          refl,
        );
        other_bugs = λ j e. ground (arith, e);
        other_contexts = λ j e. ground (arith, e);
        connections = refl;
        tasks_left = refl;
      }

  -- On a stream that is attached (its bug, its context with the mutex and its pipe are there, the
  -- lock of the bug is free, and a bug that is removed is closed at once), where closing the pipe,
  -- told to make no more attempts, makes `w` of the connections: do_stop succeeds; the stream is no
  -- longer found; the bug is off and has no context; of the context the mutex, the write buffer and
  -- the resamplers are gone, the end time is set, the start time too if the stream never began, and
  -- the reason is that of a hang-up; no other bug or context changes; the connections are `w`; the
  -- two tasks are deleted; and exactly two events are fired, the one of the command and the one of
  -- the bug's callback.
  pub do_stop-Ends :
      Attached env id b t i bug c p s
      → close i (last_attempt i p s.pipes) ≡ some w
      → (s' : Channel B R) × (do_stop env id text s ≡ some (true, s'))
        × Ended env id b t i bug c w s s'
        × (s'.fired
            ≡ (s.fired ++ responds stop (stop_text id text) ∷ [])
              ++ publishes_stop bug.frames_processed bug.frames_dropped ∷ [])
  do_stop-Ends a k = (stopped, do_stop_lem a k, stopped-Ended a, refl)
