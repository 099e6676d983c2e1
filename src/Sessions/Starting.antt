-- ===== src/Sessions/Starting.antt =====
-- start_capture of src/mod_audio_stream.c: what it attaches, and what it leaves when a bug is
-- refused.
use text.Mathlib.Text.{◌==◌ as str_eq}
use mod_audio_stream.Common.{
  ◌==◌, ◌≡◌, refl, ap, ◌∙◌, [], ◌∷◌, ◌++◌, Bool, true, false, none, some, String, update,
  update-same, update-other, arith, if-true, if-false, inl, inr, Bool-cases,
}
use mod_audio_stream.Common.Maps.{find, assign, find-assign, erase-assign}
use mod_audio_stream.SwitchBuffer.{SwitchBuffer}
use mod_audio_stream.AudioPipe.{AudioPipe, new_pipe}
use mod_audio_stream.Connections.{World, add_pending_connect}
use mod_audio_stream.Sessions.{
  Env, Bug, Context, Channel, Direction, inbound, outbound, keep_context, keep_pipe,
}
use mod_audio_stream.Sessions.Start.{
  StartArgs, Setup, pipe_args, new_context, with_resamplers, stream_session_init, add_media_bug,
  add_bugs, add_bugs_to, attach, start_capture,
}
use mod_audio_stream.Sessions.Stop.{Attached}

module _ {B R : Type 0} (o : SwitchBuffer B) (e : Setup R) (a : StartArgs) (s : Channel B R) where
  abbrev pub first_pipe : AudioPipe B
  first_pipe = new_pipe o (pipe_args e a) e.micro_now

  abbrev pub made : Bool × Context B R
  made = with_resamplers e a (new_context o e a)

  abbrev pub begun : Channel B R
  begun =
      let s' = keep_context e.context made.1 (keep_pipe e.pipe first_pipe s) in
      record s' { pipes = add_pending_connect e.pipe s'.pipes }

  made-keeps :
      (made.1.stream_id ≡ a.stream_id)
      × (made.1.mutex ≡ true)
      × (made.1.audio_pipe_ptr ≡ some e.pipe)
  unfolding with_resamplers new_context
  made-keeps = ground arith

  init_lem : made.0 ≡ true → stream_session_init o e a s ≡ (true, begun)
  unfolding stream_session_init
  init_lem m = if-true _ _ m

-- The first bug is there, and the rest of the channel is as it was.
record Added {B R : Type 0} (e : Setup R) (z z' : Channel B R) : Type 0 where
  bug : Bug
  bug_at : z'.bugs e.first_bug ≡ some bug
  of_context : bug.session_context ≡ some e.context
  same_privates : z'.privates ≡ z.privates
  same_contexts : z'.contexts ≡ z.contexts
  same_pipes : z'.pipes ≡ z.pipes

module _ {B R : Type 0} (e : Setup R) (track : String) (z : Channel B R) where
  abbrev new_bug : Direction → Bug
  new_bug direction = record {
    direction = direction;
    session_context = some e.context;
    attached = true;
    frames_processed = 0;
    frames_dropped = 0;
  }

  abbrev with_bug : Direction → Channel B R
  with_bug direction = record z { bugs = update z.bugs e.first_bug (some (new_bug direction)) }

  one-Added : (direction : Direction) → Added e z (with_bug direction)
  one-Added direction = record {
    bug = new_bug direction;
    bug_at = update-same z.bugs e.first_bug _;
    of_context = refl;
    same_privates = refl;
    same_contexts = refl;
    same_pipes = refl;
  }

  one_lem :
      (direction : Direction)
      → e.first_added ≡ true
      → add_media_bug e.first_bug direction e.context e.first_added z ≡ (true, with_bug direction)
  unfolding add_media_bug
  one_lem direction h = if-true _ _ h

  -- Whatever the track, the first bug that is refused ends it.
  add_bugs-refused : e.first_added ≡ false → add_bugs e track z ≡ (false, z)
  unfolding add_bugs add_media_bug
  add_bugs-refused h = ground arith

  add_bugs_lem :
      e.first_added ≡ true
      → e.second_added ≡ true
      → (e.second_bug == e.first_bug) ≡ false
      → (z' : Channel B R) × (add_bugs e track z ≡ (true, z')) × Added e z z'
  unfolding add_bugs add_media_bug
  add_bugs_lem h k differ = elim (Bool-cases (str_eq track "inbound")) [
    | inl in_track ↦ (with_bug inbound, if-true _ _ in_track ∙ one_lem inbound h, one-Added inbound)
    | inr not_in ↦ elim (Bool-cases (str_eq track "outbound")) [
      | inl out_track ↦ (
        with_bug outbound,
        if-false _ _ not_in ∙ (if-true _ _ out_track ∙ one_lem outbound h),
        one-Added outbound,
      )
      | inr both ↦ (
        record z { bugs = update (with_bug inbound).bugs e.second_bug (some (new_bug outbound)) },
        if-false _ _ not_in ∙ (if-false _ _ both ∙ rw (h, k)),
        record {
          bug = new_bug inbound;
          bug_at =
              update-other (with_bug inbound).bugs e.second_bug e.first_bug _ differ
              ∙ update-same z.bugs e.first_bug _;
          of_context = refl;
          same_privates = refl;
          same_contexts = refl;
          same_pipes = refl;
        },
      )
    ]
  ]

module _ {B R : Type 0} (o : SwitchBuffer B) (e : Setup R) (a : StartArgs) (s : Channel B R) where
  begin_lem :
      (r : Bool × Channel B R)
      → find a.stream_id s.privates ≡ none
      → e.pre_answered ≡ true
      → (made o e a s).0 ≡ true
      → add_bugs_to e a.stream_id a.track (true, begun o e a s) ≡ r
      → start_capture o e a s ≡ r
  unfolding start_capture
  begin_lem r fresh ready m added =
      rw (fresh, start_capture)
        (if-true _ _ ready ∙ (ap (add_bugs_to e a.stream_id a.track) (init_lem o e a s m) ∙ added))

  -- A start on a stream that is not there, when the channel pre-answers, the resamplers that it
  -- needs are made, both bugs are accepted and they have different addresses: start_capture
  -- succeeds, the stream is attached with the new context and a new pipe, and the pipe is the last
  -- that waits to be connected.
  pub start_capture-Attached :
      (env : Env)
      → env.lock_free ≡ true
      → env.removal_closes ≡ true
      → find a.stream_id s.privates ≡ none
      → e.pre_answered ≡ true
      → (made o e a s).0 ≡ true
      → e.first_added ≡ true
      → e.second_added ≡ true
      → (e.second_bug == e.first_bug) ≡ false
      → (s' : Channel B R) × (start_capture o e a s ≡ (true, s'))
        × ((bug : Bug) × Attached env a.stream_id e.first_bug e.context e.pipe bug
              (made o e a s).1
              (first_pipe o e a s)
              s')
        × (s'.pipes.pending_connects ≡ s.pipes.pending_connects ++ e.pipe ∷ [])
  unfolding add_bugs_to add_pending_connect
  start_capture-Attached env free closes fresh ready m first second differ =
      let z = begun o e a s in
      let (z', added, facts) = add_bugs_lem e a.track z first second differ in
      let (named, locked, pointed) = made-keeps o e a s in
      (
        record z' { privates = assign a.stream_id e.first_bug z'.privates },
        begin_lem _ fresh ready m (ap (attach e a.stream_id) added),
        (
          facts.bug,
          record {
            lock_free = free;
            removal_closes = closes;
            found = find-assign a.stream_id e.first_bug z'.privates;
            once =
                erase-assign a.stream_id e.first_bug z'.privates
                  (ap (find a.stream_id) facts.same_privates ∙ fresh);
            bug_at = facts.bug_at;
            of_context = facts.of_context;
            context_at =
                ap (λ f. f e.context) facts.same_contexts ∙ update-same s.contexts e.context _;
            named = named;
            mutex = locked;
            of_pipe = pointed;
            pipe_at =
                ap (λ (w : World B). w.pipes e.pipe) facts.same_pipes
                ∙ update-same s.pipes.pipes e.pipe _;
          },
        ),
        ap (λ (w : World B). w.pending_connects) facts.same_pipes,
      )

  -- A start on a stream that is not there, when the channel pre-answers, the resamplers are made
  -- and FreeSWITCH refuses the first bug: start_capture fails and attaches nothing, but its pipe is
  -- there and waits to be connected.
  pub start_capture-refused_Orphans :
      find a.stream_id s.privates ≡ none
      → e.pre_answered ≡ true
      → (made o e a s).0 ≡ true
      → e.first_added ≡ false
      → (s' : Channel B R) × (start_capture o e a s ≡ (false, s'))
        × (find a.stream_id s'.privates ≡ none)
        × (s'.pipes.pipes e.pipe ≡ some (first_pipe o e a s))
        × (s'.pipes.pending_connects ≡ s.pipes.pending_connects ++ e.pipe ∷ [])
  unfolding add_bugs_to add_pending_connect
  start_capture-refused_Orphans fresh ready m refused =
      let z = begun o e a s in
      (
        z,
        begin_lem (false, z) fresh ready m
            (ap (attach e a.stream_id) (add_bugs-refused e a.track z refused)),
        fresh,
        update-same s.pipes.pipes e.pipe _,
        refl,
      )
