-- ===== src/Sessions/Notices.antt =====
-- What stream_frame of src/lws_glue.cpp does once a frame is in the buffer: its notices.
use mod_audio_stream.Common.{
  u8, ℕ, ◌+◌, ◌≡◌, refl, ap, ◌∙◌, List, [], Bool, true, false, Option, none, some, String,
  update-same, bind-some, if◌then◌else◌, if-true,
}
use mod_audio_stream.Doubles.{Doubles}
use mod_audio_stream.SwitchBuffer.{SwitchBuffer, IsFifo}
use mod_audio_stream.StreamBuffer.{Buffer}
use mod_audio_stream.StreamBuffer.Fifo.{Holds}
use mod_audio_stream.AudioPipe.{connection_degraded}
use mod_audio_stream.Playback.{Services}
use mod_audio_stream.Sessions.{
  Env, Bug, Channel, connect_degraded, responds, fire_event, keep_context, keep_pipe,
}
use mod_audio_stream.Sessions.Found.{on_stream-some}
use mod_audio_stream.Sessions.Events.{event_callback, on_event, stream_json}
use mod_audio_stream.Sessions.Media.{
  Scratch, MediaEnv, keep_buffer, is_degraded, notify_degraded, after_write,
}
use mod_audio_stream.Sessions.Steady.{Steady, renewed, stored, stored-Steady}

module _ {B J R D : Type 0} {o : SwitchBuffer B} (law : IsFifo o) (v : Services J R) (d : Doubles D)
    (media : MediaEnv) (env : Env) (fuel a : ℕ) (id : String) (b t i vhost : ℕ) (bug : Bug) where
  abbrev pub Ready : ℕ → ℕ → List (List ℕ) → Channel B R → Type 0
  Ready = Steady law env id b t i vhost bug

  -- The notice of a degraded connection is given, and nothing else changes but its count.
  abbrev noted : Channel B R → Channel B R
  noted s = fire_event (responds connect_degraded (stream_json id)) s

  noted_lem :
      (n most : ℕ) (fs : List (List ℕ)) (s : Channel B R) (y : Ready n most fs s)
      → event_callback o v env fuel a y.pipe.streamid connection_degraded [] s ≡ some (noted s)
  unfolding event_callback on_event
  noted_lem n most fs s y =
      ap (λ r. event_callback o v env fuel a r connection_degraded [] s) y.named_pipe
      ∙ (on_stream-some _ _ id s b t bug y.attached.found y.attached.bug_at y.attached.of_context
          ∙ (bind-some _ _ y.context y.attached.context_at
              ∙ ap (λ r. some (fire_event (responds connect_degraded (stream_json r)) s))
                  y.attached.named))

  counted :
      (q : Buffer B) (fs : List (List ℕ))
      → Holds law q fs
      → Holds law
          (record q { degradation_notification_sent = u8 (q.degradation_notification_sent + 1) })
          fs
  counted q fs h = record {
    stored = h.stored;
    whole = h.whole;
    some_size = h.some_size;
    usage = h.usage;
    limit = h.limit;
    bounded = h.bounded;
    within = h.within;
  }

  -- A step gives a steady stream and leaves the pipes that are to be written.
  abbrev Gives : ℕ → ℕ → List (List ℕ) → List ℕ → Option (Channel B R) → Type 0
  Gives n most fs pending r =
      (s : Channel B R) × (r ≡ some s) × Ready n most fs s × (s.pipes.pending_writes ≡ pending)

  notify-Gives :
      (n most : ℕ) (fs : List (List ℕ)) (s : Channel B R) (y : Ready n most fs s)
      → Gives n most fs s.pipes.pending_writes (notify_degraded o v d media env fuel a i false s)
  unfolding notify_degraded
  notify-Gives n most fs s y =
      let q = record y.buffer {
        degradation_notification_sent = u8 (y.buffer.degradation_notification_sent + 1);
      } in
      let s' = keep_pipe i (keep_buffer false q y.pipe) (noted s) in
      (
        s',
        bind-some _ _ y.pipe y.attached.pipe_at
            ∙ (bind-some _ _ (noted s) (noted_lem n most fs s y)
                ∙ (bind-some _ _ y.pipe y.attached.pipe_at ∙ bind-some _ _ y.buffer y.has_buffer)),
        renewed law env id b t i vhost bug n most fs fs s s' y q refl refl
            (y.attached.context_at
              ∙ ap (λ r. some (record y.context { resampler = r })) y.no_resampler)
            (update-same s.pipes.pipes i (some (keep_buffer false q y.pipe)))
            (counted y.buffer fs y.holds) y.chunk y.capacity,
        refl,
      )

  pub if-Gives :
      (n most : ℕ) (fs : List (List ℕ)) (s : Channel B R) (h : Bool)
      → Ready n most fs s
      → Gives n most fs s.pipes.pending_writes
          (if h then notify_degraded o v d media env fuel a i false s else some s)
  if-Gives n most fs s true y = notify-Gives n most fs s y
  if-Gives n most fs s false y = (s, refl, y, refl)

  -- One frame that finds room.
  abbrev pub Takes : ℕ → ℕ → List (List ℕ) → List ℕ → Option (Scratch × Channel B R) → Type 0
  Takes n most fs pending r =
      (k : Scratch) × (s : Channel B R) × (r ≡ some (k, s))
      × (k.write_success ≡ true)
      × Ready n most fs s
      × (s.pipes.pending_writes ≡ pending)

  pub after_write-Takes :
      (n most : ℕ) (fs gs : List (List ℕ)) (s : Channel B R) (y : Ready n most fs s) (k : Scratch)
      (r : Bool × Buffer B)
      → r.0 ≡ true
      → Holds law r.1 gs
      → r.1.chunk_size_bytes ≡ n
      → r.1.maximum_capacity_bytes ≡ most
      → Takes n most gs s.pipes.pending_writes (
          after_write o v d media env fuel a i false k r y.pipe
            (keep_context t (record y.context { resampler = none }) s))
  unfolding after_write
  after_write-Takes n most fs gs s y k r e h l m =
      let s' = stored t i s y.context y.pipe r.1 in
      let (s'', g, z, w) =
        if-Gives n most gs s' (is_degraded d r.1)
          (stored-Steady law env id b t i vhost bug n most fs gs s y r.1 h l m) in
      (
        record k { write_success = true },
        s'',
        bind-some _ _ s'' g
            ∙ (bind-some _ _ s'' (if-true _ _ e)
                ∙ ap (λ u. some (record k { write_success = u }, s'')) e),
        refl,
        z,
        w,
      )
