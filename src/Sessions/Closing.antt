-- ===== src/Sessions/Closing.antt =====
-- What the media callback of src/mod_audio_stream.c does when the bug of a stream that is being
-- taken down is removed.
use mod_audio_stream.Common.{ℕ, ◌≡◌, ap, ◌∙◌, true, false, none, some, update-same, bind-some}
use mod_audio_stream.Common.Maps.{find}
use mod_audio_stream.AudioPipe.{AudioPipe}
use mod_audio_stream.Connections.{World, store, close}
use mod_audio_stream.Sessions.Found.{on_stream-none}
use mod_audio_stream.Sessions.{
  with_context, Env, Bug, Context, Channel, publishes_stop, termination_reason_call_hangup,
  keep_context, fire_event, close_pipe_of, stream_ws_close_connection, cleanup_with, close_context,
  media_close,
}

-- The pipe makes no more attempts.
abbrev pub last_attempt : {B : Type 0} → ℕ → AudioPipe B → World B → World B
last_attempt i p w = store w i (record p { connection_attempts = 4 })

module _ {B R : Type 0} where
  -- The context of a stream whose connection is told to close.
  abbrev pub closing : Context B R → Context B R
  closing c = record c { channel_closing = true }

  abbrev pub hung_up : Context B R → Context B R
  hung_up c = record (closing c) { stream_termination_reason = termination_reason_call_hangup }

  close_connection_lem :
      (t i : ℕ) (c : Context B R) (p : AudioPipe B) (w : World B) (s : Channel B R)
      → s.contexts t ≡ some c
      → c.audio_pipe_ptr ≡ some i
      → s.pipes.pipes i ≡ some p
      → close i (last_attempt i p s.pipes) ≡ some w
      → stream_ws_close_connection t s ≡ some (record (keep_context t (closing c) s) { pipes = w })
  unfolding stream_ws_close_connection
  close_connection_lem t i c p w s hc hi hp hw =
      rw hc (ap (λ o. close_pipe_of t c o s) hi ∙ rw (hp, hw))

  -- The state that the callback leaves, if the stream has been taken off the channel.
  abbrev pub after_close : ℕ → Bug → Context B R → World B → Channel B R → Channel B R
  after_close t bug c w s =
      fire_event (publishes_stop bug.frames_processed bug.frames_dropped)
        (keep_context t (hung_up c) (record (keep_context t (closing c) s) { pipes = w }))

  pub media_close_lem :
      (env : Env) (b t i : ℕ) (bug : Bug) (c : Context B R) (p : AudioPipe B) (w : World B)
      (s : Channel B R)
      → s.bugs b ≡ some bug
      → bug.session_context ≡ some t
      → s.contexts t ≡ some c
      → find c.stream_id s.privates ≡ none
      → c.audio_pipe_ptr ≡ some i
      → s.pipes.pipes i ≡ some p
      → close i (last_attempt i p s.pipes) ≡ some w
      → media_close env b s ≡ some (after_close t bug c w s)
  unfolding media_close close_context cleanup_with
  media_close_lem env b t i bug c p w s hb ht hc hf hi hp hw =
      let e = close_connection_lem t i c p w s hc hi hp hw in
      let u = update-same s.contexts t (some (closing c)) in
      let told = after_close t bug c w s in
      bind-some (s.bugs b) _ bug hb
      ∙ (ap (with_context s (λ k. close_context env bug k s)) ht
          ∙ (bind-some _ _ _ e
              ∙ (bind-some _ _ (closing c) u
                  ∙ bind-some _ _ (false, told) (on_stream-none _ _ c.stream_id told hf))))
