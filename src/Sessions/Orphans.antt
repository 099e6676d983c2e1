-- ===== src/Sessions/Orphans.antt =====
-- What do_stop of src/mod_audio_stream.c leaves behind in the connections: the pipe of a stream
-- that is not connected yet, and the second bug of a stream of both tracks.
use mod_audio_stream.Common.{
  ℕ, ◌≡◌, refl, ap, ◌∙◌, List, [], ◌∷◌, ◌++◌, Bool, true, false, ◌||◌, Option, none, some, String,
  ◌==◌, update, update-same, bind-some, bind-none, if-true, if-false, inl, inr, Bool-cases,
}
use mod_audio_stream.SwitchBuffer.{SwitchBuffer}
use mod_audio_stream.AudioPipe.{
  AudioPipe, lws_client_connected, lws_client_disconnecting, same_state,
  connection_closed_gracefully, connect_success,
}
use mod_audio_stream.Connections.{
  World, store, emit, notifies, cancels_service, close, add_pending_disconnect,
}
use mod_audio_stream.Connections.Callback.{closed, close_pipe, dispose, establish}
use mod_audio_stream.Playback.{Services}
use mod_audio_stream.Sessions.{
  Env, Bug, Context, Channel, media_close, with_context, close_context, close_pipe_of,
  stream_ws_close_connection,
}
use mod_audio_stream.Sessions.Closing.{last_attempt}
use mod_audio_stream.Sessions.Events.{event_callback}
use mod_audio_stream.Sessions.Commands.{do_stop}
use mod_audio_stream.Sessions.Stop.{Attached, do_stop-Ends}
use mod_audio_stream.Sessions.Detached.{Demand, demands, event-ignored, demands-Ignored}

or_true : (b : Bool) → (b || true) ≡ true
or_true true = refl
or_true false = refl

module _ {B : Type 0} (i : ℕ) (p : AudioPipe B) (w : World B) where
  -- close of a pipe that is connected, and of one that is not.
  abbrev pub disconnecting : AudioPipe B
  disconnecting = record p { connection_attempts = 4; state = lws_client_disconnecting }

  abbrev pub shut : World B
  shut =
      let w' = store (last_attempt i p w) i disconnecting in
      emit (record w' { pending_disconnects = w'.pending_disconnects ++ i ∷ [] }) cancels_service

  pub close-shut :
      (vhost : ℕ)
      → p.state ≡ lws_client_connected
      → p.vhd ≡ some vhost
      → close i (last_attempt i p w) ≡ some shut
  unfolding close add_pending_disconnect
  close-shut vhost e h =
      let q = record p { connection_attempts = 4 } in
      let u = update-same w.pipes i (some q) in
      bind-some _ _ q u
      ∙ (if-true _ _ (ap (λ k. same_state k lws_client_connected) e)
          ∙ (bind-some _ _ q u ∙ bind-some _ _ vhost h))

  pub close-early :
      same_state p.state lws_client_connected ≡ false
      → close i (last_attempt i p w) ≡ some (last_attempt i p w)
  unfolding close
  close-early e =
      bind-some _ _ (record p { connection_attempts = 4 }) (update-same w.pipes i _)
      ∙ if-false _ _ e

  -- The socket closes: the pipe is deleted.
  closed-shut :
      (wsi : ℕ)
      → w.user wsi ≡ some i
      → (w' : World B) × (closed wsi shut ≡ some w') × (w'.pipes i ≡ none)
  unfolding closed close_pipe dispose
  closed-shut wsi u = (
    dispose wsi i (emit shut (notifies i connection_closed_gracefully)),
    rw (u, closed)
        (bind-some _ _ disconnecting (update-same (last_attempt i p w).pipes i (some disconnecting))
          ∙ if-true _ _ (or_true p.graceful_shutdown)),
    update-same shut.pipes i none,
  )

  -- The connection of a pipe is established.
  establish-connects :
      (wsi vhost : ℕ) (q : AudioPipe B) (z : World B)
      → z.pipes i ≡ some q
      → (w' : World B) × (establish wsi vhost i z ≡ some w')
        × ((q' : AudioPipe B) × (w'.pipes i ≡ some q') × (q'.state ≡ lws_client_connected))
        × (w'.pending_disconnects ≡ z.pending_disconnects)
  unfolding establish
  establish-connects wsi vhost q z h =
      let q' = record q {
        vhd = some vhost;
        connection_attempts = 0;
        state = lws_client_connected;
      } in
      let begun = record q' { stream_started = true } in
      let z' = store (record z { user = update z.user wsi (some i) }) i q' in
      elim (Bool-cases q.stream_started) [
        | inl old ↦
            (z', bind-some _ _ q h ∙ if-true _ _ old, (q', update-same z.pipes i _, refl), refl)
        | inr new ↦ (
          store (emit z' (notifies i connect_success)) i begun,
          bind-some _ _ q h ∙ if-false _ _ new,
          (begun, update-same z'.pipes i _, refl),
          refl,
        )
      ]

module _ {B J R : Type 0} (o : SwitchBuffer B) (v : Services J R) (env : Env) (fuel a : ℕ)
    (id : String) (text : Option (List ℕ)) (b t i : ℕ) (bug : Bug) (c : Context B R)
    (p : AudioPipe B) (s : Channel B R) where
  -- The callback of a bug whose context points to a deleted pipe.
  dangling_close :
      (j k : ℕ) (u : Bug) (c' : Context B R) (z : Channel B R)
      → z.bugs j ≡ some u
      → u.session_context ≡ some t
      → z.contexts t ≡ some c'
      → c'.audio_pipe_ptr ≡ some i
      → z.pipes.pipes i ≡ none
      → media_close env j z ≡ none
  unfolding media_close close_context close_pipe_of stream_ws_close_connection
  dangling_close j k u c' z hu ht hc hi hp =
      bind-some _ _ u hu
      ∙ (ap (with_context z (λ n. close_context env u n z)) ht
          ∙ bind-none _ _
              (bind-some _ _ c' hc ∙ (ap (λ r. close_pipe_of t c' r z) hi ∙ bind-none _ _ hp)))

  -- A stream that is attached and connected, with a second bug `j` on the same context, as a stream
  -- of both tracks has it: do_stop succeeds, the report that the connection closed changes nothing,
  -- the socket's closing deletes the pipe, and when the call is hung up the callback of the second
  -- bug uses the deleted pipe.
  pub both_tracks-hangup_fault :
      (wsi vhost j : ℕ) (other : Bug)
      → Attached env id b t i bug c p s
      → p.state ≡ lws_client_connected
      → p.vhd ≡ some vhost
      → s.bugs j ≡ some other
      → other.session_context ≡ some t
      → (b == j) ≡ false
      → s.pipes.user wsi ≡ some i
      → (s' : Channel B R) × (do_stop env id text s ≡ some (true, s'))
        × (event_callback o v env fuel a id connection_closed_gracefully [] s' ≡ some s')
        × (w : World B) × (closed wsi s'.pipes ≡ some w)
        × (media_close env j (record s' { pipes = w }) ≡ none)
  both_tracks-hangup_fault wsi vhost j other at up served hj ht differ u =
      let (s', done, ended, told) =
        do_stop-Ends env id text b t i bug c p (shut i p s.pipes) s at
          (close-shut i p s.pipes vhost up served) in
      let (w, shuts, gone) = closed-shut i p s.pipes wsi u in
      let kept = ended.context_left in
      (
        s',
        done,
        event-ignored o v env fuel a id connection_closed_gracefully [] s' ended.gone,
        w,
        ap (closed wsi) ended.connections ∙ shuts,
        dangling_close j 0 other kept.0 (record s' { pipes = w }) (ended.other_bugs j differ ∙ hj)
            ht kept.1 kept.6 gone,
      )

  -- A stream that is attached and not yet connected: do_stop succeeds and asks for no
  -- disconnection; when the connection of its pipe is established afterwards the pipe is connected,
  -- and no command, event or timer of that stream, in any sequence, succeeds or changes anything.
  pub do_stop-early_Orphans :
      (wsi vhost : ℕ) (rs : List Demand)
      → Attached env id b t i bug c p s
      → same_state p.state lws_client_connected ≡ false
      → (s' : Channel B R) × (do_stop env id text s ≡ some (true, s'))
        × (w : World B) × (establish wsi vhost i s'.pipes ≡ some w)
        × ((q : AudioPipe B) × (w.pipes i ≡ some q) × (q.state ≡ lws_client_connected))
        × (w.pending_disconnects ≡ s.pipes.pending_disconnects)
        × (demands o v env fuel a id rs (record s' { pipes = w })
            ≡ some (false, record s' { pipes = w }))
  do_stop-early_Orphans wsi vhost rs at down =
      let early = last_attempt i p s.pipes in
      let (s', done, ended, told) =
        do_stop-Ends env id text b t i bug c p early s at (close-early i p s.pipes down) in
      let living =
        ap (λ (z : World B). z.pipes i) ended.connections
        ∙ update-same s.pipes.pipes i (some (record p { connection_attempts = 4 })) in
      let (w, e, q, same) =
        establish-connects i p s.pipes wsi vhost (record p { connection_attempts = 4 }) s'.pipes
          living in
      (
        s',
        done,
        w,
        e,
        q,
        same ∙ ap (λ (z : World B). z.pending_disconnects) ended.connections,
        demands-Ignored o v env fuel a id rs (record s' { pipes = w }) ended.gone,
      )
