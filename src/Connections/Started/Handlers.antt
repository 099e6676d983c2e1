-- ===== src/Connections/Started/Handlers.antt =====
-- The handlers of lws_callback report CONNECT_SUCCESS only in ESTABLISHED, and there once
-- (src/audio_pipe.cpp).
use mod_audio_stream.Common.{
  ℕ, ◌≡◌, refl, Bool, true, false, ◌||◌, Option, none, some, if◌then◌else◌,
}
use mod_audio_stream.SwitchBuffer.{SwitchBuffer}
use mod_audio_stream.Receive.{Fragment, Received, overflows, waits, delivers, receive_fragment}
use mod_audio_stream.Writeable.{Env, Turn, client_writeable}
use mod_audio_stream.Writeable.Started.{client_writeable-started}
use mod_audio_stream.AudioPipe.{
  AudioPipe, lws_client_connected, lws_client_failed, lws_client_disconnecting,
  lws_client_disconnected, same_state, connect_fail, connection_dropped,
  connection_closed_gracefully, message,
}
use mod_audio_stream.Connections.{World, notifies, asks_writable, store, emit, set_state}
use mod_audio_stream.Common.{◌>>=◌, update}
use mod_audio_stream.Connections.Find.{find_pending}
use mod_audio_stream.Connections.Callback.{
  Reason, event_wait_cancelled, client_connection_error, client_established, client_closed,
  client_receive, client_writable, other, may_retry, retry_or_fail, connection_error, establish,
  established, dispose, close_pipe, closed, keep_received, received, keep_turn, writeable,
  lws_callback,
}
use mod_audio_stream.Common.{
  AllResults, bind-AllResults, lookup-AllResults, if-AllResults, result-AllResults, update-same,
}
use mod_audio_stream.Connections.Started.{
  ReportsOnce, store-ReportsOnce, emit-ReportsOnce, delete_pipe-ReportsOnce, report-ReportsOnce,
}
use mod_audio_stream.Connections.Started.Pending.{
  Keeps, find_pending-Keeps, wait_cancelled-ReportsOnce,
}

module _ {B : Type 0} where
  -- A handler that keeps the property.
  abbrev pub Preserves : (World B → Option (World B)) → Type 0
  Preserves f = (w : World B) → ReportsOnce w → AllResults ReportsOnce (f w)

  retry_or_fail-Preserves : (i : ℕ) → Preserves (retry_or_fail i)
  unfolding retry_or_fail
  retry_or_fail-Preserves i w h = lookup-AllResults ReportsOnce (w.pipes i) _ λ p e.
      let w' = store w i (set_state p lws_client_failed) in
      let k = store-ReportsOnce w i p (set_state p lws_client_failed) h e refl in
      if-AllResults ReportsOnce (may_retry p) _ _
        (λ t. lookup-AllResults ReportsOnce p.vhd _ λ v e'. k)
        (λ t. emit-ReportsOnce w' (notifies i connect_fail) k (λ j. refl))

  -- What a handler does with the pipe that it looked for.
  found-ReportsOnce :
      (f : ℕ → World B → Option (World B)) (found : Option ℕ) (w : World B)
      → ((i : ℕ) → Preserves (f i))
      → ReportsOnce w
      → AllResults ReportsOnce (elim found [ none ↦ some w | some i ↦ f i w ])
  found-ReportsOnce f none w k h = h
  found-ReportsOnce f (some i) w k h = k i w h

  connection_error-Preserves : (wsi : ℕ) → Preserves (connection_error wsi)
  unfolding connection_error
  connection_error-Preserves wsi w h =
      bind-AllResults Keeps ReportsOnce (find_pending wsi w) _ (find_pending-Keeps wsi w h)
        (λ r k. found-ReportsOnce retry_or_fail r.0 r.1 retry_or_fail-Preserves k)

  establish-Preserves : (wsi vhd i : ℕ) → Preserves (establish wsi vhd i)
  unfolding establish
  establish-Preserves wsi vhd i w h = lookup-AllResults ReportsOnce (w.pipes i) _ λ p e.
      let p' = record p { vhd = some vhd; connection_attempts = 0; state = lws_client_connected } in
      let w' = store (record w { user = update w.user wsi (some i) }) i p' in
      let k = store-ReportsOnce (record w { user = update w.user wsi (some i) }) i p p' h e refl in
      if-AllResults ReportsOnce p.stream_started _ _ (λ t. k)
        (λ t.
          report-ReportsOnce w' i p' (record p' { stream_started = true }) k
            (update-same w.pipes i (some p')) t refl)

  established-Preserves : (wsi vhd : ℕ) → Preserves (established wsi vhd)
  unfolding established
  established-Preserves wsi vhd w h =
      bind-AllResults Keeps ReportsOnce (find_pending wsi w) _ (find_pending-Keeps wsi w h)
        (λ r k. found-ReportsOnce (establish wsi vhd) r.0 r.1 (establish-Preserves wsi vhd) k)

  dispose-ReportsOnce : (wsi i : ℕ) (w : World B) → ReportsOnce w → ReportsOnce (dispose wsi i w)
  unfolding dispose
  dispose-ReportsOnce wsi i w h =
      delete_pipe-ReportsOnce i (record w { user = update w.user wsi none }) h

  close_pipe-Preserves : (wsi i : ℕ) → Preserves (close_pipe wsi i)
  unfolding close_pipe
  close_pipe-Preserves wsi i w h = lookup-AllResults ReportsOnce (w.pipes i) _ λ p e.
      if-AllResults ReportsOnce (p.graceful_shutdown || same_state p.state lws_client_disconnecting)
        _ _
        (λ t.
          dispose-ReportsOnce wsi i (emit w (notifies i connection_closed_gracefully))
            (emit-ReportsOnce w _ h (λ j. refl)))
        λ t.
          if-AllResults ReportsOnce (same_state p.state lws_client_connected) _ _
            (λ u.
              if-AllResults ReportsOnce (may_retry p) _ _
                (λ v.
                  lookup-AllResults ReportsOnce p.vhd _
                    λ u' e'. store-ReportsOnce w i p (set_state p lws_client_disconnected) h e refl)
                (λ v.
                  dispose-ReportsOnce wsi i (emit w (notifies i connection_dropped))
                    (emit-ReportsOnce w _ h (λ j. refl))))
            (λ u. dispose-ReportsOnce wsi i w h)

  closed-Preserves : (wsi : ℕ) → Preserves (closed wsi)
  unfolding closed
  closed-Preserves wsi w h =
      found-ReportsOnce (close_pipe wsi) (w.user wsi) w (close_pipe-Preserves wsi) h

  keep_received-ReportsOnce :
      (i : ℕ) (p : AudioPipe B) (w : World B) (r : Received)
      → w.pipes i ≡ some p
      → ReportsOnce w
      → AllResults ReportsOnce (keep_received i p w r)
  unfolding keep_received
  keep_received-ReportsOnce i p w overflows e h = tt
  keep_received-ReportsOnce i p w (waits r) e h = store-ReportsOnce w i p _ h e refl
  keep_received-ReportsOnce i p w (delivers m r) e h =
      emit-ReportsOnce (store w i (record p { recv = r })) (notifies i (message m))
        (store-ReportsOnce w i p _ h e refl) (λ j. refl)

  receive_pipe : Bool → Fragment → ℕ → World B → Option (World B)
  receive_pipe binary f i w = w.pipes i >>= λ p.
      if p.is_bidirectional
      then (if binary then some w else keep_received i p w (receive_fragment p.recv f))
      else some w

  receive_pipe-Preserves :
      (binary : Bool) (f : Fragment) (i : ℕ) → Preserves (receive_pipe binary f i)
  unfolding receive_pipe
  receive_pipe-Preserves binary f i w h = lookup-AllResults ReportsOnce (w.pipes i) _ λ p e.
      if-AllResults ReportsOnce p.is_bidirectional _ _
        (λ t.
          if-AllResults ReportsOnce binary _ _ (λ u. h)
            (λ u. keep_received-ReportsOnce i p w (receive_fragment p.recv f) e h))
        (λ t. h)

  received-Preserves : (wsi : ℕ) (binary : Bool) (f : Fragment) → Preserves (received wsi binary f)
  unfolding received receive_pipe
  received-Preserves wsi binary f w h =
      found-ReportsOnce (receive_pipe binary f) (w.user wsi) w (receive_pipe-Preserves binary f) h

  asked-ReportsOnce :
      (asks : Bool) (wsi : ℕ) (w : World B)
      → ReportsOnce w
      → ReportsOnce (elim asks [ true ↦ emit w (asks_writable wsi) | false ↦ w ])
  asked-ReportsOnce true wsi w h = emit-ReportsOnce w (asks_writable wsi) h (λ j. refl)
  asked-ReportsOnce false wsi w h = h

  keep_turn-ReportsOnce :
      (wsi i : ℕ) (p : AudioPipe B) (t : Turn B) (w : World B)
      → w.pipes i ≡ some p
      → t.pipe.stream_started ≡ p.stream_started
      → ReportsOnce w
      → ReportsOnce (keep_turn wsi i t w)
  unfolding keep_turn
  keep_turn-ReportsOnce wsi i p t w e k h =
      asked-ReportsOnce t.asks wsi (store w i t.pipe) (store-ReportsOnce w i p t.pipe h e k)

module _ {B : Type 0} (o : SwitchBuffer B) where
  write_pipe : ℕ → Env → ℕ → World B → Option (World B)
  write_pipe wsi env i w =
      w.pipes i >>= λ p. client_writeable o env p >>= λ t. some (keep_turn wsi i t w)

  write_pipe-Preserves : (wsi : ℕ) (env : Env) (i : ℕ) → Preserves (write_pipe wsi env i)
  unfolding write_pipe
  write_pipe-Preserves wsi env i w h = lookup-AllResults ReportsOnce (w.pipes i) _ λ p e.
      lookup-AllResults ReportsOnce (client_writeable o env p) _ λ t k.
        keep_turn-ReportsOnce wsi i p t w e
          (result-AllResults _ (client_writeable o env p) (client_writeable-started o env p) k) h

  writeable-Preserves : (wsi : ℕ) (env : Env) → Preserves (writeable o wsi env)
  unfolding writeable write_pipe
  writeable-Preserves wsi env w h =
      found-ReportsOnce (write_pipe wsi env) (w.user wsi) w (write_pipe-Preserves wsi env) h

  pub lws_callback-ReportsOnce :
      (r : Reason) (w : World B) → ReportsOnce w → AllResults ReportsOnce (lws_callback o r w)
  unfolding lws_callback
  lws_callback-ReportsOnce (event_wait_cancelled dial vhd) w h =
      wait_cancelled-ReportsOnce dial vhd w h
  lws_callback-ReportsOnce (client_connection_error wsi) w h = connection_error-Preserves wsi w h
  lws_callback-ReportsOnce (client_established wsi vhd) w h = established-Preserves wsi vhd w h
  lws_callback-ReportsOnce (client_closed wsi) w h = closed-Preserves wsi w h
  lws_callback-ReportsOnce (client_receive wsi binary f) w h = received-Preserves wsi binary f w h
  lws_callback-ReportsOnce (client_writable wsi env) w h = writeable-Preserves wsi env w h
  lws_callback-ReportsOnce other w h = h
