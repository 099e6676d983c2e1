-- ===== src/Connections/Started/Runs.antt =====
-- CONNECT_SUCCESS over any sequence of operations (src/audio_pipe.cpp).
use mod_audio_stream.Common.{ℕ, ◌≡◌, refl, true, List, [], ◌∷◌, ◌++◌, Option, some}
use mod_audio_stream.SwitchBuffer.{SwitchBuffer}
use mod_audio_stream.AudioPipe.{lws_client_connected, lws_client_disconnecting, same_state}
use mod_audio_stream.Connections.{
  World, cancels_service, store, set_state, add_pending_connect, add_pending_write,
  add_pending_disconnect, add_event_buffer, close, graceful_shutdown, reconnect,
}
use mod_audio_stream.Common.{
  AllResults, bind-AllResults, lookup-AllResults, if-AllResults, result-AllResults,
}
use mod_audio_stream.Connections.Steps.{
  Step, connects, sends_event, closes, shuts_down, reconnects, calls_back, step, steps,
}
use mod_audio_stream.Connections.Started.{ReportsOnce, store-ReportsOnce, emit-ReportsOnce}
use mod_audio_stream.Connections.Started.Pending.{Keeps}
use mod_audio_stream.Connections.Started.Handlers.{Preserves, lws_callback-ReportsOnce}

module _ {B : Type 0} where
  add_pending_write-Preserves : (i : ℕ) → Preserves {B = B} (add_pending_write i)
  unfolding add_pending_write
  add_pending_write-Preserves i w h = lookup-AllResults ReportsOnce (w.pipes i) _ λ p e.
      lookup-AllResults ReportsOnce p.vhd _ λ v k.
        emit-ReportsOnce (record w { pending_writes = w.pending_writes ++ i ∷ [] }) cancels_service
          h (λ j. refl)

  add_pending_disconnect-Preserves : (i : ℕ) → Preserves {B = B} (add_pending_disconnect i)
  unfolding add_pending_disconnect
  add_pending_disconnect-Preserves i w h = lookup-AllResults ReportsOnce (w.pipes i) _ λ p e.
      lookup-AllResults ReportsOnce p.vhd _ λ v k.
        let w' = store w i (set_state p lws_client_disconnecting) in
        emit-ReportsOnce (record w' { pending_disconnects = w'.pending_disconnects ++ i ∷ [] })
          cancels_service (store-ReportsOnce w i p _ h e refl) (λ j. refl)

  add_event_buffer-Keeps :
      (i : ℕ) (text : List ℕ) (w : World B)
      → ReportsOnce w
      → AllResults Keeps (add_event_buffer i text w)
  unfolding add_event_buffer
  add_event_buffer-Keeps i text w h = lookup-AllResults Keeps (w.pipes i) _ λ p e.
      let w' = store w i (record p { events = p.events ++ text ∷ [] }) in
      if-AllResults Keeps (same_state p.state lws_client_connected) _ _
        (λ t.
          bind-AllResults ReportsOnce Keeps (add_pending_write i w') _
            (add_pending_write-Preserves i w' (store-ReportsOnce w i p _ h e refl)) (λ w'' k. k))
        (λ t. h)

  close-Preserves : (i : ℕ) → Preserves {B = B} (close i)
  unfolding close
  close-Preserves i w h = lookup-AllResults ReportsOnce (w.pipes i) _ λ p e.
      if-AllResults ReportsOnce (same_state p.state lws_client_connected) _ _
        (λ t. add_pending_disconnect-Preserves i w h) (λ t. h)

  graceful_shutdown-Preserves : (i now : ℕ) → Preserves {B = B} (graceful_shutdown i now)
  unfolding graceful_shutdown
  graceful_shutdown-Preserves i now w h = lookup-AllResults ReportsOnce (w.pipes i) _ λ p e.
      add_pending_write-Preserves i
        (store w i (record p { graceful_shutdown = true; graceful_shutdown_at = now }))
        (store-ReportsOnce w i p _ h e refl)

  reconnect-Preserves : (i : ℕ) (wsi : Option ℕ) → Preserves {B = B} (reconnect i wsi)
  unfolding reconnect
  reconnect-Preserves i wsi w h =
      lookup-AllResults ReportsOnce (w.pipes i) _
        λ p e. lookup-AllResults ReportsOnce p.vhd _ λ v k. store-ReportsOnce w i p _ h e refl

module _ {B : Type 0} (o : SwitchBuffer B) where
  step-Preserves : (s : Step) → Preserves (step o s)
  unfolding step add_pending_connect
  step-Preserves (connects i) w h =
      emit-ReportsOnce (record w { pending_connects = w.pending_connects ++ i ∷ [] })
        cancels_service h (λ j. refl)
  step-Preserves (sends_event i text) w h =
      bind-AllResults Keeps ReportsOnce (add_event_buffer i text w) _
        (add_event_buffer-Keeps i text w h) (λ r k. k)
  step-Preserves (closes i) w h = close-Preserves i w h
  step-Preserves (shuts_down i now) w h = graceful_shutdown-Preserves i now w h
  step-Preserves (reconnects i wsi) w h = reconnect-Preserves i wsi w h
  step-Preserves (calls_back r) w h = lws_callback-ReportsOnce o r w h

  steps-Preserves : (ss : List Step) → Preserves (steps o ss)
  unfolding steps
  steps-Preserves [] w h = h
  steps-Preserves (s ∷ ss) w h =
      bind-AllResults ReportsOnce ReportsOnce (step o s w) (steps o ss) (step-Preserves s w h)
        (steps-Preserves ss)

  -- From a world in which CONNECT_SUCCESS was reported exactly once for each living pipe whose
  -- stream has started and never for the other living ones, any sequence of callbacks of
  -- libwebsockets and of operations of the threads (connect, addEventBuffer, close,
  -- graceful_shutdown, reconnect) that ends without a fault leads to such a world: a reconnection
  -- does not report it again.
  pub steps-ReportsOnce :
      (ss : List Step) (w w' : World B) → ReportsOnce w → steps o ss w ≡ some w' → ReportsOnce w'
  steps-ReportsOnce ss w w' h e =
      result-AllResults ReportsOnce (steps o ss w) (steps-Preserves ss w h) e
