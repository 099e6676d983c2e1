-- ===== src/Connections/Callback.antt =====
-- AudioPipe::lws_callback of src/audio_pipe.cpp: what libwebsockets reports to the module. The
-- handshake header of basic authentication changes no state and is left out.
use mod_audio_stream.Common.{
  ℕ, Bool, true, false, ◌||◌, [], ◌∷◌, ◌++◌, Option, none, some, leb, if◌then◌else◌,
}
use mod_audio_stream.SwitchBuffer.{SwitchBuffer}
use mod_audio_stream.Receive.{Fragment, Received, overflows, waits, delivers, receive_fragment}
use mod_audio_stream.Writeable.{Env, Turn, client_writeable}
use mod_audio_stream.AudioPipe.{
  AudioPipe, lws_client_connected, lws_client_failed, lws_client_disconnecting,
  lws_client_disconnected, same_state, connect_success, connect_fail, connection_dropped,
  connection_closed_gracefully, message,
}
use mod_audio_stream.Connections.{
  World, notifies, asks_writable, max_connection_attempts, store, emit, set_state, delete_pipe,
}
use mod_audio_stream.Common.{◌>>=◌, update}
use mod_audio_stream.Connections.Find.{find_pending}
use mod_audio_stream.Connections.Process.{wait_cancelled}

-- What the callback is called for, with what libwebsockets hands over.
pub data Reason : Type 0 where
  event_wait_cancelled : (ℕ → Option ℕ) → ℕ → Reason
  client_connection_error : ℕ → Reason
  client_established : ℕ → ℕ → Reason
  client_closed : ℕ → Reason
  -- lws_frame_is_binary, and the fragment
  client_receive : ℕ → Bool → Fragment → Reason
  client_writable : ℕ → Env → Reason
  other : Reason

module _ {B : Type 0} where
  -- `if (ap->m_connection_attempts <= MAX_CONNECTION_ATTEMPTS)`
  abbrev pub may_retry : AudioPipe B → Bool
  may_retry p = leb p.connection_attempts max_connection_attempts

  abbrev pub schedule : ℕ → World B → World B
  schedule i w = record w { timers = w.timers ++ i ∷ [] }

  unfoldable pub retry_or_fail : ℕ → World B → Option (World B)
  retry_or_fail i w = w.pipes i >>= λ p.
      let w' = store w i (set_state p lws_client_failed) in
      if may_retry p
      then (p.vhd >>= λ vhost. some (schedule i w'))
      else some (emit w' (notifies i connect_fail))

  unfoldable pub connection_error : ℕ → World B → Option (World B)
  unfolding retry_or_fail
  connection_error wsi w = find_pending wsi w >>= λ (found, w'). elim found [
    | none ↦ some w'
    | some i ↦ retry_or_fail i w'
  ]

  unfoldable pub establish : ℕ → ℕ → ℕ → World B → Option (World B)
  establish wsi vhd i w = w.pipes i >>= λ p.
      let p' = record p { vhd = some vhd; connection_attempts = 0; state = lws_client_connected } in
      let w' = store (record w { user = update w.user wsi (some i) }) i p' in
      if p.stream_started
      then some w'
      else some
          (store (emit w' (notifies i connect_success)) i (record p' { stream_started = true }))

  unfoldable pub established : ℕ → ℕ → World B → Option (World B)
  unfolding establish
  established wsi vhd w = find_pending wsi w >>= λ (found, w'). elim found [
    | none ↦ some w'
    | some i ↦ establish wsi vhd i w'
  ]

  -- The end of the handler: the pipe is deleted, and its wsi forgets it.
  unfoldable pub dispose : ℕ → ℕ → World B → World B
  unfolding delete_pipe
  dispose wsi i w = delete_pipe i (record w { user = update w.user wsi none })

  unfoldable pub close_pipe : ℕ → ℕ → World B → Option (World B)
  unfolding dispose
  close_pipe wsi i w = w.pipes i >>= λ p.
      if p.graceful_shutdown || same_state p.state lws_client_disconnecting
      then some (dispose wsi i (emit w (notifies i connection_closed_gracefully)))
      else (if same_state p.state lws_client_connected
          then (if may_retry p
              then (p.vhd >>= λ vhost.
                  some (schedule i (store w i (set_state p lws_client_disconnected))))
              else some (dispose wsi i (emit w (notifies i connection_dropped))))
          else some (dispose wsi i w))

  unfoldable pub closed : ℕ → World B → Option (World B)
  unfolding close_pipe
  closed wsi w = elim (w.user wsi) [ none ↦ some w | some i ↦ close_pipe wsi i w ]

  -- An overflow of the receive buffer is a fault.
  unfoldable pub keep_received : ℕ → AudioPipe B → World B → Received → Option (World B)
  keep_received i p w overflows = none
  keep_received i p w (waits r) = some (store w i (record p { recv = r }))
  keep_received i p w (delivers m r) =
      some (emit (store w i (record p { recv = r })) (notifies i (message m)))

  unfoldable pub received : ℕ → Bool → Fragment → World B → Option (World B)
  unfolding keep_received receive_fragment
  received wsi binary f w = elim (w.user wsi) [
    | none ↦ some w
    | some i ↦ w.pipes i >>= λ p.
        if p.is_bidirectional
        then (if binary then some w else keep_received i p w (receive_fragment p.recv f))
        else some w
  ]

  unfoldable pub keep_turn : ℕ → ℕ → Turn B → World B → World B
  keep_turn wsi i t w = elim t.asks [
    | true ↦ emit (store w i t.pipe) (asks_writable wsi)
    | false ↦ store w i t.pipe
  ]

module _ {B : Type 0} (o : SwitchBuffer B) where
  unfoldable pub writeable : ℕ → Env → World B → Option (World B)
  unfolding keep_turn client_writeable
  writeable wsi env w = elim (w.user wsi) [
    | none ↦ some w
    | some i ↦ w.pipes i >>= λ p. client_writeable o env p >>= λ t. some (keep_turn wsi i t w)
  ]

  unfoldable pub lws_callback : Reason → World B → Option (World B)
  unfolding connection_error established closed received writeable
  lws_callback (event_wait_cancelled dial vhd) w = wait_cancelled dial vhd w
  lws_callback (client_connection_error wsi) w = connection_error wsi w
  lws_callback (client_established wsi vhd) w = established wsi vhd w
  lws_callback (client_closed wsi) w = closed wsi w
  lws_callback (client_receive wsi binary f) w = received wsi binary f w
  lws_callback (client_writable wsi env) w = writeable wsi env w
  lws_callback other w = some w
