-- ===== src/Connections.antt =====
-- The static members of `AudioPipe` (src/audio_pipe.cpp): the lists of pipes that wait for the
-- service thread, and what lws_callback and the timer do with them. A pipe is known by a number,
-- its address. `none` is a fault: the use of a pipe that was deleted, a null vhost, or a failed
-- assertion. What the service thread and the media threads do is a sequence of these operations,
-- each under its mutex.
pub mod Find
pub mod Process
pub mod Callback
pub mod Started
pub mod Faults
pub mod Steps
pub mod Retry
mod Tests
use mod_audio_stream.Common.{
  ℕ, ◌+◌, Bool, true, false, ◌&&◌, ◌||◌, List, [], ◌∷◌, ◌++◌, Option, none, some, ◌==◌, leb,
  if◌then◌else◌, ◌>>=◌, update,
}
use mod_audio_stream.AudioPipe.{
  AudioPipe, LwsState, lws_client_idle, lws_client_connecting, lws_client_connected,
  lws_client_disconnecting, lws_client_reconnecting, same_state, NotifyEvent,
}

-- What the rest of the program and libwebsockets see.
pub data Effect : Type 0 where
  -- m_callback, for the pipe of that address
  notifies : ℕ → NotifyEvent → Effect
  -- lws_callback_on_writable(wsi)
  asks_writable : ℕ → Effect
  -- lws_cancel_service
  cancels_service : Effect

pub record World (B : Type 0) : Type 0 where
  pub pipes : ℕ → Option (AudioPipe B)
  pub pending_connects : List ℕ
  pub pending_reconnects : List ℕ
  pub pending_disconnects : List ℕ
  pub pending_writes : List ℕ
  -- *ppAp of each wsi
  pub user : ℕ → Option ℕ
  -- the reconnections scheduled with lws_sul_schedule
  pub timers : List ℕ
  -- the effects so far, oldest first
  pub log : List Effect

-- MAX_CONNECTION_ATTEMPTS
abbrev pub max_connection_attempts : ℕ
max_connection_attempts = 3

abbrev pub same_wsi : Option ℕ → ℕ → Bool
same_wsi none n = false
same_wsi (some m) n = m == n

-- std::list::remove
abbrev pub remove : ℕ → List ℕ → List ℕ
remove i [] = []
remove i (j ∷ js) = let rest = remove i js in if j == i then rest else j ∷ rest

abbrev pub remove_all : List ℕ → List ℕ → List ℕ
remove_all [] js = js
remove_all (i ∷ is) js = remove_all is (remove i js)

module _ {B : Type 0} where
  abbrev pub store : World B → ℕ → AudioPipe B → World B
  store w i p = record w { pipes = update w.pipes i (some p) }

  abbrev pub emit : World B → Effect → World B
  emit w e = record w { log = w.log ++ e ∷ [] }

  abbrev pub set_state : AudioPipe B → LwsState → AudioPipe B
  set_state p s = record p { state = s }

  -- connect: the pipe goes to the service thread.
  unfoldable pub add_pending_connect : ℕ → World B → World B
  add_pending_connect i w =
      emit (record w { pending_connects = w.pending_connects ++ i ∷ [] }) cancels_service

  -- addPendingWrite and addPendingDisconnect use the vhost of the pipe.
  unfoldable pub add_pending_write : ℕ → World B → Option (World B)
  add_pending_write i w = do
    p ← w.pipes i
    vhost ← p.vhd
    some (emit (record w { pending_writes = w.pending_writes ++ i ∷ [] }) cancels_service)

  unfoldable pub add_pending_disconnect : ℕ → World B → Option (World B)
  add_pending_disconnect i w = do
    p ← w.pipes i
    vhost ← p.vhd
    let w' = store w i (set_state p lws_client_disconnecting)
    some (
        emit (record w' { pending_disconnects = w'.pending_disconnects ++ i ∷ [] }) cancels_service)

  -- addEventBuffer: `false` if the stream is not connected.
  unfoldable pub add_event_buffer : ℕ → List ℕ → World B → Option (Bool × World B)
  unfolding add_pending_write
  add_event_buffer i text w = w.pipes i >>= λ p.
      let w' = store w i (record p { events = p.events ++ text ∷ [] }) in
      if same_state p.state lws_client_connected
      then (add_pending_write i w' >>= λ w''. some (true, w''))
      else some (false, w)

  unfoldable pub close : ℕ → World B → Option (World B)
  unfolding add_pending_disconnect
  close i w = do
    p ← w.pipes i
    if same_state p.state lws_client_connected then add_pending_disconnect i w else some w

  unfoldable pub graceful_shutdown : ℕ → ℕ → World B → Option (World B)
  unfolding add_pending_write
  graceful_shutdown i now w = do
    p ← w.pipes i
    add_pending_write i
        (store w i (record p { graceful_shutdown = true; graceful_shutdown_at = now }))

  -- The destructor, as src/lws_glue.cpp and lws_callback call it.
  unfoldable pub delete_pipe : ℕ → World B → World B
  delete_pipe i w = record w { pipes = update w.pipes i none }

  -- reconnect, when the timer of `i` runs out: `dialled` is lws_client_connect_via_info.
  unfoldable pub reconnect : ℕ → Option ℕ → World B → Option (World B)
  reconnect i dialled w = do
    p ← w.pipes i
    vhost ← p.vhd
    let p' = record p {
      wsi = dialled;
      connection_attempts = p.connection_attempts + 1;
      state = lws_client_reconnecting;
    }
    some (record (store w i p') {
      pending_reconnects = w.pending_reconnects ++ i ∷ [];
      timers = remove i w.timers;
    })
