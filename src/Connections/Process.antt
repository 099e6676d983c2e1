-- ===== src/Connections/Process.antt =====
-- processPendingConnects, processPendingDisconnects and processPendingWrites of src/audio_pipe.cpp,
-- which LWS_CALLBACK_EVENT_WAIT_CANCELLED calls in this order. `dial` is
-- lws_client_connect_via_info: the new wsi of a pipe, or NULL.
use mod_audio_stream.Common.{
  ℕ, ◌+◌, Bool, true, false, ◌||◌, List, [], ◌∷◌, ◌++◌, Option, none, some, ltb, if◌then◌else◌,
}
use mod_audio_stream.AudioPipe.{
  LwsState, lws_client_idle, lws_client_connecting, lws_client_connected, lws_client_failed,
  lws_client_disconnecting, lws_client_reconnecting, same_state, connect_fail,
}
use mod_audio_stream.Connections.{
  World, notifies, asks_writable, max_connection_attempts, store, emit, set_state,
}
use mod_audio_stream.Common.{◌>>=◌}

abbrev pub may_connect : LwsState → Bool
may_connect s = same_state s lws_client_idle || same_state s lws_client_reconnecting

-- assert(m_vhd == nullptr) of connect_client.
abbrev pub assert_no_vhd : Option ℕ → Option (Unit {0})
assert_no_vhd none = some tt
assert_no_vhd (some v) = none

module _ {B : Type 0} where
  -- The first loop: the pipes to connect, each marked.
  unfoldable pub mark_connects : List ℕ → World B → Option (List ℕ × World B)
  mark_connects [] w = some ([], w)
  mark_connects (i ∷ is) w = w.pipes i >>= λ p.
      let marked = mark_connects is (store w i (set_state p lws_client_connecting)) in
      let skipped = mark_connects is w in
      if may_connect p.state
      then (marked >>= λ (connects, w'). some (i ∷ connects, w'))
      else skipped

  -- connect_client: whether there is a wsi, and the world after. Its assertion on the audio buffer
  -- holds of every pipe that the constructor makes.
  unfoldable pub connect_client : (ℕ → Option ℕ) → ℕ → ℕ → World B → Option (Option ℕ × World B)
  connect_client dial vhd i w = do
    p ← w.pipes i
    unit ← assert_no_vhd p.vhd
    let p' = record p {
      state = lws_client_connecting;
      vhd = some vhd;
      wsi = dial i;
      connection_attempts = p.connection_attempts + 1;
    }
    some (dial i, store w i p')

  -- A connection that could not be begun: it is given up, and the whole loop with it (`true`), or a
  -- reconnection is scheduled.
  unfoldable pub connect_failed : ℕ → World B → Option (Bool × World B)
  connect_failed i w = w.pipes i >>= λ p.
      let w' = store w i (set_state p lws_client_failed) in
      if ltb max_connection_attempts p.connection_attempts
      then some (true, emit w' (notifies i connect_fail))
      else some (false, record w' { timers = w'.timers ++ i ∷ [] })

  -- The second loop.
  unfoldable pub connect_all : (ℕ → Option ℕ) → ℕ → List ℕ → World B → Option (World B)
  connect_all dial vhd [] w = some w
  connect_all dial vhd (i ∷ is) w = connect_client dial vhd i w >>= λ (wsi, w'). elim wsi [
    | some n ↦ connect_all dial vhd is w'
    | none ↦ connect_failed i w' >>= λ (stop, w''). elim stop [
      | true ↦ some w''
      | false ↦ connect_all dial vhd is w''
    ]
  ]

  unfoldable pub process_pending_connects : (ℕ → Option ℕ) → ℕ → World B → Option (World B)
  unfolding mark_connects connect_all connect_client connect_failed
  process_pending_connects dial vhd w =
      mark_connects w.pending_connects w >>= λ (connects, w'). connect_all dial vhd connects w'

  -- The pipes of a list in a given state.
  unfoldable pub in_state : LwsState → List ℕ → World B → Option (List ℕ)
  in_state s [] w = some []
  in_state s (i ∷ is) w =
      let rest = in_state s is w in
      w.pipes i >>= λ p. rest >>= λ ready. some (if same_state p.state s then i ∷ ready else ready)

  abbrev pub ask_writable : Option ℕ → World B → World B
  ask_writable none w = w
  ask_writable (some n) w = emit w (asks_writable n)

  unfoldable pub ask_all : List ℕ → World B → Option (World B)
  ask_all [] w = some w
  ask_all (i ∷ is) w = w.pipes i >>= λ p. ask_all is (ask_writable p.wsi w)

  unfoldable pub process_pending_disconnects : World B → Option (World B)
  unfolding in_state ask_all
  process_pending_disconnects w =
      in_state lws_client_disconnecting w.pending_disconnects w >>= λ ready.
      ask_all ready (record w { pending_disconnects = [] })

  unfoldable pub process_pending_writes : World B → Option (World B)
  unfolding in_state ask_all
  process_pending_writes w = in_state lws_client_connected w.pending_writes w >>= λ ready.
      ask_all ready (record w { pending_writes = [] })

  unfoldable pub wait_cancelled : (ℕ → Option ℕ) → ℕ → World B → Option (World B)
  unfolding process_pending_connects process_pending_disconnects process_pending_writes
  wait_cancelled dial vhd w = do
    w₁ ← process_pending_connects dial vhd w
    w₂ ← process_pending_disconnects w₁
    process_pending_writes w₂
