-- ===== src/Connections/Started/Pending.antt =====
-- The service thread's pass over the pending lists reports no CONNECT_SUCCESS (src/audio_pipe.cpp).
use mod_audio_stream.Common.{ℕ, refl, Bool, true, false, List, [], ◌∷◌, Option, none, some, ltb}
use mod_audio_stream.AudioPipe.{
  lws_client_connecting, lws_client_connected, lws_client_failed, lws_client_disconnecting,
  lws_client_reconnecting, connect_fail,
}
use mod_audio_stream.Connections.{
  World, notifies, asks_writable, max_connection_attempts, store, set_state,
}
use mod_audio_stream.Common.{◌>>=◌}
use mod_audio_stream.Connections.Find.{
  scan, find_and_remove_pending_connect, find_and_remove_pending_reconnect, find_pending,
}
use mod_audio_stream.Connections.Process.{
  may_connect, assert_no_vhd, mark_connects, connect_client, connect_failed, connect_all,
  process_pending_connects, in_state, ask_writable, ask_all, process_pending_disconnects,
  process_pending_writes, wait_cancelled,
}
use mod_audio_stream.Common.{AllResults, bind-AllResults, lookup-AllResults, if-AllResults}
use mod_audio_stream.Connections.Started.{ReportsOnce, store-ReportsOnce, emit-ReportsOnce}

-- A result with a world that keeps the property.
abbrev pub Keeps : {A B : Type 0} → A × World B → Type 0
Keeps r = ReportsOnce r.1

module _ {B : Type 0} where
  find_connect-Keeps :
      (wsi : ℕ) (w : World B)
      → ReportsOnce w
      → AllResults Keeps (find_and_remove_pending_connect wsi w)
  unfolding find_and_remove_pending_connect
  find_connect-Keeps wsi w h =
      lookup-AllResults Keeps (scan lws_client_connecting wsi w.pending_connects w) _ (λ r e. h)

  find_reconnect-Keeps :
      (wsi : ℕ) (w : World B)
      → ReportsOnce w
      → AllResults Keeps (find_and_remove_pending_reconnect wsi w)
  unfolding find_and_remove_pending_reconnect
  find_reconnect-Keeps wsi w h =
      lookup-AllResults Keeps (scan lws_client_reconnecting wsi w.pending_reconnects w) _ (λ r e. h)

  found-Keeps :
      (wsi : ℕ) (found : Option ℕ) (w : World B)
      → ReportsOnce w
      → AllResults Keeps (elim found [
        | some i ↦ some (some i, w)
        | none ↦ find_and_remove_pending_reconnect wsi w
      ])
  found-Keeps wsi none w h = find_reconnect-Keeps wsi w h
  found-Keeps wsi (some i) w h = h

  pub find_pending-Keeps :
      (wsi : ℕ) (w : World B) → ReportsOnce w → AllResults Keeps (find_pending wsi w)
  unfolding find_pending
  find_pending-Keeps wsi w h =
      bind-AllResults Keeps Keeps (find_and_remove_pending_connect wsi w) _
        (find_connect-Keeps wsi w h) (λ r k. found-Keeps wsi r.0 r.1 k)

  mark_connects-Keeps :
      (is : List ℕ) (w : World B) → ReportsOnce w → AllResults Keeps (mark_connects is w)
  unfolding mark_connects
  mark_connects-Keeps [] w h = h
  mark_connects-Keeps (i ∷ is) w h = lookup-AllResults Keeps (w.pipes i) _ λ p e.
      let w' = store w i (set_state p lws_client_connecting) in
      if-AllResults Keeps (may_connect p.state) _ _
        (λ t.
          bind-AllResults Keeps Keeps (mark_connects is w') _
            (mark_connects-Keeps is w' (store-ReportsOnce w i p _ h e refl)) (λ r k. k))
        (λ t. mark_connects-Keeps is w h)

  connect_client-Keeps :
      (dial : ℕ → Option ℕ) (vhd i : ℕ) (w : World B)
      → ReportsOnce w
      → AllResults Keeps (connect_client dial vhd i w)
  unfolding connect_client
  connect_client-Keeps dial vhd i w h = lookup-AllResults Keeps (w.pipes i) _ λ p e.
      lookup-AllResults Keeps (assert_no_vhd p.vhd) _ λ u k. store-ReportsOnce w i p _ h e refl

  connect_failed-Keeps :
      (i : ℕ) (w : World B) → ReportsOnce w → AllResults Keeps (connect_failed i w)
  unfolding connect_failed
  connect_failed-Keeps i w h = lookup-AllResults Keeps (w.pipes i) _ λ p e.
      let w' = store w i (set_state p lws_client_failed) in
      let k = store-ReportsOnce w i p (set_state p lws_client_failed) h e refl in
      if-AllResults Keeps (ltb max_connection_attempts p.connection_attempts) _ _
        (λ t. emit-ReportsOnce w' (notifies i connect_fail) k (λ j. refl)) (λ t. k)

  stop-ReportsOnce :
      (dial : ℕ → Option ℕ) (vhd : ℕ) (is : List ℕ) (stop : Bool) (w : World B)
      → ReportsOnce w
      → AllResults ReportsOnce (connect_all dial vhd is w)
      → AllResults ReportsOnce (elim stop [ true ↦ some w | false ↦ connect_all dial vhd is w ])
  stop-ReportsOnce dial vhd is true w h k = h
  stop-ReportsOnce dial vhd is false w h k = k

  dialled-ReportsOnce :
      (dial : ℕ → Option ℕ) (vhd i : ℕ) (is : List ℕ) (wsi : Option ℕ) (w : World B)
      → ReportsOnce w
      → ((w' : World B) → ReportsOnce w' → AllResults ReportsOnce (connect_all dial vhd is w'))
      → AllResults ReportsOnce (elim wsi [
        | some n ↦ connect_all dial vhd is w
        | none ↦ connect_failed i w >>= λ (stop, w'). elim stop [
          | true ↦ some w'
          | false ↦ connect_all dial vhd is w'
        ]
      ])
  dialled-ReportsOnce dial vhd i is (some n) w h rest = rest w h
  dialled-ReportsOnce dial vhd i is none w h rest =
      bind-AllResults Keeps ReportsOnce (connect_failed i w) _ (connect_failed-Keeps i w h)
        (λ r k. stop-ReportsOnce dial vhd is r.0 r.1 k (rest r.1 k))

  connect_all-ReportsOnce :
      (dial : ℕ → Option ℕ) (vhd : ℕ) (is : List ℕ) (w : World B)
      → ReportsOnce w
      → AllResults ReportsOnce (connect_all dial vhd is w)
  unfolding connect_all
  connect_all-ReportsOnce dial vhd [] w h = h
  connect_all-ReportsOnce dial vhd (i ∷ is) w h =
      bind-AllResults Keeps ReportsOnce (connect_client dial vhd i w) _
        (connect_client-Keeps dial vhd i w h)
        (λ r k. dialled-ReportsOnce dial vhd i is r.0 r.1 k (connect_all-ReportsOnce dial vhd is))

  process_pending_connects-ReportsOnce :
      (dial : ℕ → Option ℕ) (vhd : ℕ) (w : World B)
      → ReportsOnce w
      → AllResults ReportsOnce (process_pending_connects dial vhd w)
  unfolding process_pending_connects
  process_pending_connects-ReportsOnce dial vhd w h =
      bind-AllResults Keeps ReportsOnce (mark_connects w.pending_connects w) _
        (mark_connects-Keeps w.pending_connects w h)
        (λ r k. connect_all-ReportsOnce dial vhd r.0 r.1 k)

  ask_writable-ReportsOnce :
      (wsi : Option ℕ) (w : World B) → ReportsOnce w → ReportsOnce (ask_writable wsi w)
  ask_writable-ReportsOnce none w h = h
  ask_writable-ReportsOnce (some n) w h = emit-ReportsOnce w (asks_writable n) h (λ j. refl)

  ask_all-ReportsOnce :
      (is : List ℕ) (w : World B) → ReportsOnce w → AllResults ReportsOnce (ask_all is w)
  unfolding ask_all
  ask_all-ReportsOnce [] w h = h
  ask_all-ReportsOnce (i ∷ is) w h =
      lookup-AllResults ReportsOnce (w.pipes i) _
        λ p e. ask_all-ReportsOnce is (ask_writable p.wsi w) (ask_writable-ReportsOnce p.wsi w h)

  process_pending_disconnects-ReportsOnce :
      (w : World B) → ReportsOnce w → AllResults ReportsOnce (process_pending_disconnects w)
  unfolding process_pending_disconnects
  process_pending_disconnects-ReportsOnce w h =
      lookup-AllResults ReportsOnce (in_state lws_client_disconnecting w.pending_disconnects w) _
        λ is e. ask_all-ReportsOnce is (record w { pending_disconnects = [] }) h

  process_pending_writes-ReportsOnce :
      (w : World B) → ReportsOnce w → AllResults ReportsOnce (process_pending_writes w)
  unfolding process_pending_writes
  process_pending_writes-ReportsOnce w h =
      lookup-AllResults ReportsOnce (in_state lws_client_connected w.pending_writes w) _
        λ is e. ask_all-ReportsOnce is (record w { pending_writes = [] }) h

  pub wait_cancelled-ReportsOnce :
      (dial : ℕ → Option ℕ) (vhd : ℕ) (w : World B)
      → ReportsOnce w
      → AllResults ReportsOnce (wait_cancelled dial vhd w)
  unfolding wait_cancelled
  wait_cancelled-ReportsOnce dial vhd w h =
      bind-AllResults ReportsOnce ReportsOnce (process_pending_connects dial vhd w) _
        (process_pending_connects-ReportsOnce dial vhd w h)
        λ w₁ h₁.
          bind-AllResults ReportsOnce ReportsOnce (process_pending_disconnects w₁) _
            (process_pending_disconnects-ReportsOnce w₁ h₁) process_pending_writes-ReportsOnce
