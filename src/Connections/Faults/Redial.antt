-- ===== src/Connections/Faults/Redial.antt =====
-- A connection that could not be begun stays in pendingConnects (src/audio_pipe.cpp).
use mod_audio_stream.Common.{
  ℕ, ◌+◌, ◌≤◌, ◌≡◌, refl, ap, ◌∙◌, true, false, [], ◌∷◌, ◌++◌, Option, none, some, arith, ltb,
  if-true, if-false,
}
use mod_audio_stream.AudioPipe.{
  AudioPipe, lws_client_idle, lws_client_connecting, lws_client_failed, lws_client_reconnecting,
}
use mod_audio_stream.Connections.{
  World, max_connection_attempts, store, set_state, reconnect, remove,
}
use mod_audio_stream.Common.{◌>>=◌}
use mod_audio_stream.Common.{bind-some, bind-none, update-same}
use mod_audio_stream.Connections.Process.{
  may_connect, assert_no_vhd, mark_connects, connect_client, connect_failed, connect_all,
  process_pending_connects,
}

module _ {B : Type 0} where
  mark_connects-one :
      (w : World B) (i : ℕ) (p : AudioPipe B)
      → w.pipes i ≡ some p
      → may_connect p.state ≡ true
      → mark_connects (i ∷ []) w ≡ some (i ∷ [], store w i (set_state p lws_client_connecting))
  unfolding mark_connects
  mark_connects-one w i p e k = bind-some (w.pipes i) _ p e ∙ if-true _ _ k

  abbrev dialling : AudioPipe B → ℕ → Option ℕ → AudioPipe B
  dialling p vhd wsi = record p {
    state = lws_client_connecting;
    vhd = some vhd;
    wsi = wsi;
    connection_attempts = p.connection_attempts + 1;
  }

  connect_client-some :
      (dial : ℕ → Option ℕ) (vhd i : ℕ) (w : World B) (p : AudioPipe B)
      → w.pipes i ≡ some p
      → p.vhd ≡ none
      → connect_client dial vhd i w ≡ some (dial i, store w i (dialling p vhd (dial i)))
  unfolding connect_client
  connect_client-some dial vhd i w p e k =
      bind-some (w.pipes i) _ p e ∙ bind-some (assert_no_vhd p.vhd) _ tt (ap assert_no_vhd k)

  connect_client-none :
      (dial : ℕ → Option ℕ) (vhd i v : ℕ) (w : World B) (p : AudioPipe B)
      → w.pipes i ≡ some p
      → p.vhd ≡ some v
      → connect_client dial vhd i w ≡ none
  unfolding connect_client
  connect_client-none dial vhd i v w p e k =
      bind-some (w.pipes i) _ p e ∙ bind-none (assert_no_vhd p.vhd) _ (ap assert_no_vhd k)

  abbrev given_up : World B → ℕ → AudioPipe B → World B
  given_up w i p = record (store w i (set_state p lws_client_failed)) {
    timers = w.timers ++ i ∷ [];
  }

  connect_failed-retries :
      (i : ℕ) (w : World B) (p : AudioPipe B)
      → w.pipes i ≡ some p
      → p.connection_attempts ≤ 3
      → connect_failed i w ≡ some (false, given_up w i p)
  unfolding connect_failed
  connect_failed-retries i w p e h =
      bind-some (w.pipes i) _ p e
      ∙ if-false {b = ltb max_connection_attempts p.connection_attempts} _ _ (ground arith)

  abbrev begun : World B → ℕ → AudioPipe B → World B
  begun w i p = store w i (set_state p lws_client_connecting)

  abbrev failed : World B → ℕ → ℕ → AudioPipe B → World B
  failed w i vhd p =
      let p' = dialling (set_state p lws_client_connecting) vhd none in
      given_up (store (begun w i p) i p') i p'

  connect_all-failed :
      (dial : ℕ → Option ℕ) (vhd i : ℕ) (w : World B) (p : AudioPipe B)
      → w.pipes i ≡ some p
      → p.vhd ≡ none
      → p.connection_attempts ≤ 2
      → dial i ≡ none
      → connect_all dial vhd (i ∷ []) w
        ≡ some (given_up (store w i (dialling p vhd none)) i (dialling p vhd none))
  unfolding connect_all
  connect_all-failed dial vhd i w p e k h l =
      let p' = dialling p vhd none in
      let w' = store w i p' in
      bind-some (connect_client dial vhd i w) _ (none, w')
        (connect_client-some dial vhd i w p e k
          ∙ ap (λ (d : Option ℕ). some (d, store w i (dialling p vhd d))) l)
      ∙ bind-some (connect_failed i w') _ (false, given_up w' i p')
          (connect_failed-retries i w' p' (update-same w.pipes i (some p')) (omega arith))

  process-failed :
      (dial : ℕ → Option ℕ) (vhd i : ℕ) (w : World B) (p : AudioPipe B)
      → w.pending_connects ≡ i ∷ []
      → w.pipes i ≡ some p
      → p.state ≡ lws_client_idle
      → p.vhd ≡ none
      → p.connection_attempts ≤ 2
      → dial i ≡ none
      → process_pending_connects dial vhd w ≡ some (failed w i vhd p)
  unfolding process_pending_connects
  process-failed dial vhd i w p q e s k h l =
      ap (λ is. mark_connects is w >>= λ (connects, w'). connect_all dial vhd connects w') q
      ∙ bind-some (mark_connects (i ∷ []) w) _ (i ∷ [], begun w i p)
          (mark_connects-one w i p e (ap may_connect s))
      ∙ connect_all-failed dial vhd i (begun w i p) (set_state p lws_client_connecting)
          (update-same w.pipes i (some (set_state p lws_client_connecting))) k h l

  abbrev pub redialled : AudioPipe B → Option ℕ → AudioPipe B
  redialled p wsi = record p {
    wsi = wsi;
    connection_attempts = p.connection_attempts + 1;
    state = lws_client_reconnecting;
  }

  abbrev pub after_reconnect : World B → ℕ → Option ℕ → AudioPipe B → World B
  after_reconnect w i wsi p = record (store w i (redialled p wsi)) {
    pending_reconnects = w.pending_reconnects ++ i ∷ [];
    timers = remove i w.timers;
  }

  pub reconnect-some :
      (w : World B) (i v : ℕ) (wsi : Option ℕ) (p : AudioPipe B)
      → w.pipes i ≡ some p
      → p.vhd ≡ some v
      → reconnect i wsi w ≡ some (after_reconnect w i wsi p)
  unfolding reconnect
  reconnect-some w i v wsi p e k = bind-some (w.pipes i) _ p e ∙ bind-some p.vhd _ v k

  process-redial :
      (dial : ℕ → Option ℕ) (vhd i v : ℕ) (w : World B) (p : AudioPipe B)
      → w.pending_connects ≡ i ∷ []
      → w.pipes i ≡ some p
      → p.state ≡ lws_client_reconnecting
      → p.vhd ≡ some v
      → process_pending_connects dial vhd w ≡ none
  unfolding process_pending_connects connect_all
  process-redial dial vhd i v w p q e s k =
      ap (λ is. mark_connects is w >>= λ (connects, w'). connect_all dial vhd connects w') q
      ∙ bind-some (mark_connects (i ∷ []) w) _ (i ∷ [], begun w i p)
          (mark_connects-one w i p e (ap may_connect s))
      ∙ bind-none (connect_client dial vhd i (begun w i p)) _ (
          connect_client-none dial vhd i v (begun w i p) (set_state p lws_client_connecting)
            (update-same w.pipes i (some (set_state p lws_client_connecting))) k)

  -- A new pipe (idle, with no vhost, at most two attempts), alone in pendingConnects, whose
  -- connection libwebsockets cannot begin, stays in that list: after its reconnection timer has run
  -- out, the next processPendingConnects connects it again and fails the assertion that it has no
  -- vhost, whatever the later dials give.
  pub failed-redial_fault :
      (dial dial' : ℕ → Option ℕ) (vhd i : ℕ) (wsi : Option ℕ) (w : World B) (p : AudioPipe B)
      → w.pending_connects ≡ i ∷ []
      → w.pipes i ≡ some p
      → p.state ≡ lws_client_idle
      → p.vhd ≡ none
      → p.connection_attempts ≤ 2
      → dial i ≡ none
      → (process_pending_connects dial vhd w
          >>= reconnect i wsi
          >>= process_pending_connects dial' vhd)
        ≡ none
  failed-redial_fault dial dial' vhd i wsi w p q e s k h l =
      let w' = failed w i vhd p in
      let p' =
        set_state (dialling (set_state p lws_client_connecting) vhd none) lws_client_failed in
      let known : w'.pipes i ≡ some p' =
        update-same
          (store (begun w i p) i (dialling (set_state p lws_client_connecting) vhd none)).pipes i
          (some p') in
      ap (λ r. r >>= reconnect i wsi >>= process_pending_connects dial' vhd)
        (process-failed dial vhd i w p q e s k h l)
      ∙ ap (λ r. r >>= process_pending_connects dial' vhd)
          (reconnect-some w' i vhd wsi p' known refl)
      ∙ process-redial dial' vhd i vhd (after_reconnect w' i wsi p') (redialled p' wsi) q
          (update-same w'.pipes i (some (redialled p' wsi))) refl refl
