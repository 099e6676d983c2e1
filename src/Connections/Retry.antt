-- ===== src/Connections/Retry.antt =====
-- The reconnections of a pipe whose connection fails again and again (src/audio_pipe.cpp).
use mod_audio_stream.Common.{
  ℕ, ◌+◌, ◌≤◌, ◌<◌, ◌≡◌, refl, sym, subst, ap, ◌∙◌, ◌&&◌, List, [], ◌∷◌, ◌++◌, Option, none, some,
  arith, length, ==_iff, if-true, if-false,
}
use mod_audio_stream.AudioPipe.{
  AudioPipe, lws_client_connecting, lws_client_failed, lws_client_reconnecting, same_state,
  connect_fail,
}
use mod_audio_stream.Connections.{
  World, notifies, store, emit, set_state, reconnect, remove, remove_all, same_wsi,
}
use mod_audio_stream.Common.{◌>>=◌}
use mod_audio_stream.Common.{bind-some, update-same}
use mod_audio_stream.Connections.Find.{
  scan, remove_found, find_and_remove_pending_connect, find_and_remove_pending_reconnect,
  find_pending,
}
use mod_audio_stream.Connections.Callback.{may_retry, schedule, retry_or_fail, connection_error}
use mod_audio_stream.Connections.Faults.Redial.{redialled, after_reconnect, reconnect-some}

remove_self : (i : ℕ) → remove i (i ∷ []) ≡ []
remove_self i = ground (arith, ==_iff i i)

module _ {B : Type 0} where
  -- The timer runs out, and the connection that it begins, `wsi`, fails.
  pub fail_round : ℕ → ℕ → World B → Option (World B)
  fail_round i wsi w = reconnect i (some wsi) w >>= connection_error wsi

  pub fail_rounds : ℕ → List ℕ → World B → Option (World B)
  fail_rounds i [] w = some w
  fail_rounds i (wsi ∷ rest) w = fail_round i wsi w >>= fail_rounds i rest

  -- The pipe `i` alone is in the lists: its timer runs, and it has made `n` attempts.
  pub record Waits (w : World B) (i n : ℕ) : Type 0 where
    pub pipe : AudioPipe B
    pub vhost : ℕ
    pub known : w.pipes i ≡ some pipe
    pub has_vhost : pipe.vhd ≡ some vhost
    pub attempts : pipe.connection_attempts ≡ n
    pub no_connects : w.pending_connects ≡ []
    pub no_reconnects : w.pending_reconnects ≡ []
    pub timer : w.timers ≡ i ∷ []

  find_connect-none :
      (wsi : ℕ) (w : World B)
      → w.pending_connects ≡ []
      → find_and_remove_pending_connect wsi w ≡ some (none, record w { pending_connects = [] })
  unfolding find_and_remove_pending_connect scan
  find_connect-none wsi w e =
      ap
        (λ js. scan lws_client_connecting wsi js w >>= λ (stale, found).
          some (found, record w { pending_connects = remove_found found (remove_all stale js) }))
        e

  scan-one :
      (i wsi : ℕ) (w : World B) (p : AudioPipe B)
      → w.pipes i ≡ some p
      → p.state ≡ lws_client_reconnecting
      → p.wsi ≡ some wsi
      → scan lws_client_reconnecting wsi (i ∷ []) w ≡ some ([], some i)
  unfolding scan
  scan-one i wsi w p e s k =
      bind-some (w.pipes i) _ p e
      ∙ if-true {b = same_state p.state lws_client_reconnecting && same_wsi p.wsi wsi} _ _
          (ground (arith, s, k, ==_iff wsi wsi))

  find_reconnect-some :
      (i wsi : ℕ) (w : World B) (p : AudioPipe B)
      → w.pipes i ≡ some p
      → p.state ≡ lws_client_reconnecting
      → p.wsi ≡ some wsi
      → w.pending_reconnects ≡ i ∷ []
      → find_and_remove_pending_reconnect wsi w
        ≡ some (some i, record w { pending_reconnects = [] })
  unfolding find_and_remove_pending_reconnect
  find_reconnect-some i wsi w p e s k l =
      ap
        (λ js. scan lws_client_reconnecting wsi js w >>= λ (stale, found).
          some (found, record w { pending_reconnects = remove_found found (remove_all stale js) }))
        l
      ∙ bind-some (scan lws_client_reconnecting wsi (i ∷ []) w) _ ([], some i)
          (scan-one i wsi w p e s k)
      ∙ ap (λ js. some (some i, record w { pending_reconnects = js })) (remove_self i)

  abbrev cleared : World B → World B
  cleared w = record w { pending_connects = []; pending_reconnects = [] }

  connection_error-found :
      (i wsi : ℕ) (w : World B) (p : AudioPipe B)
      → w.pipes i ≡ some p
      → p.state ≡ lws_client_reconnecting
      → p.wsi ≡ some wsi
      → w.pending_connects ≡ []
      → w.pending_reconnects ≡ i ∷ []
      → connection_error wsi w ≡ retry_or_fail i (cleared w)
  unfolding connection_error find_pending
  connection_error-found i wsi w p e s k l m =
      let w' = record w { pending_connects = [] } in
      bind-some (find_pending wsi w) _ (some i, cleared w)
        (bind-some (find_and_remove_pending_connect wsi w) _ (none, w') (find_connect-none wsi w l)
          ∙ find_reconnect-some i wsi w' p e s k m)

  abbrev failed : World B → ℕ → AudioPipe B → World B
  failed w i p = store w i (set_state p lws_client_failed)

  retry-schedules :
      (i v : ℕ) (w : World B) (p : AudioPipe B)
      → w.pipes i ≡ some p
      → p.vhd ≡ some v
      → p.connection_attempts ≤ 3
      → retry_or_fail i w ≡ some (schedule i (failed w i p))
  unfolding retry_or_fail
  retry-schedules i v w p e k h =
      bind-some (w.pipes i) _ p e
      ∙ if-true {b = may_retry p} _ _ (ground arith)
      ∙ bind-some p.vhd _ v k

  retry-fails :
      (i : ℕ) (w : World B) (p : AudioPipe B)
      → w.pipes i ≡ some p
      → 3 < p.connection_attempts
      → retry_or_fail i w ≡ some (emit (failed w i p) (notifies i connect_fail))
  unfolding retry_or_fail
  retry-fails i w p e h =
      bind-some (w.pipes i) _ p e ∙ if-false {b = may_retry p} _ _ (ground arith)

  -- The world in which the failure of the new connection is handled.
  abbrev redialled_world : (w : World B) (i wsi : ℕ) → AudioPipe B → World B
  redialled_world w i wsi p = cleared (after_reconnect w i (some wsi) p)

  fail_round-retry :
      (i wsi n : ℕ) (w : World B) (v : Waits w i n)
      → fail_round i wsi w ≡ retry_or_fail i (redialled_world w i wsi v.pipe)
  unfolding fail_round
  fail_round-retry i wsi n w v =
      let p' = redialled v.pipe (some wsi) in
      bind-some (reconnect i (some wsi) w) (connection_error wsi)
        (after_reconnect w i (some wsi) v.pipe)
        (reconnect-some w i v.vhost (some wsi) v.pipe v.known v.has_vhost)
      ∙ connection_error-found i wsi (after_reconnect w i (some wsi) v.pipe) p'
          (update-same w.pipes i (some p')) refl refl v.no_connects
          (ap (λ js. js ++ i ∷ []) v.no_reconnects)

  abbrev last_pipe : (w : World B) (i wsi : ℕ) → AudioPipe B → World B
  last_pipe w i wsi p = failed (redialled_world w i wsi p) i (redialled p (some wsi))

  timers-after :
      (w : World B) (i wsi n : ℕ) (v : Waits w i n) → (last_pipe w i wsi v.pipe).timers ≡ []
  timers-after w i wsi n v = ap (remove i) v.timer ∙ remove_self i

  again-Waits :
      (w : World B) (i wsi n : ℕ) (v : Waits w i n)
      → Waits (schedule i (last_pipe w i wsi v.pipe)) i (n + 1)
  again-Waits w i wsi n v =
      let p' = set_state (redialled v.pipe (some wsi)) lws_client_failed in
      record {
        pipe = p';
        vhost = v.vhost;
        known = update-same (redialled_world w i wsi v.pipe).pipes i (some p');
        has_vhost = v.has_vhost;
        attempts = ap (λ (k : ℕ). k + 1) v.attempts;
        no_connects = refl;
        no_reconnects = refl;
        timer = ap (λ js. js ++ i ∷ []) (timers-after w i wsi n v);
      }

  -- CONNECT_FAIL is reported, and nothing else happens any more.
  abbrev pub GivesUp : ℕ → World B → Option (World B) → Type 0
  GivesUp i w none = ⊥
  GivesUp i w (some w') =
      (w'.log ≡ w.log ++ notifies i connect_fail ∷ [])
      × (w'.timers ≡ [])
      × (w'.pending_reconnects ≡ [])

  same_log-GivesUp :
      (i : ℕ) (w w' : World B) (m : Option (World B))
      → w'.log ≡ w.log
      → GivesUp i w' m
      → GivesUp i w m
  same_log-GivesUp i w w' none e h = h
  same_log-GivesUp i w w' (some u) e h =
      (h.0 ∙ ap (λ l. l ++ notifies i connect_fail ∷ []) e, h.1, h.2)

  last_round :
      (w : World B) (i wsi : ℕ)
      → (v : Waits w i 3)
      → fail_rounds i (wsi ∷ []) w
        ≡ some (emit (last_pipe w i wsi v.pipe) (notifies i connect_fail))
  unfolding fail_rounds
  last_round w i wsi v =
      let p' = redialled v.pipe (some wsi) in
      bind-some (fail_round i wsi w) (fail_rounds i [])
        (emit (last_pipe w i wsi v.pipe) (notifies i connect_fail))
        (fail_round-retry i wsi 3 w v
          ∙ retry-fails i (redialled_world w i wsi v.pipe) p' (update-same w.pipes i (some p'))
              (omega (arith, v.attempts)))

  next_round :
      (w : World B) (i wsi n : ℕ) (rest : List ℕ) (v : Waits w i n)
      → n ≤ 2
      → fail_rounds i (wsi ∷ rest) w ≡ fail_rounds i rest (schedule i (last_pipe w i wsi v.pipe))
  unfolding fail_rounds
  next_round w i wsi n rest v h =
      let p' = redialled v.pipe (some wsi) in
      bind-some (fail_round i wsi w) (fail_rounds i rest) (schedule i (last_pipe w i wsi v.pipe)) (
        fail_round-retry i wsi n w v
        ∙ retry-schedules i v.vhost (redialled_world w i wsi v.pipe) p'
            (update-same w.pipes i (some p')) v.has_vhost (omega (arith, v.attempts)))

  -- A pipe alone in the lists, with a vhost, whose reconnection timer runs after `n` attempts: when
  -- as many reconnections as are left to four attempts, at least one, run one after another and
  -- each connection fails, CONNECT_FAIL is reported exactly once, after the last one, without a
  -- fault, and no timer and no pending reconnection is left.
  pub fail_rounds-GivesUp :
      (wsis : List ℕ) (w : World B) (i n : ℕ)
      → Waits w i n
      → 0 < length wsis
      → n + length wsis ≡ 4
      → GivesUp i w (fail_rounds i wsis w)
  fail_rounds-GivesUp [] w i n v h e = absurd (omega arith)
  fail_rounds-GivesUp (wsi ∷ []) w i n v h e =
      let v' : Waits w i 3 = subst (Waits w i) (omega arith) v in
      subst (GivesUp i w) (sym (last_round w i wsi v')) (refl, timers-after w i wsi 3 v', refl)
  fail_rounds-GivesUp (wsi ∷ next ∷ rest) w i n v h e =
      subst (GivesUp i w) (sym (next_round w i wsi n (next ∷ rest) v (omega arith))) (
        same_log-GivesUp i w (schedule i (last_pipe w i wsi v.pipe))
          (fail_rounds i (next ∷ rest) (schedule i (last_pipe w i wsi v.pipe))) refl
          (fail_rounds-GivesUp (next ∷ rest) (schedule i (last_pipe w i wsi v.pipe)) i (n + 1)
            (again-Waits w i wsi n v) (omega arith) (omega arith)))
