-- ===== src/AdaptiveBuffer/Runs.antt =====
-- The buffers of src/adaptive_buffer.cpp after any calls.
use mod_audio_stream.Common.{
  ℕ, ◌+◌, ◌^◌, ◌<◌, ◌≡◌, refl, sym, subst, ◌∙◌, List, [], ◌∷◌, Bool, true, false, Option, none,
  some, inl, inr, arith, String, length, if◌then◌else◌, Option-cases,
}
use mod_audio_stream.Common.Maps.{
  find, AllValues, find-AllValues, assign-AllValues, erase-AllValues,
}
use mod_audio_stream.Doubles.{Doubles}
use mod_audio_stream.MessageQueue.{Priority, Message}
use mod_audio_stream.AdaptiveBuffer.Bounds.{
  Fits, Fits-mono, check_buffer_conditions-Fits, update-Fits, enqueue_context-Fits,
  take_message-Fits, flush_context-Fits, adapt_buffer_size-Fits,
}
use mod_audio_stream.AdaptiveBuffer.{
  monitor_context, monitor_all, monitor, new_manager, BufferEvent, fire, keep, state_event,
  create_buffer, destroy_buffer, enqueue_message, dequeue_message, flush_buffer,
  set_adaptive_enabled, update_network_condition, adapt_buffer, BufferConfig, BufferContext,
  BufferManager, NetworkCondition, check_buffer_conditions, update_buffer_statistics,
  enqueue_context, take_message, flush_context, adapt_buffer_size,
}

-- A call of one of the methods that change a buffer, at a time.
pub data Call (D : Type 0) : Type 0 where
  create : String → BufferConfig D → ℕ → Call D
  destroy : String → Call D
  enqueue : String → Message → ℕ → Call D
  dequeue : String → ℕ → Call D
  flush : String → Priority → Call D
  enable : String → Bool → Call D
  condition : String → NetworkCondition D → ℕ → Call D
  adapt : String → ℕ → Call D
  monitoring : ℕ → Call D

module _ {D : Type 0} (d : Doubles D) where
  pub call : Call D → BufferManager D → BufferManager D
  call (create id config now) m = create_buffer d id config now m
  call (destroy id) m = (destroy_buffer id m).1
  call (enqueue id x now) m = (enqueue_message d id x now m).1
  call (dequeue id now) m = (dequeue_message d id now m).1
  call (flush id least) m = (flush_buffer id least m).1
  call (enable id on) m = set_adaptive_enabled id on m
  call (condition id n now) m = update_network_condition d id n now m
  call (adapt id now) m = (adapt_buffer d id now m).1
  call (monitoring now) m = monitor d now m

  unfoldable pub calls : List (Call D) → BufferManager D → BufferManager D
  unfolding call
  calls [] m = m
  calls (k ∷ ks) m = calls ks (call k m)

  abbrev pub AllFit : ℕ → BufferManager D → Type 0
  AllFit n m = AllValues (Fits n) m.buffers

  AllFit-mono :
      (n : ℕ) (r : List (String × BufferContext D))
      → AllValues (Fits n) r
      → AllValues (Fits (n + 1)) r
  AllFit-mono n [] h = tt
  AllFit-mono n ((k, c) ∷ r) h = (Fits-mono (n + 1) (omega arith) h.0, AllFit-mono n r h.1)

  fire-buffers : (e : Option BufferEvent) (m : BufferManager D) → (fire e m).buffers ≡ m.buffers
  fire-buffers none m = refl
  fire-buffers (some e) m = ground arith

  -- A context that fits is put in the place of another one, and an event may be fired.
  put_lem :
      (n : ℕ) (id : String) (c : BufferContext D) (e : Option BufferEvent) (m : BufferManager D)
      → Fits (n + 1) c
      → AllFit n m
      → AllFit (n + 1) (fire e (keep id c m))
  put_lem n id c e m f h =
      subst (AllValues (Fits (n + 1))) (sym (fire-buffers e (keep id c m)))
        (assign-AllValues (Fits (n + 1)) id c m.buffers f (AllFit-mono n m.buffers h))

  later : (n : ℕ) (c : BufferContext D) → Fits n c → Fits (n + 1) c
  later n c f = Fits-mono (n + 1) (omega arith) f

  found :
      (n : ℕ) (id : String) (m : BufferManager D) (c : BufferContext D)
      → AllFit n m
      → find id m.buffers ≡ some c
      → Fits n c
  found n id m c h e = find-AllValues (Fits n) id m.buffers c h e

  enqueue-AllFit :
      (n : ℕ) (id : String) (x : Message) (now : ℕ) (m : BufferManager D)
      → n + 1 < 2 ^ 53
      → AllFit n m
      → AllFit (n + 1) (enqueue_message d id x now m).1
  unfolding enqueue_message
  enqueue-AllFit n id x now m small h = elim (Option-cases (find id m.buffers)) [
    | inl nothing ↦ rw (nothing, enqueue_message) (AllFit-mono n m.buffers h)
    | inr (c, e) ↦
        let (took, c') = enqueue_context d now x c in
        rw (e, enqueue_message)
          (put_lem n id c' (if took then state_event c c' else none) m
            (enqueue_context-Fits d n now x c small (found n id m c h e)) h)
  ]

  dequeue-AllFit :
      (n : ℕ) (id : String) (now : ℕ) (m : BufferManager D)
      → n + 1 < 2 ^ 53
      → AllFit n m
      → AllFit (n + 1) (dequeue_message d id now m).1
  unfolding dequeue_message
  dequeue-AllFit n id now m small h = elim (Option-cases (find id m.buffers)) [
    | inl nothing ↦ rw (nothing, dequeue_message) (AllFit-mono n m.buffers h)
    | inr (c, e) ↦
        let c' = (take_message d now c).1 in
        rw (e, dequeue_message)
          (put_lem n id c' none m
            (later n c' (take_message-Fits d n now c (omega (arith, small)) (found n id m c h e)))
            h)
  ]

  flush-AllFit :
      (n : ℕ) (id : String) (least : Priority) (m : BufferManager D)
      → AllFit n m
      → AllFit (n + 1) (flush_buffer id least m).1
  unfolding flush_buffer
  flush-AllFit n id least m h = elim (Option-cases (find id m.buffers)) [
    | inl nothing ↦ rw (nothing, flush_buffer) (AllFit-mono n m.buffers h)
    | inr (c, e) ↦
        let c' = flush_context least c in
        rw (e, flush_buffer)
          (put_lem n id c' none m (later n c' (flush_context-Fits d n least c (found n id m c h e)))
            h)
  ]

  enable-AllFit :
      (n : ℕ) (id : String) (on : Bool) (m : BufferManager D)
      → AllFit n m
      → AllFit (n + 1) (set_adaptive_enabled id on m)
  unfolding set_adaptive_enabled
  enable-AllFit n id on m h = elim (Option-cases (find id m.buffers)) [
    | inl nothing ↦ rw (nothing, set_adaptive_enabled) (AllFit-mono n m.buffers h)
    | inr (c, e) ↦
        let c' = record c { adaptive_enabled = on } in
        let f = found n id m c h e in
        rw (e, set_adaptive_enabled)
          (put_lem n id c' none m
            (later n c' (record {
              few = f.few;
              counted = f.counted;
              sized = f.sized;
              peak = f.peak;
              bounded = f.bounded;
            }))
            h)
  ]

  adapt-AllFit :
      (n : ℕ) (id : String) (now : ℕ) (m : BufferManager D)
      → AllFit n m
      → AllFit (n + 1) (adapt_buffer d id now m).1
  unfolding adapt_buffer
  adapt-AllFit n id now m h = elim (Option-cases (find id m.buffers)) [
    | inl nothing ↦ rw (nothing, adapt_buffer) (AllFit-mono n m.buffers h)
    | inr (c, e) ↦
        let (c', event) = adapt_buffer_size d now c in
        rw (e, adapt_buffer)
          (put_lem n id c' event m
            (later n c' (adapt_buffer_size-Fits d n now c (found n id m c h e))) h)
  ]

  adapted-Fits :
      (n now : ℕ) (c : BufferContext D) (on : Bool)
      → Fits n c
      → Fits n (if on then adapt_buffer_size d now c else (c, none)).0
  adapted-Fits n now c true f = adapt_buffer_size-Fits d n now c f
  adapted-Fits n now c false f = f

  condition-AllFit :
      (n : ℕ) (id : String) (net : NetworkCondition D) (now : ℕ) (m : BufferManager D)
      → AllFit n m
      → AllFit (n + 1) (update_network_condition d id net now m)
  unfolding update_network_condition
  condition-AllFit n id net now m h = elim (Option-cases (find id m.buffers)) [
    | inl nothing ↦ rw (nothing, update_network_condition) (AllFit-mono n m.buffers h)
    | inr (c, e) ↦
        let f = found n id m c h e in
        let told : BufferContext D = record c { network_condition = net } in
        let (c', event) =
          if c.adaptive_enabled then adapt_buffer_size d now told else (told, none) in
        rw (e, update_network_condition)
          (put_lem n id c' event m
            (later n c' (
              adapted-Fits n now told c.adaptive_enabled (record {
                few = f.few;
                counted = f.counted;
                sized = f.sized;
                peak = f.peak;
                bounded = f.bounded;
              })))
            h)
  ]

  create-AllFit :
      (n : ℕ) (id : String) (config : BufferConfig D) (now : ℕ) (m : BufferManager D)
      → AllFit n m
      → AllFit (n + 1) (create_buffer d id config now m)
  unfolding create_buffer
  create-AllFit n id config now m h =
      assign-AllValues (Fits (n + 1)) id _ m.buffers
        (record {
          few = omega arith;
          counted = refl;
          sized = omega arith;
          peak = omega arith;
          bounded = omega arith;
        })
        (AllFit-mono n m.buffers h)

  destroy-AllFit :
      (n : ℕ) (id : String) (m : BufferManager D)
      → AllFit n m
      → AllFit (n + 1) (destroy_buffer id m).1
  unfolding destroy_buffer
  destroy-AllFit n id m h = elim (Option-cases (find id m.buffers)) [
    | inl nothing ↦ rw (nothing, destroy_buffer) (AllFit-mono n m.buffers h)
    | inr (c, e) ↦
        rw (e, destroy_buffer)
          (erase-AllValues (Fits (n + 1)) id m.buffers (AllFit-mono n m.buffers h))
  ]

  monitored-Fits :
      (n now : ℕ) (c : BufferContext D) → n < 2 ^ 53 → Fits n c → Fits n (monitor_context d now c).0
  unfolding monitor_context
  monitored-Fits n now c small f =
      let checked = check_buffer_conditions (update_buffer_statistics d now c) in
      adapted-Fits n now checked c.adaptive_enabled (
        check_buffer_conditions-Fits n (update_buffer_statistics d now c)
          (update-Fits d n now c small f.few f.counted f.bounded))

  monitor_all-AllFit :
      (n now : ℕ) (r : List (String × BufferContext D)) (m : BufferManager D)
      → n + 1 < 2 ^ 53
      → AllValues (Fits n) r
      → AllFit (n + 1) m
      → AllFit (n + 1) (monitor_all d now r m)
  unfolding monitor_all
  monitor_all-AllFit n now [] m small h k = k
  monitor_all-AllFit n now ((id, c) ∷ r) m small h k =
      let (c', changed, resized) = monitor_context d now c in
      let f = later n c' (monitored-Fits n now c (omega (arith, small)) h.0) in
      let kept = assign-AllValues (Fits (n + 1)) id c' m.buffers f k in
      let m' = keep id c' m in
      monitor_all-AllFit n now r (fire resized (fire changed m')) small h.1 (
        subst (AllValues (Fits (n + 1)))
          (sym (fire-buffers resized (fire changed m') ∙ fire-buffers changed m')) kept)

  monitor-AllFit :
      (n now : ℕ) (m : BufferManager D)
      → n + 1 < 2 ^ 53
      → AllFit n m
      → AllFit (n + 1) (monitor d now m)
  unfolding monitor
  monitor-AllFit n now m small h =
      monitor_all-AllFit n now m.buffers m small h (AllFit-mono n m.buffers h)

  call-AllFit :
      (n : ℕ) (k : Call D) (m : BufferManager D)
      → n + 1 < 2 ^ 53
      → AllFit n m
      → AllFit (n + 1) (call k m)
  unfolding call
  call-AllFit n (create id config now) m small h = create-AllFit n id config now m h
  call-AllFit n (destroy id) m small h = destroy-AllFit n id m h
  call-AllFit n (enqueue id x now) m small h = enqueue-AllFit n id x now m small h
  call-AllFit n (dequeue id now) m small h = dequeue-AllFit n id now m small h
  call-AllFit n (flush id least) m small h = flush-AllFit n id least m h
  call-AllFit n (enable id on) m small h = enable-AllFit n id on m h
  call-AllFit n (condition id net now) m small h = condition-AllFit n id net now m h
  call-AllFit n (adapt id now) m small h = adapt-AllFit n id now m h
  call-AllFit n (monitoring now) m small h = monitor-AllFit n now m small h

  calls-AllFit :
      (n : ℕ) (ks : List (Call D)) (m : BufferManager D)
      → n + length ks < 2 ^ 53
      → AllFit n m
      → AllFit (n + length ks) (calls ks m)
  unfolding calls
  calls-AllFit n [] m small h = subst (λ k. AllFit k m) (omega arith) h
  calls-AllFit n (k ∷ ks) m small h =
      subst (λ j. AllFit j (calls ks (call k m))) (omega arith)
        (calls-AllFit (n + 1) ks (call k m) (omega arith) (call-AllFit n k m (omega arith) h))

  -- After any fewer than 2^53 calls that create, destroy, fill, read, flush, configure, adapt and
  -- monitor the buffers of a new manager, at any times, each buffer reports the exact number of its
  -- messages, at least 1024 bytes for each and a maximal size that is no less than its size, and
  -- its messages below high priority, at 1024 bytes each, take fewer than 1024 bytes more than the
  -- size that it is allowed.
  pub calls-Fit :
      (ks : List (Call D)) (config : BufferConfig D)
      → length ks < 2 ^ 53
      → AllValues (Fits (length ks)) (calls ks (new_manager config)).buffers
  calls-Fit ks config small =
      subst (λ n. AllValues (Fits n) (calls ks (new_manager config)).buffers) (omega arith)
        (calls-AllFit 0 ks (new_manager config) (omega (arith, small)) tt)
