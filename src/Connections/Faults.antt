-- ===== src/Connections/Faults.antt =====
-- A shutdown of src/audio_pipe.cpp that ends in the use of a deleted pipe.
pub mod Redial
use mod_audio_stream.Common.{
  ℕ, ◌≡◌, refl, ap, ◌∙◌, Bool, true, false, ◌||◌, List, [], ◌∷◌, ◌++◌, Option, none, some, arith,
  ◌==◌, ==_iff, if◌then◌else◌, if-true, if-false,
}
use mod_audio_stream.AudioPipe.{
  AudioPipe, LwsState, lws_client_connected, lws_client_disconnecting, same_state,
  connection_closed_gracefully,
}
use mod_audio_stream.Connections.{
  World, Effect, notifies, cancels_service, store, emit, add_pending_write, graceful_shutdown,
  delete_pipe, remove,
}
use mod_audio_stream.Common.{◌>>=◌, update}
use mod_audio_stream.Common.{bind-some, bind-none, update-same}
use mod_audio_stream.Connections.Process.{in_state, ask_all, process_pending_writes}
use mod_audio_stream.Connections.Callback.{close_pipe, closed, dispose}

bind_all-none :
    {A C : Type 0} (m : Option A) (f : A → Option C) → ((a : A) → f a ≡ none) → (m >>= f) ≡ none
bind_all-none none f h = refl
bind_all-none (some a) f h = h a

module _ {B : Type 0} where
  in_state-none :
      (s : LwsState) (is : List ℕ) (i : ℕ) (w : World B)
      → w.pipes i ≡ none
      → in_state s (is ++ i ∷ []) w ≡ none
  unfolding in_state
  in_state-none s [] i w e = bind-none (w.pipes i) _ e
  in_state-none s (j ∷ is) i w e =
      bind_all-none (w.pipes j) _
        (λ p. bind-none (in_state s (is ++ i ∷ []) w) _ (in_state-none s is i w e))

  process_pending_writes-none :
      (is : List ℕ) (i : ℕ) (w : World B)
      → w.pipes i ≡ none
      → w.pending_writes ≡ is ++ i ∷ []
      → process_pending_writes w ≡ none
  unfolding process_pending_writes
  process_pending_writes-none is i w e k =
      bind-none (in_state lws_client_connected w.pending_writes w) _ (
        ap (λ js. in_state lws_client_connected js w) k
        ∙ in_state-none lws_client_connected is i w e)

  abbrev shutting : AudioPipe B → ℕ → AudioPipe B
  shutting p now = record p { graceful_shutdown = true; graceful_shutdown_at = now }

  abbrev after_shutdown : World B → ℕ → ℕ → AudioPipe B → World B
  after_shutdown w i now p =
      emit (record (store w i (shutting p now)) { pending_writes = w.pending_writes ++ i ∷ [] })
        cancels_service

  graceful_shutdown-some :
      (w : World B) (i now v : ℕ) (p : AudioPipe B)
      → w.pipes i ≡ some p
      → p.vhd ≡ some v
      → graceful_shutdown i now w ≡ some (after_shutdown w i now p)
  unfolding graceful_shutdown add_pending_write
  graceful_shutdown-some w i now v p e k =
      bind-some (w.pipes i) _ p e
      ∙ bind-some (update w.pipes i (some (shutting p now)) i) _ (shutting p now)
          (update-same w.pipes i (some (shutting p now)))
      ∙ bind-some p.vhd _ v k

  abbrev closed_gracefully : World B → ℕ → ℕ → World B
  closed_gracefully w wsi i = emit w (notifies i connection_closed_gracefully)

  closed-some :
      (w : World B) (i wsi : ℕ) (p : AudioPipe B)
      → w.user wsi ≡ some i
      → w.pipes i ≡ some p
      → p.graceful_shutdown ≡ true
      → closed wsi w ≡ some (dispose wsi i (closed_gracefully w wsi i))
  unfolding closed close_pipe
  closed-some w i wsi p e k l =
      ap (λ u. elim u [ none ↦ some w | some i ↦ close_pipe wsi i w ]) e
      ∙ bind-some (w.pipes i) _ p k
      ∙ if-true _ _ (ap (λ b. b || same_state p.state lws_client_disconnecting) l)

  dispose-none : (w : World B) (i wsi : ℕ) → (dispose wsi i w).pipes i ≡ none
  unfolding dispose delete_pipe
  dispose-none w i wsi = update-same w.pipes i none

  dispose-writes : (w : World B) (i wsi : ℕ) → (dispose wsi i w).pending_writes ≡ w.pending_writes
  unfolding dispose delete_pipe
  dispose-writes w i wsi = refl

  -- A living pipe with a vhost and a connection that is told to shut down, whose connection closes
  -- before the service thread has emptied pendingWrites, is deleted while it is in that list: the
  -- next processPendingWrites uses it, which is a fault.
  pub shutdown-closed_fault :
      (w : World B) (i wsi now v : ℕ) (p : AudioPipe B)
      → w.pipes i ≡ some p
      → p.vhd ≡ some v
      → w.user wsi ≡ some i
      → (graceful_shutdown i now w >>= closed wsi >>= process_pending_writes) ≡ none
  shutdown-closed_fault w i wsi now v p e k l =
      let w' = after_shutdown w i now p in
      let w'' = closed_gracefully w' wsi i in
      ap (λ r. r >>= closed wsi >>= process_pending_writes) (graceful_shutdown-some w i now v p e k)
      ∙ ap (λ r. r >>= process_pending_writes)
          (closed-some w' i wsi (shutting p now) l (update-same w.pipes i (some (shutting p now)))
            refl)
      ∙ process_pending_writes-none w.pending_writes i (dispose wsi i w'') (dispose-none w'' i wsi)
          (dispose-writes w'' i wsi)
