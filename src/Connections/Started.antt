-- ===== src/Connections/Started.antt =====
-- CONNECT_SUCCESS is reported once for a pipe, when it is first connected (src/audio_pipe.cpp): the
-- flag m_stream_started says whether it was.
pub mod Pending
pub mod Handlers
pub mod Runs
use mod_audio_stream.Common.{
  ℕ, zero, suc, ◌+◌, ◌≡◌, ◌≢◌, refl, sym, ap, ◌∙◌, Bool, true, false, List, [], ◌∷◌, ◌++◌, Option,
  none, some, arith, ◌==◌, ==_iff, inl, inr, Bool-cases, if◌then◌else◌, append_assoc,
}
use mod_audio_stream.AudioPipe.{AudioPipe, NotifyEvent, connect_success}
use mod_audio_stream.Connections.{
  World, Effect, notifies, asks_writable, cancels_service, store, emit, delete_pipe,
}
use mod_audio_stream.Common.{update}

-- How often CONNECT_SUCCESS was reported for the pipe `i`.
abbrev pub success_of : ℕ → Effect → ℕ
success_of i (notifies j connect_success) = if j == i then 1 else 0
success_of i _ = 0

abbrev pub successes : ℕ → List Effect → ℕ
successes i [] = 0
successes i (e ∷ es) = success_of i e + successes i es

abbrev pub flag : Bool → ℕ
flag true = 1
flag false = 0

successes-append :
    (i : ℕ) (es fs : List Effect) → successes i (es ++ fs) ≡ successes i es + successes i fs
successes-append i [] fs = omega arith
successes-append i (e ∷ es) fs = omega (arith, successes-append i es fs)

module _ {B : Type 0} where
  -- For each pipe that is alive, CONNECT_SUCCESS was reported once if its stream has started, and
  -- else never.
  abbrev pub ReportsOnce : World B → Type 0
  ReportsOnce w =
      (i : ℕ) (p : AudioPipe B) → w.pipes i ≡ some p → successes i w.log ≡ flag p.stream_started

  pub store-ReportsOnce :
      (w : World B) (i : ℕ) (p p' : AudioPipe B)
      → ReportsOnce w
      → w.pipes i ≡ some p
      → p'.stream_started ≡ p.stream_started
      → ReportsOnce (store w i p')
  store-ReportsOnce w i p p' h e k j q l = ground (arith, h i p e, h j q, ==_iff i j)

  pub emit-ReportsOnce :
      (w : World B) (e : Effect)
      → ReportsOnce w
      → ((i : ℕ) → success_of i e ≡ 0)
      → ReportsOnce (emit w e)
  emit-ReportsOnce w e h k j q l = omega (arith, successes-append j w.log (e ∷ []), h j q l, k j)

  pub delete_pipe-ReportsOnce :
      (i : ℕ) (w : World B) → ReportsOnce w → ReportsOnce (delete_pipe i w)
  unfolding delete_pipe
  delete_pipe-ReportsOnce i w h j q l = ground (arith, h j q, ==_iff i j)

  -- The report itself, with the flag set.
  pub report-ReportsOnce :
      (w : World B) (i : ℕ) (p p' : AudioPipe B)
      → ReportsOnce w
      → w.pipes i ≡ some p
      → p.stream_started ≡ false
      → p'.stream_started ≡ true
      → ReportsOnce (store (emit w (notifies i connect_success)) i p')
  report-ReportsOnce w i p p' h e k k' j q l = ground (
    arith,
    successes-append j w.log (notifies i connect_success ∷ []),
    h i p e,
    h j q,
    ==_iff i j,
  )
