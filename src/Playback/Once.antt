-- ===== src/Playback/Once.antt =====
-- How often a session complains of what the server sends (sendIncorrectPayloadEvent of
-- src/lws_glue.cpp).
use mod_audio_stream.Common.{
  ◌*◌, ℕ, zero, suc, ◌+◌, ◌≤◌, ◌≡◌, refl, sym, ap, subst, List, [], ◌∷◌, ◌++◌, Bool, true, false,
  Option, none, some, inl, inr, arith, length, leb, Option-cases, Bool-cases, AllResults,
  lookup-AllResults, bind-AllResults, result-AllResults,
}
use mod_audio_stream.SwitchBuffer.{SwitchBuffer, IsFifo}
use mod_audio_stream.AudioPipe.{AudioPipe}
use mod_audio_stream.Checkpoints.{Checkpoint, Checkpoints, remove_first}
use mod_audio_stream.Playback.{
  copy_into, Session, Services, Call, add_event_buffer, response_handler, invalid_stream_input,
  cleared_audio, played, transcription_received, note, queue_event, incorrect_payload,
  invalid_reason, notify_invalid, report_invalid, new_session,
}
use mod_audio_stream.Playback.Incoming.{after_clear, store_bytes, cleared_text}
use mod_audio_stream.Playback.Frames.{
  Frame, is_ahead, send_played, played_stream, stream_ws_send_played_event, report_played,
  report_due, mix_samples, write_replace,
}
use mod_audio_stream.Playback.Due.{turn, round, report_due-first}
use mod_audio_stream.Playback.Closed.{Closed, process_incoming_message-Kept}
use mod_audio_stream.Playback.Replace.{taken}
use mod_audio_stream.Playback.Run.{Step, message, frame, Steps, here, next}

-- The complaints among some calls.
abbrev pub complaint : Call → ℕ
complaint (response_handler invalid_stream_input text) = 1
complaint (response_handler cleared_audio text) = 0
complaint (response_handler played text) = 0
complaint (response_handler transcription_received text) = 0
complaint (add_event_buffer text) = 0

abbrev pub complaints : List Call → ℕ
complaints [] = 0
complaints (c ∷ calls) = complaint c + complaints calls

complaints-append : (xs ys : List Call) → complaints (xs ++ ys) ≡ complaints xs + complaints ys
complaints-append [] ys = omega arith
complaints-append (c ∷ xs) ys = omega (arith, complaints-append xs ys)

abbrev allowance : Bool → ℕ
allowance true = 1
allowance false = 0

allowance-le-one : (b : Bool) → allowance b ≤ 1
allowance-le-one true = omega arith
allowance-le-one false = omega arith

module _ {B R : Type 0} where
  abbrev Modest : Session B R → Type 0
  Modest s = complaints s.calls ≤ allowance s.invalid_stream_input_notified

  note_lem :
      (c : Call) (s : Session B R) → complaints (note c s).calls ≡ complaints s.calls + complaint c
  note_lem c s = omega (arith, complaints-append s.calls (c ∷ []))

module _ {B J R : Type 0} (v : Services J R) where
  notify_invalid-complaints :
      (p : AudioPipe B) (reason : List ℕ) (s : Session B R)
      → (complaints (notify_invalid v p reason s).calls ≤ complaints s.calls + 1)
        × ((notify_invalid v p reason s).invalid_stream_input_notified
            ≡ s.invalid_stream_input_notified)
  unfolding notify_invalid
  notify_invalid-complaints p reason s =
      elim (v.print (invalid_reason p reason))
        as (λ o.
          let t : Session B R = elim o [
            | none ↦ s
            | some text ↦ note (response_handler invalid_stream_input text) s
          ] in
          (complaints t.calls ≤ complaints s.calls + 1)
          × (t.invalid_stream_input_notified ≡ s.invalid_stream_input_notified)) [
            | none ↦ (omega arith, refl)
            | some text ↦
                (omega (arith, note_lem (response_handler invalid_stream_input text) s), refl)
          ]

  report_invalid-complaints :
      (p : AudioPipe B) (payload reason : List ℕ) (s : Session B R)
      → (complaints (report_invalid v p payload reason s).calls ≤ complaints s.calls + 1)
        × ((report_invalid v p payload reason s).invalid_stream_input_notified
            ≡ s.invalid_stream_input_notified)
  unfolding report_invalid
  report_invalid-complaints p payload reason s =
      elim (v.print (incorrect_payload p payload))
        as (λ o.
          let t : Session B R = elim o [
            | none ↦ s
            | some text ↦ notify_invalid v p reason (queue_event p text s)
          ] in
          (complaints t.calls ≤ complaints s.calls + 1)
          × (t.invalid_stream_input_notified ≡ s.invalid_stream_input_notified)) [
            | none ↦ (omega arith, refl)
            | some text ↦
                let (few, same) = notify_invalid-complaints p reason (queue_event p text s) in
                (omega (arith, few, note_lem (add_event_buffer text) s), same)
          ]

  send_played-Modest :
      (p : AudioPipe B) (name : List ℕ) (s : Session B R)
      → Modest s
      → Modest (send_played v p name s)
  unfolding send_played
  send_played-Modest p name s m =
      elim (v.print (played_stream p s.stream_id name))
        as (λ o.
          let t : Session B R = elim o [ none ↦ s | some text ↦ queue_event p text s ] in
          Modest t) [ none ↦ m | some text ↦ omega (arith, note_lem (add_event_buffer text) s) ]

  sent-Modest :
      (q : Option (AudioPipe B)) (name : List ℕ) (s : Session B R)
      → Modest s
      → (let t : Session B R = elim q [ none ↦ s | some p ↦ send_played v p name s ] in Modest t)
  sent-Modest none name s m = m
  sent-Modest (some p) name s m = send_played-Modest p name s m

  report_played-Modest :
      (name : List ℕ) (s : Session B R) → Modest s → Modest (report_played v name s)
  unfolding report_played
  report_played-Modest name s m =
      omega (
        arith,
        sent-Modest s.audio_pipe name s m,
        note_lem _ (stream_ws_send_played_event v name s),
      )

  turn-Modest :
      (fuel len : ℕ) (s : Session B R) (node : Checkpoint)
      → ((t : Session B R) → Modest t → AllResults Modest (report_due v fuel len t))
      → Modest s
      → (ahead : Bool) → AllResults Modest (turn v fuel len s node ahead)
  turn-Modest fuel len s node others m true = m
  turn-Modest fuel len s node others m false =
      lookup-AllResults Modest (remove_first s.checkpoints) _ λ c e.
        others (record (report_played v node.name s) { checkpoints = c })
          (report_played-Modest node.name s m)

  report_due-Modest :
      (fuel len : ℕ) (s : Session B R) → Modest s → AllResults Modest (report_due v fuel len s)
  unfolding report_due
  report_due-Modest zero len s m = tt
  report_due-Modest (suc fuel) len s m =
      let by =
        λ (p : Option ℕ) (e : s.checkpoints.first ≡ p)
            (r : AllResults Modest (round v fuel len s p)).
          subst (AllResults Modest) (sym (report_due-first v fuel len s p e)) r in
      elim (Option-cases s.checkpoints.first) [
        | inl e ↦ by none e m
        | inr (h, e) ↦ by (some h) e (
            lookup-AllResults Modest (s.checkpoints.cells h) _ λ node _.
              turn-Modest fuel len s node (report_due-Modest fuel len) m
                (is_ahead s.stream_input_played len node.position))
      ]

module _ {B J R : Type 0} (o : SwitchBuffer B) (v : Services J R) where
  write_replace-Modest :
      (fuel : ℕ) (f : Frame) (s : Session B R)
      → Modest s
      → AllResults (λ (r : Frame × Session B R). Modest r.1) (write_replace o v fuel f s)
  unfolding write_replace
  write_replace-Modest fuel f s m =
      let Q = λ (r : Frame × Session B R). Modest r.1 in
      let bytes = (o.read s.write_buffer f.datalen).0 in
      elim (Bool-cases (leb f.datalen (o.inuse s.write_buffer))) [
        | inl there ↦ rw there (
            lookup-AllResults Q (copy_into (2 * v.recommended_buffer_size) bytes) _ λ copied _.
              lookup-AllResults Q (mix_samples v f.samples copied) _ λ samples _.
                bind-AllResults Modest Q (report_due v fuel (length bytes) (taken o f s)) _
                  (report_due-Modest v fuel (length bytes) (taken o f s) m) λ t d. d)
        | inr short ↦ rw short m
      ]

  told-Modest :
      (s : Session B R) (p : AudioPipe B) (payload reason : List ℕ)
      → s.invalid_stream_input_notified ≡ false
      → Modest s
      → Modest
          (report_invalid v p payload reason (record s { invalid_stream_input_notified = true }))
  told-Modest s p payload reason new m =
      let (few, same) =
        report_invalid-complaints v p payload reason
          (record s { invalid_stream_input_notified = true }) in
      omega (arith, few, ap allowance same, ap allowance new, m)

  cleared-Modest :
      (s : Session B R) (c : Checkpoints) (p : AudioPipe B)
      → Modest s
      → Modest (after_clear o s c p)
  cleared-Modest s c p m =
      let text = add_event_buffer (cleared_text p.sequence_number s.stream_id) in
      omega (arith, note_lem text s, note_lem _ (note text s))

  Modest-Closed : Closed o v Modest
  unfolding store_bytes
  Modest-Closed = record {
    stored = λ s r bytes m. m;
    told = told-Modest;
    added = λ a s name c fresh e m. m;
    cleared = λ s c p empty m. cleared-Modest s c p m;
    transcribed =
        λ s text m. omega (arith, note_lem (response_handler transcription_received text) s);
  }

module _ {B J R : Type 0} {o : SwitchBuffer B} (fifo : IsFifo o) (v : Services J R) where
  Step-Modest : {s t : Session B R} → Step fifo v s t → Modest s → Modest t
  Step-Modest (message fuel a s t text fresh e) m =
      result-AllResults Modest _
        (process_incoming_message-Kept o v Modest (Modest-Closed o v) fuel a s text fresh m).all e
  Step-Modest (frame fuel f s r t small e out) m = subst Modest (sym out) (
      result-AllResults (λ (r : Frame × Session B R). Modest r.1) _
        (write_replace-Modest o v fuel f s m) e)

  Steps-Modest : {s t : Session B R} → Steps fifo v s t → Modest s → Modest t
  Steps-Modest here m = m
  Steps-Modest (next r st) m = Step-Modest st (Steps-Modest r m)

  -- After any sequence of messages of the server (each with an address for a new checkpoint that is
  -- free) and frames of the call (each while fewer than 2^32 bytes were played or stored) that ends
  -- without a fault, a new session has given its response handler at most one
  -- EVENT_INVALID_STREAM_INPUT.
  pub complaints-le-one :
      (stream_id : List ℕ) (len : ℕ) (outbound : Option R) (p : AudioPipe B) (t : Session B R)
      → Steps fifo v (new_session o stream_id len outbound p) t
      → complaints t.calls ≤ 1
  unfolding new_session
  complaints-le-one stream_id len outbound p t r =
      omega (arith, Steps-Modest r (omega arith), allowance-le-one t.invalid_stream_input_notified)
