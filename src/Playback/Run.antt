-- ===== src/Playback/Run.antt =====
-- Messages of the server and frames of the call in any order: what a session counts
-- (src/lws_glue.cpp, src/mod_audio_stream.c).
use mod_audio_stream.Common.{
  ◌*◌, ℕ, ◌+◌, ◌≡◌, sym, ap, subst, ◌∙◌, List, [], Option, true, none, some, arith, length, u32,
  leb, Bool-cases, inl, inr, AllResults, lookup-AllResults, bind-AllResults, result-AllResults,
}
use mod_audio_stream.SwitchBuffer.{SwitchBuffer, IsFifo}
use mod_audio_stream.AudioPipe.{AudioPipe}
use mod_audio_stream.Checkpoints.Chain.{nil}
use mod_audio_stream.Playback.{copy_into, Session, Services, new_session}
use mod_audio_stream.Playback.Incoming.{process_incoming_message}
use mod_audio_stream.Playback.Frames.{Frame, report_due, mix_samples, write_replace}
use mod_audio_stream.Playback.Account.{AtMost, AtMost-mono, Accounts}
use mod_audio_stream.Playback.Messages.{process_incoming_message-Accounts}
use mod_audio_stream.Playback.Replace.{taken, Drains, report_due-Drains}
use mod_audio_stream.Playback.Plays.{IsSmall, read_lengths}

module _ {B J R : Type 0} {o : SwitchBuffer B} (fifo : IsFifo o) (v : Services J R) where
  taken-Accounts :
      (s : Session B R) (f : Frame)
      → leb f.datalen (o.inuse s.write_buffer) ≡ true
      → IsSmall fifo s
      → Accounts fifo s
      → Accounts fifo (taken o f s)
  taken-Accounts s f there small a =
      let (within, got, left) = read_lengths fifo s f there in
      record {
        queue = a.queue;
        represents = a.represents;
        unlimited = fifo.max_len-read s.write_buffer f.datalen ∙ a.unlimited;
        balance = omega (arith, within, got, left, small, a.balance);
        reached = AtMost-mono _ _ a.queue (omega (arith, within, got, left, small)) a.reached;
      }

  drained-Accounts :
      (s t : Session B R)
      → Accounts fifo s
      → Drains (s.stream_input_played + length (fifo.contents s.write_buffer)) s t
      → Accounts fifo t
  drained-Accounts s t a d =
      let n = s.stream_input_played + length (fifo.contents s.write_buffer) in
      let same : t.stream_input_played + length (fifo.contents t.write_buffer) ≡ n =
        omega (arith, d.played, ap (λ b. length (fifo.contents b)) d.write_buffer) in
      record {
        queue = d.queue;
        represents = d.represents;
        unlimited = ap fifo.max_len d.write_buffer ∙ a.unlimited;
        balance = d.received ∙ a.balance ∙ ap (λ k. u32 k) (sym same);
        reached = subst (λ k. AtMost k d.queue) (sym same) d.within;
      }

  write_replace-Accounts :
      (fuel : ℕ) (f : Frame) (s : Session B R)
      → IsSmall fifo s
      → Accounts fifo s
      → AllResults (λ (r : Frame × Session B R). Accounts fifo r.1) (write_replace o v fuel f s)
  unfolding write_replace
  write_replace-Accounts fuel f s small a =
      let Q = λ (r : Frame × Session B R). Accounts fifo r.1 in
      elim (Bool-cases (leb f.datalen (o.inuse s.write_buffer))) [
        | inl there ↦
            let t = taken o f s in
            let b = taken-Accounts s f there small a in
            let len = length (o.read s.write_buffer f.datalen).0 in
            let n = t.stream_input_played + length (fifo.contents t.write_buffer) in
            rw there (
              lookup-AllResults Q
                (copy_into (2 * v.recommended_buffer_size) (o.read s.write_buffer f.datalen).0) _
                λ copied _. lookup-AllResults Q (mix_samples v f.samples copied) _ λ samples _.
                  bind-AllResults (Drains n t) Q (report_due v fuel len t) _
                    (report_due-Drains v fuel len n t b.queue b.represents b.reached)
                    λ t' d. drained-Accounts t t' b d)
        | inr short ↦ rw short a
      ]

  -- What may happen to a session.
  pub data Step : Session B R → Session B R → Type 0 where
    message :
        (fuel a : ℕ) (s t : Session B R) (text : List ℕ)
        → s.checkpoints.cells a ≡ none
        → process_incoming_message o v fuel a s text ≡ some t
        → Step s t
    frame :
        (fuel : ℕ) (f : Frame) (s : Session B R) (r : Frame × Session B R) (t : Session B R)
        → IsSmall fifo s
        → write_replace o v fuel f s ≡ some r
        → t ≡ r.1
        → Step s t

  pub data Steps (s : Session B R) : Session B R → Type 0 where
    here : Steps s s
    next : {t u : Session B R} → Steps s t → Step t u → Steps s u

  pub new_session-Accounts :
      (stream_id : List ℕ) (len : ℕ) (outbound : Option R) (p : AudioPipe B)
      → Accounts fifo (new_session o stream_id len outbound p)
  unfolding new_session
  new_session-Accounts stream_id len outbound p = record {
    queue = [];
    represents = record { chain = nil; tail = tt };
    unlimited = fifo.max_len-create len len 0;
    balance = omega (arith, ap (λ (l : List ℕ). length l) (fifo.contents-create len len 0));
    reached = tt;
  }

  pub Step-Accounts : {s t : Session B R} → Step s t → Accounts fifo s → Accounts fifo t
  Step-Accounts (message fuel a s t text fresh e) r =
      result-AllResults (Accounts fifo) _
        (process_incoming_message-Accounts fifo v fuel a s text fresh r) e
  Step-Accounts (frame fuel f s r t small e out) a = subst (Accounts fifo) (sym out) (
      result-AllResults (λ (r : Frame × Session B R). Accounts fifo r.1) _
        (write_replace-Accounts fuel f s small a) e)

  pub Steps-Accounts : {s t : Session B R} → Steps s t → Accounts fifo s → Accounts fifo t
  Steps-Accounts here a = a
  Steps-Accounts (next r st) a = Step-Accounts st (Steps-Accounts r a)

  -- Over a FreeSWITCH buffer that obeys the laws of a queue: after any sequence of messages of the
  -- server (each with an address for a new checkpoint that is free) and frames of the call (each
  -- while fewer than 2^32 bytes were played or stored) that ends without a fault, the bytes that a
  -- new session received are, modulo 2^32, those that it played and those that it stores, its
  -- checkpoints stand for a queue, and each of them lies within the bytes played and stored.
  pub run-Accounts :
      (stream_id : List ℕ) (len : ℕ) (outbound : Option R) (p : AudioPipe B) (t : Session B R)
      → Steps (new_session o stream_id len outbound p) t
      → Accounts fifo t
  run-Accounts stream_id len outbound p t r =
      Steps-Accounts r (new_session-Accounts stream_id len outbound p)
