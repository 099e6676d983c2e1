-- ===== src/Playback/Messages.antt =====
-- The account of a session through processIncomingMessage of src/lws_glue.cpp.
use mod_audio_stream.Common.{
  ℕ, ◌≡◌, sym, ap, subst, ◌∙◌, List, [], ◌∷◌, ◌++◌, true, none, some, arith, length, length-append,
  All-append, AllResults, some_inj,
}
use mod_audio_stream.SwitchBuffer.{SwitchBuffer, IsFifo}
use mod_audio_stream.AudioPipe.{AudioPipe}
use mod_audio_stream.Checkpoints.{Checkpoints, add_checkpoint}
use mod_audio_stream.Checkpoints.Chain.{Chain, nil, free_is_new}
use mod_audio_stream.Checkpoints.Refine.{Represents, add_checkpoint-Gives, cell}
use mod_audio_stream.Playback.{Session, Services, Untouched, report_invalid, notify_invalid}
use mod_audio_stream.Playback.Clear.{IsCleared}
use mod_audio_stream.Playback.Incoming.{store_bytes, process_incoming_message}
use mod_audio_stream.Playback.Account.{AtMost-mono, AccountOf, Accounts, Untouched-Accounts, room}
use mod_audio_stream.Playback.Closed.{Closed, process_incoming_message-Kept}

module _ {B J R : Type 0} {o : SwitchBuffer B} (fifo : IsFifo o) (v : Services J R) where
  pub store_bytes-Accounts :
      (s : Session B R) (d : List ℕ) → Accounts fifo s → Accounts fifo (store_bytes o v s d)
  unfolding store_bytes
  store_bytes-Accounts s d a =
      let put = fifo.contents-write s.write_buffer d (room fifo s.write_buffer d a.unlimited) in
      let grown =
        ap (λ (l : List ℕ). length l) put ∙ length-append (fifo.contents s.write_buffer) d in
      record {
        queue = a.queue;
        represents = a.represents;
        unlimited = fifo.max_len-write s.write_buffer d ∙ a.unlimited;
        balance = omega (arith, grown, a.balance);
        reached = AtMost-mono _ _ a.queue (omega (arith, grown)) a.reached;
      }

  zeroed-Accounts :
      (s : Session B R) (c : Checkpoints)
      → IsCleared c
      → Accounts fifo s
      → AccountOf fifo (o.zero_out s.write_buffer) 0 0 c
  zeroed-Accounts s c empty a = record {
    queue = [];
    represents = record { chain = subst (λ p. Chain c.cells p []) (sym empty) nil; tail = tt };
    unlimited = fifo.max_len-zero s.write_buffer ∙ a.unlimited;
    balance = omega (arith, ap (λ (l : List ℕ). length l) (fifo.contents-zero s.write_buffer));
    reached = tt;
  }

  report_invalid-Untouched :
      (p : AudioPipe B) (payload reason : List ℕ) (s : Session B R)
      → Untouched s (report_invalid v p payload reason s)
  unfolding report_invalid notify_invalid
  report_invalid-Untouched p payload reason s = ground arith

  added-Accounts :
      (a : ℕ) (s : Session B R) (name : List ℕ) (c : Checkpoints)
      → s.checkpoints.cells a ≡ none
      → add_checkpoint a s.stream_input_received name s.checkpoints ≡ some c
      → Accounts fifo s
      → Accounts fifo (record s { checkpoints = c })
  added-Accounts a s name c fresh e r =
      let (c', e', r') =
        add_checkpoint-Gives a s.stream_input_received name s.checkpoints r.queue r.represents
          (free_is_new a r.represents.chain fresh) in
      let queue = r.queue ++ cell a s.stream_input_received name ∷ [] in
      record {
        queue = queue;
        represents = subst (λ d. Represents d queue) (some_inj (sym e' ∙ e)) r';
        unlimited = r.unlimited;
        balance = r.balance;
        reached = All-append _ r.queue _ (r.reached, (omega (arith, r.balance), tt));
      }

  Accounts-Closed : Closed o v (Accounts fifo)
  Accounts-Closed = record {
    stored = λ s r bytes a. store_bytes-Accounts (record s { resampler_outbound = r }) bytes a;
    told = λ s p payload reason new a.
        let t = record s { invalid_stream_input_notified = true } in
        Untouched-Accounts fifo t (report_invalid v p payload reason t)
          (report_invalid-Untouched p payload reason t) a;
    added = added-Accounts;
    cleared = λ s c p empty a. zeroed-Accounts s c empty a;
    transcribed = λ s text a. a;
  }

  pub process_incoming_message-Accounts :
      (fuel a : ℕ) (s : Session B R) (text : List ℕ)
      → s.checkpoints.cells a ≡ none
      → Accounts fifo s
      → AllResults (Accounts fifo) (process_incoming_message o v fuel a s text)
  process_incoming_message-Accounts fuel a s text fresh r =
      (process_incoming_message-Kept o v (Accounts fifo) Accounts-Closed fuel a s text fresh r).all
