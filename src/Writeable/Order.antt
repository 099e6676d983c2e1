-- ===== src/Writeable/Order.antt =====
-- The order of START and STOP when a stream is shut down before its first turn (src/audio_pipe.cpp).
use mod_audio_stream.Common.{
  ℕ, ◌+◌, ◌≡◌, ap, ◌∙◌, true, false, ◌&&◌, not, List, [], ◌∷◌, some, arith, if-true, if-false,
}
use mod_audio_stream.Json.{Json}
use mod_audio_stream.SwitchBuffer.{SwitchBuffer, IsFifo}
use mod_audio_stream.ClientEvents.{start_event, stop_event, generate_json_data_event}
use mod_audio_stream.AudioPipe.{
  AudioPipe, event_args, all_buffers_are_empty, increase_sequence_number,
}
use mod_audio_stream.Writeable.{
  Env, closing_turn, send_start, send_stop, write_next, client_writeable,
}
use mod_audio_stream.Writeable.Media.{InTime, in_time, get_event_data-none}
use mod_audio_stream.Writeable.Shutdown.{run_turns, run-sends, run-closes, send_stop-some, stopped}

module _ {B : Type 0} {o : SwitchBuffer B} (law : IsFifo o) (env : Env) where
  -- A stream that was told to shut down before its first turn, with nothing to send.
  pub record IsFresh (p : AudioPipe B) : Type 0 where
    pub shuts_down : p.graceful_shutdown ≡ true
    pub empty : all_buffers_are_empty p ≡ true
    pub not_started : p.first_msg_sent ≡ false
    pub not_stopped : p.last_msg_sent ≡ false
    pub no_events : p.events ≡ []

  abbrev pub after_both : AudioPipe B → AudioPipe B
  after_both p = record (stopped law env p) {
    sequence_number = p.sequence_number + 1 + 1;
    first_msg_sent = true;
  }

  turn-stop :
      (p : AudioPipe B)
      → IsFresh p
      → InTime law env p
      → client_writeable o env p ≡ send_stop o env p
  unfolding client_writeable
  turn-stop p v t =
      if-false _ _ (in_time law env p t)
      ∙ if-true {b = p.graceful_shutdown && (all_buffers_are_empty p && not p.last_msg_sent)} _ _
          (ground (arith, v.shuts_down, v.empty, v.not_stopped))

  send_start-some :
      (p : AudioPipe B) (text : List ℕ)
      → env.print (start_event (event_args (stopped law env p) p.track)) ≡ some text
      → send_start o env (stopped law env p)
        ≡ some (record { pipe = after_both p; sent = some text; asks = true; closes = false })
  unfolding send_start increase_sequence_number generate_json_data_event
  send_start-some p text e = rw (e, send_start)

  turn-start :
      (p : AudioPipe B)
      → IsFresh p
      → InTime law env p
      → client_writeable o env (stopped law env p) ≡ send_start o env (stopped law env p)
  unfolding client_writeable
  turn-start p v t =
      if-false _ _ (in_time law env (stopped law env p) t)
      ∙ if-false {b = p.graceful_shutdown && (all_buffers_are_empty (stopped law env p) && false)} _
          _ (ground arith)
      ∙ if-true _ _ (ap not v.not_started)

  turn-close :
      (p : AudioPipe B)
      → IsFresh p
      → InTime law env p
      → client_writeable o env (after_both p) ≡ some (closing_turn (after_both p))
  unfolding client_writeable write_next
  turn-close p v t =
      if-false _ _ (in_time law env (after_both p) t)
      ∙ if-false {b = p.graceful_shutdown && (all_buffers_are_empty (after_both p) && false)} _ _
          (ground arith)
      ∙ ap (λ r. some (write_next o env r)) (get_event_data-none law env (after_both p) v.no_events)

  -- The three turns of such a stream.
  pub record StopsFirst (p : AudioPipe B) : Type 0 where
    pub stop_text : List ℕ
    pub start_text : List ℕ
    pub run : run_turns o env 3 p ≡ some (stop_text ∷ start_text ∷ [], after_both p, true)
    pub stop : env.print (stop_event (event_args p p.track)) ≡ some stop_text
    pub start :
        env.print
          (start_event (record (event_args p p.track) { sequence_number = p.sequence_number + 1 }))
        ≡ some start_text

  -- A stream that is told to shut down before its first turn, with empty buffers, no queued event
  -- and STOP not sent, before the deadline and with a printer that never fails, sends STOP in its
  -- first turn, START with the next number in its second, and closes in its third: the server reads
  -- the two in the wrong order.
  pub shutdown-StopsFirst :
      (p : AudioPipe B)
      → ((j : Json) → (text : List ℕ) × (env.print j ≡ some text))
      → IsFresh p
      → InTime law env p
      → StopsFirst p
  shutdown-StopsFirst p prints v t =
      let (stop, stop_eq) = prints (stop_event (event_args p p.track)) in
      let (start, start_eq) = prints (start_event (event_args (stopped law env p) p.track)) in
      record {
        stop_text = stop;
        start_text = start;
        run =
            run-sends law env 2 p (stopped law env p) stop (start ∷ []) (after_both p) true
              (turn-stop p v t ∙ send_stop-some law env p stop stop_eq)
              (run-sends law env 1 (stopped law env p) (after_both p) start [] (after_both p) true
                (turn-start p v t ∙ send_start-some p start start_eq)
                (run-closes law env 0 (after_both p) (turn-close p v t)));
        stop = stop_eq;
        start = start_eq;
      }
