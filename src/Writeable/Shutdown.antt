-- ===== src/Writeable/Shutdown.antt =====
-- A graceful shutdown of a steady stream ends: src/audio_pipe.cpp sends what the buffer holds, then
-- STOP, and closes the connection.
use mod_audio_stream.Common.{
  ℕ, zero, suc, ◌+◌, ◌≡◌, ap, ◌∙◌, Bool, true, false, ◌&&◌, not, List, [], ◌∷◌, ◌++◌, Option, none,
  some, arith, length, AllBytes, All, if-true, if-false,
}
use mod_audio_stream.Json.{Json}
use mod_audio_stream.SwitchBuffer.{SwitchBuffer, IsFifo}
use mod_audio_stream.StreamBuffer.{Buffer}
use mod_audio_stream.ClientEvents.{stop_event, generate_json_data_event}
use mod_audio_stream.ClientEvents.Delivery.{Carries}
use mod_audio_stream.AudioPipe.{
  AudioPipe, lws_client_disconnecting, event_args, all_buffers_are_empty, increase_sequence_number,
}
use mod_audio_stream.Writeable.{Env, closing_turn, send_stop, write_next, client_writeable}
use mod_audio_stream.Writeable.Media.{
  IsSteady, InTime, client_writeable-SendsFrame, in_time, no_data, get_event_data-none,
}

abbrev pub sent_list : Option (List ℕ) → List (List ℕ)
sent_list none = []
sent_list (some x) = x ∷ []

module _ {B : Type 0} (o : SwitchBuffer B) (env : Env) where
  -- The event loop on one connection: turns until the connection closes. The texts sent, the pipe
  -- and whether it was closed; `none` is a crash.
  pub run_turns : ℕ → AudioPipe B → Option (List (List ℕ) × AudioPipe B × Bool)
  run_turns zero p = some ([], p, false)
  run_turns (suc n) p = elim (client_writeable o env p) [
    | none ↦ none
    | some t ↦ elim t.closes [
      | true ↦ some (sent_list t.sent, t.pipe, true)
      | false ↦ elim (run_turns n t.pipe) [
        | none ↦ none
        | some (texts, p', closed) ↦ some (sent_list t.sent ++ texts, p', closed)
      ]
    ]
  ]

module _ {B : Type 0} {o : SwitchBuffer B} (law : IsFifo o) (env : Env) where
  abbrev Outcome : Type 0
  Outcome = List (List ℕ) × AudioPipe B × Bool

  pub run-sends :
      (n : ℕ) (p p' : AudioPipe B) (text : List ℕ) (texts : List (List ℕ)) (q : AudioPipe B)
      (c : Bool)
      → client_writeable o env p
        ≡ some (record { pipe = p'; sent = some text; asks = true; closes = false })
      → run_turns o env n p' ≡ some (texts, q, c)
      → run_turns o env (suc n) p ≡ some (text ∷ texts, q, c)
  unfolding run_turns
  run-sends n p p' text texts q c e k = rw (e, run_turns) (rw (k, run_turns))

  pub run-closes :
      (n : ℕ) (p : AudioPipe B)
      → client_writeable o env p ≡ some (closing_turn p)
      → run_turns o env (suc n) p ≡ some ([], p, true)
  unfolding run_turns
  run-closes n p e = rw (e, run_turns)

  -- Each text is the event of the frame in its place.
  abbrev pub AllCarry : List (List ℕ) → List (List ℕ) → Type 0
  AllCarry [] [] = Unit
  AllCarry [] (x ∷ xs) = ⊥
  AllCarry (f ∷ fs) [] = ⊥
  AllCarry (f ∷ fs) (x ∷ xs) =
      ((j : Json) × (n : ℕ) × (env.print j ≡ some x) × Carries f n (some j)) × AllCarry fs xs

  -- The pipe once STOP is sent.
  abbrev pub stopped : AudioPipe B → AudioPipe B
  stopped p = record p {
    sequence_number = p.sequence_number + 1;
    last_msg_sent = true;
    state = lws_client_disconnecting;
  }

  pub send_stop-some :
      (p : AudioPipe B) (text : List ℕ)
      → env.print (stop_event (event_args p p.track)) ≡ some text
      → send_stop o env p
        ≡ some (record { pipe = stopped p; sent = some text; asks = true; closes = false })
  unfolding send_stop increase_sequence_number generate_json_data_event
  send_stop-some p text e = rw (e, send_stop)

  turn-stop :
      (p : AudioPipe B) (b : Buffer B)
      → IsSteady law env p b []
      → p.graceful_shutdown ≡ true
      → InTime law env p
      → client_writeable o env p ≡ send_stop o env p
  unfolding client_writeable
  turn-stop p b v g t =
      if-false _ _ (in_time law env p t)
      ∙ if-true {b = p.graceful_shutdown && (all_buffers_are_empty p && not p.last_msg_sent)} _ _
          (ground (arith, no_data law env p b v, v.not_stopped))

  turn-close :
      (p : AudioPipe B) (b : Buffer B)
      → IsSteady law env p b []
      → InTime law env p
      → client_writeable o env (stopped p) ≡ some (closing_turn (stopped p))
  unfolding client_writeable write_next
  turn-close p b v t =
      if-false _ _ (in_time law env (stopped p) t)
      ∙ if-false {b = p.graceful_shutdown && (all_buffers_are_empty (stopped p) && false)} _ _
          (ground arith)
      ∙ if-false _ _ (ap not v.started)
      ∙ ap (λ r. some (write_next o env r)) (get_event_data-none law env (stopped p) v.no_events)

  -- STOP carries the number that follows those of the media events.
  abbrev pub stop_json : AudioPipe B → ℕ → Json
  stop_json p frames =
      stop_event (record (event_args p p.track) { sequence_number = p.sequence_number + frames })

  -- How the shutdown of a stream with the frames `fs` ends: one turn for each frame, one for STOP,
  -- and one that closes.
  pub record Ends (p : AudioPipe B) (fs : List (List ℕ)) : Type 0 where
    pub texts : List (List ℕ)
    pub stop_text : List ℕ
    pub last : AudioPipe B
    pub run : run_turns o env (length fs + 2) p ≡ some (texts ++ stop_text ∷ [], last, true)
    pub frames : AllCarry fs texts
    pub stop : env.print (stop_json p (length fs)) ≡ some stop_text

  Ends-empty :
      (p : AudioPipe B) (b : Buffer B)
      → ((j : Json) → (text : List ℕ) × (env.print j ≡ some text))
      → IsSteady law env p b []
      → p.graceful_shutdown ≡ true
      → InTime law env p
      → Ends p []
  Ends-empty p b prints v g t =
      let (text, e) = prints (stop_event (event_args p p.track)) in
      record {
        texts = [];
        stop_text = text;
        last = stopped p;
        run =
            run-sends 1 p (stopped p) text [] (stopped p) true
              (turn-stop p b v g t ∙ send_stop-some p text e)
              (run-closes 0 (stopped p) (turn-close p b v t));
        frames = tt;
        stop =
            ap
              (λ (n : ℕ).
                env.print (stop_event (record (event_args p p.track) { sequence_number = n })))
              {x = p.sequence_number + 0} {y = p.sequence_number} (omega arith)
            ∙ e;
      }

  -- A steady stream of one track (START is out, no event is queued, it is connected) that holds the
  -- frames `fs` of bytes and was told to shut down, before its deadline, with a buffer that obeys
  -- the laws of a queue, a lock that is free and a printer that never fails: in exactly length fs +
  -- 2 turns the handler sends one media event for each frame, in order and with its bytes, then
  -- STOP with the sequence number that follows, and closes the connection.
  pub shutdown-Ends :
      (fs : List (List ℕ)) (p : AudioPipe B) (b : Buffer B)
      → ((j : Json) → (text : List ℕ) × (env.print j ≡ some text))
      → IsSteady law env p b fs
      → p.graceful_shutdown ≡ true
      → InTime law env p
      → env.try_lock ≡ true
      → All AllBytes fs
      → Ends p fs
  shutdown-Ends [] p b prints v g t l bytes = Ends-empty p b prints v g t
  shutdown-Ends (f ∷ fs) p b prints v g t l bytes =
      let s = client_writeable-SendsFrame law env p b f fs prints v t l bytes.0 in
      let p' = record p { audio_buffer = some s.rest; sequence_number = p.sequence_number + 1 } in
      let r = shutdown-Ends fs p' s.rest prints s.steady g t l bytes.1 in
      record {
        texts = s.text ∷ r.texts;
        stop_text = r.stop_text;
        last = r.last;
        run =
            ap (λ (n : ℕ). run_turns o env n p) {x = length (f ∷ fs) + 2} {y = suc (length fs + 2)}
              (omega arith)
            ∙ run-sends (length fs + 2) p p' s.text (r.texts ++ r.stop_text ∷ []) r.last true s.turn
                r.run;
        frames = ((s.json, _, s.printed, s.carries), r.frames);
        stop =
            ap
              (λ (n : ℕ).
                env.print (stop_event (record (event_args p p.track) { sequence_number = n })))
              {x = p.sequence_number + length (f ∷ fs)} {y = p.sequence_number + 1 + length fs}
              (omega arith)
            ∙ r.stop;
      }
