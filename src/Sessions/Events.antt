-- ===== src/Sessions/Events.antt =====
-- eventCallback of src/lws_glue.cpp: what the connection of a stream reports.
use mod_audio_stream.Common.{
  ℕ, ◌+◌, List, [], ◌∷◌, ◌++◌, Bool, true, false, not, Option, none, some, String, codes,
  if◌then◌else◌, ◌>>=◌,
}
use mod_audio_stream.Common.Int.{pos, ◌+ℤ◌}
use mod_audio_stream.SwitchBuffer.{SwitchBuffer}
use mod_audio_stream.StreamBuffer.{set_start_time}
use mod_audio_stream.AudioPipe.{
  AudioPipe, NotifyEvent, connect_success, connect_fail, connection_dropped,
  connection_closed_gracefully, connection_timeout, connection_degraded, message,
}
use mod_audio_stream.Connections
use mod_audio_stream.Playback.{Session, Services, Call, add_event_buffer, response_handler}
use mod_audio_stream.Playback.Incoming.{process_incoming_message}
use mod_audio_stream.Sessions.{
  Env, Context, Channel, Event, responds, playback, connect_timeout, connect_degraded, disconnect,
  heartbeat, stream_timeout, Task, keep_context, keep_pipe, fire_event, on_stream,
  stream_session_cleanup,
}
use mod_audio_stream.Sessions

-- Of TERMINATION_REASON_CONNECTION_ERROR.
abbrev pub termination_reason_connection_error : String
termination_reason_connection_error = "Connection error"

abbrev pub stream_json : String → List ℕ
stream_json id = codes "{\"streamId\":\"" ++ (codes id ++ codes "\"}")

abbrev pub reason_json : String → List ℕ → List ℕ
reason_json id reason =
    codes "{\"streamId\":\"" ++ (codes id ++ (codes "\",\"reason\":\"" ++ (reason ++ codes "\"}")))

unfoldable pub start_buffers : {B : Type 0} → ℕ → AudioPipe B → AudioPipe B
unfolding set_start_time
start_buffers now p = record p {
  audio_buffer = elim p.audio_buffer [ none ↦ none | some b ↦ some (set_start_time b now) ];
  ob_audio_buffer = elim p.ob_audio_buffer [ none ↦ none | some b ↦ some (set_start_time b now) ];
}

module _ {B R : Type 0} where
  -- The texts that a message made for the server, and the events that it fired.
  unfoldable pub replay : ℕ → List Call → Channel B R → Option (Channel B R)
  replay i [] s = some s
  replay i (add_event_buffer text ∷ calls) s =
      Connections.add_event_buffer i text s.pipes >>= λ (sent, w).
      replay i calls (record s { pipes = w })
  replay i (response_handler r text ∷ calls) s =
      replay i calls (fire_event (responds (playback r) text) s)

  abbrev pub session_of : Context B R → AudioPipe B → B → Session B R
  session_of c p b = record {
    stream_id = codes c.stream_id;
    audio_pipe = some p;
    write_buffer = b;
    stream_input_received = c.stream_input_received;
    stream_input_played = c.stream_input_played;
    checkpoints = c.checkpoints;
    invalid_stream_input_notified = c.invalid_stream_input_notified;
    resampler_outbound = c.resampler_outbound;
    calls = [];
  }

  abbrev pub context_of : Session B R → Context B R → Context B R
  context_of m c = record c {
    write_buffer = some m.write_buffer;
    stream_input_received = m.stream_input_received;
    stream_input_played = m.stream_input_played;
    checkpoints = m.checkpoints;
    invalid_stream_input_notified = m.invalid_stream_input_notified;
    resampler_outbound = m.resampler_outbound;
  }

  unfoldable pub shut_pipe_of : ℕ → Option ℕ → Channel B R → Option (Bool × Channel B R)
  shut_pipe_of now none s = some (true, s)
  shut_pipe_of now (some i) s =
      Connections.graceful_shutdown i now s.pipes >>= λ w. some (true, record s { pipes = w })

  unfoldable pub stream_session_graceful_shutdown :
      ℕ → String → Channel B R → Option (Bool × Channel B R)
  unfolding shut_pipe_of on_stream
  stream_session_graceful_shutdown now id s =
      on_stream (false, s)
        (λ b t. s.contexts t >>= λ c.
          let s' = keep_context t (record c { graceful_shutdown = true }) s in
          shut_pipe_of now c.audio_pipe_ptr s')
        id s

  -- CONNECT_SUCCESS: both tasks hold the same copy of the names.
  unfoldable pub begin_context : Env → Context B R → Context B R
  begin_context env c = record c {
    is_started = true;
    start_time = env.now;
    task_id = env.heartbeat_task;
    stream_timeout_task_id = env.timeout_task;
  }

  unfoldable pub new_tasks : Env → Context B R → List Task
  new_tasks env c =
      record {
        id = env.heartbeat_task;
        runtime = pos (env.now + 60);
        kind = heartbeat;
        stream_id = c.stream_id;
      }
      ∷ record {
        id = env.timeout_task;
        runtime = pos env.now +ℤ c.stream_end_timeout;
        kind = stream_timeout;
        stream_id = c.stream_id;
      }
      ∷ []

  unfoldable pub on_connect_success : Env → ℕ → Context B R → Channel B R → Option (Channel B R)
  unfolding begin_context new_tasks start_buffers
  on_connect_success env t c s = do
    i ← c.audio_pipe_ptr
    p ← s.pipes.pipes i
    let told = fire_event (responds Sessions.connect_success (stream_json c.stream_id)) s
    let s' = keep_pipe i (start_buffers env.now p) (keep_context t (begin_context env c) told)
    Connections.add_event_buffer i [] s'.pipes >>= λ (sent, w).
        some (record s' { pipes = w; tasks = s'.tasks ++ new_tasks env c })

  -- The end of a stream whose connection has failed, unless its channel is closing.
  unfoldable pub clean_up : Env → ℕ → Context B R → Bool → Bool → Channel B R → Option (Channel B R)
  unfolding stream_session_cleanup
  clean_up env t c zero_billing failed s =
      let c' = record c {
        audio_pipe_ptr = none;
        stream_termination_reason =
            if failed then termination_reason_connection_error else c.stream_termination_reason;
      } in
      if c.channel_closing
      then some (keep_context t (record c { audio_pipe_ptr = none }) s)
      else (stream_session_cleanup env c.stream_id zero_billing (keep_context t c' s)
          >>= λ (done, s'). some s')

  unfoldable pub delete_pipe_of : Context B R → Channel B R → Channel B R
  unfolding Connections.delete_pipe
  delete_pipe_of c s = elim c.audio_pipe_ptr [
    | none ↦ s
    | some i ↦ record s { pipes = Connections.delete_pipe i s.pipes }
  ]

  unfoldable pub on_timeout : Env → ℕ → Context B R → List ℕ → Channel B R → Option (Channel B R)
  unfolding stream_session_graceful_shutdown
  on_timeout env t c text s =
      let told = fire_event (responds connect_timeout (reason_json c.stream_id text)) s in
      let c' = record c { stream_termination_reason = termination_reason_connection_error } in
      stream_session_graceful_shutdown env.now c.stream_id (keep_context t c' told)
      >>= λ (done, s'). some s'

module _ {B J R : Type 0} (o : SwitchBuffer B) (v : Services J R) where
  -- MESSAGE: `a` is an address for a new checkpoint. A message comes to a bidirectional stream,
  -- which has a write buffer.
  unfoldable pub on_message : ℕ → ℕ → ℕ → Context B R → List ℕ → Channel B R → Option (Channel B R)
  unfolding replay
  on_message fuel a t c text s = do
    i ← c.audio_pipe_ptr
    p ← s.pipes.pipes i
    b ← c.write_buffer
    m ← process_incoming_message o v fuel a (session_of c p b) text
    p' ← m.audio_pipe
    replay i m.calls (keep_pipe i p' (keep_context t (context_of m c) s))

  unfoldable pub on_event :
      Env → ℕ → ℕ → NotifyEvent → List ℕ → ℕ → Context B R → Channel B R → Option (Channel B R)
  unfolding on_connect_success clean_up delete_pipe_of on_timeout on_message
  on_event env fuel a connect_success text t c s = on_connect_success env t c s
  on_event env fuel a connect_fail text t c s = clean_up env t c (not c.is_started) true (
      fire_event (responds Sessions.connect_fail (reason_json c.stream_id text))
        (delete_pipe_of c s))
  on_event env fuel a connection_timeout text t c s = on_timeout env t c text s
  on_event env fuel a connection_degraded text t c s =
      some (fire_event (responds connect_degraded (stream_json c.stream_id)) s)
  on_event env fuel a connection_dropped text t c s =
      clean_up env t c false true (fire_event (responds disconnect (stream_json c.stream_id)) s)
  on_event env fuel a connection_closed_gracefully text t c s = clean_up env t c false false s
  on_event env fuel a (message m) text t c s = on_message fuel a t c m s

  -- The call is found by its id.
  unfoldable pub event_callback :
      Env → ℕ → ℕ → String → NotifyEvent → List ℕ → Channel B R → Option (Channel B R)
  unfolding on_event on_stream
  event_callback env fuel a id event text s =
      on_stream s (λ b t. s.contexts t >>= λ c. on_event env fuel a event text t c s) id s
