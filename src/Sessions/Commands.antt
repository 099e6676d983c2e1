-- ===== src/Sessions/Commands.antt =====
-- The commands on a stream that src/mod_audio_stream.c carries out, with the functions of
-- src/lws_glue.cpp that they call. The result is whether SWITCH_STATUS_SUCCESS is returned.
use mod_audio_stream.Common.{
  ℕ, List, [], ◌++◌, Bool, true, false, Option, none, some, String, codes, take, ◌>>=◌,
}
use mod_audio_stream.Common.Maps.{find}
use mod_audio_stream.Connections
use mod_audio_stream.Sessions.{
  Env, Context, Channel, responds, stop, keep_context, fire_event, on_stream,
  stream_session_cleanup,
}
use mod_audio_stream.Sessions.Events.{stream_session_graceful_shutdown}

-- TERMINATION_REASON_API_REQUEST and TERMINATION_REASON_STREAM_TIMEOUT
abbrev pub termination_reason_api_request : String
termination_reason_api_request = "API Request"

abbrev pub termination_reason_stream_timeout : String
termination_reason_stream_timeout = "Stream Timeout"

-- json_str[512], with its terminator.
abbrev pub stop_json : List ℕ → String → List ℕ → List ℕ
stop_json key id reason = take 511 (
    codes "{\""
    ++ (key
        ++ (codes "\":\"" ++ (codes id ++ (codes "\",\"reason\":\"" ++ (reason ++ codes "\"}"))))))

abbrev pub reason_of : Option (List ℕ) → List ℕ
reason_of none = []
reason_of (some text) = text

-- do_graceful_shutdown names the stream in two ways.
abbrev pub shutdown_key : Option (List ℕ) → List ℕ
shutdown_key none = codes "stream_id"
shutdown_key (some text) = codes "streamId"

abbrev pub shutdown_reason : Option (List ℕ) → String
shutdown_reason none = termination_reason_api_request
shutdown_reason (some text) = termination_reason_stream_timeout

module _ {B R : Type 0} where
  -- The context of the bug of a stream: `none` if there is no bug, and a fault if its context is
  -- gone.
  abbrev pub context_at : String → Channel B R → Option (Option (ℕ × Context B R))
  context_at id s = elim (find id s.privates) [
    | none ↦ some none
    | some b ↦
        s.bugs b >>= λ bug. bug.session_context >>= λ t. s.contexts t >>= λ c. some (some (t, c))
  ]

  -- What do_stop and do_graceful_shutdown tell and write first.
  abbrev pub begin_stop : ℕ → ℕ → Context B R → List ℕ → String → Channel B R → Channel B R
  begin_stop now t c json reason s =
      fire_event (responds stop json)
        (keep_context t (record c { end_time = now; stream_termination_reason = reason }) s)

  unfoldable pub do_stop :
      Env → String → Option (List ℕ) → Channel B R → Option (Bool × Channel B R)
  unfolding stream_session_cleanup
  do_stop env id text s = context_at id s >>= λ found. elim found [
    | none ↦ some (false, s)
    | some (t, c) ↦ stream_session_cleanup env id false (
        begin_stop env.now t c (stop_json (codes "stream_id") id (reason_of text))
          termination_reason_api_request s)
  ]

  unfoldable pub do_graceful_shutdown :
      ℕ → String → Option (List ℕ) → Channel B R → Option (Bool × Channel B R)
  unfolding stream_session_graceful_shutdown
  do_graceful_shutdown now id text s = context_at id s >>= λ found. elim found [
    | none ↦ some (false, s)
    | some (t, c) ↦ stream_session_graceful_shutdown now id (
        begin_stop now t c (stop_json (shutdown_key text) id (reason_of text))
          (shutdown_reason text) s)
  ]

  -- stream_timeout_callback, of a call that is there.
  unfoldable pub stream_timeout_callback : ℕ → String → Channel B R → Option (Channel B R)
  unfolding do_graceful_shutdown
  stream_timeout_callback now id s =
      do_graceful_shutdown now id (some (codes "TIMEOUT REACHED")) s >>= λ (done, s'). some s'

  -- The media that waits in the bug is FreeSWITCH's.
  unfoldable pub stream_session_pauseresume :
      String → Bool → Channel B R → Option (Bool × Channel B R)
  unfolding on_stream
  stream_session_pauseresume id pause s =
      on_stream (false, s)
        (λ b t.
          s.contexts t >>= λ c. some (true, keep_context t (record c { audio_paused = pause }) s))
        id s

  unfoldable pub send_to : List ℕ → Option ℕ → Channel B R → Option (Bool × Channel B R)
  unfolding Connections.add_event_buffer
  send_to text none s = some (true, s)
  send_to text (some i) s = Connections.add_event_buffer i text s.pipes >>= λ (sent, w).
      some (true, record s { pipes = w })

  -- send_text, and stream_session_send_text.
  unfoldable pub send_text : String → List ℕ → Channel B R → Option (Bool × Channel B R)
  unfolding send_to on_stream
  send_text id text s =
      on_stream (false, s) (λ b t. s.contexts t >>= λ c. send_to text c.audio_pipe_ptr s) id s
