-- ===== src/Connections/Tests.antt =====
-- A world with one new pipe, and the theorems about the pending lists in it.
use mod_audio_stream.Common.{
  codes, ◌≡◌, refl, true, List, [], ◌∷◌, Option, none, some, arith, ==_iff,
}
use mod_audio_stream.SwitchBuffer.{ByteQueue, byte_queue}
use mod_audio_stream.ClientEvents.{l16}
use mod_audio_stream.Uri.{no_ssl}
use mod_audio_stream.AudioPipe.{
  AudioPipe, PipeArgs, lws_client_idle, lws_client_connected, new_pipe, connect_success,
}
use mod_audio_stream.Connections.{World, notifies, cancels_service, graceful_shutdown, reconnect}
use mod_audio_stream.Common.{◌>>=◌, update}
use mod_audio_stream.Connections.Process.{
  process_pending_connects, process_pending_writes, wait_cancelled,
}
use mod_audio_stream.Connections.Callback.{event_wait_cancelled, client_established, closed}
use mod_audio_stream.Connections.Find.{find_and_remove_pending_connect, find_pending}
use mod_audio_stream.Connections.Steps.{Step, connects, calls_back, steps}
use mod_audio_stream.Connections.Started.{ReportsOnce}
use mod_audio_stream.Connections.Started.Runs.{steps-ReportsOnce}
use mod_audio_stream.Connections.Retry.{Waits, GivesUp, fail_rounds, fail_rounds-GivesUp}
use mod_audio_stream.Connections.Faults.{shutdown-closed_fault}
use mod_audio_stream.Connections.Faults.Redial.{failed-redial_fault}

abbrev arguments : PipeArgs
arguments = record {
  uuid = "call-1";
  stream_id = "s1";
  host = codes "example.org";
  port = 443;
  path = codes "/";
  ssl_flags = no_ssl;
  buf_len = 64000;
  credentials = none;
  track = "inbound";
  extra_headers = "";
  codec = l16;
  sampling = 8000;
  is_bidirectional = true;
}

abbrev new_one : AudioPipe ByteQueue
new_one = new_pipe byte_queue arguments 0

abbrev world_of : AudioPipe ByteQueue → World ByteQueue
world_of p = record {
  pipes = update (λ j. none) 5 (some p);
  pending_connects = [];
  pending_reconnects = [];
  pending_disconnects = [];
  pending_writes = [];
  user = λ n. none;
  timers = [];
  log = [];
}

abbrev start : World ByteQueue
start = world_of new_one

abbrev waiting : World ByteQueue
waiting = record start { pending_connects = 5 ∷ [] }

abbrev connected_one : AudioPipe ByteQueue
connected_one = record new_one { state = lws_client_connected; vhd = some 1; wsi = some 9 }

abbrev connected : World ByteQueue
connected = record (world_of connected_one) { user = update (λ n. none) 9 (some 5) }

-- The pipe connects.
abbrev connection : List Step
connection =
    connects 5
    ∷ calls_back (event_wait_cancelled (λ i. some 9) 1)
    ∷ calls_back (client_established 9 1)
    ∷ []

abbrev or_else : {A : Type 0} → A → Option A → A
or_else a none = a
or_else a (some b) = b

abbrev reached : World ByteQueue
reached = or_else start (steps byte_queue connection start)

connection-reached : steps byte_queue connection start ≡ some reached
unfolding steps new_pipe wait_cancelled find_pending find_and_remove_pending_connect
connection-reached = refl

reached-log : reached.log ≡ cancels_service ∷ notifies 5 connect_success ∷ []
unfolding steps new_pipe wait_cancelled find_pending find_and_remove_pending_connect
reached-log = refl

start-ReportsOnce : ReportsOnce start
unfolding new_pipe
start-ReportsOnce i p e = ground (arith, ==_iff 5 i)

steps-ReportsOnce_example : ReportsOnce reached
steps-ReportsOnce_example =
    steps-ReportsOnce byte_queue connection start reached start-ReportsOnce connection-reached

shutdown-closed_fault_example :
    (graceful_shutdown 5 1000 connected >>= closed 9 >>= process_pending_writes) ≡ none
shutdown-closed_fault_example =
    shutdown-closed_fault connected 5 9 1000 1 connected_one refl refl refl

new_one-idle : new_one.state ≡ lws_client_idle
unfolding new_pipe
new_one-idle = refl

new_one-vhd : new_one.vhd ≡ none
unfolding new_pipe
new_one-vhd = refl

new_one-attempts : new_one.connection_attempts ≡ 0
unfolding new_pipe
new_one-attempts = refl

failed-redial_fault_example :
    (process_pending_connects (λ i. none) 1 waiting
      >>= reconnect 5 (some 9)
      >>= process_pending_connects (λ i. some 9) 1)
    ≡ none
failed-redial_fault_example =
    failed-redial_fault (λ i. none) (λ i. some 9) 1 5 (some 9) waiting new_one refl refl
      new_one-idle new_one-vhd (omega (arith, new_one-attempts)) refl

-- A pipe whose first connection failed.
abbrev failed_one : AudioPipe ByteQueue
failed_one = record new_one { vhd = some 1; connection_attempts = 1 }

abbrev waiting_for_timer : World ByteQueue
waiting_for_timer = record (world_of failed_one) { timers = 5 ∷ [] }

waiting_for_timer-Waits : Waits waiting_for_timer 5 1
waiting_for_timer-Waits = record {
  pipe = failed_one;
  vhost = 1;
  known = refl;
  has_vhost = refl;
  attempts = refl;
  no_connects = refl;
  no_reconnects = refl;
  timer = refl;
}

fail_rounds-GivesUp_example :
    GivesUp 5 waiting_for_timer (fail_rounds 5 (11 ∷ 12 ∷ 13 ∷ []) waiting_for_timer)
fail_rounds-GivesUp_example =
    fail_rounds-GivesUp (11 ∷ 12 ∷ 13 ∷ []) waiting_for_timer 5 1 waiting_for_timer-Waits
      (omega arith) refl
