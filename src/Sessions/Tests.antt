-- ===== src/Sessions/Tests.antt =====
-- A call whose stream is started, stopped, and hung up.
mod Media
use mod_audio_stream.Common.{
  ◌≡◌, refl, ◌∷◌, [], List, true, false, none, some, arith, codes, update, decimal, String, ◌++◌,
  Bool,
}
use mod_audio_stream.Common.Int.{pos}
use mod_audio_stream.Common.Maps.{find}
use mod_audio_stream.Json.{Json}
use mod_audio_stream.SwitchBuffer.{ByteQueue, byte_queue}
use mod_audio_stream.AudioPipe.{
  AudioPipe, new_pipe, lws_client_connected, connection_closed_gracefully,
}
use mod_audio_stream.Connections.{World}
use mod_audio_stream.Connections.Callback.{closed, establish}
use mod_audio_stream.Playback.{Services}
use mod_audio_stream.Uri.{no_ssl}
use mod_audio_stream.Uri.Parsing.{Url, wss}
use mod_audio_stream.Sessions.{
  Env, Bug, Context, Channel, responds, stop, publishes_stop, inbound, media_close,
}
use mod_audio_stream.Sessions.Events.{event_callback}
use mod_audio_stream.Sessions.Commands.{do_stop}
use mod_audio_stream.Sessions.Start.{StartArgs, Setup, new_context, with_resamplers, start_capture}
use mod_audio_stream.Sessions.Api.{ApiEnv, status, stream_function}
use mod_audio_stream.Sessions.Stop.{Attached, Ended, stop_text, do_stop-Ends}
use mod_audio_stream.Sessions.Orphans.{
  shut, close-shut, both_tracks-hangup_fault, do_stop-early_Orphans,
}
use mod_audio_stream.Sessions.Detached.{Demand, stops, reports, sends, demands}
use mod_audio_stream.Sessions.Starting.{
  first_pipe, made, start_capture-Attached, start_capture-refused_Orphans,
}
use mod_audio_stream.Sessions.Words.{stream_function-few_fault}
use mod_audio_stream.Sessions.Command.{stream_function-Starts}

abbrev empty : Channel ByteQueue (Unit {0})
empty = record {
  privates = [];
  bugs = λ n. none;
  contexts = λ n. none;
  pipes = record {
    pipes = λ n. none;
    pending_connects = [];
    pending_reconnects = [];
    pending_disconnects = [];
    pending_writes = [];
    user = λ n. none;
    timers = [];
    log = [];
  };
  fired = [];
  tasks = [];
}

abbrev pub env : Env
env = record {
  now = 1700000000;
  lock_free = true;
  removal_closes = true;
  heartbeat_task = 1;
  timeout_task = 2;
}

abbrev setup : Bool → Setup (Unit {0})
setup added = record {
  pre_answered = true;
  uuid = "call-1";
  credentials = none;
  read_rate = 8000;
  micro_now = 0;
  buffer_secs = 40;
  resampler = none;
  resampler_outbound = none;
  context = 7;
  pipe = 5;
  first_bug = 3;
  second_bug = 4;
  first_added = added;
  second_added = true;
}

abbrev start_args : StartArgs
start_args = record {
  stream_id = "s1";
  service_url = codes "wss://example.org/in";
  host = codes "example.org";
  port = 443;
  path = codes "/in";
  ssl_flags = record no_ssl { use_ssl = true };
  codec = "l16";
  sampling = 8000;
  track = "both";
  timeout = pos 60;
  is_bidirectional = false;
  metadata = "";
}

abbrev new_pipe_of : AudioPipe ByteQueue
new_pipe_of = first_pipe byte_queue (setup true) start_args empty

abbrev pub context : Context ByteQueue (Unit {0})
context = (made byte_queue (setup true) start_args empty).1

abbrev pub bug_of : Bug
bug_of = record {
  direction = inbound;
  session_context = some 7;
  attached = true;
  frames_processed = 2;
  frames_dropped = 0;
}

-- The stream with a pipe `p` of the connection 9.
abbrev pub attached_to : AudioPipe ByteQueue → Channel ByteQueue (Unit {0})
attached_to p = record empty {
  privates = ("s1", 3) ∷ [];
  bugs = update (update (λ n. none) 3 (some bug_of)) 4 (some bug_of);
  contexts = update (λ n. none) 7 (some context);
  pipes = record empty.pipes {
    pipes = update (λ n. none) 5 (some p);
    user = update (λ n. none) 9 (some 5);
  };
}

abbrev pub connected : AudioPipe ByteQueue
connected = record new_pipe_of { state = lws_client_connected; vhd = some 1 }

pub attached_lem :
    (p : AudioPipe ByteQueue) → Attached env "s1" 3 7 5 bug_of context p (attached_to p)
unfolding with_resamplers new_context
attached_lem p = record {
  lock_free = refl;
  removal_closes = refl;
  found = refl;
  once = refl;
  bug_at = refl;
  of_context = refl;
  context_at = refl;
  named = refl;
  mutex = refl;
  of_pipe = refl;
  pipe_at = refl;
}

abbrev stopping : Channel ByteQueue (Unit {0})
stopping = attached_to connected

do_stop-Ends_example :
    (s' : Channel ByteQueue (Unit {0})) × (do_stop env "s1" none stopping ≡ some (true, s'))
    × Ended env "s1" 3 7 5 bug_of context (shut 5 connected stopping.pipes) stopping s'
    × (s'.fired
        ≡ (stopping.fired ++ responds stop (stop_text "s1" none) ∷ []) ++ publishes_stop 2 0 ∷ [])
do_stop-Ends_example =
    do_stop-Ends env "s1" none 3 7 5 bug_of context connected (shut 5 connected stopping.pipes)
      stopping (attached_lem connected) (close-shut 5 connected stopping.pipes 1 refl refl)

abbrev pub services : Services Json (Unit {0})
services = record {
  parse = λ text. none;
  get_object_item = λ j k. none;
  get_object_cstr = λ j k. none;
  valueint = λ j. 0;
  print = λ j. none;
  ulaw_to_linear = λ n. n;
  resampler_init = λ n m. tt;
  resample = λ r bytes n. (bytes, r);
  normalize_to_16bit = λ z. z;
  recommended_buffer_size = 8192;
  has_channel = true;
  read_rate = some 8000;
}

both_tracks-hangup_fault_example :
    (s' : Channel ByteQueue (Unit {0})) × (do_stop env "s1" none stopping ≡ some (true, s'))
    × (event_callback byte_queue services env 8 1 "s1" connection_closed_gracefully [] s' ≡ some s')
    × (w : World ByteQueue) × (closed 9 s'.pipes ≡ some w)
    × (media_close env 4 (record s' { pipes = w }) ≡ none)
both_tracks-hangup_fault_example =
    both_tracks-hangup_fault byte_queue services env 8 1 "s1" none 3 7 5 bug_of context connected
      stopping 9 1 4 bug_of (attached_lem connected) refl refl refl refl refl refl

abbrev waiting : Channel ByteQueue (Unit {0})
waiting = attached_to new_pipe_of

abbrev later : List Demand
later = reports connection_closed_gracefully [] ∷ stops none ∷ sends (codes "bye") ∷ []

do_stop-early_Orphans_example :
    (s' : Channel ByteQueue (Unit {0})) × (do_stop env "s1" none waiting ≡ some (true, s'))
    × (w : World ByteQueue) × (establish 9 1 5 s'.pipes ≡ some w)
    × ((q : AudioPipe ByteQueue) × (w.pipes 5 ≡ some q) × (q.state ≡ lws_client_connected))
    × (w.pending_disconnects ≡ waiting.pipes.pending_disconnects)
    × (demands byte_queue services env 8 1 "s1" later (record s' { pipes = w })
        ≡ some (false, record s' { pipes = w }))
unfolding new_pipe
do_stop-early_Orphans_example =
    do_stop-early_Orphans byte_queue services env 8 1 "s1" none 3 7 5 bug_of context new_pipe_of
      waiting 9 1 later (attached_lem new_pipe_of) refl

start_capture-Attached_example :
    (s' : Channel ByteQueue (Unit {0})) × (start_capture byte_queue (setup true) start_args empty
      ≡ (true, s'))
    × ((bug : Bug) × Attached env "s1" 3 7 5 bug context new_pipe_of s')
    × (s'.pipes.pending_connects ≡ 5 ∷ [])
unfolding with_resamplers
start_capture-Attached_example =
    start_capture-Attached byte_queue (setup true) start_args empty env refl refl refl refl refl
      refl refl refl

start_capture-refused_Orphans_example :
    (s' : Channel ByteQueue (Unit {0})) × (start_capture byte_queue (setup false) start_args empty
      ≡ (false, s'))
    × (find "s1" s'.privates ≡ none)
    × (s'.pipes.pipes 5 ≡ some (first_pipe byte_queue (setup false) start_args empty))
    × (s'.pipes.pending_connects ≡ 5 ∷ [])
unfolding with_resamplers
start_capture-refused_Orphans_example =
    start_capture-refused_Orphans byte_queue (setup false) start_args empty refl refl refl refl

abbrev api : ApiEnv (Unit {0})
api = record {
  env = env;
  setup = setup true;
  session_found = true;
  variables = record {
    allow_selfsigned = false;
    skip_server_cert_hostname_check = false;
    allow_expired = false;
  };
  model = none;
  session_update = λ voice instructions. "";
}

abbrev few : List String
few = "wss://example.org" ∷ "both" ∷ []

-- The usage asks for no more than these.
stream_function-few_fault_example :
    stream_function byte_queue api ("call-1" ∷ "s1" ∷ "start" ∷ few) empty ≡ none
stream_function-few_fault_example =
    stream_function-few_fault byte_queue api "call-1" "s1" "start" few empty refl refl (omega arith)
      refl

abbrev address : Url
address = record {
  scheme = wss;
  upper_case = false;
  host = codes "example.org";
  port = none;
  path = codes "/in";
}

stream_function-Starts_example :
    stream_function byte_queue api
      ("call-1" ∷ "s1" ∷ "start" ∷ "wss://example.org/in" ∷ "both" ∷ "l16" ∷ "8000" ∷ "60" ∷ "0"
        ∷ [])
      empty
    ≡ some (status byte_queue api (start_capture byte_queue (setup true) start_args empty))
unfolding decimal
stream_function-Starts_example =
    stream_function-Starts byte_queue api "call-1" "s1" "wss://example.org/in" "both" "l16" "8000"
      "60" "0" [] address 8000 60 0 empty refl refl
      (record {
        named = ground arith;
        authority = refl;
        path = ground arith;
        short = omega arith;
        short_path = omega arith;
      })
      refl refl (omega arith) refl refl (omega arith) refl (omega arith)
