-- ===== src/Sessions.antt =====
-- A call's streams (private_data_t and media_bug_callback_args_t of src/mod_audio_stream.h): how
-- src/lws_glue.cpp takes a stream down. Contexts, bugs and pipes are known by numbers, their
-- addresses; the memory of the first two lasts as long as the call. `none` in place of a result is
-- a fault: a null pointer or a deleted pipe is used. Events has what the connection reports, Commands what
-- the user asks for. The queue `playout`, which stays empty, is left out.
pub mod Events
pub mod Commands
pub mod Media
pub mod Start
pub mod Api
pub mod Found
pub mod Closing
pub mod Stop
pub mod Detached
pub mod Orphans
pub mod Starting
pub mod Words
pub mod Command
pub mod Steady
pub mod Notices
pub mod Frames
pub mod Stored
pub mod Overflow
mod Tests
use mod_audio_stream.Common.{
  ℕ, ◌+◌, ◌≡◌, List, [], ◌∷◌, ◌++◌, Bool, true, false, ◌&&◌, ◌||◌, not, Option, none, some, String,
  codes, length, ◌==◌, if◌then◌else◌, ◌>>=◌, update, take,
}
use mod_audio_stream.Common.Int.{ℤ}
use mod_audio_stream.Common.Maps.{find, erase}
use mod_audio_stream.AudioPipe.{AudioPipe}
use mod_audio_stream.Connections.{World, store, close}
use mod_audio_stream.Checkpoints.{Checkpoints}
use mod_audio_stream.Playback.{Response}

-- The events that the response handler fires.
pub data Event : Type 0 where
  stop connect_success connect_fail connect_timeout connect_degraded disconnect : Event
  playback : Response → Event

-- A call of the response handler, and EVENT_STOP as the media callback publishes it, with the
-- frames processed and dropped (the average time, the correlation and the header are left out).
pub data Fired : Type 0 where
  responds : Event → List ℕ → Fired
  publishes_stop : ℕ → ℕ → Fired

pub data Direction : Type 0 where
  inbound outbound : Direction

-- media_bug_callback_args_t, and whether FreeSWITCH still calls its callback.
pub record Bug : Type 0 where
  pub direction : Direction
  pub session_context : Option ℕ
  pub attached : Bool
  pub frames_processed : ℕ
  pub frames_dropped : ℕ

-- private_data_t. A mutex is there or not.
pub record Context (B R : Type 0) : Type 0 where
  pub stream_id : String
  pub service_url : List ℕ
  pub host : List ℕ
  pub port : ℕ
  pub path : List ℕ
  pub audio_pipe_ptr : Option ℕ
  pub mutex : Bool
  pub resampler : Option R
  pub resampler_outbound : Option R
  pub task_id : ℕ
  pub stream_timeout_task_id : ℕ
  pub is_started : Bool
  pub stream_end_timeout : ℤ
  pub audio_paused : Bool
  pub graceful_shutdown : Bool
  pub channel_closing : Bool
  pub invalid_stream_input_notified : Bool
  pub stream_termination_reason : String
  pub start_time : ℕ
  pub end_time : ℕ
  pub write_buffer : Option B
  pub stream_input_received : ℕ
  pub stream_input_played : ℕ
  pub checkpoints : Checkpoints

pub data TaskKind : Type 0 where
  heartbeat stream_timeout : TaskKind

pub record Task : Type 0 where
  pub id : ℕ
  pub runtime : ℤ
  pub kind : TaskKind
  pub stream_id : String

-- `privates` is what switch_channel_get_private finds: the bug of a stream.
pub record Channel (B R : Type 0) : Type 0 where
  pub privates : List (String × ℕ)
  pub bugs : ℕ → Option Bug
  pub contexts : ℕ → Option (Context B R)
  pub pipes : World B
  pub fired : List Fired
  pub tasks : List Task

-- What the threads and FreeSWITCH decide: switch_epoch_time_now, whether switch_mutex_trylock gets
-- the mutex of the bug, and whether switch_core_media_bug_remove calls the bug's callback with
-- SWITCH_ABC_TYPE_CLOSE before it returns; and the numbers that switch_scheduler_add_task gives.
pub record Env : Type 0 where
  pub now : ℕ
  pub lock_free : Bool
  pub removal_closes : Bool
  pub heartbeat_task : ℕ
  pub timeout_task : ℕ

abbrev pub termination_reason_call_hangup : String
termination_reason_call_hangup = "VoipBit::GracefulShutdown::CallTerminated"

-- switch_scheduler_del_task_id
unfoldable pub del_task_id : ℕ → List Task → List Task
del_task_id n [] = []
del_task_id n (t ∷ ts) = let rest = del_task_id n ts in if t.id == n then rest else t ∷ rest

abbrev pub with_context : {A : Type 0} → A → (ℕ → Option A) → Option ℕ → Option A
with_context missing f none = some missing
with_context missing f (some t) = f t

module _ {B R : Type 0} where
  abbrev pub keep_context : ℕ → Context B R → Channel B R → Channel B R
  keep_context t c s = record s { contexts = update s.contexts t (some c) }

  abbrev pub keep_bug : ℕ → Bug → Channel B R → Channel B R
  keep_bug b bug s = record s { bugs = update s.bugs b (some bug) }

  abbrev pub keep_pipe : ℕ → AudioPipe B → Channel B R → Channel B R
  keep_pipe i p s = record s { pipes = store s.pipes i p }

  abbrev pub fire_event : Fired → Channel B R → Channel B R
  fire_event e s = record s { fired = s.fired ++ e ∷ [] }

  unfoldable pub destroy_tech_pvt : Context B R → Context B R
  destroy_tech_pvt c = record c {
    resampler = none;
    resampler_outbound = none;
    mutex = false;
    write_buffer = none;
    checkpoints = record { cells = λ a. none; first = none };
  }

  -- 4 attempts are more than MAX_CONNECTION_ATTEMPTS.
  unfoldable pub close_pipe_of : ℕ → Context B R → Option ℕ → Channel B R → Option (Channel B R)
  close_pipe_of t c none s = some s
  close_pipe_of t c (some i) s = do
    p ← s.pipes.pipes i
    w ← close i (store s.pipes i (record p { connection_attempts = 4 }))
    some (record (keep_context t (record c { channel_closing = true }) s) { pipes = w })

  unfoldable pub stream_ws_close_connection : ℕ → Channel B R → Option (Channel B R)
  unfolding close_pipe_of
  stream_ws_close_connection t s = s.contexts t >>= λ c. close_pipe_of t c c.audio_pipe_ptr s

  -- The times and the tasks of a stream that ends.
  unfoldable pub end_context : ℕ → Bool → Context B R → Context B R
  end_context now zero_billing c = record c {
    end_time = now;
    start_time = if zero_billing || c.start_time == 0 then now else c.start_time;
  }

  abbrev pub drop_tasks : Context B R → List Task → List Task
  unfolding del_task_id
  drop_tasks c ts = del_task_id c.stream_timeout_task_id (del_task_id c.task_id ts)

  -- The end of stream_session_cleanup, for the bug and the context that it has found.
  unfoldable pub release : ℕ → ℕ → Channel B R → Option (Channel B R)
  unfolding destroy_tech_pvt
  release b t s = do
    c ← s.contexts t
    bug ← s.bugs b
    some
        (keep_bug b (record bug { session_context = none }) (keep_context t (destroy_tech_pvt c) s))

  -- What stream_session_cleanup does once it has the lock: `remove` takes the bug off the session,
  -- unless the channel is closing.
  unfoldable pub take_down :
      (ℕ → Channel B R → Option (Channel B R))
      → Env
      → String
      → Bool
      → ℕ
      → ℕ
      → Channel B R
      → Option (Channel B R)
  unfolding end_context release
  take_down remove env id zero_billing b t s = s.contexts t >>= λ c.
      if c.mutex
      then (let s' = record (keep_context t (end_context env.now zero_billing c) s) {
        tasks = drop_tasks c s.tasks;
        privates = erase id s.privates;
      } in
          remove b s' >>= release b t)
      else none

  -- The bug of a stream and its context, as the functions find them: `missing` if one is not there.
  unfoldable pub on_stream : {A : Type 0} → A → (ℕ → ℕ → Option A) → String → Channel B R → Option A
  on_stream missing f id s = elim (find id s.privates) [
    | none ↦ some missing
    | some b ↦ s.bugs b >>= λ bug. with_context missing (f b) bug.session_context
  ]

  -- The result is whether SWITCH_STATUS_SUCCESS is returned.
  unfoldable pub cleanup_with :
      (ℕ → Channel B R → Option (Channel B R))
      → Env
      → String
      → Bool
      → Channel B R
      → Option (Bool × Channel B R)
  unfolding take_down on_stream
  cleanup_with remove env id zero_billing s =
      on_stream (false, s)
        (λ b t.
          if env.lock_free
          then (take_down remove env id zero_billing b t s >>= λ s'. some (true, s'))
          else some (true, s))
        id s

  -- SWITCH_ABC_TYPE_CLOSE of the media callback. Its stream_session_cleanup has channelIsClosing.
  unfoldable pub close_context : Env → Bug → ℕ → Channel B R → Option (Channel B R)
  unfolding stream_ws_close_connection cleanup_with
  close_context env bug t s = do
    s' ← stream_ws_close_connection t s
    c ← s'.contexts t
    let c' = record c { stream_termination_reason = termination_reason_call_hangup }
    let told =
        fire_event (publishes_stop bug.frames_processed bug.frames_dropped) (keep_context t c' s')
    cleanup_with (λ b u. some u) env c.stream_id false told >>= λ (done, s''). some s''

  unfoldable pub media_close : Env → ℕ → Channel B R → Option (Channel B R)
  unfolding close_context
  media_close env b s =
      s.bugs b >>= λ bug. with_context s (λ t. close_context env bug t s) bug.session_context

  -- switch_core_media_bug_remove
  unfoldable pub remove_bug : Env → ℕ → Channel B R → Option (Channel B R)
  unfolding media_close
  remove_bug env b s = s.bugs b >>= λ bug.
      let s' = keep_bug b (record bug { attached = false }) s in
      if env.removal_closes then media_close env b s' else some s'

  -- stream_session_cleanup of a channel that is not closing.
  unfoldable pub stream_session_cleanup :
      Env → String → Bool → Channel B R → Option (Bool × Channel B R)
  unfolding cleanup_with remove_bug
  stream_session_cleanup env id zero_billing s = cleanup_with (remove_bug env) env id zero_billing s
