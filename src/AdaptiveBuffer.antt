-- ===== src/AdaptiveBuffer.antt =====
-- class AdaptiveBufferManager of src/adaptive_buffer.hpp and src/adaptive_buffer.cpp: one buffer of
-- messages for each stream. Doubles and their arithmetic are parameters; `now` is
-- std::chrono::system_clock::now(), in nanoseconds. The methods whose bodies are empty, the sliding
-- window and the fields that nothing reads are left out.
pub mod Bounds
pub mod Runs
mod Tests
use mod_audio_stream.Common.{
  ℕ, zero, suc, ◌+◌, ◌*◌, ◌-◌, ◌/◌, ◌^◌, List, [], ◌∷◌, ◌++◌, String, Bool, true, false, not, ◌||◌,
  Option, none, some, length, ltb, leb, u32, u64, ◌==◌, if◌then◌else◌,
}
use mod_audio_stream.Common.Maps.{find, assign, erase}
use mod_audio_stream.Doubles.{Doubles}
use mod_audio_stream.MessageQueue.{Priority, rank, Message, milliseconds_since, push, pop}

pub data BufferState : Type 0 where
  buffer_normal buffer_underrun buffer_overrun buffer_adapting buffer_recovering : BufferState
  buffer_draining : BufferState

abbrev pub state_code : BufferState → ℕ
state_code buffer_normal = 0
state_code buffer_underrun = 1
state_code buffer_overrun = 2
state_code buffer_adapting = 3
state_code buffer_recovering = 4
state_code buffer_draining = 5

pub record BufferConfig (D : Type 0) : Type 0 where
  pub initial_size_bytes : ℕ
  pub min_size_bytes : ℕ
  pub max_size_bytes : ℕ
  pub adaptation_interval_ms : ℕ
  pub max_packet_loss_rate : D
  pub token_bucket_rate : D
  pub token_bucket_capacity : ℕ

pub record BufferStatistics (D : Type 0) : Type 0 where
  pub current_size_bytes : ℕ
  pub current_message_count : ℕ
  pub max_size_reached : ℕ
  pub current_latency_ms : D
  pub average_latency_ms : D
  pub total_messages : ℕ
  pub dropped_messages : ℕ
  pub underrun_events : ℕ
  pub overrun_events : ℕ
  pub adaptation_events : ℕ

pub record NetworkCondition (D : Type 0) : Type 0 where
  pub bandwidth_kbps : D
  pub latency_ms : D
  pub jitter_ms : D
  pub packet_loss_rate : D
  pub congestion_level : D
  pub is_stable : Bool

pub record BufferContext (D : Type 0) : Type 0 where
  pub stream_id : String
  pub config : BufferConfig D
  pub current_state : BufferState
  pub statistics : BufferStatistics D
  pub network_condition : NetworkCondition D
  pub message_queue : List Message
  pub token_bucket_tokens : D
  pub last_token_update : ℕ
  pub adaptive_enabled : Bool
  pub last_adaptation : ℕ

-- What the buffer event callback was told.
pub record BufferEvent : Type 0 where
  pub stream_id : String
  pub old_state : BufferState
  pub new_state : BufferState

-- The manager, with the calls of its callback, if it has one.
pub record BufferManager (D : Type 0) : Type 0 where
  pub default_config : BufferConfig D
  pub buffers : List (String × BufferContext D)
  pub has_callback : Bool
  pub buffer_events : List BufferEvent

-- The constructor and `initialize`, with no callback.
abbrev pub new_manager : {D : Type 0} → BufferConfig D → BufferManager D
new_manager config = record {
  default_config = config;
  buffers = [];
  has_callback = false;
  buffer_events = [];
}

unfoldable pub should_drop_message : {D : Type 0} → ℕ → Message → BufferContext D → Bool
should_drop_message now m c =
    if leb c.config.max_size_bytes c.statistics.current_size_bytes
    then ltb 1 (rank m.priority)
    else ltb m.deadline now

-- The state of the buffer; the event that the source fires with it is `state_event`.
unfoldable pub check_buffer_conditions : {D : Type 0} → BufferContext D → BufferContext D
check_buffer_conditions c =
    let s = c.statistics in
    if length c.message_queue == 0
    then (if state_code c.current_state == 1 then c else record c {
      current_state = buffer_underrun;
      statistics = record s { underrun_events = u32 (s.underrun_events + 1) };
    })
    else (if ltb c.config.max_size_bytes s.current_size_bytes
        then (if state_code c.current_state == 2 then c else record c {
          current_state = buffer_overrun;
          statistics = record s { overrun_events = u32 (s.overrun_events + 1) };
        })
        else record c { current_state = buffer_normal })

-- `none` where no event is fired.
abbrev pub state_event : {D : Type 0} → BufferContext D → BufferContext D → Option BufferEvent
state_event old new =
    if state_code old.current_state == state_code new.current_state
    then none
    else some (record {
      stream_id = new.stream_id;
      old_state = old.current_state;
      new_state = new.current_state;
    })

-- The loop over the queue, and its messages that are kept and the number dropped. Each round takes
-- one out.
unfoldable pub flush_loop : ℕ → ℕ → List Message → List Message → ℕ → List Message × ℕ
flush_loop zero least queue kept dropped = (kept, dropped)
flush_loop (suc rounds) least queue kept dropped = elim (pop queue) [
  | none ↦ (kept, dropped)
  | some (x, others) ↦
      let stays = leb (rank x.priority) least in
      flush_loop rounds least others (if stays then push kept x else kept)
        (if stays then dropped else dropped + 1)
]

module _ {D : Type 0} where
  -- fire_buffer_event
  abbrev pub fire : Option BufferEvent → BufferManager D → BufferManager D
  fire none m = m
  fire (some e) m =
      if m.has_callback then record m { buffer_events = m.buffer_events ++ e ∷ [] } else m

  abbrev pub keep : String → BufferContext D → BufferManager D → BufferManager D
  keep id c m = record m { buffers = assign id c m.buffers }

  unfoldable pub destroy_buffer : String → BufferManager D → Bool × BufferManager D
  destroy_buffer id m = elim (find id m.buffers) [
    | none ↦ (false, m)
    | some c ↦ (true, record m { buffers = erase id m.buffers })
  ]

  unfoldable pub flush_context : Priority → BufferContext D → BufferContext D
  unfolding flush_loop
  flush_context least c =
      let (kept, dropped) = flush_loop (length c.message_queue) (rank least) c.message_queue [] 0 in
      record c {
        message_queue = kept;
        current_state = buffer_draining;
        statistics = record c.statistics {
          current_message_count = length kept;
          dropped_messages = u64 (c.statistics.dropped_messages + dropped);
        };
      }

  unfoldable pub flush_buffer : String → Priority → BufferManager D → Bool × BufferManager D
  unfolding flush_context
  flush_buffer id least m = elim (find id m.buffers) [
    | none ↦ (false, m)
    | some c ↦ (true, keep id (flush_context least c) m)
  ]

  unfoldable pub set_adaptive_enabled : String → Bool → BufferManager D → BufferManager D
  set_adaptive_enabled id enabled m = elim (find id m.buffers) [
    | none ↦ m
    | some c ↦ keep id (record c { adaptive_enabled = enabled }) m
  ]

module _ {D : Type 0} (d : Doubles D) where
  -- The latency of the message that is popped next, if there is one.
  unfoldable pub measure_latency :
      ℕ → Option (Message × List Message) → BufferStatistics D → BufferStatistics D
  measure_latency now none s = s
  measure_latency now (some (oldest, others)) s =
      let latency = d.of_long (milliseconds_since now oldest.timestamp) in
      record s {
        current_latency_ms = latency;
        average_latency_ms =
            d.add (d.times s.average_latency_ms (d.ratio 9 10)) (d.times latency (d.ratio 1 10));
      }

  -- The size is an estimate: 1024 bytes for each message.
  unfoldable pub update_buffer_statistics : ℕ → BufferContext D → BufferContext D
  unfolding measure_latency
  update_buffer_statistics now c =
      let size = u64 (length c.message_queue * 1024) in
      let s = c.statistics in
      record c {
        statistics = record (measure_latency now (pop c.message_queue) s) {
          current_size_bytes = size;
          max_size_reached = if ltb s.max_size_reached size then size else s.max_size_reached;
        };
      }

  unfoldable pub calculate_optimal_buffer_size : BufferContext D → ℕ
  calculate_optimal_buffer_size c =
      let n = c.network_condition in
      let base = d.of_size c.config.initial_size_bytes in
      let for_latency =
        if d.is_greater n.latency_ms (d.of_size 200) then d.times base (d.ratio 15 10) else base in
      let for_loss =
        if d.is_greater n.packet_loss_rate (d.ratio 1 100)
        then d.times for_latency (d.add (d.ratio 1 1) (d.times n.packet_loss_rate (d.ratio 2 1)))
        else for_latency in
      d.truncate (
        d.min_of (d.max_of for_loss (d.of_size c.config.min_size_bytes))
          (d.of_size c.config.max_size_bytes))

  -- The age is signed, and compared with a 32-bit number.
  unfoldable pub adapt_buffer_size : ℕ → BufferContext D → BufferContext D × Option BufferEvent
  unfolding calculate_optimal_buffer_size
  adapt_buffer_size now c =
      let age = milliseconds_since now c.last_adaptation in
      let optimal = calculate_optimal_buffer_size c in
      if ltb age c.config.adaptation_interval_ms || leb (2 ^ 63) age
      then (c, none)
      else (if optimal == c.config.initial_size_bytes then (c, none) else (
        record c {
          config = record c.config { initial_size_bytes = optimal };
          statistics = record c.statistics {
            adaptation_events = u32 (c.statistics.adaptation_events + 1);
          };
          last_adaptation = now;
        },
        some (record {
          stream_id = c.stream_id;
          old_state = c.current_state;
          new_state = buffer_adapting;
        }),
      ))

  unfoldable pub create_buffer : String → BufferConfig D → ℕ → BufferManager D → BufferManager D
  create_buffer id config now m =
      keep id
        (record {
          stream_id = id;
          config = config;
          current_state = buffer_normal;
          statistics = record {
            current_size_bytes = 0;
            current_message_count = 0;
            max_size_reached = 0;
            current_latency_ms = d.ratio 0 1;
            average_latency_ms = d.ratio 0 1;
            total_messages = 0;
            dropped_messages = 0;
            underrun_events = 0;
            overrun_events = 0;
            adaptation_events = 0;
          };
          network_condition = record {
            bandwidth_kbps = d.of_size 1000;
            latency_ms = d.of_size 100;
            jitter_ms = d.of_size 10;
            packet_loss_rate = d.ratio 0 1;
            congestion_level = d.ratio 0 1;
            is_stable = true;
          };
          message_queue = [];
          token_bucket_tokens = d.of_size config.token_bucket_capacity;
          last_token_update = now;
          adaptive_enabled = true;
          last_adaptation = 0;
        })
        m

  -- A message that is not dropped.
  unfoldable pub accept : ℕ → Message → BufferContext D → BufferContext D
  unfolding update_buffer_statistics check_buffer_conditions
  accept now x c =
      let queue = push c.message_queue x in
      let s = c.statistics in
      check_buffer_conditions (
        update_buffer_statistics now (record c {
          message_queue = queue;
          statistics = record s {
            current_message_count = length queue;
            total_messages = u64 (s.total_messages + 1);
          };
        }))

  unfoldable pub enqueue_context : ℕ → Message → BufferContext D → Bool × BufferContext D
  unfolding should_drop_message accept
  enqueue_context now x c =
      let s = c.statistics in
      if should_drop_message now x c
      then (
        false,
        record c { statistics = record s { dropped_messages = u64 (s.dropped_messages + 1) } },
      )
      else (true, accept now x c)

  unfoldable pub enqueue_message : String → Message → ℕ → BufferManager D → Bool × BufferManager D
  unfolding enqueue_context
  enqueue_message id x now m = elim (find id m.buffers) [
    | none ↦ (false, m)
    | some c ↦
        let (took, c') = enqueue_context now x c in
        (took, fire (if took then state_event c c' else none) (keep id c' m))
  ]

  -- The part of dequeue_message after the wait, for a buffer that is not being destroyed.
  unfoldable pub take_popped :
      ℕ → Option (Message × List Message) → BufferContext D → Option Message × BufferContext D
  unfolding update_buffer_statistics
  take_popped now none c = (none, c)
  take_popped now (some (x, others)) c = (
    some x,
    update_buffer_statistics now (record c {
      message_queue = others;
      statistics = record c.statistics { current_message_count = length others };
    }),
  )

  unfoldable pub take_message : ℕ → BufferContext D → Option Message × BufferContext D
  unfolding take_popped
  take_message now c = take_popped now (pop c.message_queue) c

  -- update_network_condition, and adapt_buffer.
  unfoldable pub update_network_condition :
      String → NetworkCondition D → ℕ → BufferManager D → BufferManager D
  unfolding adapt_buffer_size
  update_network_condition id n now m = elim (find id m.buffers) [
    | none ↦ m
    | some c ↦
        let c' = record c { network_condition = n } in
        let (c'', event) = if c.adaptive_enabled then adapt_buffer_size now c' else (c', none) in
        fire event (keep id c'' m)
  ]

  unfoldable pub adapt_buffer : String → ℕ → BufferManager D → Bool × BufferManager D
  unfolding adapt_buffer_size
  adapt_buffer id now m = elim (find id m.buffers) [
    | none ↦ (false, m)
    | some c ↦ let (c', event) = adapt_buffer_size now c in (true, fire event (keep id c' m))
  ]

  -- dequeue_message of a buffer that has a message, or with a wait that times out.
  unfoldable pub dequeue_message : String → ℕ → BufferManager D → Option Message × BufferManager D
  unfolding take_message
  dequeue_message id now m = elim (find id m.buffers) [
    | none ↦ (none, m)
    | some c ↦ let (x, c') = take_message now c in (x, keep id c' m)
  ]

  unfoldable pub peek_message : String → BufferManager D → Option Message
  peek_message id m = elim (find id m.buffers) [
    | none ↦ none
    | some c ↦ elim (pop c.message_queue) [ none ↦ none | some (x, others) ↦ some x ]
  ]

  -- One round of monitoring_worker: the statistics, the state, and the size if that is enabled.
  unfoldable pub monitor_context :
      ℕ → BufferContext D → BufferContext D × Option BufferEvent × Option BufferEvent
  unfolding update_buffer_statistics check_buffer_conditions adapt_buffer_size
  monitor_context now c =
      let checked = check_buffer_conditions (update_buffer_statistics now c) in
      let (adapted, resized) =
        if c.adaptive_enabled then adapt_buffer_size now checked else (checked, none) in
      (adapted, state_event c checked, resized)

  unfoldable pub monitor_all :
      ℕ → List (String × BufferContext D) → BufferManager D → BufferManager D
  unfolding monitor_context
  monitor_all now [] m = m
  monitor_all now ((id, c) ∷ others) m =
      let (c', changed, resized) = monitor_context now c in
      monitor_all now others (fire resized (fire changed (keep id c' m)))

  unfoldable pub monitor : ℕ → BufferManager D → BufferManager D
  unfolding monitor_all
  monitor now m = monitor_all now m.buffers m
