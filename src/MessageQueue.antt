-- ===== src/MessageQueue.antt =====
-- buffered_message_t and the priority queue of messages (src/adaptive_buffer.hpp): the queue as the
-- list of its messages in the order of their arrival. Among equally urgent messages the first is
-- taken, a case that std::priority_queue leaves open.
pub mod Urgent
use mod_audio_stream.Common.{
  ℕ, ◌-◌, ◌/◌, ◌^◌, u64, leb, List, [], ◌∷◌, ◌++◌, String, Bool, Option, none, some, ltb, ◌==◌,
  if◌then◌else◌,
}

pub data Priority : Type 0 where
  priority_critical priority_high priority_normal priority_low priority_bulk : Priority

-- The value of the enumerator: the lower, the more urgent.
abbrev pub rank : Priority → ℕ
rank priority_critical = 0
rank priority_high = 1
rank priority_normal = 2
rank priority_low = 3
rank priority_bulk = 4

-- Times are nanoseconds since 1970. The metadata has no part in what follows.
pub record Message : Type 0 where
  pub sequence_number : ℕ
  pub priority : Priority
  pub payload : List ℕ
  pub timestamp : ℕ
  pub deadline : ℕ
  pub retry_count : ℕ
  pub stream_id : String

-- `now - time` in milliseconds, cut towards zero, as a 64-bit word.
abbrev pub milliseconds_since : ℕ → ℕ → ℕ
milliseconds_since now time =
    if leb time now then (now - time) / 1000000 else u64 (2 ^ 64 - (time - now) / 1000000)

-- MessageComparator: `a` is less urgent than `b`.
abbrev pub is_below : Message → Message → Bool
is_below a b =
    if rank a.priority == rank b.priority
    then ltb b.timestamp a.timestamp
    else ltb (rank b.priority) (rank a.priority)

abbrev pub push : List Message → Message → List Message
push queue m = queue ++ m ∷ []

-- The most urgent of `m` and the others, and what is left.
unfoldable pub select : Message → List Message → Message × List Message
select m [] = (m, [])
select m (x ∷ queue) =
    let (best, others) = select (if is_below m x then x else m) queue in
    (best, (if is_below m x then m else x) ∷ others)

-- top(), and the queue after pop().
unfoldable pub pop : List Message → Option (Message × List Message)
unfolding select
pop [] = none
pop (m ∷ queue) = some (select m queue)
