-- ===== src/Checkpoints.antt =====
-- The checkpoints of a stream (stream_checkpoints_t of src/mod_audio_stream.h): a linked list in
-- which the tail pointer of the first node is the one in use. processCheckpointEvent of
-- src/lws_glue.cpp adds to its end, and the media callback of src/mod_audio_stream.c takes from its
-- front. An address is a number, and `none` in place of a result is the use of one that holds no node.
pub mod Chain
pub mod Refine
mod Tests
use mod_audio_stream.Common.{
  ℕ, List, [], ◌∷◌, Option, none, some, ◌==◌, if◌then◌else◌, ◌>>=◌, update,
}

-- The field `head` is never set or read.
pub record Checkpoint : Type 0 where
  pub next : Option ℕ
  pub tail : ℕ
  pub position : ℕ
  pub name : List ℕ

-- tech_pvt->checkpoints, and the memory that it leads to.
pub record Checkpoints : Type 0 where
  pub cells : ℕ → Option Checkpoint
  pub first : Option ℕ

abbrev pub put : ℕ → Checkpoint → Checkpoints → Checkpoints
put a c s = record s { cells = update s.cells a (some c) }

-- A new node that is its own tail.
abbrev pub new_checkpoint : ℕ → ℕ → List ℕ → Checkpoint
new_checkpoint a position name = record { next = none; tail = a; position = position; name = name }

-- `checkpoints->tail->next = a`, then `checkpoints->tail = a`, for the first node `h`.
unfoldable pub link_last : ℕ → ℕ → Checkpoints → Option Checkpoints
link_last h a s = do
  first ← s.cells h
  last ← s.cells first.tail
  let s' = put first.tail (record last { next = some a }) s
  first' ← s'.cells h
  some (put h (record first' { tail = a }) s')

-- `a` is the address that malloc gives.
unfoldable pub add_checkpoint : ℕ → ℕ → List ℕ → Checkpoints → Option Checkpoints
unfolding link_last
add_checkpoint a position name s =
    let s' = put a (new_checkpoint a position name) s in
    elim s.first [ none ↦ some (record s' { first = some a }) | some h ↦ link_last h a s' ]

-- The first node is freed; the second one takes over its tail.
unfoldable pub remove_first : Checkpoints → Option Checkpoints
remove_first s = do
  h ← s.first
  node ← s.cells h
  elim node.next [
    | none ↦ some (record { cells = update s.cells h none; first = none })
    | some n ↦ do
      second ← s.cells n
      let s' = put n (record second { tail = node.tail }) s
      some (record { cells = update s'.cells h none; first = some n })
  ]
