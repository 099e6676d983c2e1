-- ===== src/Receive.antt =====
-- LWS_CALLBACK_CLIENT_RECEIVE of src/audio_pipe.cpp: the fragments of a server's message are put
-- together in `m_recv_buf`. The fields m_recv_buf, m_recv_buf_len and m_recv_buf_ptr are a record
-- of their own here. malloc and realloc succeed.
pub mod Bounds
pub mod Reassembly
pub mod Oversize
mod Tests
use mod_audio_stream.Common.{
  ℕ, ◌+◌, ◌-◌, ◌≤◌, Bool, true, false, List, [], ◌∷◌, ◌++◌, Option, none, some, length, ltb, leb,
  ◌==◌, if◌then◌else◌,
}

-- 16000 * 16 * 1 * 60 * 5 / 8 and 16000 * 16 * 1 * 60 * 1 / 8.
abbrev pub max_recv_buf_size : ℕ
max_recv_buf_size = 9_600_000

abbrev pub recv_buf_realloc_size : ℕ
recv_buf_realloc_size = 1_920_000

-- `buf` holds the bytes up to m_recv_buf_ptr, or is `none` for a null pointer; `len` is the size
-- that was allocated.
pub record Recv : Type 0 where
  pub buf : Option (List ℕ)
  pub len : ℕ

-- The state that the constructor leaves, and the reset. The constructor does not set m_recv_buf_len,
-- which a first fragment sets before it is read.
abbrev pub no_recv : Recv
no_recv = record { buf = none; len = 0 }

-- One call: `in` and `len`, with what libwebsockets tells of the fragment.
pub record Fragment : Type 0 where
  pub payload : List ℕ
  pub remaining_payload : ℕ
  pub is_first : Bool
  pub is_final : Bool

-- What the callback gets is msg.c_str(). `overflows` is a memcpy beyond the end of the buffer.
pub data Received : Type 0 where
  overflows : Received
  waits : Recv → Received
  delivers : List ℕ → Recv → Received

-- What a text in C holds of some bytes: those before the first NUL.
abbrev pub c_str : List ℕ → List ℕ
c_str [] = []
c_str (c ∷ s) = let rest = c_str s in if c == 0 then [] else c ∷ rest

abbrev pub written : Recv → List ℕ
written r = elim r.buf [ none ↦ [] | some bytes ↦ bytes ]

pub begin_message : Recv → Fragment → Recv
begin_message r f =
    if f.is_first then record { buf = some []; len = length f.payload + f.remaining_payload } else r

-- Growth by one step, or the end of the message. (`realloc` of a null pointer allocates.)
pub make_room : Recv → ℕ → Recv
make_room r n =
    if ltb (r.len - length (written r)) n
    then (if ltb max_recv_buf_size (r.len + recv_buf_realloc_size)
        then no_recv
        else record { buf = some (written r); len = r.len + recv_buf_realloc_size })
    else r

pub copy_fragment : Recv → Fragment → Received
copy_fragment r f = elim r.buf [
  | none ↦ waits r
  | some bytes ↦
      if leb (length bytes + length f.payload) r.len
      then (if f.is_final
          then delivers (c_str (bytes ++ f.payload)) no_recv
          else waits (record { buf = some (bytes ++ f.payload); len = r.len }))
      else overflows
]

unfoldable pub receive_fragment : Recv → Fragment → Received
unfolding begin_message make_room copy_fragment
receive_fragment r f =
    let r' = begin_message r f in copy_fragment (make_room r' (length f.payload)) f

-- The fragments that a connection hands over in turn, and the messages delivered, until an
-- overflow.
unfoldable pub receive_all : Recv → List Fragment → Option (List (List ℕ) × Recv)
receive_all r [] = some ([], r)
receive_all r (f ∷ fs) = elim (receive_fragment r f) [
  | overflows ↦ none
  | waits r' ↦ receive_all r' fs
  | delivers m r' ↦ elim (receive_all r' fs) [ none ↦ none | some (ms, r'') ↦ some (m ∷ ms, r'') ]
]
