-- ===== src/Receive/Bounds.antt =====
-- The receive buffer of src/audio_pipe.cpp is never overrun, and its growth is bounded.
use mod_audio_stream.Common.{
  ℕ, ◌+◌, ◌*◌, ◌∙◌, ◌≤◌, ◌≡◌, refl, true, List, [], ◌∷◌, Option, none, some, arith, length,
  length-append, inl, inr, Bool-cases, leb, All,
}
use mod_audio_stream.Receive.{
  Recv, Fragment, Received, overflows, waits, delivers, begin_message, make_room, copy_fragment,
  receive_fragment, receive_all, recv_buf_realloc_size,
}

-- The bytes written lie in the allocated block, and a null buffer has size 0.
abbrev pub BufFits : Option (List ℕ) → ℕ → Type 0
BufFits none n = n ≡ 0
BufFits (some bytes) n = length bytes ≤ n

abbrev pub IsValid : Recv → Type 0
IsValid r = BufFits r.buf r.len

-- The outcome is no overflow, and what is left is valid.
abbrev pub IsSafe : Received → Type 0
IsSafe overflows = ⊥
IsSafe (waits r) = IsValid r
IsSafe (delivers m r) = IsValid r

begin_message-IsValid : (r : Recv) (f : Fragment) → IsValid r → IsValid (begin_message r f)
unfolding begin_message
begin_message-IsValid r f v = ground arith

-- There is room for the fragment, or no buffer.
abbrev HasRoom : Recv → ℕ → Type 0
HasRoom r n = elim r.buf as (λ b. Type 0) [
  | none ↦ r.len ≡ 0
  | some bytes ↦ length bytes + n ≤ r.len
]

make_room-HasRoom :
    (r : Recv) (n : ℕ) → IsValid r → n ≤ recv_buf_realloc_size → HasRoom (make_room r n) n
unfolding make_room
make_room-HasRoom r n v h = ground arith

copy_fragment-IsSafe :
    (b : Option (List ℕ)) (n : ℕ) (f : Fragment)
    → HasRoom (record { buf = b; len = n }) (length f.payload)
    → IsSafe (copy_fragment (record { buf = b; len = n }) f)
unfolding copy_fragment
copy_fragment-IsSafe none n f h = h
copy_fragment-IsSafe (some bytes) n f h =
    let room : leb (length bytes + length f.payload) n ≡ true = ground arith in
    elim (Bool-cases f.is_final) [
      | inl final ↦ rw (room, final) refl
      | inr more ↦ rw (room, more) (omega (arith, length-append bytes f.payload))
    ]

-- One fragment no longer than a growth step (1920000 bytes), handed to a valid receive buffer, is
-- never written beyond the end of the buffer, and a valid buffer is left.
pub receive_fragment-IsSafe :
    (r : Recv) (f : Fragment)
    → IsValid r
    → length f.payload ≤ recv_buf_realloc_size
    → IsSafe (receive_fragment r f)
unfolding receive_fragment
receive_fragment-IsSafe r f v h =
    let r' = begin_message r f in
    let n = length f.payload in
    copy_fragment-IsSafe (make_room r' n).buf (make_room r' n).len f
      (make_room-HasRoom r' n (begin_message-IsValid r f v) h)

-- libwebsockets hands over no more than the rx_buffer_size of the protocol, 1024 * 32 bytes.
abbrev pub rx_buffer_size : ℕ
rx_buffer_size = 1024 * 32

abbrev pub WithinRx : List Fragment → Type 0
WithinRx = All (λ f. length f.payload ≤ rx_buffer_size)

pub receive_all-waits :
    (r r' : Recv) (f : Fragment) (fs : List Fragment)
    → receive_fragment r f ≡ waits r'
    → receive_all r (f ∷ fs) ≡ receive_all r' fs
receive_all-waits r r' f fs e = unfold receive_all in rw (e, receive_all)

pub receive_all-delivers :
    (r r' : Recv) (f : Fragment) (fs : List Fragment) (m : List ℕ) (ms : List (List ℕ)) (r'' : Recv)
    → receive_fragment r f ≡ delivers m r'
    → receive_all r' fs ≡ some (ms, r'')
    → receive_all r (f ∷ fs) ≡ some (m ∷ ms, r'')
receive_all-delivers r r' f fs m ms r'' e k =
    unfold receive_all in rw (e, receive_all) (rw (k, receive_all))

abbrev pub Succeeds : Recv → List Fragment → Type 0
Succeeds r fs = (out : List (List ℕ) × Recv) × (receive_all r fs ≡ some out) × IsValid out.1

receive_all-cons :
    (r : Recv) (f : Fragment) (fs : List Fragment) (o : Received)
    → receive_fragment r f ≡ o
    → IsSafe o
    → ((r' : Recv) → IsValid r' → Succeeds r' fs)
    → Succeeds r (f ∷ fs)
receive_all-cons r f fs overflows e s again = absurd s
receive_all-cons r f fs (waits r') e s again =
    let (out, k, t) = again r' s in (out, receive_all-waits r r' f fs e ∙ k, t)
receive_all-cons r f fs (delivers m r') e s again =
    let (out, k, t) = again r' s in
    ((m ∷ out.0, out.1), receive_all-delivers r r' f fs m out.0 out.1 e k, t)

-- Whatever fragments of at most 32768 bytes a connection hands over, in any order, a valid receive
-- buffer goes through all of them without a write beyond its end and is valid afterwards.
pub receive_all-total : (r : Recv) (fs : List Fragment) → IsValid r → WithinRx fs → Succeeds r fs
receive_all-total r [] v h = unfold receive_all in (([], r), refl, v)
receive_all-total r (f ∷ fs) v h =
    receive_all-cons r f fs (receive_fragment r f) refl
      (receive_fragment-IsSafe r f v (omega arith)) (λ r' v'. receive_all-total r' fs v' h.1)
