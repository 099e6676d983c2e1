-- ===== src/Receive/Oversize.antt =====
-- Where the limit MAX_RECV_BUF_SIZE of src/audio_pipe.cpp does not hold.
use mod_audio_stream.Common.{
  ℕ, ◌+◌, ◌∙◌, ◌≤◌, ◌<◌, ◌≡◌, refl, sym, ap, true, false, List, [], ◌∷◌, ◌++◌, append_assoc,
  append-nil, some, arith, length, length-append,
}
use mod_audio_stream.Receive.{
  Recv, Fragment, waits, delivers, no_recv, c_str, begin_message, make_room, copy_fragment,
  receive_fragment, receive_all, max_recv_buf_size, recv_buf_realloc_size,
}
use mod_audio_stream.Receive.Bounds.{receive_all-waits, receive_all-delivers}
use mod_audio_stream.Receive.Reassembly.{payloads, message_of, total, IsTail, IsMessage}

-- A fragment that fits is copied with no growth.
fits-final :
    (bytes : List ℕ) (len : ℕ) (f : Fragment)
    → length bytes + length f.payload ≤ len
    → f.is_first ≡ false
    → f.is_final ≡ true
    → receive_fragment (record { buf = some bytes; len = len }) f
      ≡ delivers (c_str (bytes ++ f.payload)) no_recv
unfolding receive_fragment begin_message make_room copy_fragment
fits-final bytes len f h e k = ground arith

fits-more :
    (bytes : List ℕ) (len : ℕ) (f : Fragment)
    → length bytes + length f.payload ≤ len
    → f.is_first ≡ false
    → f.is_final ≡ false
    → receive_fragment (record { buf = some bytes; len = len }) f
      ≡ waits (record { buf = some (bytes ++ f.payload); len = len })
unfolding receive_fragment begin_message make_room copy_fragment
fits-more bytes len f h e k = ground arith

tail-fits :
    (fs : List Fragment) (bytes : List ℕ) (len : ℕ)
    → length bytes + total fs ≤ len
    → IsTail fs
    → receive_all (record { buf = some bytes; len = len }) fs
      ≡ some (c_str (bytes ++ payloads fs) ∷ [], no_recv)
tail-fits [] bytes len h t = absurd t
tail-fits (f ∷ []) bytes len h t =
    receive_all-delivers (record { buf = some bytes; len = len }) no_recv f []
      (c_str (bytes ++ f.payload)) [] no_recv
      (fits-final bytes len f (omega (arith, length-append f.payload [])) t.0 t.1)
      (unfold receive_all in refl)
    ∙ ap (λ p. some (c_str (bytes ++ p) ∷ [], no_recv)) (sym (append-nil f.payload))
tail-fits (f ∷ g ∷ fs) bytes len h t =
    let size = length-append f.payload (payloads (g ∷ fs)) in
    receive_all-waits (record { buf = some bytes; len = len }) _ f (g ∷ fs)
      (fits-more bytes len f (omega (arith, size)) t.0 t.1)
    ∙ tail-fits (g ∷ fs) (bytes ++ f.payload) len
        (omega (arith, size, length-append bytes f.payload)) t.2
    ∙ ap (λ p. some (c_str p ∷ [], no_recv)) (append_assoc bytes f.payload (payloads (g ∷ fs)))

first-more :
    (r : Recv) (f : Fragment)
    → f.is_first ≡ true
    → f.is_final ≡ false
    → receive_fragment r f
      ≡ waits (record { buf = some f.payload; len = length f.payload + f.remaining_payload })
unfolding receive_fragment begin_message make_room copy_fragment
first-more r f e k = ground arith

-- A message of two fragments or more whose first one announces the length of all that follow is
-- delivered, all its bytes up to the first NUL, whatever its length and the buffer before: the
-- limit is not tested for the first allocation.
pub announced-delivered :
    (r : Recv) (f g : Fragment) (fs : List Fragment)
    → IsMessage (f ∷ g ∷ fs)
    → f.remaining_payload ≡ total (g ∷ fs)
    → receive_all r (f ∷ g ∷ fs) ≡ some (message_of (f ∷ g ∷ fs) ∷ [], no_recv)
announced-delivered r f g fs m e =
    receive_all-waits r _ f (g ∷ fs) (first-more r f m.0 m.1)
    ∙ tail-fits (g ∷ fs) f.payload (length f.payload + f.remaining_payload) (omega arith) m.2

truncates :
    (bytes : List ℕ) (len : ℕ) (f : Fragment)
    → f.is_first ≡ false
    → len < length bytes + length f.payload
    → max_recv_buf_size < len + recv_buf_realloc_size
    → length bytes ≤ len
    → receive_fragment (record { buf = some bytes; len = len }) f ≡ waits no_recv
unfolding receive_fragment begin_message make_room copy_fragment
truncates bytes len f e h k l = ground arith

restarts :
    (f : Fragment)
    → f.is_first ≡ false
    → f.is_final ≡ true
    → 0 < length f.payload
    → length f.payload ≤ recv_buf_realloc_size
    → receive_fragment no_recv f ≡ delivers (c_str f.payload) no_recv
unfolding receive_fragment begin_message make_room copy_fragment
restarts f e k h l = ground arith

-- When a fragment that is not the first does not fit in a valid buffer that may not grow by another
-- step, the buffer is dropped, but a final fragment of the same message that follows, not empty and
-- at most a growth step long, begins a new buffer: the end of the message, up to its first NUL, is
-- delivered as a message.
pub truncated-tail_delivered :
    (bytes : List ℕ) (len : ℕ) (f g : Fragment)
    → length bytes ≤ len
    → len < length bytes + length f.payload
    → max_recv_buf_size < len + recv_buf_realloc_size
    → f.is_first ≡ false
    → g.is_first ≡ false
    → g.is_final ≡ true
    → 0 < length g.payload
    → length g.payload ≤ recv_buf_realloc_size
    → receive_all (record { buf = some bytes; len = len }) (f ∷ g ∷ [])
      ≡ some (c_str g.payload ∷ [], no_recv)
truncated-tail_delivered bytes len f g l h k e e' k' p q =
    receive_all-waits (record { buf = some bytes; len = len }) no_recv f (g ∷ [])
      (truncates bytes len f e h k l)
    ∙ receive_all-delivers no_recv no_recv g [] (c_str g.payload) [] no_recv (restarts g e' k' p q)
        (unfold receive_all in refl)
