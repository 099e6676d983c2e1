-- ===== src/Receive/Reassembly.antt =====
-- A message that comes in fragments is delivered whole by src/audio_pipe.cpp.
use mod_audio_stream.Common.{
  ℕ, ◌+◌, ◌∙◌, ◌-◌, ◌≤◌, ◌≡◌, refl, sym, ap, true, false, List, [], ◌∷◌, ◌++◌, append_assoc,
  append-nil, some, arith, length, length-append, ltb, if◌then◌else◌, map,
}
use mod_audio_stream.Receive.{
  Recv, Fragment, waits, delivers, no_recv, c_str, begin_message, make_room, copy_fragment,
  receive_fragment, receive_all, recv_buf_realloc_size,
}
use mod_audio_stream.Receive.Bounds.{
  rx_buffer_size, WithinRx, receive_all-waits, receive_all-delivers,
}

-- The bytes of the fragments, in order.
abbrev pub payloads : List Fragment → List ℕ
payloads [] = []
payloads (f ∷ fs) = f.payload ++ payloads fs

-- The fragments after the first one of a message: only the last is final.
abbrev pub IsTail : List Fragment → Type 0
IsTail [] = ⊥
IsTail (f ∷ []) = (f.is_first ≡ false) × (f.is_final ≡ true)
IsTail (f ∷ g ∷ fs) = (f.is_first ≡ false) × (f.is_final ≡ false) × IsTail (g ∷ fs)

-- The fragments of one message.
abbrev pub IsMessage : List Fragment → Type 0
IsMessage [] = ⊥
IsMessage (f ∷ []) = (f.is_first ≡ true) × (f.is_final ≡ true)
IsMessage (f ∷ g ∷ fs) = (f.is_first ≡ true) × (f.is_final ≡ false) × IsTail (g ∷ fs)

-- Below this length no message meets the limit of the buffer, however it is cut.
abbrev pub safe_length : ℕ
safe_length = 7_680_000

-- The buffer's size after a fragment of n bytes went in behind m others.
abbrev grown : ℕ → ℕ → ℕ → ℕ
grown len m n = if ltb (len - m) n then len + recv_buf_realloc_size else len

make_room-grown :
    (bytes : List ℕ) (len n : ℕ)
    → length bytes ≤ len
    → length bytes + n ≤ safe_length
    → make_room (record { buf = some bytes; len = len }) n
      ≡ record { buf = some bytes; len = grown len (length bytes) n }
unfolding make_room
make_room-grown bytes len n h k = ground arith

copy-more :
    (bytes : List ℕ) (len : ℕ) (f : Fragment)
    → length bytes + length f.payload ≤ len
    → f.is_final ≡ false
    → copy_fragment (record { buf = some bytes; len = len }) f
      ≡ waits (record { buf = some (bytes ++ f.payload); len = len })
unfolding copy_fragment
copy-more bytes len f h e = ground arith

copy-final :
    (bytes : List ℕ) (len : ℕ) (f : Fragment)
    → length bytes + length f.payload ≤ len
    → f.is_final ≡ true
    → copy_fragment (record { buf = some bytes; len = len }) f
      ≡ delivers (c_str (bytes ++ f.payload)) no_recv
unfolding copy_fragment
copy-final bytes len f h e = ground arith

begin-later : (r : Recv) (f : Fragment) → f.is_first ≡ false → begin_message r f ≡ r
unfolding begin_message
begin-later r f e = rw e

begin-first :
    (r : Recv) (f : Fragment)
    → f.is_first ≡ true
    → begin_message r f ≡ record { buf = some []; len = length f.payload + f.remaining_payload }
unfolding begin_message
begin-first r f e = rw e

-- What one fragment does to a buffer that has begun.
receive-in :
    (r : Recv) (bytes : List ℕ) (len : ℕ) (f : Fragment)
    → begin_message r f ≡ record { buf = some bytes; len = len }
    → length bytes ≤ len
    → length bytes + length f.payload ≤ safe_length
    → receive_fragment r f
      ≡ copy_fragment
          (record { buf = some bytes; len = grown len (length bytes) (length f.payload) })
          f
receive-in r bytes len f e h k =
    unfold receive_fragment in
    ap (λ t. copy_fragment (make_room t (length f.payload)) f) e
    ∙ ap (λ t. copy_fragment t f) (make_room-grown bytes len (length f.payload) h k)

abbrev pub total : List Fragment → ℕ
total fs = length (payloads fs)

-- The last fragment of a message, and one before it.
last-in :
    (r : Recv) (bytes : List ℕ) (len : ℕ) (f : Fragment) (rest : List Fragment) (ms : List (List ℕ))
    (end : Recv)
    → begin_message r f ≡ record { buf = some bytes; len = len }
    → length bytes ≤ len
    → length bytes + length f.payload ≤ safe_length
    → length f.payload ≤ rx_buffer_size
    → f.is_final ≡ true
    → receive_all no_recv rest ≡ some (ms, end)
    → receive_all r (f ∷ rest) ≡ some (c_str (bytes ++ f.payload) ∷ ms, end)
last-in r bytes len f rest ms end e h k w final after =
    receive_all-delivers r no_recv f rest (c_str (bytes ++ f.payload)) ms end
      (receive-in r bytes len f e h k ∙ copy-final bytes _ f (ground arith) final) after

more-in :
    (r : Recv) (bytes : List ℕ) (len : ℕ) (f : Fragment) (rest : List Fragment)
    → begin_message r f ≡ record { buf = some bytes; len = len }
    → length bytes ≤ len
    → length bytes + length f.payload ≤ safe_length
    → length f.payload ≤ rx_buffer_size
    → f.is_final ≡ false
    → receive_all r (f ∷ rest)
      ≡ receive_all
          (record {
            buf = some (bytes ++ f.payload);
            len = grown len (length bytes) (length f.payload);
          })
          rest
more-in r bytes len f rest e h k w more =
    receive_all-waits r _ f rest
      (receive-in r bytes len f e h k ∙ copy-more bytes _ f (ground arith) more)

tail-delivered :
    (fs : List Fragment) (bytes : List ℕ) (len : ℕ) (rest : List Fragment) (ms : List (List ℕ))
    (end : Recv)
    → length bytes ≤ len
    → length bytes + total fs ≤ safe_length
    → WithinRx fs
    → IsTail fs
    → receive_all no_recv rest ≡ some (ms, end)
    → receive_all (record { buf = some bytes; len = len }) (fs ++ rest)
      ≡ some (c_str (bytes ++ payloads fs) ∷ ms, end)
tail-delivered [] bytes len rest ms end h k w t after = absurd t
tail-delivered (f ∷ []) bytes len rest ms end h k w t after =
    last-in (record { buf = some bytes; len = len }) bytes len f rest ms end
      (begin-later (record { buf = some bytes; len = len }) f t.0) h
      (omega (arith, length-append f.payload [])) w.0 t.1 after
    ∙ ap (λ p. some (c_str (bytes ++ p) ∷ ms, end)) (sym (append-nil f.payload))
tail-delivered (f ∷ g ∷ fs) bytes len rest ms end h k w t after =
    let size = length-append f.payload (payloads (g ∷ fs)) in
    more-in (record { buf = some bytes; len = len }) bytes len f (g ∷ fs ++ rest)
      (begin-later (record { buf = some bytes; len = len }) f t.0) h (omega (arith, size)) w.0 t.1
    ∙ tail-delivered (g ∷ fs) (bytes ++ f.payload) (grown len (length bytes) (length f.payload))
        rest ms end (ground (arith, length-append bytes f.payload))
        (omega (arith, size, length-append bytes f.payload)) w.1 t.2 after
    ∙ ap (λ p. some (c_str p ∷ ms, end)) (append_assoc bytes f.payload (payloads (g ∷ fs)))

-- The fragments of one message deliver its bytes as one message, from whatever state the buffer
-- was in, and the fragments behind them start afresh.
pub message-delivered :
    (r : Recv) (fs rest : List Fragment) (ms : List (List ℕ)) (end : Recv)
    → IsMessage fs
    → WithinRx fs
    → total fs ≤ safe_length
    → receive_all no_recv rest ≡ some (ms, end)
    → receive_all r (fs ++ rest) ≡ some (c_str (payloads fs) ∷ ms, end)
message-delivered r [] rest ms end m w k after = absurd m
message-delivered r (f ∷ []) rest ms end m w k after =
    last-in r [] (length f.payload + f.remaining_payload) f rest ms end (begin-first r f m.0)
      (omega arith) (omega (arith, length-append f.payload [])) w.0 m.1 after
    ∙ ap (λ p. some (c_str p ∷ ms, end)) (sym (append-nil f.payload))
message-delivered r (f ∷ g ∷ fs) rest ms end m w k after =
    let size = length-append f.payload (payloads (g ∷ fs)) in
    more-in r [] (length f.payload + f.remaining_payload) f (g ∷ fs ++ rest) (begin-first r f m.0)
      (omega arith) (omega (arith, size)) w.0 m.1
    ∙ tail-delivered (g ∷ fs) f.payload _ rest ms end (ground arith) (omega (arith, size)) w.1 m.2
        after

-- The message that fragments make.
abbrev pub message_of : List Fragment → List ℕ
message_of fs = c_str (payloads fs)

abbrev pub AllMessages : List (List Fragment) → Type 0
AllMessages [] = Unit
AllMessages (m ∷ ms) = IsMessage m × WithinRx m × (total m ≤ safe_length) × AllMessages ms

abbrev pub flat : List (List Fragment) → List Fragment
flat [] = []
flat (m ∷ ms) = m ++ flat ms

-- A connection whose fragments, of at most 32768 bytes each, are those of whole messages one after
-- another, each of at most 7680000 bytes, delivers each message once and in order, all its bytes up
-- to the first NUL, and ends with no buffer.
pub messages-delivered :
    (msgs : List (List Fragment))
    → AllMessages msgs
    → receive_all no_recv (flat msgs) ≡ some (map message_of msgs, no_recv)
messages-delivered [] h = unfold receive_all in refl
messages-delivered (m ∷ ms) h =
    message-delivered no_recv m (flat ms) (map message_of ms) no_recv h.0 h.1 h.2
      (messages-delivered ms h.3)
