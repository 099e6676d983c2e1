-- ===== src/Receive/Tests.antt =====
-- Fragments as src/audio_pipe.cpp receives them, and the theorems at concrete inputs.
use mod_audio_stream.Common.{
  ℕ, zero, suc, ◌≡◌, refl, ap, true, false, List, [], ◌∷◌, some, arith, replicate, length,
}
use mod_audio_stream.Receive.{Recv, Fragment, no_recv, receive_fragment, receive_all}
use mod_audio_stream.Receive.Bounds.{Succeeds, receive_all-total}
use mod_audio_stream.Receive.Reassembly.{messages-delivered}
use mod_audio_stream.Receive.Oversize.{announced-delivered, truncated-tail_delivered}

abbrev opening : Fragment
opening = record { payload = 1 ∷ 2 ∷ []; remaining_payload = 0; is_first = true; is_final = false }

abbrev middle : Fragment
middle = record { payload = 3 ∷ []; remaining_payload = 0; is_first = false; is_final = false }

abbrev closing : Fragment
closing = record { payload = 4 ∷ 5 ∷ []; remaining_payload = 0; is_first = false; is_final = true }

abbrev whole : Fragment
whole = record { payload = 9 ∷ []; remaining_payload = 0; is_first = true; is_final = true }

abbrev half_read : Recv
half_read = record { buf = some (7 ∷ 8 ∷ []); len = 2 }

three_fragments :
    receive_all half_read (opening ∷ middle ∷ closing ∷ [])
    ≡ some ((1 ∷ 2 ∷ 3 ∷ 4 ∷ 5 ∷ []) ∷ [], no_recv)
unfolding receive_all receive_fragment
three_fragments = refl

receive_all-total_example : Succeeds half_read (middle ∷ closing ∷ whole ∷ [])
receive_all-total_example =
    receive_all-total half_read (middle ∷ closing ∷ whole ∷ []) (omega arith) (omega arith)

messages-delivered_example :
    receive_all no_recv (opening ∷ middle ∷ closing ∷ whole ∷ [])
    ≡ some ((1 ∷ 2 ∷ 3 ∷ 4 ∷ 5 ∷ []) ∷ (9 ∷ []) ∷ [], no_recv)
messages-delivered_example =
    messages-delivered ((opening ∷ middle ∷ closing ∷ []) ∷ (whole ∷ []) ∷ []) (
      (refl, refl, (refl, refl, (refl, refl))),
      omega arith,
      omega arith,
      ((refl, refl), omega arith, omega arith, tt),
    )

abbrev announcing : Fragment
announcing = record opening { remaining_payload = 3 }

announced-delivered_example :
    receive_all half_read (announcing ∷ middle ∷ closing ∷ [])
    ≡ some ((1 ∷ 2 ∷ 3 ∷ 4 ∷ 5 ∷ []) ∷ [], no_recv)
announced-delivered_example =
    announced-delivered half_read announcing middle (closing ∷ [])
      (refl, refl, (refl, refl, (refl, refl))) refl

-- As many zeros as the limit allows: the list is never written out.
zeros : ℕ → List ℕ
zeros n = replicate n 0

length-zeros : (n : ℕ) → length (zeros n) ≡ n
unfolding zeros
length-zeros zero = refl
length-zeros (suc n) = ap suc (length-zeros n)

abbrev nearly_full : Recv
nearly_full = record { buf = some (zeros 7_680_001); len = 7_680_001 }

truncated-tail_delivered_example :
    receive_all nearly_full (middle ∷ closing ∷ []) ≡ some ((4 ∷ 5 ∷ []) ∷ [], no_recv)
truncated-tail_delivered_example =
    truncated-tail_delivered (zeros 7_680_001) 7_680_001 middle closing
      (omega (arith, length-zeros 7_680_001)) (omega (arith, length-zeros 7_680_001)) (omega arith)
      refl refl refl (omega arith) (omega arith)
