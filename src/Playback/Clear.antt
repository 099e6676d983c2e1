-- ===== src/Playback/Clear.antt =====
-- The loop of processClearEvent (src/lws_glue.cpp) over the checkpoints.
use mod_audio_stream.Common.{
  ℕ, zero, suc, ◌<◌, ◌≡◌, sym, ap, subst, ◌∙◌, List, [], ◌∷◌, Option, none, some, inl, inr, arith,
  length, ◌>>=◌, update, bind-some, Option-cases, AllResults, lookup-AllResults,
}
use mod_audio_stream.Checkpoints.{Checkpoints}
use mod_audio_stream.Checkpoints.Chain.{Cell, Chain, first_is, uncons, end_is, frame-update}
use mod_audio_stream.Playback.Incoming.{clear_checkpoints}

abbrev clear_round : ℕ → Checkpoints → Option ℕ → Option Checkpoints
clear_round fuel c p = elim p [
  | none ↦ some c
  | some h ↦ c.cells h >>= λ node.
      clear_checkpoints fuel (record { cells = update c.cells h none; first = node.next })
]

clear_checkpoints-first :
    (fuel : ℕ) (c : Checkpoints) (p : Option ℕ)
    → c.first ≡ p
    → clear_checkpoints (suc fuel) c ≡ clear_round fuel c p
unfolding clear_checkpoints
clear_checkpoints-first fuel c p e = ap (clear_round fuel c) e

abbrev pub IsCleared : Checkpoints → Type 0
IsCleared c = c.first ≡ none

pub clear_checkpoints-IsCleared :
    (fuel : ℕ) (c : Checkpoints) → AllResults IsCleared (clear_checkpoints fuel c)
unfolding clear_checkpoints
clear_checkpoints-IsCleared zero c = tt
clear_checkpoints-IsCleared (suc fuel) c =
    let by = λ (p : Option ℕ) (e : c.first ≡ p) (r : AllResults IsCleared (clear_round fuel c p)).
      subst (AllResults IsCleared) (sym (clear_checkpoints-first fuel c p e)) r in
    elim (Option-cases c.first) [
      | inl e ↦ by none e e
      | inr (h, e) ↦ by (some h) e (
          lookup-AllResults IsCleared (c.cells h) _ (λ node stored.
            clear_checkpoints-IsCleared fuel
              (record { cells = update c.cells h none; first = node.next })))
    ]

-- All of the list is freed, given a round for each node and one more.
pub clear_checkpoints-total :
    (fuel : ℕ) (c : Checkpoints) (cs : List Cell)
    → Chain c.cells c.first cs
    → length cs < fuel
    → (d : Checkpoints) × (clear_checkpoints fuel c ≡ some d) × (d.first ≡ none)
clear_checkpoints-total zero c cs chain enough = absurd (omega arith)
clear_checkpoints-total (suc fuel) c [] chain enough =
    (c, clear_checkpoints-first fuel c none (end_is chain), end_is chain)
clear_checkpoints-total (suc fuel) c (x ∷ cs) chain enough =
    let (q, holds, out, rest) = uncons chain in
    let c' : Checkpoints = record { cells = update c.cells x.at none; first = q } in
    let (d, e, empty) =
      clear_checkpoints-total fuel c' cs (frame-update x.at none rest out) (omega arith) in
    (
      d,
      clear_checkpoints-first fuel c (some x.at) (first_is chain)
          ∙ bind-some (c.cells x.at) _ _ holds.stored
          ∙ e,
      empty,
    )
