-- ===== src/Playback/Account.antt =====
-- The count of bytes received is the count of bytes played and the bytes stored, whatever messages
-- and frames come (src/lws_glue.cpp, src/mod_audio_stream.c).
use mod_audio_stream.Common.{
  ℕ, ◌+◌, ◌≤◌, ◌≡◌, sym, ap, subst, ◌∙◌, List, [], ◌∷◌, true, not, ◌&&◌, arith, length, u32, ltb,
  All,
}
use mod_audio_stream.SwitchBuffer.{SwitchBuffer, IsFifo}
use mod_audio_stream.Checkpoints.{Checkpoints}
use mod_audio_stream.Checkpoints.Chain.{Cell}
use mod_audio_stream.Checkpoints.Refine.{Represents}
use mod_audio_stream.Playback.{Session, Untouched}

-- Enough bytes for each checkpoint.
abbrev pub AtMost : ℕ → List Cell → Type 0
AtMost n = All (λ (c : Cell). c.position ≤ n)

pub AtMost-mono : (m n : ℕ) (cs : List Cell) → m ≤ n → AtMost m cs → AtMost n cs
AtMost-mono m n [] h r = tt
AtMost-mono m n (c ∷ cs) h r = (omega arith, AtMost-mono m n cs h r.1)

-- The queue of checkpoints, and what is received, played and stored.
pub record AccountOf {B : Type 0} {o : SwitchBuffer B} (fifo : IsFifo o) (b : B)
    (received played : ℕ) (c : Checkpoints) : Type 0 where
  pub queue : List Cell
  pub represents : Represents c queue
  pub unlimited : fifo.max_len b ≡ 0
  pub balance : received ≡ u32 (played + length (fifo.contents b))
  pub reached : AtMost (played + length (fifo.contents b)) queue

-- An unlimited buffer takes everything.
pub room :
    {B : Type 0} {o : SwitchBuffer B} (fifo : IsFifo o) (b : B) (d : List ℕ)
    → fifo.max_len b ≡ 0
    → fifo.fits b d ≡ true
room fifo b d e =
    fifo.fits-eq b d ∙ ap (λ n. not (ltb 0 n && ltb n (length (fifo.contents b) + length d))) e

module _ {B R : Type 0} {o : SwitchBuffer B} (fifo : IsFifo o) where
  abbrev pub Accounts : Session B R → Type 0
  Accounts s =
      AccountOf fifo s.write_buffer s.stream_input_received s.stream_input_played s.checkpoints

  pub Untouched-Accounts : (s t : Session B R) → Untouched s t → Accounts s → Accounts t
  Untouched-Accounts s t u a =
      subst (λ b. AccountOf fifo b t.stream_input_received t.stream_input_played t.checkpoints)
        (sym u.write_buffer)
        (subst (λ r. AccountOf fifo s.write_buffer r t.stream_input_played t.checkpoints)
          (sym u.received)
          (subst (λ p. AccountOf fifo s.write_buffer s.stream_input_received p t.checkpoints)
            (sym u.played)
            (subst
              (λ c. AccountOf fifo s.write_buffer s.stream_input_received s.stream_input_played c)
              (sym u.checkpoints) a)))
