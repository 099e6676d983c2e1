-- ===== src/JitterBuffer/Playing.antt =====
-- Which packet JitterBuffer::get_next_packet of src/adaptive_buffer.cpp hands out.
use mathlib.Core.List.{Perm}
use mod_audio_stream.Common.{
  ℕ, ◌+◌, ◌*◌, ◌-◌, ◌/◌, ◌^◌, ◌<◌, ◌≤◌, ◌≡◌, ◌⊎◌, refl, sym, subst, List, [], ◌∷◌, Bool, true,
  false, Option, none, some, inl, inr, arith, All, leb, u64, if◌then◌else◌, if-true, if-false,
  Bool-cases,
}
use mod_audio_stream.MessageQueue.{Message, milliseconds_since, pop, select}
use mod_audio_stream.MessageQueue.Urgent.{
  IsMostUrgent, select-IsMostUrgent, select-perm, select-All,
}
use mod_audio_stream.JitterBuffer.{JitterBuffer, should_play_packet, play_top, get_next_packet}

-- Old enough, or dated a millisecond or more in the future.
abbrev pub IsDue : ℕ → ℕ → Message → Type 0
IsDue now delay m = (m.timestamp + delay * 1000000 ≤ now) ⊎ (now + 1000000 ≤ m.timestamp)

pub record Plays {D : Type 0} (now : ℕ) (b : JitterBuffer D) (packet : Message)
    (b' : JitterBuffer D) : Type 0 where
  pub perm : Perm (packet ∷ b'.jitter_queue) b.jitter_queue
  pub first : IsMostUrgent packet b.jitter_queue
  pub due : IsDue now b.target_delay_ms packet
  pub delay : b'.target_delay_ms ≡ b.target_delay_ms

-- Nothing is handed out: there is nothing, or a most urgent packet is neither old enough nor
-- dated in the future.
pub record Waits {D : Type 0} (now : ℕ) (b b' : JitterBuffer D) : Type 0 where
  pub same : b' ≡ b
  pub early :
      (b.jitter_queue ≡ [])
      ⊎ ((packet : Message) × IsMostUrgent packet b.jitter_queue
          × (now < packet.timestamp + b.target_delay_ms * 1000000)
          × (packet.timestamp < now + 1000000))

abbrev pub Answers : {D : Type 0} → ℕ → JitterBuffer D → Option Message × JitterBuffer D → Type 0
Answers now b (none, b') = Waits now b b'
Answers now b (some packet, b') = Plays now b packet b'

le_of_leb : (a b : ℕ) → leb a b ≡ true → a ≤ b
le_of_leb a b e = ground arith

lt_of_leb : (a b : ℕ) → leb a b ≡ false → b < a
lt_of_leb a b e = ground arith

-- The age of a packet that is dated in the future, and of another one.
ahead :
    (now time : ℕ)
    → leb time now ≡ false
    → milliseconds_since now time ≡ u64 (2 ^ 64 - (time - now) / 1000000)
ahead now time e = if-false _ _ e

behind : (now time : ℕ) → leb time now ≡ true → milliseconds_since now time ≡ (now - time) / 1000000
behind now time e = if-true _ _ e

due_lem :
    (now time delay : ℕ)
    → time < 2 ^ 63
    → 0 < delay
    → leb delay (milliseconds_since now time) ≡ true
    → (time + delay * 1000000 ≤ now) ⊎ (now + 1000000 ≤ time)
due_lem now time delay t d e = elim (Bool-cases (leb time now)) [
  | inl past ↦
      inl (omega (arith, le_of_leb time now past, le_of_leb delay _ e, behind now time past))
  | inr future ↦
      inr (omega (arith, lt_of_leb time now future, le_of_leb delay _ e, ahead now time future))
]

early_lem :
    (now time delay : ℕ)
    → time < 2 ^ 63
    → delay < 2 ^ 32
    → leb delay (milliseconds_since now time) ≡ false
    → (now < time + delay * 1000000) × (time < now + 1000000)
early_lem now time delay t d e = elim (Bool-cases (leb time now)) [
  | inl past ↦ omega (arith, le_of_leb time now past, lt_of_leb delay _ e, behind now time past)
  | inr future ↦
      omega (arith, lt_of_leb time now future, lt_of_leb delay _ e, ahead now time future)
]

module _ {D : Type 0} where
  answer :
      (now : ℕ) (b : JitterBuffer D) (packet : Message) (others : List Message) (test : Bool)
      → packet.timestamp < 2 ^ 63
      → 0 < b.target_delay_ms
      → b.target_delay_ms < 2 ^ 32
      → Perm (packet ∷ others) b.jitter_queue
      → IsMostUrgent packet b.jitter_queue
      → leb b.target_delay_ms (milliseconds_since now packet.timestamp) ≡ test
      → Answers now b
          (if test then (some packet, record b { jitter_queue = others }) else (none, b))
  answer now b packet others true t pos small perm first e = record {
    perm = perm;
    first = first;
    due = due_lem now packet.timestamp b.target_delay_ms t pos e;
    delay = refl;
  }
  answer now b packet others false t pos small perm first e =
      let (before, near) = early_lem now packet.timestamp b.target_delay_ms t small e in
      record { same = refl; early = inr (packet, first, before, near) }

  answer_queue :
      (now : ℕ) (b : JitterBuffer D) (queue : List Message)
      → b.jitter_queue ≡ queue
      → All (λ (m : Message). m.timestamp < 2 ^ 63) queue
      → 0 < b.target_delay_ms
      → b.target_delay_ms < 2 ^ 32
      → Answers now b (play_top now (pop queue) b)
  unfolding play_top should_play_packet pop
  answer_queue now b [] e t pos small = record { same = refl; early = inl e }
  answer_queue now b (m ∷ queue) e t pos small =
      let (packet, others) = select m queue in
      answer now b packet others (should_play_packet now packet b)
        (select-All (λ (m : Message). m.timestamp < 2 ^ 63) m queue t) pos small
        (subst (Perm (packet ∷ others)) (sym e) (select-perm m queue))
        (subst (IsMostUrgent packet) (sym e) (select-IsMostUrgent m queue)) refl

  -- For a jitter buffer whose packets are dated before 2^63 and whose target delay is positive and
  -- below 2^32: a packet that get_next_packet hands out is one of the queue than which none is more
  -- urgent, the queue is left with the others, in some order, and the packet is at least as old as
  -- the target delay, or dated a millisecond or more in the future. If none is handed out, the
  -- buffer is left as it was, and it is empty or one of its most urgent packets is younger than the
  -- target delay and dated less than a millisecond in the future.
  pub get_next_packet-Answers :
      (now : ℕ) (b : JitterBuffer D)
      → All (λ (m : Message). m.timestamp < 2 ^ 63) b.jitter_queue
      → 0 < b.target_delay_ms
      → b.target_delay_ms < 2 ^ 32
      → Answers now b (get_next_packet now b)
  unfolding get_next_packet
  get_next_packet-Answers now b t pos small = answer_queue now b b.jitter_queue refl t pos small
