-- ===== src/PacketLoss/Missing.antt =====
-- The sequence numbers that detect_missing_packets of src/adaptive_buffer.cpp finds missing.
use mod_audio_stream.Common.{
  ℕ, zero, suc, ◌+◌, ◌-◌, ◌^◌, ◌<◌, ◌≤◌, ◌≡◌, sym, ap, ◌∙◌, List, [], ◌∷◌, inl, inr, arith, length,
  u32, ltb, if-true, if-false, String, Bool-cases,
}
use mod_audio_stream.PacketLoss.{PacketLossRecovery, missing_loop, detect_missing_packets}

-- `n` numbers from `start` on.
abbrev pub range : ℕ → ℕ → List ℕ
range start zero = []
range start (suc n) = start ∷ range (start + 1) n

length-range : (start n : ℕ) → length (range start n) ≡ n
length-range start zero = omega arith
length-range start (suc n) = omega (arith, length-range (start + 1) n)

range-at_end : (start n : ℕ) → n ≡ 0 → range start n ≡ []
range-at_end start n e = ap (range start) e

range-step : (start n : ℕ) → 0 < n → range start n ≡ start ∷ range (start + 1) (n - 1)
range-step start zero h = absurd (omega arith)
range-step start (suc n) h = ap (λ k. start ∷ range (start + 1) k) (omega arith)

-- With enough rounds the loop ends by its test.
missing_loop-range :
    (rounds seq current : ℕ)
    → current < 2 ^ 32
    → current ≤ seq + rounds
    → missing_loop rounds seq current ≡ range seq (current - seq)
unfolding missing_loop
missing_loop-range zero seq current small enough = sym (range-at_end seq _ (omega arith))
missing_loop-range (suc rounds) seq current small enough = elim (Bool-cases (ltb seq current)) [
  | inl more ↦
      let here : seq < current = ground arith in
      let up : u32 (seq + 1) ≡ seq + 1 = omega arith in
      if-true _ _ more
      ∙ ap (λ k. seq ∷ missing_loop rounds k current) up
      ∙ ap (λ (l : List ℕ). seq ∷ l)
          (missing_loop-range rounds (seq + 1) current small (omega arith))
      ∙ ap (λ k. seq ∷ range (seq + 1) k) (omega arith)
      ∙ sym (range-step seq (current - seq) (omega arith))
  | inr done ↦ if-false _ _ done ∙ sym (range-at_end seq _ (ground arith))
]

-- For sequence numbers of 32 bits, detect_missing_packets gives the numbers from the one after
-- `last`, modulo 2^32, to the one before `current`, in order and each once, and none if `current`
-- does not lie behind.
pub detect_missing_packets-range :
    (id : String) (last current : ℕ) (r : PacketLossRecovery)
    → last < 2 ^ 32
    → current < 2 ^ 32
    → ((detect_missing_packets id last current r).0
        ≡ range (u32 (last + 1)) (current - u32 (last + 1)))
unfolding detect_missing_packets
detect_missing_packets-range id last current r l c =
    missing_loop-range current (u32 (last + 1)) current c (omega arith)
