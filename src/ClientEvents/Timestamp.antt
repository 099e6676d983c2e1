-- ===== src/ClientEvents/Timestamp.antt =====
-- The thirteen characters that generate_json_data_event keeps of a time in microseconds.
use native.Mathlib.Nat.{pow-suc}
use mod_audio_stream.Common.{
  ℕ, zero, suc, ◌+◌, ◌/◌, ◌%◌, ◌^◌, ◌≤◌, ◌<◌, ◌≡◌, refl, sym, ap, ◌∙◌, List, [], ◌∷◌, ◌++◌, arith,
  append_assoc, length, length-append, take, decimal, decimal_fuel,
}
use native.Mathlib.Decide.{dec_lt}
use mod_audio_stream.ClientEvents.{time_str}

one-le-pow : (k : ℕ) → 1 ≤ 10 ^ k
one-le-pow zero = omega arith
one-le-pow (suc k) = omega (arith, one-le-pow k, pow-suc 10 k)

decimal_fuel-small : (f n : ℕ) → n < 10 → decimal_fuel (suc f) n ≡ (b'0' + n) ∷ []
unfolding decimal_fuel
decimal_fuel-small f n h = ground arith

decimal_fuel-step :
    (f n : ℕ) → 10 ≤ n → decimal_fuel (suc f) n ≡ decimal_fuel f (n / 10) ++ (b'0' + n % 10) ∷ []
unfolding decimal_fuel
decimal_fuel-step f n h = ground arith

-- Fuel beyond the number of digits changes nothing.
decimal_fuel-enough :
    (f g n : ℕ) → n < 10 ^ suc f → f ≤ g → decimal_fuel (suc g) n ≡ decimal_fuel (suc f) n
decimal_fuel-enough zero g n h k =
    let small : n < 10 = h in decimal_fuel-small g n small ∙ sym (decimal_fuel-small zero n small)
decimal_fuel-enough (suc f) zero n h k = elim k [ ]
decimal_fuel-enough (suc f) (suc g) n h k = elim (dec_lt n 10) [
  | yes small ↦ decimal_fuel-small (suc g) n small ∙ sym (decimal_fuel-small (suc f) n small)
  | no large ↦
      decimal_fuel-step (suc g) n (omega arith)
      ∙ ap (λ t. t ++ (b'0' + n % 10) ∷ [])
          (decimal_fuel-enough f g (n / 10) (omega (arith, pow-suc 10 (suc f))) (omega arith))
      ∙ sym (decimal_fuel-step (suc f) n (omega arith))
]

length-decimal_fuel :
    (k f n : ℕ) → 10 ^ k ≤ n → n < 10 ^ suc k → k < f → length (decimal_fuel f n) ≡ suc k
length-decimal_fuel k zero n h l m = elim m [ ]
length-decimal_fuel zero (suc f) n h l m = ap length (decimal_fuel-small f n (omega arith))
length-decimal_fuel (suc k) (suc f) n h l m = omega (
  arith,
  ap length (decimal_fuel-step f n (omega (arith, pow-suc 10 k, one-le-pow k))),
  length-append (decimal_fuel f (n / 10)) ((b'0' + n % 10) ∷ []),
  length-decimal_fuel k f (n / 10) (omega (arith, pow-suc 10 k)) (omega (arith, pow-suc 10 (suc k)))
      (omega arith),
)

take-length : (xs ys : List ℕ) → take (length xs) (xs ++ ys) ≡ xs
take-length [] ys = refl
take-length (x ∷ xs) ys = ap (λ t. x ∷ t) (take-length xs ys)

-- Three digits come off the end.
decimal-thousand :
    (n : ℕ) → 1000 ≤ n → n < 10 ^ 20 → (ds : List ℕ) × (decimal n ≡ decimal (n / 1000) ++ ds)
unfolding decimal
decimal-thousand n h l = (
  (b'0' + n / 10 / 10 % 10) ∷ (b'0' + n / 10 % 10) ∷ (b'0' + n % 10) ∷ [],
  decimal_fuel-step 19 n (omega arith)
      ∙ ap (λ t. t ++ (b'0' + n % 10) ∷ []) (decimal_fuel-step 18 (n / 10) (omega arith))
      ∙ ap (λ t. (t ++ (b'0' + n / 10 % 10) ∷ []) ++ (b'0' + n % 10) ∷ [])
          (decimal_fuel-step 17 (n / 10 / 10) (omega arith)
            ∙ ap (λ t. t ++ (b'0' + n / 10 / 10 % 10) ∷ [])
                (ap (decimal_fuel 17) {x = n / 10 / 10 / 10} {y = n / 1000} (omega arith)
                  ∙ sym (decimal_fuel-enough 16 19 (n / 1000) (omega arith) (omega arith))))
      ∙ simp append_assoc,
)

-- Of a time in microseconds that has sixteen digits, the event carries the first thirteen: the
-- decimal digits of the time in milliseconds, rounded down.
pub time_str_ms : (t : ℕ) → 10 ^ 15 ≤ t → t < 10 ^ 16 → time_str t ≡ decimal (t / 1000)
unfolding time_str
time_str_ms t h l =
    let (ds, e) = decimal-thousand t (omega arith) (omega arith) in
    let n : length (decimal (t / 1000)) ≡ 13 =
      unfold decimal in
      length-decimal_fuel 12 20 (t / 1000) (omega arith) (omega arith) (omega arith) in
    ap (take 13) e ∙ rw (← n) (take-length (decimal (t / 1000)) ds)
