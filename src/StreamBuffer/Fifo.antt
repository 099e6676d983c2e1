-- ===== src/StreamBuffer/Fifo.antt =====
-- A valid `Buffer` is a queue of whole frames.
use mod_audio_stream.Common.{
  ℕ, zero, suc, ◌+◌, ◌≤◌, ◌<◌, ◌^◌, ◌≡◌, refl, sym, ap, ◌∙◌, Bool, true, false, List, [], ◌∷◌, ◌++◌,
  append_assoc, append-nil, none, some, arith, ◌==◌, length, length-append, take, drop, inl, inr,
  Bool-cases, u32, ◌⊎◌,
}
use mod_audio_stream.SwitchBuffer.{SwitchBuffer, IsFifo}
use mod_audio_stream.StreamBuffer.{Buffer, new_buffer, read, write}

abbrev pub concat : List (List ℕ) → List ℕ
concat [] = []
concat (f ∷ fs) = f ++ concat fs

-- Every frame has n bytes.
abbrev pub AllOfSize : ℕ → List (List ℕ) → Type 0
AllOfSize n [] = Unit
AllOfSize n (f ∷ fs) = (length f ≡ n) × AllOfSize n fs

AllOfSize-append_one :
    (n : ℕ) (fs : List (List ℕ)) (f : List ℕ)
    → AllOfSize n fs
    → length f ≡ n
    → AllOfSize n (fs ++ f ∷ [])
AllOfSize-append_one n [] f h e = (e, tt)
AllOfSize-append_one n (g ∷ fs) f h e = (h.0, AllOfSize-append_one n fs f h.1 e)

concat-append_one : (fs : List (List ℕ)) (f : List ℕ) → concat (fs ++ f ∷ []) ≡ concat fs ++ f
concat-append_one [] f = append-nil f
concat-append_one (g ∷ fs) f =
    ap (λ t. g ++ t) (concat-append_one fs f) ∙ sym (append_assoc g (concat fs) f)

pub length-concat :
    (fs gs : List (List ℕ)) → length (concat (fs ++ gs)) ≡ length (concat fs) + length (concat gs)
length-concat [] gs = omega arith
length-concat (f ∷ fs) gs =
    grind
      (arith, length-concat fs gs, length-append f (concat fs), length-append f (concat (fs ++ gs)))

pub take-append_length : (xs ys : List ℕ) (n : ℕ) → n ≡ length xs → take n (xs ++ ys) ≡ xs
take-append_length [] ys n e = rw e
take-append_length (x ∷ xs) ys n e =
    rw e (ap (λ t. x ∷ t) (take-append_length xs ys (length xs) refl))

drop-append_length : (xs ys : List ℕ) (n : ℕ) → n ≡ length xs → drop n (xs ++ ys) ≡ ys
drop-append_length [] ys n e = rw e
drop-append_length (x ∷ xs) ys n e = rw e (drop-append_length xs ys (length xs) refl)

take-nil : (n : ℕ) → take {A = ℕ} n [] ≡ []
take-nil zero = refl
take-nil (suc n) = refl

drop-nil : (n : ℕ) → drop {A = ℕ} n [] ≡ []
drop-nil zero = refl
drop-nil (suc n) = refl

module _ {B : Type 0} {o : SwitchBuffer B} (law : IsFifo o) where
  -- The buffer holds the frames `fs`, oldest first, and its counters agree with them.
  pub record Holds (b : Buffer B) (fs : List (List ℕ)) : Type 0 where
    pub stored : law.contents b.freeswitch_buffer ≡ concat fs
    pub whole : AllOfSize b.chunk_size_bytes fs
    pub some_size : 0 < b.chunk_size_bytes
    pub usage : b.current_usage_bytes ≡ length (concat fs)
    pub limit : law.max_len b.freeswitch_buffer ≡ b.maximum_capacity_bytes
    pub bounded : (0 < b.maximum_capacity_bytes) × (b.maximum_capacity_bytes < 2 ^ 32)
    pub within : length (concat fs) ≤ b.maximum_capacity_bytes

  -- Over a FreeSWITCH buffer that obeys the laws of a queue, the constructor makes a well-formed
  -- buffer with no frame, if the capacity and the chunk size are positive and below 2^32.
  pub new_buffer-Holds :
      (max_len step increase now : ℕ)
      → 0 < max_len
      → max_len < 2 ^ 32
      → 0 < step
      → step < 2 ^ 32
      → Holds (new_buffer o max_len step increase now) []
  unfolding new_buffer
  new_buffer-Holds max_len step increase now h k l m = record {
    stored = law.contents-create _ _ _;
    whole = tt;
    some_size = omega arith;
    usage = refl;
    limit = law.max_len-create _ _ _ ∙ omega arith;
    bounded = omega arith;
    within = omega arith;
  }

  copy_front :
      {b : Buffer B} (f : List ℕ) (fs : List (List ℕ))
      → Holds b (f ∷ fs)
      → (o.read b.freeswitch_buffer b.chunk_size_bytes).0 ≡ f
  copy_front {b} f fs v =
      law.read-data b.freeswitch_buffer b.chunk_size_bytes
      ∙ ap (take b.chunk_size_bytes) v.stored
      ∙ take-append_length f (concat fs) b.chunk_size_bytes (sym v.whole.0)

  keep_back :
      {b : Buffer B} (f : List ℕ) (fs : List (List ℕ))
      → Holds b (f ∷ fs)
      → law.contents (o.read b.freeswitch_buffer b.chunk_size_bytes).1 ≡ concat fs
  keep_back {b} f fs v =
      law.contents-read b.freeswitch_buffer b.chunk_size_bytes
      ∙ ap (drop b.chunk_size_bytes) v.stored
      ∙ drop-append_length f (concat fs) b.chunk_size_bytes (sym v.whole.0)

  -- Over a FreeSWITCH buffer that obeys the laws of a queue, reading a buffer that holds the frame
  -- `f` and then `fs` returns `f`, leaves `fs`, counts one chunk modulo 2^32 and moves the send
  -- time by one step.
  pub read-front :
      {b : Buffer B} (f : List ℕ) (fs : List (List ℕ))
      → Holds b (f ∷ fs)
      → ((read o b).0 ≡ some f)
        × Holds (read o b).1 fs
        × ((read o b).1.transmitted_chunk_count ≡ u32 (b.transmitted_chunk_count + 1))
        × ((read o b).1.last_send_time ≡ b.last_send_time + b.time_step_increment)
  unfolding read
  read-front {b} f fs v = ground (
    arith,
    copy_front f fs v,
    keep_back f fs v,
    length-append f (concat fs),
    law.inuse-eq (o.read b.freeswitch_buffer b.chunk_size_bytes).1,
    law.max_len-read b.freeswitch_buffer b.chunk_size_bytes,
  )

  -- Over a FreeSWITCH buffer that obeys the laws of a queue, reading a buffer that holds no frame
  -- fails, leaves it empty, and moves neither the chunk counter nor the send time.
  pub read-empty :
      {b : Buffer B}
      → Holds b []
      → ((read o b).0 ≡ none)
        × Holds (read o b).1 []
        × ((read o b).1.transmitted_chunk_count ≡ b.transmitted_chunk_count)
        × ((read o b).1.last_send_time ≡ b.last_send_time)
  unfolding read
  read-empty {b} v = ground (
    arith,
    law.read-data b.freeswitch_buffer b.chunk_size_bytes,
    law.contents-read b.freeswitch_buffer b.chunk_size_bytes,
    law.max_len-read b.freeswitch_buffer b.chunk_size_bytes,
    v,
    take-nil b.chunk_size_bytes,
    drop-nil b.chunk_size_bytes,
  )

  -- What `write` does with a frame: it goes to the end, or there is no room and nothing changes.
  pub Writes : Buffer B → List (List ℕ) → List ℕ → Bool × Buffer B → Type 0
  Writes b fs f r =
      ((length (concat fs) + b.chunk_size_bytes ≤ b.maximum_capacity_bytes)
        × (r.0 ≡ true)
        × Holds r.1 (fs ++ f ∷ [])
        × (r.1.generated_chunk_count ≡ u32 (b.generated_chunk_count + 1)))
      ⊎ ((b.maximum_capacity_bytes < length (concat fs) + b.chunk_size_bytes)
          × (r.0 ≡ false)
          × Holds r.1 fs
          × (r.1.generated_chunk_count ≡ b.generated_chunk_count))

  -- Over a FreeSWITCH buffer that obeys the laws of a queue, writing a frame of the chunk size to a
  -- buffer that holds the frames `fs` either finds room in the capacity, adds the frame at the end,
  -- counts it and returns true, or finds none, returns false and leaves the frames and the counter.
  pub write-Writes :
      {b : Buffer B} (fs : List (List ℕ)) (f : List ℕ)
      → Holds b fs
      → length f ≡ b.chunk_size_bytes
      → Writes b fs f (write o b f)
  unfolding write Writes
  write-Writes {b} fs f v e = elim (Bool-cases (law.fits b.freeswitch_buffer f)) [
    | inl room ↦ inl (
        ground (
          arith,
          law.fits-eq b.freeswitch_buffer f,
          law.write-fits b.freeswitch_buffer f room,
          law.contents-write b.freeswitch_buffer f room,
          law.inuse-eq (o.write b.freeswitch_buffer f).1,
          law.max_len-write b.freeswitch_buffer f,
          concat-append_one fs f,
          length-append (concat fs) f,
          AllOfSize-append_one b.chunk_size_bytes fs f v.whole e,
        ))
    | inr full ↦ inr (
        ground (
          arith,
          law.fits-eq b.freeswitch_buffer f,
          law.write-full b.freeswitch_buffer f full,
          law.contents-write_full b.freeswitch_buffer f full,
          law.max_len-write b.freeswitch_buffer f,
        ))
  ]

  -- A frame that fits is written.
  pub write-Holds :
      (q : Buffer B) (fs : List (List ℕ)) (f : List ℕ)
      → Holds q fs
      → length f ≡ q.chunk_size_bytes
      → length (concat fs) + q.chunk_size_bytes ≤ q.maximum_capacity_bytes
      → ((write o q f).0 ≡ true) × Holds (write o q f).1 (fs ++ f ∷ [])
  unfolding Writes
  write-Holds q fs f h e l = elim (write-Writes fs f h e) [
    | inl (room, done, held, rest) ↦ (done, held)
    | inr (full, failed, held, rest) ↦ absurd (omega arith)
  ]

  -- A frame that does not fit is refused.
  pub write_full :
      (q : Buffer B) (fs : List (List ℕ)) (f : List ℕ)
      → Holds q fs
      → length f ≡ q.chunk_size_bytes
      → q.maximum_capacity_bytes < length (concat fs) + q.chunk_size_bytes
      → ((write o q f).0 ≡ false) × Holds (write o q f).1 fs
  unfolding Writes
  write_full q fs f h e l = elim (write-Writes fs f h e) [
    | inl (room, done, held, rest) ↦ absurd (omega arith)
    | inr (full, failed, held, rest) ↦ (failed, held)
  ]

module _ {B : Type 0} (o : SwitchBuffer B) where
  -- A buffer keeps its sizes.
  pub write_sizes :
      (q : Buffer B) (bytes : List ℕ)
      → ((write o q bytes).1.chunk_size_bytes ≡ q.chunk_size_bytes)
        × ((write o q bytes).1.maximum_capacity_bytes ≡ q.maximum_capacity_bytes)
  unfolding write
  write_sizes q bytes = elim (Bool-cases ((o.write q.freeswitch_buffer bytes).0 == 0)) [
    | inl e ↦ rw e (refl, refl)
    | inr e ↦ rw e (refl, refl)
  ]
