-- ===== src/AdaptiveBuffer/Bounds.antt =====
-- How much a buffer of src/adaptive_buffer.cpp holds, whatever calls it gets.
use mod_audio_stream.Common.{
  ℕ, zero, suc, ◌+◌, ◌*◌, ◌^◌, ◌<◌, ◌≤◌, ◌≡◌, refl, sym, ap, subst, ◌∙◌, List, [], ◌∷◌, Bool, true,
  false, Option, none, some, inl, inr, arith, length, length-append, ltb, leb, u64, if◌then◌else◌,
  if-true, if-false, Bool-cases,
}
use mod_audio_stream.Doubles.{Doubles}
use mod_audio_stream.MessageQueue.{Priority, Message, rank, push, pop, select}
use mod_audio_stream.MessageQueue.Urgent.{bulk_one, bulk, bulk-append, bulk-le-length, select-bulk}
use mod_audio_stream.AdaptiveBuffer.{
  BufferStatistics, measure_latency, BufferContext, should_drop_message, check_buffer_conditions,
  update_buffer_statistics, accept, enqueue_context, take_popped, take_message, flush_loop,
  flush_context, adapt_buffer_size,
}

-- After `n` calls: the count is that of the queue, the size covers 1024 bytes a message and lies
-- within its maximum, and the messages below high priority do not exceed the size that is allowed.
pub record Fits {D : Type 0} (n : ℕ) (c : BufferContext D) : Type 0 where
  pub few : length c.message_queue ≤ n
  pub counted : c.statistics.current_message_count ≡ length c.message_queue
  pub sized : length c.message_queue * 1024 ≤ c.statistics.current_size_bytes
  pub peak : c.statistics.current_size_bytes ≤ c.statistics.max_size_reached
  pub bounded : bulk c.message_queue * 1024 < c.config.max_size_bytes + 1024

kept_lem :
    (stays : Bool) (kept : List Message) (x : Message)
    → (bulk (if stays then push kept x else kept) ≤ bulk kept + bulk_one x)
      × (length (if stays then push kept x else kept) ≤ length kept + 1)
kept_lem true kept x =
    (omega (arith, bulk-append kept (x ∷ [])), omega (arith, length-append kept (x ∷ [])))
kept_lem false kept x = (omega arith, omega arith)

flush_loop-bulk :
    (rounds least : ℕ) (queue kept : List Message) (dropped : ℕ)
    → (bulk (flush_loop rounds least queue kept dropped).0 ≤ bulk queue + bulk kept)
      × (length (flush_loop rounds least queue kept dropped).0 ≤ length queue + length kept)
unfolding flush_loop pop
flush_loop-bulk zero least queue kept dropped = (omega arith, omega arith)
flush_loop-bulk (suc rounds) least [] kept dropped = (omega arith, omega arith)
flush_loop-bulk (suc rounds) least (m ∷ queue) kept dropped =
    let (x, others) = select m queue in
    let stays = leb (rank x.priority) least in
    let next = if stays then push kept x else kept in
    let (e, k) = select-bulk m queue in
    let (b, l) = kept_lem stays kept x in
    let (low, short) =
      flush_loop-bulk rounds least others next (if stays then dropped else dropped + 1) in
    (omega (arith, e, b, low), omega (arith, k, l, short))

module _ {D : Type 0} where
  pub Fits-mono : {n : ℕ} {c : BufferContext D} (k : ℕ) → n ≤ k → Fits n c → Fits k c
  Fits-mono k h f = ground arith

  pub check_buffer_conditions-Fits :
      (n : ℕ) (c : BufferContext D) → Fits n c → Fits n (check_buffer_conditions c)
  unfolding check_buffer_conditions
  check_buffer_conditions-Fits n c f = ground arith

  -- What is not dropped and is below high priority finds the buffer below its limit.
  not_dropped :
      (now : ℕ) (x : Message) (c : BufferContext D)
      → should_drop_message now x c ≡ false
      → ltb 1 (rank x.priority) ≡ true
      → c.statistics.current_size_bytes < c.config.max_size_bytes
  unfolding should_drop_message
  not_dropped now x c e low = ground arith

module _ {D : Type 0} (d : Doubles D) where
  measure_latency-count :
      (now : ℕ) (p : Option (Message × List Message)) (s : BufferStatistics D)
      → (measure_latency d now p s).current_message_count ≡ s.current_message_count
  unfolding measure_latency
  measure_latency-count now none s = refl
  measure_latency-count now (some p) s = refl

  -- The statistics of a queue that is not beyond 2^53 messages.
  pub update-Fits :
      (n now : ℕ) (c : BufferContext D)
      → n < 2 ^ 53
      → length c.message_queue ≤ n
      → c.statistics.current_message_count ≡ length c.message_queue
      → bulk c.message_queue * 1024 < c.config.max_size_bytes + 1024
      → Fits n (update_buffer_statistics d now c)
  unfolding update_buffer_statistics
  update-Fits n now c small few counted bounded = record {
    few = few;
    counted = measure_latency-count now (pop c.message_queue) c.statistics ∙ counted;
    sized = omega arith;
    peak = ground arith;
    bounded = bounded;
  }

  bulk_bounded :
      (now : ℕ) (x : Message) (c : BufferContext D) (low : Bool)
      → ltb 1 (rank x.priority) ≡ low
      → should_drop_message now x c ≡ false
      → length c.message_queue * 1024 ≤ c.statistics.current_size_bytes
      → bulk c.message_queue * 1024 < c.config.max_size_bytes + 1024
      → bulk (push c.message_queue x) * 1024 < c.config.max_size_bytes + 1024
  bulk_bounded now x c true e stays sized bounded =
      let room = not_dropped now x c stays e in
      let one : bulk_one x ≡ 1 = if-true _ _ e in
      omega (
        arith,
        room,
        one,
        sized,
        bulk-le-length c.message_queue,
        bulk-append c.message_queue (x ∷ []),
      )
  bulk_bounded now x c false e stays sized bounded =
      let nothing : bulk_one x ≡ 0 = if-false _ _ e in
      omega (arith, nothing, bounded, bulk-append c.message_queue (x ∷ []))

  accept-Fits :
      (n now : ℕ) (x : Message) (c : BufferContext D)
      → n + 1 < 2 ^ 53
      → should_drop_message now x c ≡ false
      → Fits n c
      → Fits (n + 1) (accept d now x c)
  unfolding accept
  accept-Fits n now x c small stays f =
      let queue = push c.message_queue x in
      let queued : BufferContext D = record c {
        message_queue = queue;
        statistics = record c.statistics {
          current_message_count = length queue;
          total_messages = u64 (c.statistics.total_messages + 1);
        };
      } in
      check_buffer_conditions-Fits (n + 1) (update_buffer_statistics d now queued) (
        update-Fits (n + 1) now queued small
          (omega (arith, f.few, length-append c.message_queue (x ∷ []))) refl
          (bulk_bounded now x c (ltb 1 (rank x.priority)) refl stays f.sized f.bounded))

  pub enqueue_context-Fits :
      (n now : ℕ) (x : Message) (c : BufferContext D)
      → n + 1 < 2 ^ 53
      → Fits n c
      → Fits (n + 1) (enqueue_context d now x c).1
  unfolding enqueue_context
  enqueue_context-Fits n now x c small f =
      let P = λ (r : Bool × BufferContext D). Fits (n + 1) r.1 in
      elim (Bool-cases (should_drop_message now x c)) [
        | inl dropped ↦ subst P (sym (if-true _ _ dropped)) (record {
          few = omega (arith, f.few);
          counted = f.counted;
          sized = f.sized;
          peak = f.peak;
          bounded = f.bounded;
        })
        | inr stays ↦ subst P (sym (if-false _ _ stays)) (accept-Fits n now x c small stays f)
      ]

  take_popped-Fits :
      (n now : ℕ) (c : BufferContext D) (queue : List Message)
      → c.message_queue ≡ queue
      → n < 2 ^ 53
      → Fits n c
      → Fits n (take_popped d now (pop queue) c).1
  unfolding take_popped pop
  take_popped-Fits n now c [] e small f = f
  take_popped-Fits n now c (m ∷ queue) e small f =
      let others = (select m queue).1 in
      let (b, l) = select-bulk m queue in
      let was : length c.message_queue ≡ length queue + 1 =
        omega (arith, ap (λ (q : List Message). length q) e) in
      let held : bulk c.message_queue ≡ bulk_one m + bulk queue = ap bulk e in
      update-Fits n now
        (record c {
          message_queue = others;
          statistics = record c.statistics { current_message_count = length others };
        })
        small (omega (arith, was, l, f.few)) refl (omega (arith, held, b, f.bounded))

  pub take_message-Fits :
      (n now : ℕ) (c : BufferContext D) → n < 2 ^ 53 → Fits n c → Fits n (take_message d now c).1
  unfolding take_message
  take_message-Fits n now c small f = take_popped-Fits n now c c.message_queue refl small f

  pub flush_context-Fits :
      (n : ℕ) (least : Priority) (c : BufferContext D) → Fits n c → Fits n (flush_context least c)
  unfolding flush_context
  flush_context-Fits n least c f =
      let rounds = length c.message_queue in
      let (low, short) = flush_loop-bulk rounds (rank least) c.message_queue [] 0 in
      record {
        few = omega (arith, short, f.few);
        counted = refl;
        sized = omega (arith, short, f.sized);
        peak = f.peak;
        bounded = omega (arith, low, f.bounded);
      }

  pub adapt_buffer_size-Fits :
      (n now : ℕ) (c : BufferContext D) → Fits n c → Fits n (adapt_buffer_size d now c).0
  unfolding adapt_buffer_size
  adapt_buffer_size-Fits n now c f = ground arith
