-- ===== src/Playback/Plays.antt =====
-- What the caller hears, and when a checkpoint is reported: a frame that finds its bytes
-- (src/mod_audio_stream.c).
use mod_audio_stream.Common.{
  ℕ, zero, suc, ◌+◌, ◌-◌, ◌*◌, ◌^◌, ◌<◌, ◌≤◌, ◌≡◌, refl, ap, subst, ◌∙◌, List, [], ◌∷◌, map, true,
  false, Option, none, some, arith, length, take, drop, ltb, leb, if-false,
}
use mod_audio_stream.Common.Int.{ℤ, int16, nearest16}
use mod_audio_stream.SwitchBuffer.{SwitchBuffer, IsFifo}
use mod_audio_stream.Checkpoints.{Checkpoints}
use mod_audio_stream.Checkpoints.Chain.{Cell, Chain, end_is}
use mod_audio_stream.Checkpoints.Refine.{Represents}
use mod_audio_stream.Playback.{Session, Services}
use mod_audio_stream.Playback.Frames.{Frame, write_replace}
use mod_audio_stream.Playback.Mixing.{sums, mix_samples-sums}
use mod_audio_stream.Playback.Due.{due, pending, report_all}
use mod_audio_stream.Playback.Account.{AtMost, AtMost-mono, Accounts}
use mod_audio_stream.Playback.Replace.{taken, frame_limit, write_replace-Reports}

pub length-take : (n : ℕ) (xs : List ℕ) → n ≤ length xs → length (take n xs) ≡ n
length-take zero xs h = ground arith
length-take (suc n) [] h = absurd (omega arith)
length-take (suc n) (x ∷ xs) h = omega (arith, length-take n xs)

pub length-drop : (n : ℕ) (xs : List ℕ) → length (drop n xs) ≡ length xs - n
length-drop zero xs = ground arith
length-drop (suc n) [] = omega arith
length-drop (suc n) (x ∷ xs) = omega (arith, length-drop n xs)

pub due_all : (n : ℕ) (cs : List Cell) → AtMost n cs → (due n cs ≡ cs) × (pending n cs ≡ [])
due_all n [] h = (refl, refl)
due_all n (c ∷ cs) h =
    let (e, k) = due_all n cs h.1 in
    let now : ltb n c.position ≡ false = ground (arith, h.0) in
    (if-false _ _ now ∙ ap (λ (l : List Cell). c ∷ l) e, if-false _ _ now ∙ k)

module _ {B R : Type 0} {o : SwitchBuffer B} (fifo : IsFifo o) where
  -- Fewer than 2^32 bytes came since the counts were last zero.
  abbrev pub IsSmall : Session B R → Type 0
  IsSmall s = s.stream_input_played + length (fifo.contents s.write_buffer) < 2 ^ 32

  -- What a frame that finds its bytes takes.
  pub read_lengths :
      (s : Session B R) (f : Frame)
      → leb f.datalen (o.inuse s.write_buffer) ≡ true
      → (f.datalen ≤ length (fifo.contents s.write_buffer))
        × (length (o.read s.write_buffer f.datalen).0 ≡ f.datalen)
        × (length (fifo.contents (o.read s.write_buffer f.datalen).1)
            ≡ length (fifo.contents s.write_buffer) - f.datalen)
  read_lengths s f there =
      let within : f.datalen ≤ length (fifo.contents s.write_buffer) =
        ground (arith, there, fifo.inuse-eq s.write_buffer) in
      (
        within,
        ap (λ (l : List ℕ). length l) (fifo.read-data s.write_buffer f.datalen)
            ∙ length-take f.datalen (fifo.contents s.write_buffer) within,
        ap (λ (l : List ℕ). length l) (fifo.contents-read s.write_buffer f.datalen)
            ∙ length-drop f.datalen (fifo.contents s.write_buffer),
      )

module _ {B J R : Type 0} {o : SwitchBuffer B} (fifo : IsFifo o) (v : Services J R) where
  -- Over a FreeSWITCH buffer that obeys the laws of a queue: a session whose checkpoints stand for
  -- the queue `cs`, with fewer than 2^32 bytes received, that is given a frame of n > 0 bytes, no
  -- more than the array `data` has, at most n / 2 of whose samples are mixed, and has n bytes
  -- stored, never faults, if the loop may make a round for each checkpoint and one more, and
  -- FreeSWITCH's normalization saturates. The samples become the sums with the first n bytes, each
  -- as near as 16 bits allow, these bytes leave the buffer and are counted as played, and the first
  -- checkpoints of `cs` that lie at most 2 n - 1 bytes after what had been played, and so up to n -
  -- 1 bytes after what now is, are reported, in order and each once, and removed; the rest of the
  -- queue stays.
  pub write_replace-Plays :
      (fuel : ℕ) (f : Frame) (s : Session B R) (cs : List Cell)
      → Represents s.checkpoints cs
      → length cs < fuel
      → IsSmall fifo s
      → 0 < f.datalen
      → 2 * length f.samples ≤ f.datalen
      → f.datalen ≤ 2 * v.recommended_buffer_size
      → leb f.datalen (o.inuse s.write_buffer) ≡ true
      → ((z : ℤ) → v.normalize_to_16bit z ≡ nearest16 z)
      → (samples : List ℕ) × (c : Checkpoints) × (write_replace o v fuel f s
          ≡ some (
            record f { samples = samples },
            record (report_all v
                (due (s.stream_input_played + 2 * f.datalen - 1) cs)
                (taken o f s)) { checkpoints = c },
          ))
        × Represents c (pending (s.stream_input_played + 2 * f.datalen - 1) cs)
        × (map int16 samples ≡ sums f.samples (take f.datalen (fifo.contents s.write_buffer)))
        × (fifo.contents (taken o f s).write_buffer ≡ drop f.datalen (fifo.contents s.write_buffer))
        × ((taken o f s).stream_input_played ≡ s.stream_input_played + f.datalen)
  write_replace-Plays fuel f s cs r enough small some_bytes whole room there near =
      let (within, got, left) = read_lengths fifo s f there in
      let bytes = (o.read s.write_buffer f.datalen).0 in
      let limit : frame_limit o f s ≡ s.stream_input_played + 2 * f.datalen - 1 =
        omega (arith, within, got, small, some_bytes) in
      let (samples, mixed, sound) =
        mix_samples-sums v f.samples bytes near (omega (arith, got, whole)) in
      let (c, e, r') =
        write_replace-Reports o v fuel f s cs samples r enough there (omega (arith, got, room))
          mixed in
      let after : ℕ → Option (Frame × Session B R) = λ n.
        let t : Session B R = record (report_all v (due n cs) (taken o f s)) { checkpoints = c } in
        some (record f { samples = samples }, t) in
      (
        samples,
        c,
        e ∙ ap after limit,
        subst (λ n. Represents c (pending n cs)) limit r',
        sound ∙ ap (sums f.samples) (fifo.read-data s.write_buffer f.datalen),
        fifo.contents-read s.write_buffer f.datalen,
        omega (arith, within, got, small),
      )

  -- Over a FreeSWITCH buffer that obeys the laws of a queue: a session whose account fits (what it
  -- received is what it played and stores, and its checkpoints lie within), with fewer than 2^32
  -- bytes received, that is given a frame of n > 0 bytes, no more than the array `data` has, at
  -- most n / 2 of whose samples are mixed, and stores at least n and fewer than 2 n bytes, reports
  -- all its checkpoints, in order, and has none left, those of the up to n - 1 bytes that are still
  -- stored included, if the loop may make a round for each and one more and FreeSWITCH's
  -- normalization saturates.
  pub write_replace-ReportsAll :
      (fuel : ℕ) (f : Frame) (s : Session B R) (a : Accounts fifo s)
      → length a.queue < fuel
      → IsSmall fifo s
      → 0 < f.datalen
      → 2 * length f.samples ≤ f.datalen
      → f.datalen ≤ 2 * v.recommended_buffer_size
      → leb f.datalen (o.inuse s.write_buffer) ≡ true
      → length (fifo.contents s.write_buffer) < 2 * f.datalen
      → ((z : ℤ) → v.normalize_to_16bit z ≡ nearest16 z)
      → (samples : List ℕ) × (c : Checkpoints) × (write_replace o v fuel f s
          ≡ some (
            record f { samples = samples },
            record (report_all v a.queue (taken o f s)) { checkpoints = c },
          ))
        × (c.first ≡ none)
  write_replace-ReportsAll fuel f s a enough small some_bytes whole room there last near =
      let n = s.stream_input_played + 2 * f.datalen - 1 in
      let stored = s.stream_input_played + length (fifo.contents s.write_buffer) in
      let (all, none_left) =
        due_all n a.queue (AtMost-mono stored n a.queue (omega (arith, last)) a.reached) in
      let (samples, c, e, r, _, _, _) =
        write_replace-Plays fuel f s a.queue a.represents enough small some_bytes whole room there
          near in
      let after : List Cell → Option (Frame × Session B R) = λ cs.
        let t : Session B R = record (report_all v cs (taken o f s)) { checkpoints = c } in
        some (record f { samples = samples }, t) in
      (
        samples,
        c,
        e ∙ ap after all,
        end_is (subst (λ cs. Chain c.cells c.first cs) none_left r.chain),
      )
