-- ===== src/Playback/Replace.antt =====
-- One call of the media callback of src/mod_audio_stream.c with a frame.
use mod_audio_stream.Common.{
  ◌≤◌, ◌*◌, ℕ, zero, suc, ◌+◌, ◌<◌, ◌≡◌, refl, sym, subst, ◌∙◌, List, [], ◌∷◌, Bool, true, false,
  none, some, length, u32, leb, if-true, bind-some, AllResults, map-AllResults,
}
use mod_audio_stream.SwitchBuffer.{SwitchBuffer}
use mod_audio_stream.Checkpoints.{Checkpoint, Checkpoints, remove_first}
use mod_audio_stream.Checkpoints.Chain.{Cell, first_is, uncons, end_is}
use mod_audio_stream.Checkpoints.Refine.{Represents, remove_first-Gives}
use mod_audio_stream.Playback.{copy_into-fits, Session, Services, Untouched}
use mod_audio_stream.Playback.Frames.{
  Frame, limit_of, is_ahead, report_played, report_due, mix_samples, write_replace,
}
use mod_audio_stream.Playback.Due.{
  due, pending, report_all, turn, report_due-first, report_due-Reports, report_played-Untouched,
}
use mod_audio_stream.Playback.Account.{AtMost}

-- The session with the bytes of a frame taken out.
abbrev pub taken : {B R : Type 0} → SwitchBuffer B → Frame → Session B R → Session B R
taken o f s =
    let read = o.read s.write_buffer f.datalen in
    record s {
      write_buffer = read.1;
      stream_input_played = u32 (s.stream_input_played + length read.0);
    }

abbrev pub frame_limit : {B R : Type 0} → SwitchBuffer B → Frame → Session B R → ℕ
frame_limit o f s =
    limit_of (taken o f s).stream_input_played (length (o.read s.write_buffer f.datalen).0)

module _ {B J R : Type 0} (o : SwitchBuffer B) (v : Services J R) where
  -- A frame that finds its bytes plays them; the checkpoints up to the limit are reported, in
  -- order, and no others.
  pub write_replace-Reports :
      (fuel : ℕ) (f : Frame) (s : Session B R) (cs : List Cell) (samples : List ℕ)
      → Represents s.checkpoints cs
      → length cs < fuel
      → leb f.datalen (o.inuse s.write_buffer) ≡ true
      → length (o.read s.write_buffer f.datalen).0 ≤ 2 * v.recommended_buffer_size
      → mix_samples v f.samples (o.read s.write_buffer f.datalen).0 ≡ some samples
      → (c : Checkpoints) × (write_replace o v fuel f s
          ≡ some (
            record f { samples = samples },
            record (report_all v (due (frame_limit o f s) cs) (taken o f s)) { checkpoints = c },
          ))
        × Represents c (pending (frame_limit o f s) cs)
  unfolding write_replace
  write_replace-Reports fuel f s cs samples r enough there fits mixed =
      let (c, e, r') =
        report_due-Reports v fuel (length (o.read s.write_buffer f.datalen).0) (frame_limit o f s)
          (taken o f s) cs r enough refl in
      (
        c,
        if-true _ _ there
            ∙ bind-some _ _ (o.read s.write_buffer f.datalen).0 (copy_into-fits _ _ fits)
            ∙ bind-some (mix_samples v f.samples (o.read s.write_buffer f.datalen).0) _ samples
                mixed
            ∙ bind-some
                (report_due v fuel (length (o.read s.write_buffer f.datalen).0) (taken o f s)) _ _
                e,
        r',
      )

-- What reporting leaves: the same counts, and checkpoints that are still within `n`.
pub record Drains {B R : Type 0} (n : ℕ) (s t : Session B R) : Type 0 where
  pub write_buffer : t.write_buffer ≡ s.write_buffer
  pub received : t.stream_input_received ≡ s.stream_input_received
  pub played : t.stream_input_played ≡ s.stream_input_played
  pub queue : List Cell
  pub represents : Represents t.checkpoints queue
  pub within : AtMost n queue

module _ {B J R : Type 0} (v : Services J R) where
  Untouched-Drains :
      (n : ℕ) (s s' t : Session B R) (c : Checkpoints)
      → Untouched s s'
      → Drains n (record s' { checkpoints = c }) t
      → Drains n s t
  Untouched-Drains n s s' t c u d = record {
    write_buffer = d.write_buffer ∙ u.write_buffer;
    received = d.received ∙ u.received;
    played = d.played ∙ u.played;
    queue = d.queue;
    represents = d.represents;
    within = d.within;
  }

  turn-Drains :
      (fuel len n : ℕ) (s : Session B R) (d : Cell) (ds : List Cell) (node : Checkpoint)
      → Represents s.checkpoints (d ∷ ds)
      → AtMost n (d ∷ ds)
      → ((t : Session B R)
          → Represents t.checkpoints ds
          → AllResults (Drains n t) (report_due v fuel len t))
      → (ahead : Bool) → AllResults (Drains n s) (turn v fuel len s node ahead)
  turn-Drains fuel len n s d ds node r within others true = record {
    write_buffer = refl;
    received = refl;
    played = refl;
    queue = d ∷ ds;
    represents = r;
    within = within;
  }
  turn-Drains fuel len n s d ds node r within others false =
      let (c, removed, r') = remove_first-Gives s.checkpoints d ds r in
      let s' = report_played v node.name s in
      let next = record s' { checkpoints = c } in
      subst (AllResults (Drains n s)) (sym (bind-some (remove_first s.checkpoints) _ c removed)) (
        map-AllResults (Drains n next) (Drains n s) (report_due v fuel len next)
          (λ t. Untouched-Drains n s s' t c (report_played-Untouched v node.name s))
          (others next r'))

  pub report_due-Drains :
      (fuel len n : ℕ) (s : Session B R) (cs : List Cell)
      → Represents s.checkpoints cs
      → AtMost n cs
      → AllResults (Drains n s) (report_due v fuel len s)
  unfolding report_due
  report_due-Drains zero len n s cs r within = tt
  report_due-Drains (suc fuel) len n s [] r within =
      subst (AllResults (Drains n s)) (sym (report_due-first v fuel len s none (end_is r.chain)))
        (record {
          write_buffer = refl;
          received = refl;
          played = refl;
          queue = [];
          represents = r;
          within = tt;
        })
  report_due-Drains (suc fuel) len n s (d ∷ ds) r within =
      let (q, holds, _, _) = uncons r.chain in
      let node : Checkpoint = record {
        next = q;
        tail = holds.tail;
        position = d.position;
        name = d.name;
      } in
      let start =
        report_due-first v fuel len s (some d.at) (first_is r.chain)
        ∙ bind-some (s.checkpoints.cells d.at) _ node holds.stored in
      subst (AllResults (Drains n s)) (sym start) (
        turn-Drains fuel len n s d ds node r within
          (λ t r'. report_due-Drains fuel len n t ds r' within.1)
          (is_ahead s.stream_input_played len d.position))
