-- ===== src/Playback/Due.antt =====
-- What one media callback of src/mod_audio_stream.c does to the checkpoints.
use mod_audio_stream.Common.{
  ℕ, zero, suc, ◌<◌, ◌≡◌, refl, ap, ◌∙◌, List, [], ◌∷◌, Bool, true, false, Option, none, some,
  arith, length, ltb, if◌then◌else◌, ◌>>=◌, bind-some,
}
use mod_audio_stream.AudioPipe.{AudioPipe}
use mod_audio_stream.Checkpoints.{Checkpoint, Checkpoints, remove_first}
use mod_audio_stream.Checkpoints.Chain.{Cell, first_is, uncons, end_is}
use mod_audio_stream.Checkpoints.Refine.{Represents, remove_first-Gives}
use mod_audio_stream.Playback.{
  Session, Services, Untouched, response_handler, played, note, queue_event,
}
use mod_audio_stream.Playback.Frames.{
  played_stream, played_notice, send_played, report_played, limit_of, is_ahead, report_due,
}

-- The checkpoints up to a position, and those from the first one beyond it on.
abbrev pub due : ℕ → List Cell → List Cell
due limit [] = []
due limit (c ∷ cs) = if ltb limit c.position then [] else c ∷ due limit cs

abbrev pub pending : ℕ → List Cell → List Cell
pending limit [] = []
pending limit (c ∷ cs) = if ltb limit c.position then c ∷ cs else pending limit cs

module _ {B J R : Type 0} (v : Services J R) where
  abbrev pub report_all : List Cell → Session B R → Session B R
  report_all [] s = s
  report_all (c ∷ cs) s = report_all cs (report_played v c.name s)

  send_played-put :
      (p : AudioPipe B) (name : List ℕ) (s : Session B R) (c : Checkpoints)
      → send_played v p name (record s { checkpoints = c })
        ≡ record (send_played v p name s) { checkpoints = c }
  unfolding send_played
  send_played-put p name s c =
      elim (v.print (played_stream p s.stream_id name))
        as (λ o.
          ◌≡◌ {A = Session B R}
            (elim o [
              | none ↦ record s { checkpoints = c }
              | some text ↦ queue_event p text (record s { checkpoints = c })
            ])
            (record (elim o as (λ o. Session B R) [ none ↦ s | some text ↦ queue_event p text s ]) {
              checkpoints = c;
            })) [ none ↦ refl | some text ↦ refl ]

  sent-put :
      (p : Option (AudioPipe B)) (name : List ℕ) (s : Session B R) (c : Checkpoints)
      → ◌≡◌ {A = Session B R}
          (elim p as (λ o. Session B R) [
            | none ↦ record s { checkpoints = c }
            | some p ↦ send_played v p name (record s { checkpoints = c })
          ])
          (record (elim p as (λ o. Session B R) [ none ↦ s | some p ↦ send_played v p name s ]) {
            checkpoints = c;
          })
  sent-put none name s c = refl
  sent-put (some p) name s c = send_played-put p name s c

  pub report_played-put :
      (name : List ℕ) (s : Session B R) (c : Checkpoints)
      → report_played v name (record s { checkpoints = c })
        ≡ record (report_played v name s) { checkpoints = c }
  unfolding report_played
  report_played-put name s c =
      ap (λ (t : Session B R). note (response_handler played (played_notice s.stream_id name)) t)
        (sent-put s.audio_pipe name s c)

  pub report_played-Untouched :
      (name : List ℕ) (s : Session B R) → Untouched s (report_played v name s)
  unfolding report_played
  report_played-Untouched name s = ground arith

  pub report_all-put :
      (cs : List Cell) (s : Session B R) (c : Checkpoints)
      → report_all cs (record s { checkpoints = c }) ≡ record (report_all cs s) { checkpoints = c }
  report_all-put [] s c = refl
  report_all-put (d ∷ cs) s c =
      ap (report_all cs) (report_played-put d.name s c)
      ∙ report_all-put cs (report_played v d.name s) c

  pub report_all-Untouched : (cs : List Cell) (s : Session B R) → Untouched s (report_all cs s)
  report_all-Untouched [] s = record {
    write_buffer = refl;
    received = refl;
    played = refl;
    checkpoints = refl;
  }
  report_all-Untouched (d ∷ cs) s =
      let t = report_played v d.name s in
      let a = report_played-Untouched d.name s in
      let b = report_all-Untouched cs t in
      record {
        write_buffer = b.write_buffer ∙ a.write_buffer;
        received = b.received ∙ a.received;
        played = b.played ∙ a.played;
        checkpoints = b.checkpoints ∙ a.checkpoints;
      }

  -- The loop reports the checkpoints up to the limit, in order, and keeps the others.
  abbrev pub Reports : Option (Session B R) → Session B R → ℕ → List Cell → Type 0
  Reports r s limit cs =
      (c : Checkpoints) × (r ≡ some (record (report_all (due limit cs) s) { checkpoints = c }))
      × Represents c (pending limit cs)

  abbrev pub turn : ℕ → ℕ → Session B R → Checkpoint → Bool → Option (Session B R)
  turn fuel len s node ahead = elim ahead [
    | true ↦ some s
    | false ↦ remove_first s.checkpoints >>= λ c.
        report_due v fuel len (record (report_played v node.name s) { checkpoints = c })
  ]

  abbrev pub round : ℕ → ℕ → Session B R → Option ℕ → Option (Session B R)
  round fuel len s p = elim p [
    | none ↦ some s
    | some h ↦ s.checkpoints.cells h >>= λ node.
        turn fuel len s node (is_ahead s.stream_input_played len node.position)
  ]

  pub report_due-first :
      (fuel len : ℕ) (s : Session B R) (p : Option ℕ)
      → s.checkpoints.first ≡ p
      → report_due v (suc fuel) len s ≡ round fuel len s p
  unfolding report_due
  report_due-first fuel len s p e = ap (round fuel len s) e

  -- One round at a checkpoint, with the result of the test. `others` is what the next rounds do.
  turn-Reports :
      (fuel len limit : ℕ) (s : Session B R) (d : Cell) (ds : List Cell) (node : Checkpoint)
      → Represents s.checkpoints (d ∷ ds)
      → node.name ≡ d.name
      → ((t : Session B R)
          → Represents t.checkpoints ds
          → t.stream_input_played ≡ s.stream_input_played
          → Reports (report_due v fuel len t) t limit ds)
      → (ahead : Bool)
      → (c : Checkpoints) × (turn fuel len s node ahead
          ≡ some
              (record (report_all (if ahead then [] else d ∷ due limit ds) s) { checkpoints = c }))
        × Represents c (if ahead then d ∷ ds else pending limit ds)
  turn-Reports fuel len limit s d ds node r same others true = (s.checkpoints, refl, r)
  turn-Reports fuel len limit s d ds node r same others false =
      let (c, removed, r') = remove_first-Gives s.checkpoints d ds r in
      let reported = report_played v d.name s in
      let (c', e, r'') =
        others (record reported { checkpoints = c }) r' (report_played-Untouched d.name s).played in
      (
        c',
        bind-some (remove_first s.checkpoints) _ c removed
            ∙ ap (λ n. report_due v fuel len (record (report_played v n s) { checkpoints = c }))
                same
            ∙ e
            ∙ ap (λ (t : Session B R). some (record t { checkpoints = c' }))
                (report_all-put (due limit ds) reported c),
        r'',
      )

  pub report_due-Reports :
      (fuel len limit : ℕ) (s : Session B R) (cs : List Cell)
      → Represents s.checkpoints cs
      → length cs < fuel
      → limit_of s.stream_input_played len ≡ limit
      → Reports (report_due v fuel len s) s limit cs
  report_due-Reports zero len limit s cs r enough e = absurd (omega arith)
  report_due-Reports (suc fuel) len limit s [] r enough e =
      (s.checkpoints, report_due-first fuel len s none (end_is r.chain), r)
  report_due-Reports (suc fuel) len limit s (d ∷ ds) r enough e =
      let (q, holds, _, _) = uncons r.chain in
      let node : Checkpoint = record {
        next = q;
        tail = holds.tail;
        position = d.position;
        name = d.name;
      } in
      let (c, done, r') =
        turn-Reports fuel len limit s d ds node r refl
          (λ t r' same.
            report_due-Reports fuel len limit t ds r' (omega arith)
              (ap (λ now. limit_of now len) same ∙ e))
          (ltb limit d.position) in
      (
        c,
        report_due-first fuel len s (some d.at) (first_is r.chain)
            ∙ bind-some (s.checkpoints.cells d.at) _ node holds.stored
            ∙ ap (λ l. turn fuel len s node (ltb l d.position)) e
            ∙ done,
        r',
      )
