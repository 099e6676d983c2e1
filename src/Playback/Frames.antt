-- ===== src/Playback/Frames.antt =====
-- SWITCH_ABC_TYPE_WRITE_REPLACE of src/mod_audio_stream.c: a frame of the call is mixed with as
-- many stored bytes, and the checkpoints that are due are reported and removed.
use mod_audio_stream.Common.{
  ℕ, zero, suc, ◌+◌, ◌-◌, ◌*◌, ◌^◌, List, [], ◌∷◌, ◌++◌, Bool, true, false, Option, none, some,
  codes, take, length, u32, u64, ltb, leb, if◌then◌else◌, ◌>>=◌,
}
use mod_audio_stream.Common.Int.{◌+ℤ◌, int16, word16}
use mod_audio_stream.Json.{Json, string, number, object, fields}
use mod_audio_stream.SwitchBuffer.{SwitchBuffer}
use mod_audio_stream.AudioPipe.{AudioPipe}
use mod_audio_stream.Checkpoints.{remove_first}
use mod_audio_stream.Playback.{
  Session, Services, copy_into, response_handler, played, note, queue_event,
}

-- switch_frame_t: the bytes that it announces, and its samples as words.
pub record Frame : Type 0 where
  pub datalen : ℕ
  pub samples : List ℕ

abbrev pub played_stream : {B : Type 0} → AudioPipe B → List ℕ → List ℕ → Json
played_stream p id name = object (
    fields (
      ("event", string (codes "playedStream"))
      ∷ ("sequenceNumber", number p.sequence_number)
      ∷ ("stream_id", string id)
      ∷ ("name", string name)
      ∷ []))

-- snprintf into 512 characters, the last of which ends the text.
abbrev pub played_notice : List ℕ → List ℕ → List ℕ
played_notice id name =
    take 511 (codes "{\"streamId\":\"" ++ (id ++ (codes "\",\"name\":\"" ++ (name ++ codes "\"}"))))

-- `stream_input_played + len - 1 < position`, in the arithmetic of size_t.
abbrev pub limit_of : ℕ → ℕ → ℕ
limit_of now len = u64 (now + len + (2 ^ 64 - 1))

abbrev pub is_ahead : ℕ → ℕ → ℕ → Bool
is_ahead now len position = ltb (limit_of now len) position

module _ {B J R : Type 0} (v : Services J R) where
  unfoldable pub send_played : AudioPipe B → List ℕ → Session B R → Session B R
  send_played p name s = elim (v.print (played_stream p s.stream_id name)) [
    | none ↦ s
    | some text ↦ queue_event p text s
  ]

  -- stream_ws_send_played_event: nothing is sent without a pipe.
  unfoldable pub stream_ws_send_played_event : List ℕ → Session B R → Session B R
  unfolding send_played
  stream_ws_send_played_event name s = elim s.audio_pipe [
    | none ↦ s
    | some p ↦ send_played p name s
  ]

  -- The two notices of a checkpoint.
  unfoldable pub report_played : List ℕ → Session B R → Session B R
  unfolding stream_ws_send_played_event
  report_played name s =
      note (response_handler played (played_notice s.stream_id name))
        (stream_ws_send_played_event name s)

  -- The loop over the checkpoints. `fuel` bounds its rounds.
  unfoldable pub report_due : ℕ → ℕ → Session B R → Option (Session B R)
  unfolding report_played
  report_due zero len s = none
  report_due (suc fuel) len s = elim s.checkpoints.first [
    | none ↦ some s
    | some h ↦ do
      node ← s.checkpoints.cells h
      elim (is_ahead s.stream_input_played len node.position) [
        | true ↦ some s
        | false ↦ do
          c ← remove_first s.checkpoints
          report_due fuel len (record (report_played node.name s) { checkpoints = c })
      ]
  ]

module _ {J R : Type 0} (v : Services J R) where
  abbrev pub mix : ℕ → ℕ → ℕ
  mix a b = word16 (v.normalize_to_16bit (int16 a +ℤ int16 b))

  -- `none` is a read of bytes that were never written.
  unfoldable pub mix_samples : List ℕ → List ℕ → Option (List ℕ)
  mix_samples [] bytes = some []
  mix_samples (a ∷ samples) [] = none
  mix_samples (a ∷ samples) (low ∷ []) = none
  mix_samples (a ∷ samples) (low ∷ high ∷ bytes) = do
    others ← mix_samples samples bytes
    some (mix a (low + 2 ^ 8 * high) ∷ others)

module _ {B J R : Type 0} (o : SwitchBuffer B) (v : Services J R) where
  unfoldable pub write_replace : ℕ → Frame → Session B R → Option (Frame × Session B R)
  unfolding mix_samples report_due copy_into
  write_replace fuel f s =
      if leb f.datalen (o.inuse s.write_buffer)
      then (do
        let read = o.read s.write_buffer f.datalen
        copied ← copy_into (2 * v.recommended_buffer_size) read.0
        samples ← mix_samples v f.samples copied
        let s' = record s {
          write_buffer = read.1;
          stream_input_played = u32 (s.stream_input_played + length read.0);
        }
        s'' ← report_due v fuel (length read.0) s'
        some (record f { samples = samples }, s''))
      else some (f, s)
