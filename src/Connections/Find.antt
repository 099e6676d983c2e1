-- ===== src/Connections/Find.antt =====
-- findPendingConnect, findAndRemovePendingConnect and findAndRemovePendingReconnect of
-- src/audio_pipe.cpp: the pipe whose connection a callback is about.
use mod_audio_stream.Common.{
  ℕ, Bool, true, false, ◌&&◌, List, [], ◌∷◌, Option, none, some, if◌then◌else◌,
}
use mod_audio_stream.AudioPipe.{
  LwsState, lws_client_connecting, lws_client_reconnecting, same_state,
}
use mod_audio_stream.Connections.{World, same_wsi, remove, remove_all}
use mod_audio_stream.Common.{◌>>=◌}

abbrev has_no_wsi : Option ℕ → Bool
has_no_wsi none = true
has_no_wsi (some n) = false

abbrev prepend_if : Bool → ℕ → List ℕ × Option ℕ → List ℕ × Option ℕ
prepend_if true i (is, found) = (i ∷ is, found)
prepend_if false i r = r

abbrev pub remove_found : Option ℕ → List ℕ → List ℕ
remove_found none is = is
remove_found (some i) is = remove i is

module _ {B : Type 0} where
  -- The loop: the entries with no wsi that come before the match, and the match.
  unfoldable pub scan : LwsState → ℕ → List ℕ → World B → Option (List ℕ × Option ℕ)
  scan s wsi [] w = some ([], none)
  scan s wsi (i ∷ is) w =
      let rest = scan s wsi is w in
      w.pipes i >>= λ p.
      if same_state p.state s && same_wsi p.wsi wsi
      then some ([], some i)
      else (rest >>= λ r. some (prepend_if (has_no_wsi p.wsi) i r))

  unfoldable pub find_and_remove_pending_connect : ℕ → World B → Option (Option ℕ × World B)
  unfolding scan
  find_and_remove_pending_connect wsi w =
      scan lws_client_connecting wsi w.pending_connects w >>= λ (stale, found). some (
        found,
        record w { pending_connects = remove_found found (remove_all stale w.pending_connects) },
      )

  unfoldable pub find_and_remove_pending_reconnect : ℕ → World B → Option (Option ℕ × World B)
  unfolding scan
  find_and_remove_pending_reconnect wsi w =
      scan lws_client_reconnecting wsi w.pending_reconnects w >>= λ (stale, found). some (
        found,
        record w {
          pending_reconnects = remove_found found (remove_all stale w.pending_reconnects);
        },
      )

  -- findAndRemovePendingConnect, and if it finds nothing the other.
  unfoldable pub find_pending : ℕ → World B → Option (Option ℕ × World B)
  find_pending wsi w = do
    (found, w') ← find_and_remove_pending_connect wsi w
    elim found [ some i ↦ some (some i, w') | none ↦ find_and_remove_pending_reconnect wsi w' ]
