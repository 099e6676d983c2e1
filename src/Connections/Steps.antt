-- ===== src/Connections/Steps.antt =====
-- The operations of Connections in sequence: what the service thread and the media threads do to
-- the pipes of src/audio_pipe.cpp, one operation at a time.
use mod_audio_stream.Common.{ℕ, List, [], ◌∷◌, Option, some}
use mod_audio_stream.SwitchBuffer.{SwitchBuffer}
use mod_audio_stream.Connections.{
  World, add_pending_connect, add_event_buffer, close, graceful_shutdown, reconnect,
}
use mod_audio_stream.Common.{◌>>=◌}
use mod_audio_stream.Connections.Callback.{Reason, lws_callback}

pub data Step : Type 0 where
  connects : ℕ → Step
  sends_event : ℕ → List ℕ → Step
  closes : ℕ → Step
  shuts_down : ℕ → ℕ → Step
  -- the timer of a pipe has run out; the new wsi
  reconnects : ℕ → Option ℕ → Step
  calls_back : Reason → Step

module _ {B : Type 0} (o : SwitchBuffer B) where
  unfoldable pub step : Step → World B → Option (World B)
  unfolding add_pending_connect add_event_buffer close graceful_shutdown reconnect lws_callback
  step (connects i) w = some (add_pending_connect i w)
  step (sends_event i text) w = add_event_buffer i text w >>= λ (sent, w'). some w'
  step (closes i) w = close i w
  step (shuts_down i now) w = graceful_shutdown i now w
  step (reconnects i wsi) w = reconnect i wsi w
  step (calls_back r) w = lws_callback o r w

  unfoldable pub steps : List Step → World B → Option (World B)
  unfolding step
  steps [] w = some w
  steps (s ∷ ss) w = step s w >>= steps ss
