-- ===== src/Sessions/Detached.antt =====
-- A stream that has no bug any more: the commands of src/mod_audio_stream.c, the events of
-- src/lws_glue.cpp and the timer do nothing to it.
use mod_audio_stream.Common.{
  ℕ, ◌≡◌, refl, ap, ◌∙◌, List, [], ◌∷◌, Bool, false, ◌||◌, Option, none, some, String, ◌>>=◌,
  bind-some,
}
use mod_audio_stream.Common.Maps.{find}
use mod_audio_stream.SwitchBuffer.{SwitchBuffer}
use mod_audio_stream.AudioPipe.{NotifyEvent}
use mod_audio_stream.Playback.{Services}
use mod_audio_stream.Sessions.{Env, Channel, stream_session_cleanup}
use mod_audio_stream.Sessions.Found.{on_stream-none}
use mod_audio_stream.Sessions.Events.{event_callback}
use mod_audio_stream.Sessions.Commands.{
  context_at, do_stop, do_graceful_shutdown, stream_timeout_callback, stream_session_pauseresume,
  send_text,
}

-- What can be asked of a stream, or be reported of it.
pub data Demand : Type 0 where
  stops : Option (List ℕ) → Demand
  shuts_down : Option (List ℕ) → Demand
  sends : List ℕ → Demand
  pauses : Bool → Demand
  times_out : Demand
  cleans_up : Bool → Demand
  reports : NotifyEvent → List ℕ → Demand

module _ {B J R : Type 0} (o : SwitchBuffer B) (v : Services J R) (env : Env) (fuel a : ℕ)
    (id : String) where
  abbrev pub quietly : Option (Channel B R) → Option (Bool × Channel B R)
  quietly r = r >>= λ s. some (false, s)

  abbrev pub demand : Demand → Channel B R → Option (Bool × Channel B R)
  demand (stops text) s = do_stop env id text s
  demand (shuts_down text) s = do_graceful_shutdown env.now id text s
  demand (sends text) s = send_text id text s
  demand (pauses on) s = stream_session_pauseresume id on s
  demand times_out s = quietly (stream_timeout_callback env.now id s)
  demand (cleans_up zero_billing) s = stream_session_cleanup env id zero_billing s
  demand (reports event text) s = quietly (event_callback o v env fuel a id event text s)

  -- Whether one of them succeeds, and the channel in the end.
  abbrev pub demands : List Demand → Channel B R → Option (Bool × Channel B R)
  demands [] s = some (false, s)
  demands (r ∷ rs) s =
      demand r s >>= λ (done, s'). demands rs s' >>= λ (more, s''). some (done || more, s'')

  context_at-none : (s : Channel B R) → find id s.privates ≡ none → context_at id s ≡ some none
  context_at-none s e = rw (e, context_at)

  demand-detached :
      (r : Demand) (s : Channel B R) → find id s.privates ≡ none → demand r s ≡ some (false, s)
  unfolding do_stop do_graceful_shutdown send_text stream_session_pauseresume event_callback
      stream_timeout_callback stream_session_cleanup
  demand-detached (stops text) s e = bind-some _ _ none (context_at-none s e)
  demand-detached (shuts_down text) s e = bind-some _ _ none (context_at-none s e)
  demand-detached (sends text) s e = on_stream-none _ _ id s e
  demand-detached (pauses on) s e = on_stream-none _ _ id s e
  demand-detached times_out s e =
      ap (λ r. quietly (r >>= λ (done, s'). some s')) (bind-some _ _ none (context_at-none s e))
  demand-detached (cleans_up zero_billing) s e = on_stream-none _ _ id s e
  demand-detached (reports event text) s e = ap quietly (on_stream-none _ _ id s e)

  pub event-ignored :
      (event : NotifyEvent) (text : List ℕ) (s : Channel B R)
      → find id s.privates ≡ none
      → event_callback o v env fuel a id event text s ≡ some s
  unfolding event_callback
  event-ignored event text s e = on_stream-none _ _ id s e

  -- On a stream that has no bug, no sequence of commands and reports succeeds or changes the channel.
  pub demands-Ignored :
      (rs : List Demand) (s : Channel B R)
      → find id s.privates ≡ none
      → demands rs s ≡ some (false, s)
  demands-Ignored [] s e = refl
  demands-Ignored (r ∷ rs) s e =
      bind-some _ _ (false, s) (demand-detached r s e)
      ∙ bind-some _ _ (false, s) (demands-Ignored rs s e)
