-- ===== src/Sessions/Found.antt =====
-- Whether a stream has a bug and a context (src/lws_glue.cpp, src/mod_audio_stream.c).
use mod_audio_stream.Common.{ℕ, ◌≡◌, ap, ◌∙◌, Option, none, some, String, bind-some}
use mod_audio_stream.Common.Maps.{find}
use mod_audio_stream.Sessions.{Bug, Channel, on_stream, with_context}

module _ {B R A : Type 0} (missing : A) (f : ℕ → ℕ → Option A) (id : String) (s : Channel B R) where
  pub on_stream-none : find id s.privates ≡ none → on_stream missing f id s ≡ some missing
  unfolding on_stream
  on_stream-none e = rw (e, on_stream)

  pub on_stream-some :
      (b t : ℕ) (bug : Bug)
      → find id s.privates ≡ some b
      → s.bugs b ≡ some bug
      → bug.session_context ≡ some t
      → on_stream missing f id s ≡ f b t
  unfolding on_stream
  on_stream-some b t bug e h k =
      rw (e, on_stream)
        (bind-some (s.bugs b) (λ u. with_context missing (f b) u.session_context) bug h
          ∙ ap (with_context missing (f b)) k)
