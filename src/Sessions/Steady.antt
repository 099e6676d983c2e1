-- ===== src/Sessions/Steady.antt =====
-- A stream whose media stream_frame of src/lws_glue.cpp stores as they come.
use mod_audio_stream.Common.{ℕ, ◌≡◌, refl, ap, ◌∙◌, List, false, none, some, String, update-same}
use mod_audio_stream.SwitchBuffer.{SwitchBuffer, IsFifo}
use mod_audio_stream.StreamBuffer.{Buffer}
use mod_audio_stream.StreamBuffer.Fifo.{Holds}
use mod_audio_stream.ClientEvents.{l16}
use mod_audio_stream.AudioPipe.{AudioPipe, lws_client_connected}
use mod_audio_stream.Common.Maps.{find, erase}
use mod_audio_stream.Sessions.{Env, Bug, Context, Channel, keep_context, keep_pipe}
use mod_audio_stream.Sessions.Stop.{Attached}
use mod_audio_stream.Sessions.Media.{goes_outbound, keep_buffer}

-- A stored frame, before the notices.
abbrev pub stored :
    {B R : Type 0} → ℕ → ℕ → Channel B R → Context B R → AudioPipe B → Buffer B → Channel B R
stored t i s c p q =
    keep_pipe i (keep_buffer false q p) (keep_context t (record c { resampler = none }) s)

module _ {B R : Type 0} {o : SwitchBuffer B} (law : IsFifo o) (env : Env) (id : String)
    (b t i vhost : ℕ) (bug : Bug) where
  -- An attached stream of linear samples that is connected and not resampled, whose buffer of `n`
  -- bytes a chunk and `most` bytes holds the frames `fs`.
  pub record Steady (n most : ℕ) (fs : List (List ℕ)) (s : Channel B R) : Type 0 where
    pub context : Context B R
    pub pipe : AudioPipe B
    pub buffer : Buffer B
    pub attached : Attached env id b t i bug context pipe s
    pub unpaused : context.audio_paused ≡ false
    pub unshut : context.graceful_shutdown ≡ false
    pub no_resampler : context.resampler ≡ none
    pub named_pipe : pipe.streamid ≡ id
    pub up : pipe.state ≡ lws_client_connected
    pub served : pipe.vhd ≡ some vhost
    pub linear : pipe.codec ≡ l16
    pub inner : goes_outbound pipe bug.direction ≡ false
    pub has_buffer : pipe.audio_buffer ≡ some buffer
    pub holds : Holds law buffer fs
    pub chunk : buffer.chunk_size_bytes ≡ n
    pub capacity : buffer.maximum_capacity_bytes ≡ most

  -- The context loses no resampler, and the pipe gets the buffer `q`.
  pub renewed :
      (n most : ℕ) (fs gs : List (List ℕ)) (s s' : Channel B R) (y : Steady n most fs s)
      (q : Buffer B)
      → s'.privates ≡ s.privates
      → s'.bugs ≡ s.bugs
      → s'.contexts t ≡ some (record y.context { resampler = none })
      → s'.pipes.pipes i ≡ some (keep_buffer false q y.pipe)
      → Holds law q gs
      → q.chunk_size_bytes ≡ n
      → q.maximum_capacity_bytes ≡ most
      → Steady n most gs s'
  renewed n most fs gs s s' y q e f g k h l m = record {
    context = record y.context { resampler = none };
    pipe = keep_buffer false q y.pipe;
    buffer = q;
    attached = record {
      lock_free = y.attached.lock_free;
      removal_closes = y.attached.removal_closes;
      found = ap (find id) e ∙ y.attached.found;
      once = ap (λ r. find id (erase id r)) e ∙ y.attached.once;
      bug_at = ap (λ r. r b) f ∙ y.attached.bug_at;
      of_context = y.attached.of_context;
      context_at = g;
      named = y.attached.named;
      mutex = y.attached.mutex;
      of_pipe = y.attached.of_pipe;
      pipe_at = k;
    };
    unpaused = y.unpaused;
    unshut = y.unshut;
    no_resampler = refl;
    named_pipe = y.named_pipe;
    up = y.up;
    served = y.served;
    linear = y.linear;
    inner = y.inner;
    has_buffer = refl;
    holds = h;
    chunk = l;
    capacity = m;
  }

  pub stored-Steady :
      (n most : ℕ) (fs gs : List (List ℕ)) (s : Channel B R) (y : Steady n most fs s) (q : Buffer B)
      → Holds law q gs
      → q.chunk_size_bytes ≡ n
      → q.maximum_capacity_bytes ≡ most
      → Steady n most gs (stored t i s y.context y.pipe q)
  stored-Steady n most fs gs s y q h l m =
      renewed n most fs gs s (stored t i s y.context y.pipe q) y q refl refl
        (update-same s.contexts t (some (record y.context { resampler = none })))
        (update-same s.pipes.pipes i (some (keep_buffer false q y.pipe))) h l m
