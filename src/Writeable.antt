-- ===== src/Writeable.antt =====
-- LWS_CALLBACK_CLIENT_WRITEABLE of src/audio_pipe.cpp: each time the socket can take a message, at
-- most one is sent. Time, the socket and the lock of a buffer are in `Env`.
pub mod Started
pub mod Order
pub mod Media
pub mod Shutdown
mod Tests
use text.Mathlib.Text.{◌==◌}
use mod_audio_stream.Common.{
  ℕ, ◌+◌, String, Bool, true, false, ◌&&◌, ◌||◌, not, List, [], ◌∷◌, ◌++◌, Option, none, some,
  length, ltb, leb, if◌then◌else◌,
}
use mod_audio_stream.Json.{Json}
use mod_audio_stream.SwitchBuffer.{SwitchBuffer}
use mod_audio_stream.StreamBuffer.{Buffer}
use mod_audio_stream.ClientEvents.{
  EventArgs, ClientEvent, client_event_start, client_event_media, client_event_stop,
  generate_json_data_event,
}
use mod_audio_stream.AudioPipe.{
  AudioPipe, lws_client_disconnecting, same_state, increase_sequence_number, get_event_data,
  all_buffers_are_empty, event_args,
}

pub record Env : Type 0 where
  -- switch_epoch_time_now, in seconds
  pub now : ℕ
  -- lws_write: how many of so many bytes were sent
  pub write : ℕ → ℕ
  -- cJSON_Print
  pub print : Json → Option (List ℕ)
  -- Buffer::try_lock
  pub try_lock : Bool

-- What one call did: the pipe as it left it, the text it wrote, whether it asked to be called
-- again, and whether it returned -1, which closes the connection.
pub record Turn (B : Type 0) : Type 0 where
  pub pipe : AudioPipe B
  pub sent : Option (List ℕ)
  pub asks : Bool
  pub closes : Bool

abbrev pub idle_turn : {B : Type 0} → AudioPipe B → Turn B
idle_turn p = record { pipe = p; sent = none; asks = false; closes = false }

abbrev pub closing_turn : {B : Type 0} → AudioPipe B → Turn B
closing_turn p = record { pipe = p; sent = none; asks = false; closes = true }

module _ {B : Type 0} (o : SwitchBuffer B) (env : Env) where
  -- A START or STOP event. `none` is a crash: the text is measured though it may be NULL.
  pub send_stop : AudioPipe B → Option (Turn B)
  send_stop p =
      elim (generate_json_data_event o env.print client_event_stop (event_args p p.track)).0 [
        | none ↦ none
        | some payload ↦ some (record {
          pipe = record (increase_sequence_number p) {
            last_msg_sent = true;
            state = lws_client_disconnecting;
          };
          sent = some payload;
          asks = true;
          closes = false;
        })
      ]

  pub send_start : AudioPipe B → Option (Turn B)
  send_start p =
      elim (generate_json_data_event o env.print client_event_start (event_args p p.track)).0 [
        | none ↦ none
        | some payload ↦ some (record {
          pipe = record (increase_sequence_number p) { first_msg_sent = true };
          sent = some payload;
          asks = true;
          closes = false;
        })
      ]

  -- A queued text; one that could not be written whole closes the connection.
  pub send_event : List ℕ → AudioPipe B → Turn B
  send_event text p =
      if ltb (env.write (length text)) (length text)
      then record { pipe = p; sent = some text; asks = false; closes = true }
      else record { pipe = p; sent = some text; asks = true; closes = false }

  -- The buffer whose turn it is, and the name of its track.
  pub audio_turn : AudioPipe B → Option (Buffer B) × String
  audio_turn p =
      if p.both_tracks
      then (if p.switch then (p.ob_audio_buffer, "outbound") else (p.audio_buffer, "inbound"))
      else (p.audio_buffer, if p.track == "inbound" then "inbound" else "outbound")

  -- `p` with the buffer that was read put back.
  pub put_back : AudioPipe B → Buffer B → AudioPipe B
  put_back p b =
      if p.both_tracks && p.switch
      then record p { ob_audio_buffer = some b }
      else record p { audio_buffer = some b }

  pub flip_switch : AudioPipe B → AudioPipe B
  flip_switch p = if p.both_tracks then record p { switch = not p.switch } else p

  abbrev pub event_buffer : Buffer B → ClientEvent B → Buffer B
  event_buffer b client_event_start = b
  event_buffer b client_event_stop = b
  event_buffer b (client_event_media b') = b'

  -- What follows the media event `r` of the buffer `b`. With no payload nothing is sent.
  pub finish_media : AudioPipe B → Buffer B → Option (List ℕ) × ClientEvent B → Turn B
  finish_media p b (none, event) = record {
    pipe = flip_switch (put_back p (event_buffer b event));
    sent = none;
    asks = p.graceful_shutdown;
    closes = false;
  }
  finish_media p b (some payload, event) = record {
    pipe = flip_switch (increase_sequence_number (put_back p (event_buffer b event)));
    sent = some payload;
    asks = true;
    closes = false;
  }

  pub write_audio : AudioPipe B → Option (Buffer B) × String → Turn B
  write_audio p (none, track) = idle_turn p
  write_audio p (some b, track) =
      let media =
        generate_json_data_event o env.print (client_event_media b) (event_args p track) in
      if env.try_lock then finish_media p b media else idle_turn p

  -- A queued text goes first. Else a stream that disconnects is closed, and one that does not
  -- sends audio.
  pub write_next : List ℕ × AudioPipe B → Turn B
  write_next (x ∷ xs, p) = send_event (x ∷ xs) p
  write_next ([], p) =
      if same_state p.state lws_client_disconnecting
      then closing_turn p
      else write_audio p (audio_turn p)

  -- The whole handler, for a wsi that has its pipe.
  unfoldable pub client_writeable : AudioPipe B → Option (Turn B)
  client_writeable p =
      if p.graceful_shutdown && leb (p.graceful_shutdown_at + 60) env.now
      then some (closing_turn (record p { state = lws_client_disconnecting }))
      else (if p.graceful_shutdown && (all_buffers_are_empty p && not p.last_msg_sent)
          then send_stop p
          else (if not p.first_msg_sent
              then send_start p
              else some (write_next (get_event_data p))))
