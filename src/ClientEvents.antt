-- ===== src/ClientEvents.antt =====
-- generate_json_data_event of src/stream_utils.cpp: the events that a stream sends to its server.
-- cJSON_Print is the parameter `print`; it returns `none` where the library returns NULL.
pub mod Delivery
pub mod Timestamp
mod Tests
use text.Mathlib.Text.{◌==◌}
use mod_audio_stream.Common.{
  ℕ, ◌+◌, List, [], ◌∷◌, ◌++◌, String, Bool, Option, none, some, if◌then◌else◌, take, length, ltb,
  codes, decimal,
}
use mod_audio_stream.Json.{Json, number, string, array, object, fields, items}
use mod_audio_stream.Base64.{base64_encode}
use mod_audio_stream.SwitchBuffer.{SwitchBuffer}
use mod_audio_stream.StreamBuffer.{Buffer, read}

-- streaming_codec_t
pub data Codec : Type 0 where
  l16 ulaw : Codec

-- The arguments that the three kinds of event share.
pub record EventArgs : Type 0 where
  pub sequence_number : ℕ
  pub uuid : String
  pub streamid : String
  pub track : String
  pub extra_headers : String
  pub codec : Codec
  pub sampling : ℕ

-- `buffer` is NULL but for CLIENT_EVENT_MEDIA.
pub data ClientEvent (B : Type 0) : Type 0 where
  client_event_start : ClientEvent B
  client_event_media : Buffer B → ClientEvent B
  client_event_stop : ClientEvent B

pub extra_fields : EventArgs → List (String × Json)
extra_fields a =
    if ltb 0 (length (codes a.extra_headers))
    then ("extra_headers", string (codes a.extra_headers)) ∷ []
    else []

pub encoding_name : Codec → List ℕ
encoding_name l16 = codes "audio/x-l16"
encoding_name ulaw = codes "audio/x-mulaw"

pub track_names : String → List Json
track_names track =
    if track == "both"
    then string (codes "inbound") ∷ string (codes "outbound") ∷ []
    else string (codes track) ∷ []

unfoldable pub start_event : EventArgs → Json
unfolding extra_fields encoding_name track_names
start_event a = object (
    fields (
      ("sequenceNumber", number a.sequence_number)
      ∷ ("event", string (codes "start"))
      ∷ (
        "start",
        object (
            fields (
              ("callId", string (codes a.uuid))
              ∷ ("stream_id", string (codes a.streamid))
              ∷ ("tracks", array (items (track_names a.track)))
              ∷ (
                "mediaFormat",
                object (
                    fields (
                      ("encoding", string (encoding_name a.codec))
                      ∷ ("sampleRate", number a.sampling)
                      ∷ [])),
              )
              ∷ [])),
      )
      ∷ extra_fields a))

-- snprintf(time_str, 14, "%ld", last_send_time): thirteen characters at most.
pub time_str : ℕ → List ℕ
time_str t = take 13 (decimal t)

unfoldable pub media_json : {B : Type 0} → EventArgs → Buffer B → List ℕ → Json
unfolding extra_fields time_str
media_json a b payload = object (
    fields (
      ("sequenceNumber", number a.sequence_number)
      ∷ ("stream_id", string (codes a.streamid))
      ∷ ("event", string (codes "media"))
      ∷ (
        "media",
        object (
            fields (
              ("track", string (codes a.track))
              ∷ ("timestamp", string (time_str b.last_send_time))
              ∷ ("chunk", number b.transmitted_chunk_count)
              ∷ ("payload", string (base64_encode payload))
              ∷ [])),
      )
      ∷ extra_fields a))

unfoldable pub stop_event : EventArgs → Json
unfolding extra_fields
stop_event a = object (
    fields (
      ("sequenceNumber", number a.sequence_number)
      ∷ ("stream_id", string (codes a.streamid))
      ∷ ("event", string (codes "stop"))
      ∷ ("stop", object (fields (("callId", string (codes a.uuid)) ∷ [])))
      ∷ extra_fields a))

module _ {B : Type 0} (o : SwitchBuffer B) where
  -- One chunk is read; without one, or with an empty one, there is no event.
  unfoldable pub media_event : EventArgs → Buffer B → Option Json × Buffer B
  media_event a b =
      let (payload, b') = read o b in
      elim payload [
        | none ↦ (none, b')
        | some [] ↦ (none, b')
        | some (x ∷ xs) ↦ (some (media_json a b' (x ∷ xs)), b')
      ]

  -- The text to send, or NULL, and the event with its buffer as it is left.
  unfoldable pub generate_json_data_event :
      (Json → Option (List ℕ)) → ClientEvent B → EventArgs → Option (List ℕ) × ClientEvent B
  generate_json_data_event print client_event_start a = (print (start_event a), client_event_start)
  generate_json_data_event print client_event_stop a = (print (stop_event a), client_event_stop)
  generate_json_data_event print (client_event_media b) a =
      let (event, b') = media_event a b in
      (elim event [ none ↦ none | some json ↦ print json ], client_event_media b')
