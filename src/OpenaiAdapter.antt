-- ===== src/OpenaiAdapter.antt =====
-- src/openai_adapter.c: the messages of the OpenAI server, and this module's events in its format.
-- A text that is NULL is `none`. The configuration and session.update are not here.
pub mod Forwarding
pub mod Answers
mod Tests
use mod_audio_stream.Common.{
  ℕ, List, [], ◌∷◌, ◌++◌, String, Bool, true, false, Option, none, some, if◌then◌else◌, ◌>>=◌,
  codes, text_eq,
}
use mod_audio_stream.Json.{Json, string, object, fields}
use mod_audio_stream.Uri.{strip}

-- The cJSON library: cJSON_Parse, cJSON_GetObjectItem, cJSON_GetStringValue (`none` unless
-- cJSON_IsString), and cJSON_Print of what was parsed and of what was built.
pub record Cjson (J : Type 0) : Type 0 where
  pub parse : List ℕ → Option J
  pub get_object_item : J → String → Option J
  pub get_string_value : J → Option (List ℕ)
  pub print_item : J → Option (List ℕ)
  pub print : Json → Option (List ℕ)

-- EVENT_OPENAI_SESSION_CREATED and the others.
pub data OpenaiEvent : Type 0 where
  session_created response_audio_delta transcription_delta speech_started speech_stopped
        openai_error :
      OpenaiEvent

-- An event that is fired, with its headers but for those of the channel.
pub record Notice : Type 0 where
  pub event : OpenaiEvent
  pub stream_id : List ℕ
  pub headers : List (String × List ℕ)
  pub body : Option (List ℕ)

abbrev pub is_text : String → List ℕ → Bool
is_text word s = text_eq s (codes word)

-- strstr
abbrev pub contains : List ℕ → List ℕ → Bool
contains word [] = elim (strip word []) [ none ↦ false | some rest ↦ true ]
contains word (c ∷ s) =
    let later = contains word s in elim (strip word (c ∷ s)) [ none ↦ later | some rest ↦ true ]

unfoldable pub openai_is_realtime_url : Option (List ℕ) → Bool
openai_is_realtime_url none = false
openai_is_realtime_url (some url) = contains (codes "api.openai.com/v1/realtime") url

module _ {J : Type 0} (c : Cjson J) where
  abbrev pub string_at : String → J → Option (List ℕ)
  string_at k j = c.get_object_item j k >>= c.get_string_value

  unfoldable pub openai_generate_input_audio_buffer_append : Option (List ℕ) → Option (List ℕ)
  openai_generate_input_audio_buffer_append none = none
  openai_generate_input_audio_buffer_append (some base64_audio) = c.print (
      object (
        fields (
          ("type", string (codes "input_audio_buffer.append"))
          ∷ ("audio", string base64_audio)
          ∷ [])))

  unfoldable pub openai_generate_input_audio_buffer_commit : Option (List ℕ)
  openai_generate_input_audio_buffer_commit =
      c.print (object (fields (("type", string (codes "input_audio_buffer.commit")) ∷ [])))

  -- A message for the server, from one that this module made.
  unfoldable pub transform_event : List ℕ → J → Option (List ℕ)
  unfolding openai_generate_input_audio_buffer_append
  transform_event event_type root =
      if is_text "start" event_type
      then none
      else (if is_text "media" event_type
          then (do
            media_obj ← c.get_object_item root "media"
            base64_audio ← string_at "payload" media_obj
            openai_generate_input_audio_buffer_append (some base64_audio))
          else none)

  -- original_message, stream_id and is_openai_mode.
  unfoldable pub openai_transform_outgoing_message :
      Option (List ℕ) → Option (List ℕ) → Bool → Option (List ℕ)
  unfolding transform_event
  openai_transform_outgoing_message (some text) (some id) true = do
    root ← c.parse text
    event_type ← string_at "event" root
    transform_event event_type root
  openai_transform_outgoing_message _ _ _ = none

  -- The event of what was found in the message, if it was.
  abbrev pub audio_notice : Option (List ℕ) → List ℕ → List Notice
  audio_notice none id = []
  audio_notice (some audio) id =
      record {
        event = response_audio_delta;
        stream_id = id;
        headers = ("audio_format", codes "pcm16") ∷ [];
        body = some audio;
      }
      ∷ []

  abbrev pub audio_delta : List ℕ → J → List Notice
  audio_delta id root = audio_notice (string_at "delta" root) id

  abbrev pub transcript_notice : Option (List ℕ) → List ℕ → List Notice
  transcript_notice none id = []
  transcript_notice (some delta) id =
      record {
        event = transcription_delta;
        stream_id = id;
        headers = ("transcript_delta", delta) ∷ [];
        body = c.print (object (fields (("stream_id", string id) ∷ ("delta", string delta) ∷ [])));
      }
      ∷ []

  abbrev pub transcript_delta : List ℕ → J → List Notice
  transcript_delta id root = transcript_notice (string_at "delta" root) id

  abbrev pub message_of : Option (List ℕ) → List ℕ
  message_of none = codes "Unknown error"
  message_of (some text) = text

  abbrev pub failure_with : Option (List ℕ) → J → List ℕ → Notice
  failure_with text error_obj id = record {
    event = openai_error;
    stream_id = id;
    headers = ("error_message", message_of text) ∷ [];
    body = c.print_item error_obj;
  }

  abbrev pub failure_notice : Option J → List ℕ → List Notice
  failure_notice none id = []
  failure_notice (some error_obj) id =
      failure_with (string_at "message" error_obj) error_obj id ∷ []

  abbrev pub error_notice : List ℕ → J → List Notice
  error_notice id root = failure_notice (c.get_object_item root "error") id

  abbrev pub plain : OpenaiEvent → List ℕ → Option (List ℕ) → List Notice
  plain event id text = record { event = event; stream_id = id; headers = []; body = text } ∷ []

  -- The events that a message of a known type fires.
  unfoldable pub notices : List ℕ → List ℕ → List ℕ → J → List Notice
  notices event_type id text root =
      if is_text "session.created" event_type
      then plain session_created id (some text)
      else (if is_text "response.audio.delta" event_type
          then audio_delta id root
          else (if is_text "response.audio_transcript.delta" event_type
              then transcript_delta id root
              else (if is_text "input_audio_buffer.speech_started" event_type
                  then plain speech_started id none
                  else (if is_text "input_audio_buffer.speech_stopped" event_type
                      then plain speech_stopped id none
                      else (if is_text "error" event_type then error_notice id root else [])))))

  -- Whether SWITCH_STATUS_SUCCESS is returned, and the events. `found`: session is not NULL.
  unfoldable pub openai_handle_message :
      Bool → Option (List ℕ) → Option (List ℕ) → Bool × List Notice
  unfolding notices
  openai_handle_message true (some id) (some text) =
      elim (c.parse text >>= λ root.
      string_at "type" root >>= λ event_type. some (notices event_type id text root)) [
        | none ↦ (false, [])
        | some fired ↦ (true, fired)
      ]
  openai_handle_message _ _ _ = (false, [])
