-- ===== src/OpenaiAdapter/Answers.antt =====
-- What openai_handle_message of src/openai_adapter.c tells of the messages of the server.
use mod_audio_stream.Common.{
  ℕ, ◌≡◌, refl, ap, ◌∙◌, List, [], ◌∷◌, Bool, true, false, Option, none, some, String, AllBytes,
  codes, bind-some,
}
use mod_audio_stream.Json.{Json, Fields, field, string, object, fields}
use mod_audio_stream.Base64.{encode_all, decode_all}
use mod_audio_stream.Base64.Roundtrip.{decode_all-encode_all}
use mod_audio_stream.OpenaiAdapter.{
  Cjson, Notice, session_created, response_audio_delta, transcription_delta, speech_started,
  speech_stopped, openai_error, audio_notice, transcript_notice, failure_notice, failure_with,
  notices, openai_handle_message,
}
use mod_audio_stream.OpenaiAdapter.Forwarding.{Reads, string_at-tree}

-- What the server says, apart from its form.
pub data ServerMessage : Type 0 where
  creates starts_speech stops_speech : ServerMessage
  speaks : List ℕ → ServerMessage
  writes fails : List ℕ → ServerMessage

abbrev pub type_of : ServerMessage → String
type_of creates = "session.created"
type_of starts_speech = "input_audio_buffer.speech_started"
type_of stops_speech = "input_audio_buffer.speech_stopped"
type_of (speaks bytes) = "response.audio.delta"
type_of (writes s) = "response.audio_transcript.delta"
type_of (fails s) = "error"

-- The fields that the message needs, in front of others.
abbrev pub content_of : ServerMessage → Fields → Fields
content_of (speaks bytes) others = field "delta" (string (encode_all bytes)) others
content_of (writes s) others = field "delta" (string s) others
content_of (fails s) others = field "error" (object (field "message" (string s) others)) others
content_of _ others = others

abbrev pub message_tree : ServerMessage → Fields → Json
message_tree m others = object (field "type" (string (codes (type_of m))) (content_of m others))

abbrev pub OfBytes : ServerMessage → Type 0
OfBytes (speaks bytes) = AllBytes bytes
OfBytes _ = Unit

module _ {J : Type 0} (c : Cjson J) (tree : J → Json) where
  -- The event is that of the message, and has its content.
  abbrev pub Content : ServerMessage → List ℕ → Fields → Notice → Type 0
  Content creates text others n =
      (n.event ≡ session_created) × (n.headers ≡ []) × (n.body ≡ some text)
  Content starts_speech text others n =
      (n.event ≡ speech_started) × (n.headers ≡ []) × (n.body ≡ none)
  Content stops_speech text others n =
      (n.event ≡ speech_stopped) × (n.headers ≡ []) × (n.body ≡ none)
  Content (speaks bytes) text others n =
      (n.event ≡ response_audio_delta)
      × (n.headers ≡ ("audio_format", codes "pcm16") ∷ [])
      × ((audio : List ℕ) × (n.body ≡ some audio) × (decode_all audio ≡ bytes))
  Content (writes s) text others n =
      (n.event ≡ transcription_delta)
      × (n.headers ≡ ("transcript_delta", s) ∷ [])
      × (n.body
          ≡ c.print
              (object (fields (("stream_id", string n.stream_id) ∷ ("delta", string s) ∷ []))))
  Content (fails s) text others n =
      (n.event ≡ openai_error)
      × (n.headers ≡ ("error_message", s) ∷ [])
      × ((y : J) × (n.body ≡ c.print_item y)
          × (tree y ≡ object (field "message" (string s) others)))

  -- One event is fired, which names the stream.
  abbrev pub Tells : ServerMessage → List ℕ → List ℕ → Fields → Bool × List Notice → Type 0
  Tells m id text others r =
      (n : Notice) × (r ≡ (true, n ∷ [])) × (n.stream_id ≡ id) × Content m text others n

  abbrev result_of : Option (List Notice) → Bool × List Notice
  result_of fired = elim fired [ none ↦ (false, []) | some l ↦ (true, l) ]

  handled :
      (law : Reads c tree) (m : ServerMessage) (others : Fields) (id text : List ℕ) (x : J)
      → c.parse text ≡ some x
      → tree x ≡ message_tree m others
      → openai_handle_message c true (some id) (some text)
        ≡ (true, notices c (codes (type_of m)) id text x)
  unfolding openai_handle_message
  handled law m others id text x p e = ap result_of (
      bind-some _ _ x p
      ∙ bind-some _ _ (codes (type_of m)) (string_at-tree c tree law x "type" _ _ e refl))

  -- With a cJSON library that reads the trees it has parsed: a message of one of the six types,
  -- with any further fields behind those that it needs, is a success and fires exactly one event,
  -- which is that of its type and names the stream. Its content is the text of the message for a
  -- session that is created, a body that decodes to the bytes for audio, the transcript in a header
  -- and in the body, the message of an error in a header and the error object in the body, and
  -- nothing when speech starts or stops.
  pub openai_handle_message-Tells :
      (m : ServerMessage) (others : Fields) (id text : List ℕ) (x : J)
      → Reads c tree
      → c.parse text ≡ some x
      → tree x ≡ message_tree m others
      → OfBytes m
      → Tells m id text others (openai_handle_message c true (some id) (some text))
  unfolding notices
  openai_handle_message-Tells creates others id text x law p e h =
      (_, handled law creates others id text x p e, refl, (refl, refl, refl))
  openai_handle_message-Tells starts_speech others id text x law p e h =
      (_, handled law starts_speech others id text x p e, refl, (refl, refl, refl))
  openai_handle_message-Tells stops_speech others id text x law p e h =
      (_, handled law stops_speech others id text x p e, refl, (refl, refl, refl))
  openai_handle_message-Tells (speaks bytes) others id text x law p e h =
      let d = string_at-tree c tree law x "delta" _ _ e refl in
      (
        _,
        handled law (speaks bytes) others id text x p e
            ∙ ap (λ (o : Option (List ℕ)). result_of (some (audio_notice c o id))) d,
        refl,
        (refl, refl, (encode_all bytes, refl, decode_all-encode_all bytes h)),
      )
  openai_handle_message-Tells (writes s) others id text x law p e h =
      let d = string_at-tree c tree law x "delta" _ _ e refl in
      (
        _,
        handled law (writes s) others id text x p e
            ∙ ap (λ (o : Option (List ℕ)). result_of (some (transcript_notice c o id))) d,
        refl,
        (refl, refl, refl),
      )
  openai_handle_message-Tells (fails s) others id text x law p e h =
      let (y, g, t) = law.item x "error" _ _ e refl in
      let d = string_at-tree c tree law y "message" _ _ t refl in
      (
        _,
        handled law (fails s) others id text x p e
            ∙ ap (λ (o : Option J). result_of (some (failure_notice c o id))) g
            ∙ ap (λ (o : Option (List ℕ)). (true, failure_with c o y id ∷ [])) d,
        refl,
        (refl, refl, (y, refl, t)),
      )
