-- ===== src/OpenaiAdapter/Forwarding.antt =====
-- What openai_transform_outgoing_message of src/openai_adapter.c makes of the events of
-- src/stream_utils.cpp.
use mod_audio_stream.Common.{
  ap, length, ◌<◌, ◌^◌, ℕ, ◌≡◌, refl, ◌∙◌, List, [], ◌∷◌, true, Option, none, some, String,
  bind-some, AllBytes, codes, if◌then◌else◌,
}
use mod_audio_stream.Json.{Json, Fields, end, field, string, object, fields}
use mod_audio_stream.Base64.{base64_encode, decode_all}
use mod_audio_stream.Base64.Roundtrip.{decode_all-encode_all, base64_encode_all}
use mod_audio_stream.StreamBuffer.{Buffer}
use mod_audio_stream.ClientEvents.{EventArgs, start_event, media_json, stop_event}
use mod_audio_stream.Sessions.Api.{same_word}
use mod_audio_stream.OpenaiAdapter.{
  Cjson, string_at, transform_event, openai_generate_input_audio_buffer_append,
  openai_transform_outgoing_message,
}

-- What cJSON_GetObjectItem looks for: the first field of that name, in any case of letters.
abbrev pub find_folded : String → Fields → Option Json
find_folded k end = none
find_folded k (field j v r) = let rest = find_folded k r in if same_word j k then some v else rest

-- What is parsed stands for a tree, and the library reads in it.
pub record Reads {J : Type 0} (c : Cjson J) (tree : J → Json) : Type 0 where
  pub item :
      (x : J) (k : String) (r : Fields) (v : Json)
      → tree x ≡ object r
      → find_folded k r ≡ some v
      → (y : J) × (c.get_object_item x k ≡ some y) × (tree y ≡ v)
  pub text : (x : J) (s : List ℕ) → tree x ≡ string s → c.get_string_value x ≡ some s

-- An event of this module: a media event has the frame.
pub data Sent (B : Type 0) : Type 0 where
  starts stops : Sent B
  carries : Buffer B → List ℕ → Sent B

abbrev pub tree_of : {B : Type 0} → EventArgs → Sent B → Json
unfolding start_event media_json stop_event
tree_of a starts = start_event a
tree_of a stops = stop_event a
tree_of a (carries b f) = media_json a b f

abbrev pub OfBytes : {B : Type 0} → Sent B → Type 0
OfBytes starts = Unit
OfBytes stops = Unit
OfBytes (carries b f) = AllBytes f × (length f < 2 ^ 32)

module _ {J : Type 0} (c : Cjson J) where
  -- Of a media event an append message is printed whose audio decodes to the frame; of the others
  -- NULL is returned.
  abbrev pub Becomes : {B : Type 0} → Sent B → Option (List ℕ) → Type 0
  Becomes starts r = r ≡ none
  Becomes stops r = r ≡ none
  Becomes (carries b f) r =
      (audio : List ℕ) × (r
        ≡ c.print (
            object (
              fields (
                ("type", string (codes "input_audio_buffer.append"))
                ∷ ("audio", string audio)
                ∷ []))))
      × (decode_all audio ≡ f)

module _ {J : Type 0} (c : Cjson J) (tree : J → Json) (law : Reads c tree) where
  pub string_at-tree :
      (x : J) (k : String) (r : Fields) (s : List ℕ)
      → tree x ≡ object r
      → find_folded k r ≡ some (string s)
      → string_at c k x ≡ some s
  string_at-tree x k r s e h =
      let (y, g, t) = law.item x k r (string s) e h in bind-some _ _ y g ∙ law.text y s t

  -- With a cJSON library that reads the trees it has parsed, in the mode for OpenAI: of a start or
  -- stop event of this module NULL is returned, and of a media event with fewer than 2^32 bytes
  -- what cJSON_Print gives for an input_audio_buffer.append message whose audio decodes to the
  -- bytes of the frame.
  pub openai_transform_outgoing_message-Becomes :
      {B : Type 0} (a : EventArgs) (sent : Sent B) (text id : List ℕ) (x : J)
      → c.parse text ≡ some x
      → tree x ≡ tree_of a sent
      → OfBytes sent
      → Becomes c sent (openai_transform_outgoing_message c (some text) (some id) true)
  unfolding openai_transform_outgoing_message transform_event start_event media_json stop_event
      openai_generate_input_audio_buffer_append
  openai_transform_outgoing_message-Becomes a starts text id x p e h =
      bind-some _ _ x p ∙ bind-some _ _ (codes "start") (string_at-tree x "event" _ _ e refl)
  openai_transform_outgoing_message-Becomes a stops text id x p e h =
      bind-some _ _ x p ∙ bind-some _ _ (codes "stop") (string_at-tree x "event" _ _ e refl)
  openai_transform_outgoing_message-Becomes a (carries b f) text id x p e h =
      let (y, g, t) = law.item x "media" _ _ e refl in
      (
        base64_encode f,
        bind-some _ _ x p
            ∙ (bind-some _ _ (codes "media") (string_at-tree x "event" _ _ e refl)
                ∙ (bind-some _ _ y g
                    ∙ bind-some _ _ (base64_encode f) (string_at-tree y "payload" _ _ t refl))),
        ap decode_all (base64_encode_all f h.1) ∙ decode_all-encode_all f h.0,
      )
