-- ===== src/OpenaiAdapter/Tests.antt =====
-- A media event on its way to the OpenAI server, over a library that parses one text.
use mod_audio_stream.Common.{
  ◌≡◌, ◌∙◌, ap, String, refl, [], ◌∷◌, Option, some, none, true, codes, arith,
}
use mod_audio_stream.Json.{Json, end, string_value, object}
use mod_audio_stream.SwitchBuffer.{ByteQueue}
use mod_audio_stream.StreamBuffer.{Buffer}
use mod_audio_stream.ClientEvents.{EventArgs, l16}
use mod_audio_stream.Sessions.Api.{openai_get_websocket_url}
use mod_audio_stream.OpenaiAdapter.{
  Cjson, openai_transform_outgoing_message, openai_handle_message, openai_is_realtime_url,
}
use mod_audio_stream.OpenaiAdapter.Answers.{
  ServerMessage, creates, speaks, writes, starts_speech, stops_speech, fails, message_tree, Tells,
  openai_handle_message-Tells,
}
use mod_audio_stream.OpenaiAdapter.Forwarding.{
  find_folded, Reads, Sent, carries, starts, stops, tree_of, Becomes,
  openai_transform_outgoing_message-Becomes,
}

abbrev folded_item : Json → String → Option Json
folded_item (object r) k = find_folded k r
folded_item _ k = none

abbrev library : Json → Cjson Json
library j = record {
  parse = λ text. some j;
  get_object_item = folded_item;
  get_string_value = string_value;
  print_item = λ x. some (codes "{}");
  print = λ x. some (codes "{}");
}

library-Reads : (j : Json) → Reads (library j) (λ x. x)
library-Reads j = record {
  item = λ x k r v e h. (v, ap (λ y. folded_item y k) e ∙ h, refl);
  text = λ x s e. ap string_value e;
}

abbrev arguments : EventArgs
arguments = record {
  sequence_number = 3;
  uuid = "call-1";
  streamid = "s1";
  track = "inbound";
  extra_headers = "";
  codec = l16;
  sampling = 8000;
}

abbrev buffer : Buffer ByteQueue
buffer = record {
  freeswitch_buffer = record { bytes = []; limit = 500 };
  time_step_increment = 20000;
  start_time = 0;
  generated_time = 20000;
  generated_chunk_count = 1;
  chunk_size_bytes = 2;
  current_usage_bytes = 0;
  maximum_capacity_bytes = 500;
  degradation_notification_sent = 1;
  last_send_time = 20000;
  transmitted_chunk_count = 1;
}

abbrev frame : Sent ByteQueue
frame = carries buffer (1 ∷ 255 ∷ [])

-- What becomes of an event of this module.
abbrev Forwarded : Sent ByteQueue → Type 0
Forwarded sent =
    let cjson = library (tree_of arguments sent) in
    Becomes cjson sent
      (openai_transform_outgoing_message cjson (some (codes "{}")) (some (codes "s1")) true)

openai_transform_outgoing_message-Becomes_example :
    Forwarded starts × Forwarded stops × Forwarded frame
openai_transform_outgoing_message-Becomes_example = (
  openai_transform_outgoing_message-Becomes (library (tree_of arguments starts)) (λ x. x)
      (library-Reads (tree_of arguments starts)) arguments starts (codes "{}") (codes "s1")
      (tree_of arguments starts) refl refl tt,
  openai_transform_outgoing_message-Becomes (library (tree_of arguments stops)) (λ x. x)
      (library-Reads (tree_of arguments stops)) arguments stops (codes "{}") (codes "s1")
      (tree_of arguments stops) refl refl tt,
  openai_transform_outgoing_message-Becomes (library (tree_of arguments frame)) (λ x. x)
      (library-Reads (tree_of arguments frame)) arguments frame (codes "{}") (codes "s1")
      (tree_of arguments frame) refl refl (omega arith, omega arith),
)

-- What the module tells of a message.
abbrev Told : ServerMessage → Type 0
Told m =
    let cjson = library (message_tree m end) in
    Tells cjson (λ x. x) m (codes "s1") (codes "{}") end
      (openai_handle_message cjson true (some (codes "s1")) (some (codes "{}")))

abbrev hello : ServerMessage
hello = speaks (1 ∷ 255 ∷ [])

abbrev greeting : ServerMessage
greeting = writes (codes "hi")

abbrev failure : ServerMessage
failure = fails (codes "no")

openai_handle_message-Tells_example :
    Told creates
    × Told hello
    × Told greeting
    × Told starts_speech
    × Told stops_speech
    × Told failure
openai_handle_message-Tells_example = (
  openai_handle_message-Tells (library (message_tree creates end)) (λ x. x) creates end (codes "s1")
      (codes "{}") (message_tree creates end) (library-Reads (message_tree creates end)) refl refl
      tt,
  openai_handle_message-Tells (library (message_tree hello end)) (λ x. x) hello end (codes "s1")
      (codes "{}") (message_tree hello end) (library-Reads (message_tree hello end)) refl refl
      (omega arith),
  openai_handle_message-Tells (library (message_tree greeting end)) (λ x. x) greeting end
      (codes "s1") (codes "{}") (message_tree greeting end)
      (library-Reads (message_tree greeting end)) refl refl tt,
  openai_handle_message-Tells (library (message_tree starts_speech end)) (λ x. x) starts_speech end
      (codes "s1") (codes "{}") (message_tree starts_speech end)
      (library-Reads (message_tree starts_speech end)) refl refl tt,
  openai_handle_message-Tells (library (message_tree stops_speech end)) (λ x. x) stops_speech end
      (codes "s1") (codes "{}") (message_tree stops_speech end)
      (library-Reads (message_tree stops_speech end)) refl refl tt,
  openai_handle_message-Tells (library (message_tree failure end)) (λ x. x) failure end (codes "s1")
      (codes "{}") (message_tree failure end) (library-Reads (message_tree failure end)) refl refl
      tt,
)

is_realtime : openai_is_realtime_url (some (openai_get_websocket_url none)) ≡ true
unfolding openai_is_realtime_url
is_realtime = refl
