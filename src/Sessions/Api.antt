-- ===== src/Sessions/Api.antt =====
-- stream_function of src/mod_audio_stream.c, the command line of the module, with do_openai_start.
-- `argv` is what switch_separate_string makes of the command, at most ten words. The variables that
-- openai_start sets in the channel are left out.
use Prim.Native.String.{String}
use mod_audio_stream.Common.{
  ℕ, zero, suc, ◌+◌, ◌%◌, ◌^◌, List, [], ◌∷◌, ◌++◌, Bool, true, false, ◌&&◌, ◌||◌, Option, none,
  some, codes, text_eq, length, get_elem?, take, drop, map, ltb, leb, ◌==◌, if◌then◌else◌, ◌>>=◌,
}
use mod_audio_stream.Common.Int.{ℤ, pos, negsuc}
use mod_audio_stream.SwitchBuffer.{SwitchBuffer}
use mod_audio_stream.Uri.{TlsVariables, strip, digits, number_from, parse_ws_uri}
use mod_audio_stream.Sessions.{Env, Channel}
use mod_audio_stream.Sessions.Commands.{
  do_stop, do_graceful_shutdown, stream_session_pauseresume, send_text,
}
use mod_audio_stream.Sessions.Start.{StartArgs, Setup, start_capture}

-- What is written to the console: the usage, "+OK Success", "-ERR Operation Failed", or nothing.
pub data Reply : Type 0 where
  usage success failed silent : Reply

-- What the surroundings decide: the session is found, the channel's variables, the model of
-- OPENAI_REALTIME_MODEL, and the text of openai_generate_session_update for a voice and its
-- instructions.
pub record ApiEnv (R : Type 0) : Type 0 where
  pub env : Env
  pub setup : Setup R
  pub session_found : Bool
  pub variables : TlsVariables
  pub model : Option String
  pub session_update : String → Option String → String

abbrev pub lower : ℕ → ℕ
lower c = if leb b'A' c && leb c b'Z' then c + 32 else c

-- strcasecmp
abbrev pub same_word : String → String → Bool
same_word s t = text_eq (map lower (codes s)) (map lower (codes t))

-- strcmp
abbrev pub same_text : String → String → Bool
same_text s t = text_eq (codes s) (codes t)

abbrev pub is_space : ℕ → Bool
is_space c = c == 32 || (leb 9 c && leb c 13)

-- The digits at the front of a text; more than an `int` holds is undefined behaviour.
unfoldable pub magnitude : List ℕ → Option ℕ
unfolding digits number_from
magnitude s = let n = number_from 0 (digits s) in if ltb n (2 ^ 31) then some n else none

abbrev pub negated : ℕ → ℤ
negated zero = pos 0
negated (suc n) = negsuc n

-- atoi
unfoldable pub read_int : List ℕ → Option ℤ
unfolding magnitude
read_int [] = some (pos 0)
read_int (c ∷ s) =
    let later = read_int s in
    let plain = magnitude (c ∷ s) >>= λ n. some (pos n) in
    let plus = magnitude s >>= λ n. some (pos n) in
    let minus = magnitude s >>= λ n. some (negated n) in
    if is_space c then later else (if c == b'-' then minus else (if c == b'+' then plus else plain))

abbrev pub is_nonzero : ℤ → Bool
is_nonzero (pos zero) = false
is_nonzero _ = true

-- A rate that start_capture is given. A negative one makes the size of a buffer negative.
abbrev pub rate_of : ℤ → Option ℕ
rate_of (pos n) = some n
rate_of (negsuc n) = none

abbrev pub is_multiple : ℤ → Bool
is_multiple (pos n) = n % 8000 == 0
is_multiple (negsuc n) = (n + 1) % 8000 == 0

unfoldable pub read_sampling : String → Option ℤ
unfolding read_int
read_sampling s =
    if same_text s "16k"
    then some (pos 16000)
    else (if same_text s "8k" then some (pos 8000) else read_int (codes s))

abbrev pub known_track : String → Bool
known_track t = same_text t "inbound" || (same_text t "outbound" || same_text t "both")

abbrev pub metadata_of : List String → String
metadata_of argv = elim (get_elem? argv 9) [ none ↦ "" | some m ↦ m ]

-- The words of `start` behind the track: `some none` if they are refused.
unfoldable pub read_target : TlsVariables → Bool → String → List String → Option (Option StartArgs)
unfolding read_sampling parse_ws_uri
read_target v bidirectional track argv = do
  rate ← get_elem? argv 6
  sampling ← read_sampling rate
  until ← get_elem? argv 7
  timeout ← read_int (codes until)
  uri ← get_elem? argv 3
  parsed ← parse_ws_uri v (codes uri)
  elim parsed [
    | none ↦ some none
    | some address ↦
        if is_multiple sampling
        then (do
          path ← address.path
          id ← get_elem? argv 1
          codec ← get_elem? argv 5
          n ← rate_of sampling
          some (
              some (record {
                stream_id = id;
                service_url = codes uri;
                host = address.host;
                port = address.port;
                path = path;
                ssl_flags = address.flags;
                codec = codec;
                sampling = n;
                track = track;
                timeout = timeout;
                is_bidirectional = bidirectional;
                metadata = metadata_of argv;
              })))
        else some none
  ]

unfoldable pub read_start : TlsVariables → List String → Option (Option StartArgs)
unfolding read_target
read_start v argv = do
  flag ← get_elem? argv 8
  bidirectional ← read_int (codes flag)
  track ← get_elem? argv 4
  if known_track track then read_target v (is_nonzero bidirectional) track argv else some none

-- The words `name=value` of openai_start.
pub record OpenaiOptions : Type 0 where
  pub voice : String
  pub instructions : Option String
  pub track : String
  pub sampling_rate : ℤ
  pub timeout : ℤ

abbrev pub skip : ℕ → String → String
skip zero s = s
skip (suc n) (String.◌∷◌ c s) = skip n s
skip (suc n) String.[] = String.[]

-- strncmp(s, name, strlen(name)) == 0
abbrev pub begins : String → String → Bool
begins name s = elim (strip (codes name) (codes s)) [ none ↦ false | some rest ↦ true ]

unfoldable pub read_option : String → OpenaiOptions → Option OpenaiOptions
unfolding read_int
read_option s o =
    if begins "voice=" s
    then some (record o { voice = skip 6 s })
    else (if begins "instructions=" s
        then some (record o { instructions = some (skip 13 s) })
        else (if begins "track=" s
            then some (record o { track = skip 6 s })
            else (if begins "rate=" s
                then (read_int (codes (skip 5 s)) >>= λ n. some (record o { sampling_rate = n }))
                else (if begins "timeout=" s
                    then (read_int (codes (skip 8 s)) >>= λ n. some (record o { timeout = n }))
                    else some o))))

unfoldable pub read_options : List String → OpenaiOptions → Option OpenaiOptions
unfolding read_option
read_options [] o = some o
read_options (s ∷ ss) o = read_option s o >>= λ o'. read_options ss o'

abbrev pub default_options : OpenaiOptions
default_options = record {
  voice = "alloy";
  instructions = none;
  track = "both";
  sampling_rate = pos 24000;
  timeout = pos 0;
}

abbrev pub openai_get_websocket_url : Option String → List ℕ
openai_get_websocket_url model = take 511 (
    codes "wss://api.openai.com/v1/realtime?model="
    ++ codes (elim model [ none ↦ "gpt-4o-realtime-preview-2024-10-01" | some m ↦ m ]))

module _ {B R : Type 0} (buffers : SwitchBuffer B) (e : ApiEnv R) where
  abbrev pub status : Bool × Channel B R → Reply × Channel B R
  status (done, s) = (if done then success else failed, s)

  unfoldable pub do_openai_start :
      String → OpenaiOptions → Channel B R → Option (Bool × Channel B R)
  unfolding parse_ws_uri start_capture
  do_openai_start id o s = parse_ws_uri e.variables (openai_get_websocket_url e.model) >>= λ parsed.
      elim parsed [
        | none ↦ some (false, s)
        | some address ↦ do
          path ← address.path
          n ← rate_of o.sampling_rate
          some (
              start_capture buffers e.setup
                (record {
                  stream_id = id;
                  service_url = openai_get_websocket_url e.model;
                  host = address.host;
                  port = address.port;
                  path = path;
                  ssl_flags = address.flags;
                  codec = "L16";
                  sampling = n;
                  track = o.track;
                  timeout = o.timeout;
                  is_bidirectional = true;
                  metadata = e.session_update o.voice o.instructions;
                })
                s)
      ]

  unfoldable pub run_start : List String → Channel B R → Option (Reply × Channel B R)
  unfolding read_start start_capture
  run_start argv s = do
    flag ← get_elem? argv 4
    read ← read_start e.variables argv
    elim read [
      | none ↦ some (if known_track flag then failed else silent, s)
      | some a ↦ some (status (start_capture buffers e.setup a s))
    ]

  abbrev pub replied : Option (Bool × Channel B R) → Option (Reply × Channel B R)
  replied r = r >>= λ p. some (status p)

  abbrev pub text_of : List String → Option (List ℕ)
  text_of argv = get_elem? argv 3 >>= λ t. some (codes t)

  -- A command `word` on the stream `id`, of a session that is found.
  unfoldable pub run_word :
      String → String → List String → Channel B R → Option (Reply × Channel B R)
  unfolding do_stop stream_session_pauseresume do_graceful_shutdown send_text read_options
      do_openai_start run_start
  run_word word id argv s =
      if same_word word "stop"
      then replied (do_stop e.env id (text_of argv) s)
      else (if same_word word "pause"
          then replied (stream_session_pauseresume id true s)
          else (if same_word word "resume"
              then replied (stream_session_pauseresume id false s)
              else (if same_word word "graceful-shutdown"
                  then replied (do_graceful_shutdown e.env.now id (text_of argv) s)
                  else (if same_word word "send_text"
                      then elim (text_of argv) [
                        | none ↦ some (silent, s)
                        | some text ↦ replied (send_text id text s)
                      ]
                      else (if same_word word "openai_start"
                          then (read_options (drop 3 argv) default_options >>= λ o.
                              replied (do_openai_start id o s))
                          else (if same_word word "start"
                              then run_start argv s
                              else some (failed, s)))))))

  unfoldable pub stream_function : List String → Channel B R → Option (Reply × Channel B R)
  unfolding run_word
  stream_function (session ∷ id ∷ word ∷ others) s =
      if same_text word "start" && ltb (length others) 2
      then some (usage, s)
      else (if e.session_found
          then run_word word id (session ∷ id ∷ word ∷ others) s
          else some (failed, s))
  stream_function argv s = some (usage, s)
