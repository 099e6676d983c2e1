-- ===== src/Sessions/Command.antt =====
-- The command `start` of src/mod_audio_stream.c, from its words to start_capture.
use mod_audio_stream.Common.{
  ℕ, ◌%◌, ◌^◌, ◌≡◌, refl, ap, sym, subst, ◌∙◌, ◌<◌, List, [], ◌∷◌, true, false, some, String, codes,
  text_eq, ltb, decimal, length, ==_iff, bind-some, arith, if-true, if-false, if◌then◌else◌, inl,
  inr, Bool-cases,
}
use mod_audio_stream.Common.Int.{pos}
use mod_audio_stream.SwitchBuffer.{SwitchBuffer}
use mod_audio_stream.Uri.{ssl_flags, no_ssl, digits, number_from, parse_ws_uri}
use mod_audio_stream.Uri.Groups.{AllDigits}
use mod_audio_stream.Uri.Ports.{decimal-number, length-decimal_pos}
use mod_audio_stream.Uri.Parsing.{
  is_secure, port_or_default, path_or_slash, Url, IsUrl, text, parse_ws_uri-text,
}
use mod_audio_stream.Sessions.{Channel}
use mod_audio_stream.Sessions.Start.{StartArgs, start_capture}
use mod_audio_stream.Sessions.Api.{
  ApiEnv, magnitude, read_int, is_nonzero, read_sampling, known_track, metadata_of, read_target,
  read_start, run_start, status, stream_function,
}
use mod_audio_stream.Sessions.Words.{text_eq_sound, run_word-start}

digits_all : (d : List ℕ) → AllDigits d → digits d ≡ d
unfolding digits
digits_all [] h = refl
digits_all (c ∷ d) h = ground (arith, digits_all d h.1)

read_int-digits :
    (d : List ℕ) (n : ℕ)
    → AllDigits d
    → 0 < length d
    → number_from 0 d ≡ n
    → n < 2 ^ 31
    → read_int d ≡ some (pos n)
unfolding read_int magnitude
read_int-digits [] n h l e small = absurd (omega (arith, l))
read_int-digits (c ∷ d) n h l e small = let all = digits_all (c ∷ d) h in ground (arith, all, e)

read_int-decimal :
    (s : String) (n : ℕ) → codes s ≡ decimal n → n < 2 ^ 31 → read_int (codes s) ≡ some (pos n)
read_int-decimal s n e small =
    let (v, d) = decimal-number n small in
    ap read_int e ∙ read_int-digits (decimal n) n d (length-decimal_pos n) v small

-- Digits are no word with a letter.
digits_ne_word : (d w : List ℕ) → AllDigits d → (AllDigits w → false ≡ true) → text_eq d w ≡ false
digits_ne_word d w h letter = elim (Bool-cases (text_eq d w)) [
  | inl same ↦ cc (letter (subst AllDigits (text_eq_sound d w same) h))
  | inr other ↦ other
]

read_sampling-decimal :
    (s : String) (n : ℕ) → codes s ≡ decimal n → n < 2 ^ 31 → read_sampling s ≡ some (pos n)
unfolding read_sampling
read_sampling-decimal s n e small =
    let d = subst AllDigits (sym e) (decimal-number n small).1 in
    if-false _ _ (digits_ne_word (codes s) (codes "16k") d (λ h. h.1.1.0))
    ∙ (if-false _ _ (digits_ne_word (codes s) (codes "8k") d (λ h. h.1.0))
        ∙ read_int-decimal s n e small)

module _ {B R : Type 0} (buffers : SwitchBuffer B) (e : ApiEnv R)
    (session id uri track codec rate until flag : String) (others : List String) (u : Url)
    (n m k : ℕ) where
  abbrev pub argv : List String
  argv = session ∷ id ∷ "start" ∷ uri ∷ track ∷ codec ∷ rate ∷ until ∷ flag ∷ others

  abbrev pub arguments : StartArgs
  arguments = record {
    stream_id = id;
    service_url = codes uri;
    host = u.host;
    port = port_or_default u.scheme u.port;
    path = path_or_slash u.path;
    ssl_flags = if is_secure u.scheme then ssl_flags e.variables else no_ssl;
    codec = codec;
    sampling = n;
    track = track;
    timeout = pos m;
    is_bidirectional = is_nonzero (pos k);
    metadata = metadata_of argv;
  }

  read_target_lem :
      codes uri ≡ text u
      → IsUrl u
      → codes rate ≡ decimal n
      → n < 2 ^ 31
      → n % 8000 ≡ 0
      → codes until ≡ decimal m
      → m < 2 ^ 31
      → read_target e.variables (is_nonzero (pos k)) track argv ≡ some (some arguments)
  unfolding read_target
  read_target_lem eu iu er sr multiple et st =
      let parsed = ap (parse_ws_uri e.variables) eu ∙ parse_ws_uri-text e.variables u iu in
      bind-some _ _ (pos n) (read_sampling-decimal rate n er sr)
      ∙ (bind-some _ _ (pos m) (read_int-decimal until m et st)
          ∙ (bind-some _ _ _ parsed ∙ if-true _ _ ((==_iff (n % 8000) 0).1 multiple)))

  -- The words of a start command for a session that is found, with a word for the codec, whose
  -- address is the text of a well-formed Url, whose track is known and whose rate (a multiple of
  -- 8000), timeout and flag are numbers below 2^31 in decimal, with any words after them, run
  -- start_capture with exactly these arguments: the address as it was given, its host, its port or
  -- that of its scheme, its path or a slash and the TLS flags of a secure scheme, and the stream,
  -- the codec, the rate, the track, the timeout, the flag and the metadata. The reply tells whether
  -- it succeeded.
  pub stream_function-Starts :
      (s : Channel B R)
      → e.session_found ≡ true
      → codes uri ≡ text u
      → IsUrl u
      → known_track track ≡ true
      → codes rate ≡ decimal n
      → n < 2 ^ 31
      → n % 8000 ≡ 0
      → codes until ≡ decimal m
      → m < 2 ^ 31
      → codes flag ≡ decimal k
      → k < 2 ^ 31
      → stream_function buffers e argv s
        ≡ some (status buffers e (start_capture buffers e.setup arguments s))
  unfolding stream_function run_start read_start
  stream_function-Starts s found eu iu known er sr multiple et st ef sf =
      let read : read_start e.variables argv ≡ some (some arguments) =
        bind-some _ _ (pos k) (read_int-decimal flag k ef sf)
        ∙ (if-true _ _ known ∙ read_target_lem eu iu er sr multiple et st) in
      let long : ltb (length (uri ∷ track ∷ codec ∷ rate ∷ until ∷ flag ∷ others)) 2 ≡ false =
        ground arith in
      if-false _ _ long
      ∙ (if-true _ _ found
          ∙ (run_word-start buffers e "start" id argv s refl ∙ bind-some _ _ (some arguments) read))
