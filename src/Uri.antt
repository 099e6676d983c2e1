-- ===== src/Uri.antt =====
-- parse_ws_uri of src/lws_glue.cpp: the address that a stream is sent to. A text is the list of its
-- codes, none of them 0. The regular expression `^(.+?):?(\d+)?(/.*)?$` is written as the search
-- that it stands for: the first group grows from one character on until the others match what is
-- left, and each of those takes as much as it can.
pub mod Groups
pub mod Ports
pub mod Parsing
pub mod Digits
mod Tests
use mod_audio_stream.Common.{
  ℕ, ◌+◌, ◌-◌, ◌*◌, ◌^◌, List, [], ◌∷◌, Bool, true, false, ◌&&◌, ◌||◌, not, Option, none, some,
  String, codes, length, ltb, leb, ◌==◌, if◌then◌else◌, ◌>>=◌,
}

-- MAX_WEBSOCKET_URL_LENGTH and MAX_WEBSOCKET_PATH_LENGTH
abbrev pub max_websocket_url_length : ℕ
max_websocket_url_length = 512

abbrev pub max_websocket_path_length : ℕ
max_websocket_path_length = 128

-- The bits of *pSslFlags.
pub record SslFlags : Type 0 where
  pub use_ssl : Bool
  pub allow_selfsigned : Bool
  pub skip_server_cert_hostname_check : Bool
  pub allow_expired : Bool

abbrev pub no_ssl : SslFlags
no_ssl = record {
  use_ssl = false;
  allow_selfsigned = false;
  skip_server_cert_hostname_check = false;
  allow_expired = false;
}

-- switch_true of the three variables of the channel.
pub record TlsVariables : Type 0 where
  pub allow_selfsigned : Bool
  pub skip_server_cert_hostname_check : Bool
  pub allow_expired : Bool

abbrev pub ssl_flags : TlsVariables → SslFlags
ssl_flags v = record {
  use_ssl = true;
  allow_selfsigned = v.allow_selfsigned;
  skip_server_cert_hostname_check = v.skip_server_cert_hostname_check;
  allow_expired = v.allow_expired;
}

-- What the scheme sets: the rest of the text, *pPort and whether the stream is encrypted.
pub record Scheme : Type 0 where
  pub others : List ℕ
  pub port : ℕ
  pub secure : Bool

-- The path is `none` where the array is left without a terminator.
pub record Address : Type 0 where
  pub host : List ℕ
  pub path : Option (List ℕ)
  pub port : ℕ
  pub flags : SslFlags

-- `strncmp(s, t, strlen(t)) == 0`, with what follows.
abbrev pub strip : List ℕ → List ℕ → Option (List ℕ)
strip [] s = some s
strip (c ∷ t) [] = none
strip (c ∷ t) (d ∷ s) = if c == d then strip t s else none

-- strncpy into an array of `n` characters; `none` if there is no room for the terminator.
abbrev pub strncpy : ℕ → List ℕ → Option (List ℕ)
strncpy n s = if ltb (length s) n then some s else none

abbrev pub or_else : Option (List ℕ) → Option (List ℕ) → Option (List ℕ)
or_else (some s) other = some s
or_else none other = other

abbrev pub scheme_of : ℕ → Bool → Option (List ℕ) → Option Scheme → Option Scheme
scheme_of port secure (some s) next = some (record { others = s; port = port; secure = secure })
scheme_of port secure none next = next

-- The schemes in upper or in lower case.
unfoldable pub read_scheme : List ℕ → Option Scheme
read_scheme s =
    scheme_of 443 true (or_else (strip (codes "https://") s) (strip (codes "HTTPS://") s)) (
      scheme_of 443 true (or_else (strip (codes "wss://") s) (strip (codes "WSS://") s)) (
        scheme_of 80 false (or_else (strip (codes "http://") s) (strip (codes "HTTP://") s))
          (scheme_of 80 false (or_else (strip (codes "ws://") s) (strip (codes "WS://") s)) none)))

abbrev pub is_digit : ℕ → Bool
is_digit c = leb b'0' c && leb c b'9'

-- What `.` does not match.
abbrev pub is_line_end : ℕ → Bool
is_line_end c = c == 10 || c == 13

abbrev pub no_line_end : List ℕ → Bool
no_line_end [] = true
no_line_end (c ∷ s) = not (is_line_end c) && no_line_end s

-- `:?`
unfoldable pub skip_colon : List ℕ → List ℕ
skip_colon [] = []
skip_colon (c ∷ s) = if c == b':' then s else c ∷ s

-- `(\d+)?` takes these, and leaves those.
unfoldable pub digits : List ℕ → List ℕ
digits [] = []
digits (c ∷ s) = if is_digit c then c ∷ digits s else []

unfoldable pub after_digits : List ℕ → List ℕ
after_digits [] = []
after_digits (c ∷ s) = if is_digit c then after_digits s else c ∷ s

-- `(/.*)?$`
unfoldable pub path_end : List ℕ → Option (List ℕ)
path_end [] = some []
path_end (c ∷ s) = if c == b'/' && no_line_end s then some (c ∷ s) else none

-- The groups of the port and of the path.
unfoldable pub after_host : List ℕ → Option (List ℕ × List ℕ)
unfolding skip_colon digits after_digits path_end
after_host s =
    let rest = skip_colon s in path_end (after_digits rest) >>= λ path. some (digits rest, path)

-- The three groups.
unfoldable pub groups : List ℕ → Option (List ℕ × List ℕ × List ℕ)
unfolding after_host
groups [] = none
groups (c ∷ s) = if is_line_end c then none else elim (after_host s) [
  | some (port, path) ↦ some (c ∷ [], port, path)
  | none ↦ groups s >>= λ (host, port, path). some (c ∷ host, port, path)
]

-- The number that a text of digits stands for.
unfoldable pub number_from : ℕ → List ℕ → ℕ
number_from n [] = n
number_from n (c ∷ s) = number_from (n * 10 + (c - b'0')) s

-- atoi of a text of digits; a number that is no `int` is undefined behaviour.
unfoldable pub atoi : List ℕ → Option ℕ
unfolding number_from
atoi s = let n = number_from 0 s in if ltb n (2 ^ 31) then some n else none

abbrev pub given_port : List ℕ → ℕ → Option ℕ
given_port [] port = some port
given_port (c ∷ s) port = atoi (c ∷ s)

abbrev pub given_path : List ℕ → Option (List ℕ)
given_path [] = some (codes "/")
given_path (c ∷ s) = strncpy max_websocket_path_length (c ∷ s)

-- `some none` is the result 0, and `none` undefined behaviour: a text without its terminator is
-- read, or the port is out of range.
unfoldable pub parse_ws_uri : TlsVariables → List ℕ → Option (Option Address)
unfolding read_scheme groups atoi
parse_ws_uri v uri = elim (read_scheme uri) [
  | none ↦ some none
  | some scheme ↦ strncpy max_websocket_url_length uri >>= λ server. elim (groups scheme.others) [
    | none ↦ some none
    | some (host, port, path) ↦ given_port port scheme.port >>= λ n. some (
        some (record {
          host = host;
          path = given_path path;
          port = n;
          flags = if scheme.secure then ssl_flags v else no_ssl;
        }))
  ]
]
