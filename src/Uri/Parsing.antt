-- ===== src/Uri/Parsing.antt =====
-- That parse_ws_uri of src/lws_glue.cpp reads an address back.
use mod_audio_stream.Common.{
  ℕ, ◌^◌, ◌<◌, ◌≡◌, refl, ap, ◌∙◌, List, [], ◌∷◌, ◌++◌, Bool, true, false, Option, none, some,
  codes, length, ltb, if◌then◌else◌, arith, decimal,
}
use mod_audio_stream.Uri.{
  parse_ws_uri, read_scheme, skip_colon, digits, groups, given_port, given_path,
  max_websocket_path_length, max_websocket_url_length, TlsVariables, ssl_flags, no_ssl,
}
use mod_audio_stream.Uri.Groups.{
  IsName, ends_in_letter, IsPath, letter-Stuck, colon-Stuck, groups-host, after_host-digits,
  skip_colon-path,
}
use mod_audio_stream.Uri.Ports.{decimal-number, length-decimal_pos, given_port-number}

-- The schemes, in lower or upper case.
pub data SchemeName : Type 0 where
  https wss http ws : SchemeName

abbrev pub scheme_text : SchemeName → Bool → List ℕ
scheme_text https false = codes "https://"
scheme_text https true = codes "HTTPS://"
scheme_text wss false = codes "wss://"
scheme_text wss true = codes "WSS://"
scheme_text http false = codes "http://"
scheme_text http true = codes "HTTP://"
scheme_text ws false = codes "ws://"
scheme_text ws true = codes "WS://"

abbrev pub is_secure : SchemeName → Bool
is_secure https = true
is_secure wss = true
is_secure _ = false

abbrev pub default_port : SchemeName → ℕ
default_port s = if is_secure s then 443 else 80

abbrev pub port_text : Option ℕ → List ℕ
port_text none = []
port_text (some n) = b':' ∷ decimal n

read_scheme-text :
    (k : SchemeName) (upper : Bool) (s : List ℕ)
    → read_scheme (scheme_text k upper ++ s)
      ≡ some (record { others = s; port = default_port k; secure = is_secure k })
unfolding read_scheme
read_scheme-text https false s = refl
read_scheme-text https true s = refl
read_scheme-text wss false s = refl
read_scheme-text wss true s = refl
read_scheme-text http false s = refl
read_scheme-text http true s = refl
read_scheme-text ws false s = refl
read_scheme-text ws true s = refl

-- What an address is written from.
pub record Url : Type 0 where
  pub scheme : SchemeName
  pub upper_case : Bool
  pub host : List ℕ
  pub port : Option ℕ
  pub path : List ℕ

abbrev pub text : Url → List ℕ
text u = scheme_text u.scheme u.upper_case ++ (u.host ++ (port_text u.port ++ u.path))

-- A host in front of no port ends in a letter, and a port is an `int`.
abbrev pub IsAuthority : List ℕ → Option ℕ → Type 0
IsAuthority host none = ends_in_letter host ≡ true
IsAuthority host (some n) = (0 < length host) × (n < 2 ^ 31)

pub record IsUrl (u : Url) : Type 0 where
  pub named : IsName u.host
  pub authority : IsAuthority u.host u.port
  pub path : IsPath u.path
  pub short : length (text u) < max_websocket_url_length
  pub short_path : length u.path < max_websocket_path_length

abbrev pub path_or_slash : List ℕ → List ℕ
path_or_slash [] = codes "/"
path_or_slash (c ∷ s) = c ∷ s

pub port_digits : Option ℕ → List ℕ
port_digits none = []
port_digits (some n) = decimal n

groups-text :
    (host : List ℕ) (port : Option ℕ) (path : List ℕ)
    → IsName host
    → IsAuthority host port
    → IsPath path
    → groups (host ++ (port_text port ++ path)) ≡ some (host, port_digits port, path)
unfolding port_digits skip_colon
groups-text [] none path h a p = cc
groups-text [] (some n) path h a p = absurd (omega (arith, a.0))
groups-text (c ∷ s) none path h a p =
    groups-host c s path [] path h (letter-Stuck (c ∷ s) path h a).1
      (after_host-digits path [] path (skip_colon-path path p) tt p)
groups-text (c ∷ s) (some n) path h a p =
    groups-host c s (b':' ∷ (decimal n ++ path)) (decimal n) path h (colon-Stuck s _ h.1) (
      after_host-digits (b':' ∷ (decimal n ++ path)) (decimal n) path refl (decimal-number n a.1).1
        p)

abbrev pub port_or_default : SchemeName → Option ℕ → ℕ
port_or_default k none = default_port k
port_or_default k (some n) = n

given_port-digits :
    (k : SchemeName) (host : List ℕ) (port : Option ℕ)
    → IsAuthority host port
    → given_port (port_digits port) (default_port k) ≡ some (port_or_default k port)
unfolding port_digits
given_port-digits k host none a = refl
given_port-digits k host (some n) a =
    given_port-number (decimal n) n (default_port k) (length-decimal_pos n) (decimal-number n a.1).0
      a.1

given_path-short :
    (path : List ℕ)
    → length path < max_websocket_path_length
    → given_path path ≡ some (path_or_slash path)
given_path-short [] h = refl
given_path-short (c ∷ s) h = ground arith

-- The text of what parse_ws_uri does after the scheme.
pub parse-groups :
    (v : TlsVariables) (uri : List ℕ) (k : SchemeName) (upper : Bool) (others : List ℕ)
    (host digits path : List ℕ) (n : ℕ)
    → uri ≡ scheme_text k upper ++ others
    → length uri < max_websocket_url_length
    → groups others ≡ some (host, digits, path)
    → given_port digits (default_port k) ≡ some n
    → length path < max_websocket_path_length
    → parse_ws_uri v uri
      ≡ some (
          some (record {
            host = host;
            path = some (path_or_slash path);
            port = n;
            flags = if is_secure k then ssl_flags v else no_ssl;
          }))
unfolding parse_ws_uri
parse-groups v uri k upper others host digits path n u short g p l =
    let r = ap read_scheme u ∙ read_scheme-text k upper others in
    let room : ltb (length uri) max_websocket_url_length ≡ true = ground arith in
    let q = given_path-short path l in rw (r, room) (rw (g, p) (rw q))

-- The text of an address, of fewer than 512 characters, with any of the four schemes in lower or
-- upper case, a host without colons, slashes and line ends, a port below 2^31 or, behind a host
-- that ends in no digit, none, and a path of fewer than 128 characters on one line, or none:
-- parse_ws_uri gives back the host, the path (a slash for none), the port or that of the scheme,
-- and the flags.
pub parse_ws_uri-text :
    (v : TlsVariables) (u : Url)
    → IsUrl u
    → parse_ws_uri v (text u)
      ≡ some (
          some (record {
            host = u.host;
            path = some (path_or_slash u.path);
            port = port_or_default u.scheme u.port;
            flags = if is_secure u.scheme then ssl_flags v else no_ssl;
          }))
parse_ws_uri-text v u i =
    parse-groups v (text u) u.scheme u.upper_case _ u.host (port_digits u.port) u.path _ refl
      i.short (groups-text u.host u.port u.path i.named i.authority i.path)
      (given_port-digits u.scheme u.host u.port i.authority) i.short_path
