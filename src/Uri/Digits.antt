-- ===== src/Uri/Digits.antt =====
-- A host that ends in a digit, in parse_ws_uri of src/lws_glue.cpp.
use mod_audio_stream.Common.{
  ℕ, ◌^◌, ◌<◌, ◌≡◌, refl, ap, ◌∙◌, List, [], ◌∷◌, ◌++◌, Bool, true, some, length, if◌then◌else◌,
  arith, append_assoc,
}
use mod_audio_stream.Uri.{
  parse_ws_uri, skip_colon, groups, number_from, max_websocket_path_length,
  max_websocket_url_length, TlsVariables, ssl_flags, no_ssl,
}
use mod_audio_stream.Uri.Groups.{
  IsName, AllDigits, ends_in_letter, IsPath, letter-Stuck, groups-host, after_host-digits,
}
use mod_audio_stream.Uri.Ports.{given_port-number}
use mod_audio_stream.Uri.Parsing.{SchemeName, scheme_text, is_secure, path_or_slash, parse-groups}

-- No digit is a colon.
skip_colon-digits :
    (d path : List ℕ) → AllDigits d → 0 < length d → skip_colon (d ++ path) ≡ d ++ path
unfolding skip_colon
skip_colon-digits [] path a l = absurd (omega (arith, l))
skip_colon-digits (c ∷ d) path a l = ground arith

groups-digits :
    (host d path : List ℕ)
    → IsName host
    → ends_in_letter host ≡ true
    → AllDigits d
    → 0 < length d
    → IsPath path
    → groups (host ++ (d ++ path)) ≡ some (host, d, path)
groups-digits [] d path h e a l p = cc
groups-digits (c ∷ s) d path h e a l p =
    groups-host c s (d ++ path) d path h (letter-Stuck (c ∷ s) (d ++ path) h e).1
      (after_host-digits (d ++ path) d path (skip_colon-digits d path a l) a p)

-- An address with no port whose host ends in digits behind a character that is no digit (colons,
-- slashes and line ends apart), as an address of version 4 does: parse_ws_uri takes these digits,
-- if their number is below 2^31, for the port, and what stands before them for the host.
pub parse_ws_uri-digits_fault :
    (v : TlsVariables) (k : SchemeName) (upper : Bool) (host d path : List ℕ)
    → IsName host
    → ends_in_letter host ≡ true
    → AllDigits d
    → 0 < length d
    → number_from 0 d < 2 ^ 31
    → IsPath path
    → length path < max_websocket_path_length
    → length (scheme_text k upper ++ ((host ++ d) ++ path)) < max_websocket_url_length
    → parse_ws_uri v (scheme_text k upper ++ ((host ++ d) ++ path))
      ≡ some (
          some (record {
            host = host;
            path = some (path_or_slash path);
            port = number_from 0 d;
            flags = if is_secure k then ssl_flags v else no_ssl;
          }))
parse_ws_uri-digits_fault v k upper host d path h e a l small p lp short =
    parse-groups v (scheme_text k upper ++ ((host ++ d) ++ path)) k upper ((host ++ d) ++ path) host
      d path (number_from 0 d) refl short
      (ap groups (append_assoc host d path) ∙ groups-digits host d path h e a l p)
      (given_port-number d (number_from 0 d) _ l refl small) lp
