-- ===== src/Uri/Tests.antt =====
-- Addresses that parse_ws_uri of src/lws_glue.cpp reads.
use mod_audio_stream.Common.{◌≡◌, refl, true, false, none, some, codes, arith, decimal}
use mod_audio_stream.Uri.{parse_ws_uri, number_from, TlsVariables, ssl_flags, no_ssl}
use mod_audio_stream.Uri.Parsing.{Url, text, wss, ws, parse_ws_uri-text}
use mod_audio_stream.Uri.Digits.{parse_ws_uri-digits_fault}

abbrev plain : TlsVariables
plain = record {
  allow_selfsigned = false;
  skip_server_cert_hostname_check = false;
  allow_expired = true;
}

abbrev server : Url
server = record {
  scheme = wss;
  upper_case = false;
  host = codes "media.example.org";
  port = some 8443;
  path = codes "/v1/stream";
}

parse_ws_uri-text_example :
    parse_ws_uri plain (text server)
    ≡ some (
        some (record {
          host = codes "media.example.org";
          path = some (codes "/v1/stream");
          port = 8443;
          flags = ssl_flags plain;
        }))
unfolding decimal
parse_ws_uri-text_example = parse_ws_uri-text plain server (record {
  named = ground arith;
  authority = omega arith;
  path = ground arith;
  short = omega arith;
  short_path = omega arith;
})

-- An address of version 4.
parse_ws_uri-digits_fault_example :
    parse_ws_uri plain (codes "ws://10.0.0.17/in")
    ≡ some (
        some
          (record { host = codes "10.0.0."; path = some (codes "/in"); port = 17; flags = no_ssl }))
unfolding number_from
parse_ws_uri-digits_fault_example =
    parse_ws_uri-digits_fault plain ws false (codes "10.0.0.") (codes "17") (codes "/in")
      (ground arith) refl (ground arith) (omega arith) (omega arith) (refl, refl) (omega arith)
      (omega arith)

no_scheme : parse_ws_uri plain (codes "ftp://example.org") ≡ some none
unfolding parse_ws_uri
no_scheme = refl
