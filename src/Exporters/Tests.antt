-- ===== src/Exporters/Tests.antt =====
-- The exporters' encodings at concrete inputs.
use telemetry_fabric.Prelude.{
  length, true, false, ◌=text◌, ◌≡◌, refl, [], ◌∷◌, some, none, if◌then◌else◌, arith, ◌≤◌,
}
use telemetry_fabric.Exporters.Sanitize.{
  IsName, sanitize_prometheus_identifier, sanitize_prometheus_identifier-IsName,
}
use telemetry_fabric.Exporters.Http.{parse_http_endpoint_with_default_port, parse_http_authority}
use telemetry_fabric.Exporters.Http.Accepted.{parse_http_endpoint-IsAddress}
use telemetry_fabric.Std.Lines.{trim, space_width, strip_prefix, is_empty, split_once, rsplit_once}
use telemetry_fabric.Std.Decimal.{parse_int, parse_u64}
use telemetry_fabric.Prelude.Result.{ok}
use telemetry_fabric.Exporters.Snappy.{snappy_compress_literal}
use telemetry_fabric.Exporters.Snappy.RoundTrip.{
  snappy_decompress, snappy_decompress-snappy_compress_literal,
}
use telemetry_fabric.Std.Text.{text, ends_with}
use telemetry_fabric.Exporters.Ids.{fallback_id, fallback_id-valid}
use telemetry_fabric.Exporters.Endpoint.{
  HttpEndpoint, HttpScheme, request_path, request_path-ends, trim_end_slashes, trim_start_slashes,
}
use telemetry_fabric.Exporters.Hex.{
  hex_encode, hex_decode_fixed, all_zero, hex_decode_fixed-hex_encode,
}

hex_decode_fixed-hex_encode_example :
    hex_decode_fixed (hex_encode (0 ∷ 171 ∷ [])) 2
    ≡ (if all_zero (0 ∷ 171 ∷ []) then none else some (0 ∷ 171 ∷ []))
hex_decode_fixed-hex_encode_example = hex_decode_fixed-hex_encode (0 ∷ 171 ∷ []) (omega arith)

hex_test : hex_encode (0 ∷ 171 ∷ []) ≡ 48 ∷ 48 ∷ 97 ∷ 98 ∷ []
unfolding hex_encode
hex_test = refl

snappy_decompress-snappy_compress_literal_example :
    snappy_decompress (snappy_compress_literal (7 ∷ 7 ∷ 9 ∷ [])) ≡ some (7 ∷ 7 ∷ 9 ∷ [])
snappy_decompress-snappy_compress_literal_example =
    snappy_decompress-snappy_compress_literal (7 ∷ 7 ∷ 9 ∷ []) (omega arith)

fallback_id-valid_example :
    (length (fallback_id (1 ∷ 2 ∷ []) 8) ≡ 8) × (all_zero (fallback_id (1 ∷ 2 ∷ []) 8) ≡ false)
fallback_id-valid_example = fallback_id-valid (1 ∷ 2 ∷ []) 8 (omega arith)

abbrev collector : HttpEndpoint
collector = record {
  scheme = HttpScheme.http;
  host = text "collector";
  port = 4318;
  base_path = text "/otlp";
}

request_path-ends_example :
    ends_with (request_path collector (text "/v1/logs")) (text "/v1/logs") ≡ true
unfolding text
request_path-ends_example = request_path-ends collector 118 (text "1/logs") (omega arith)

-- The base path comes first.
request_path_run : request_path collector (text "/v1/logs") ≡ text "/otlp/v1/logs"
unfolding request_path trim_end_slashes trim_start_slashes ends_with text ◌=text◌
request_path_run = refl

sanitize_prometheus_identifier-IsName_example :
    IsName false (sanitize_prometheus_identifier (text "9a:b") false)
sanitize_prometheus_identifier-IsName_example =
    sanitize_prometheus_identifier-IsName (text "9a:b") false

abbrev gateway : HttpEndpoint
gateway = record { scheme = HttpScheme.https; host = text "c"; port = 9000; base_path = text "/v1" }

gateway-parsed :
    parse_http_endpoint_with_default_port (text " https://c:9000/v1/ ") 4318 ≡ ok gateway
unfolding parse_http_endpoint_with_default_port parse_http_authority text trim space_width
    strip_prefix is_empty split_once rsplit_once trim_end_slashes trim_start_slashes ◌=text◌
    parse_int parse_u64
gateway-parsed = refl

parse_http_endpoint-IsAddress_example :
    (is_empty (trim gateway.host) ≡ false) × (gateway.port ≤ 65535)
parse_http_endpoint-IsAddress_example =
    parse_http_endpoint-IsAddress (text " https://c:9000/v1/ ") 4318 gateway (omega arith)
      gateway-parsed
