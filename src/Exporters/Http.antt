-- ===== src/Exporters/Http.antt =====
-- Endpoints of HTTP exporters, the request that `post_body` writes, the status of the answer, and the
-- lines of the stdout and file exporters.
pub mod Accepted
use telemetry_fabric.Prelude.{
  ℕ, ◌||◌, List, [], ◌∷◌, ◌++◌, Option, none, some, ltb, not, if◌then◌else◌, length, unwrap_or,
  ◌=text◌,
}
use telemetry_fabric.Prelude.Words.{u16_max}
use telemetry_fabric.Prelude.Result.{Result, ok, err, ◌>>=◌, ◌>>◌, fail_if, map_err}
use telemetry_fabric.Std.Bytes.{Bytes}
use telemetry_fabric.Std.Text.{text}
use telemetry_fabric.Std.Decimal.{decimal, parse_int}
use telemetry_fabric.Std.Lines.{
  strip_prefix, starts_with, trim, is_empty, split_once, rsplit_once, lines, nth, split_whitespace,
  from_utf8_lossy,
}
use telemetry_fabric.Core.Telemetry.{TelemetryRecord, as_str}
use telemetry_fabric.Exporters.Error.{ExporterError, grpc, invalid_endpoint}
use telemetry_fabric.Exporters.Endpoint.{
  HttpScheme, http, https, HttpEndpoint, trim_end_slashes, trim_start_slashes,
}

scheme_of : Bytes → HttpScheme × Bytes
scheme_of endpoint = elim (strip_prefix (text "https://") endpoint) [
  | some rest ↦ (https, rest)
  | none ↦ (http, unwrap_or (strip_prefix (text "http://") endpoint) endpoint)
]

-- `split_once('/')`, and the path with one slash in front.
authority_and_path : Bytes → Bytes × Bytes
authority_and_path s = elim (split_once 47 s) [
  | none ↦ (s, [])
  | some (authority, path) ↦ (authority, 47 ∷ trim_end_slashes (trim_start_slashes path))
]

unfoldable pub parse_http_authority : Bytes → ℕ → Result ExporterError (Bytes × ℕ)
parse_http_authority authority default_port = elim (rsplit_once 58 authority) [
  | none ↦ ok (authority, default_port)
  | some (host, port) ↦
      fail_if (is_empty (trim host)) (invalid_endpoint authority)
      >> (map_err (λ e. invalid_endpoint authority) (parse_int u16_max port) >>= λ number.
          ok (host, number))
]

unfoldable pub parse_http_endpoint_with_default_port : Bytes → ℕ → Result ExporterError HttpEndpoint
unfolding scheme_of authority_and_path
parse_http_endpoint_with_default_port endpoint default_port = do
  let trimmed = trim endpoint
  fail_if (is_empty trimmed) (invalid_endpoint trimmed)
  let parts = scheme_of trimmed
  let split = authority_and_path parts.1
  fail_if (is_empty (trim split.0)) (invalid_endpoint trimmed)
  host_port ← parse_http_authority split.0 default_port
  ok (record {
    scheme = parts.0;
    host = host_port.0;
    port = host_port.1;
    base_path = if split.1 =text (47 ∷ []) then [] else split.1;
  })

unfoldable pub parse_http_endpoint : Bytes → Result ExporterError HttpEndpoint
parse_http_endpoint endpoint = parse_http_endpoint_with_default_port endpoint 4318

header_lines : List (Bytes × Bytes) → Bytes
header_lines [] = []
header_lines ((name, value) ∷ headers) =
    name ++ (text ": " ++ (value ++ (13 ∷ 10 ∷ header_lines headers)))

-- What `post_body` writes.
unfoldable pub post_request : HttpEndpoint → Bytes → Bytes → Bytes → List (Bytes × Bytes) → Bytes
unfolding header_lines
post_request endpoint path content_type body extra_headers =
    text "POST "
    ++ (path
        ++ (text " HTTP/1.1\r\nHost: "
            ++ (endpoint.host
                ++ (58
                    ∷ (decimal endpoint.port
                        ++ (text "\r\nContent-Type: "
                            ++ (content_type
                                ++ (text "\r\n"
                                    ++ (header_lines extra_headers
                                        ++ (text "Content-Length: "
                                            ++ (decimal (length body)
                                                ++ (text "\r\nConnection: close\r\n\r\n"
                                                    ++ body))))))))))))

need : Option Bytes → Bytes → Result ExporterError Bytes
need none message = err (grpc message)
need (some word) message = ok word

unfoldable pub parse_http_status : Bytes → Result ExporterError ℕ
unfolding need
parse_http_status response = do
  line ←
      need (nth 0 (lines (from_utf8_lossy response)))
        (text "OTLP/HTTP response did not include a status line")
  version ←
      need (nth 0 (split_whitespace line)) (text "OTLP/HTTP response status line was incomplete")
  status ←
      need (nth 1 (split_whitespace line)) (text "OTLP/HTTP response status line was incomplete")
  map_err (λ e. grpc (text "invalid OTLP/HTTP status code: " ++ status)) (parse_int u16_max status)

-- What `post_body` makes of the answer.
unfoldable pub check_response : Bytes → Result ExporterError (Unit {0})
check_response response = do
  status ← parse_http_status response
  fail_if (ltb status 200 || not (ltb status 300))
      (grpc (text "OTLP/HTTP export failed with HTTP status " ++ decimal status))

unfoldable pub normalize_grpc_endpoint : Bytes → Result ExporterError Bytes
normalize_grpc_endpoint endpoint =
    let trimmed = trim endpoint in
    if is_empty trimmed
    then err (invalid_endpoint trimmed)
    else if starts_with (text "http://") trimmed || starts_with (text "https://") trimmed
    then ok trimmed
    else ok (text "http://" ++ trimmed)

unfoldable pub endpoint_to_path : Bytes → Result ExporterError Bytes
endpoint_to_path endpoint = elim (strip_prefix (text "file://") endpoint) [
  | some path ↦ if is_empty (trim path) then err (invalid_endpoint endpoint) else ok path
  | none ↦ if is_empty (trim endpoint) then err (invalid_endpoint endpoint) else ok endpoint
]

unfoldable pub format_record : TelemetryRecord → Bytes
format_record r =
    text "tenant="
    ++ (r.tenant_id
        ++ (text " signal="
            ++ (as_str r.signal
                ++ (text " attrs="
                    ++ (decimal (length r.attributes)
                        ++ (text " bytes=" ++ decimal (length r.body)))))))
