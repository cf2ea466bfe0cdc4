-- ===== src/Agent/OtlpHttp.antt =====
-- crates/telemetry-agent/src/otlp_http.rs: the OTLP/HTTP receiver. The bodies are decoded and the
-- answers encoded by `prost` and `serde_json`, and records are made by crates/telemetry-otlp: all
-- three are parameters. A connection is the list of what its reads return.
pub mod Framing
pub mod Handler
use telemetry_fabric.Prelude.{
  ℕ, ◌+◌, Bool, true, false, List, [], ◌∷◌, ◌++◌, Option, none, some, suc, ltb, if◌then◌else◌,
  length, take, drop,
}
use telemetry_fabric.Prelude.Result.{Result, ok, err, ◌>>=◌, ◌>>◌, fail_if}
use telemetry_fabric.Prelude.Words.{u64_max}
use telemetry_fabric.Std.Bytes.{Bytes}
use telemetry_fabric.Std.Text.{text}
use telemetry_fabric.Std.Decimal.{parse_int, ok_or}
use telemetry_fabric.Std.Lines.{
  blank_line, nth, starts_with, split_whitespace, trim, split_once, lines, eq_ignore_ascii_case,
  from_utf8_lossy,
}

abbrev pub max_otlp_http_body_bytes : ℕ
max_otlp_http_body_bytes = 16777216

pub record OtlpHttpRequest : Type 0 where
  pub method : Bytes
  pub path : Bytes
  pub content_type : Option Bytes
  pub body : Bytes

-- `value.split(';').next()`
unfoldable pub mime_of : Bytes → Bytes
mime_of value = elim (split_once 59 value) [ none ↦ value | some (mime, rest) ↦ mime ]

unfoldable pub is_json : OtlpHttpRequest → Bool
unfolding mime_of
is_json request = elim request.content_type [
  | none ↦ false
  | some value ↦ eq_ignore_ascii_case (trim (mime_of value)) (text "application/json")
]

abbrev pub later : Option ℕ → Option ℕ
later none = none
later (some i) = some (suc i)

-- `buffer.windows(4).position(..)`
unfoldable pub find_header_end : Bytes → Option ℕ
find_header_end [] = none
find_header_end (b ∷ buffer) =
    let rest = find_header_end buffer in
    if starts_with blank_line (b ∷ buffer) then some 0 else later rest

-- `name.eq_ignore_ascii_case(expected_name).then(..)` for a line that splits.
header_value : Bytes → Option (Bytes × Bytes) → Option Bytes
header_value expected_name none = none
header_value expected_name (some (name, value)) =
    if eq_ignore_ascii_case name expected_name then some (trim value) else none

abbrev first_some : Option Bytes → Option Bytes → Option Bytes
first_some (some value) other = some value
first_some none other = other

unfoldable pub find_header : Bytes → List Bytes → Option Bytes
unfolding header_value
find_header expected_name [] = none
find_header expected_name (line ∷ rest) =
    first_some (header_value expected_name (split_once 58 line)) (find_header expected_name rest)

unfoldable pub parse_header_value : Bytes → Bytes → Option Bytes
parse_header_value headers expected_name = find_header expected_name (lines headers)

parsed_length : Option Bytes → Result Bytes ℕ
parsed_length none = err (text "missing Content-Length")
parsed_length (some value) = parse_int u64_max value

unfoldable pub parse_content_length : Bytes → Result Bytes ℕ
unfolding parsed_length
parse_content_length headers = parsed_length (parse_header_value headers (text "content-length"))

-- The request but for its body, and the length of that.
unfoldable pub parse_head : Bytes → Result Bytes (OtlpHttpRequest × ℕ)
parse_head headers = do
  line ← ok_or (nth 0 (lines headers)) (text "missing HTTP request line")
  method ← ok_or (nth 0 (split_whitespace line)) (text "missing HTTP method")
  path ← ok_or (nth 1 (split_whitespace line)) (text "missing HTTP request path")
  content_length ← parse_content_length headers
  fail_if (ltb max_otlp_http_body_bytes content_length)
      (text "OTLP/HTTP request exceeds maximum body size")
  ok (
    record {
      method = method;
      path = path;
      content_type = parse_header_value headers (text "content-type");
      body = [];
    },
    content_length,
  )

-- `None` where the body is not all there.
unfoldable pub take_body : ℕ → Bytes → OtlpHttpRequest × ℕ → Option OtlpHttpRequest
take_body header_end buffer (head, content_length) =
    if ltb (length buffer) (header_end + 4 + content_length)
    then none
    else some (record head { body = take content_length (drop (header_end + 4) buffer) })

parse_from : Bytes → Option ℕ → Result Bytes (Option OtlpHttpRequest)
parse_from buffer none = ok none
parse_from buffer (some header_end) = do
  head ← parse_head (from_utf8_lossy (take header_end buffer))
  ok (take_body header_end buffer head)

unfoldable pub parse_buffered_http_request : Bytes → Result Bytes (Option OtlpHttpRequest)
unfolding parse_from
parse_buffered_http_request buffer = parse_from buffer (find_header_end buffer)

ended_early : Bytes
ended_early = text "OTLP/HTTP request ended before full body"

-- What follows a read that gave bytes.
after_read :
    Bytes
    → (Bytes → Result Bytes OtlpHttpRequest)
    → Result Bytes (Option OtlpHttpRequest)
    → Result Bytes OtlpHttpRequest
after_read buffer more (err e) = err e
after_read buffer more (ok (some request)) = ok request
after_read buffer more (ok none) = elim (ltb max_otlp_http_body_bytes (length buffer)) [
  | true ↦ err (text "OTLP/HTTP request exceeds maximum body size")
  | false ↦ more buffer
]

-- The loop: a read fails, ends the stream with no bytes, or gives bytes.
unfoldable pub read_loop : List (Result Bytes Bytes) → Bytes → Result Bytes OtlpHttpRequest
unfolding after_read ended_early
read_loop [] buffer = err ended_early
read_loop (err e ∷ reads) buffer = err e
read_loop (ok [] ∷ reads) buffer = err ended_early
read_loop (ok (b ∷ chunk) ∷ reads) buffer =
    let full = buffer ++ (b ∷ chunk) in
    after_read full (read_loop reads) (parse_buffered_http_request full)

unfoldable pub read_otlp_http_request : List (Result Bytes Bytes) → Result Bytes OtlpHttpRequest
unfolding read_loop
read_otlp_http_request reads = read_loop reads []
