-- ===== src/Agent/OtlpHttp/Handler.antt =====
-- crates/telemetry-agent/src/otlp_http.rs: one connection, from the request to the answer. `Req s` is
-- the type of the export requests of a signal.
pub mod Served
use telemetry_fabric.Prelude.{
  ◌≡◌, true, not, List, [], ◌∷◌, ◌++◌, Option, none, some, ◌=text◌, if◌then◌else◌, length,
}
use telemetry_fabric.Prelude.Result.{Result, ok, err}
use telemetry_fabric.Std.Bytes.{Bytes}
use telemetry_fabric.Std.Text.{text}
use telemetry_fabric.Std.Decimal.{decimal}
use telemetry_fabric.Core.Telemetry.{SignalKind, trace, metric, log, TelemetryRecord}
use telemetry_fabric.Agent.Runtime.{AgentRuntime, RuntimeError, ingest}
use telemetry_fabric.Agent.OtlpHttp.{OtlpHttpRequest, is_json, read_otlp_http_request}

pub data Status : Type 0 where
  okay bad_request not_found method_not_allowed : Status

unfoldable pub status_text : Status → Bytes
status_text okay = text "200 OK"
status_text bad_request = text "400 Bad Request"
status_text not_found = text "404 Not Found"
status_text method_not_allowed = text "405 Method Not Allowed"

pub record Answer : Type 0 where
  pub status : Status
  pub content_type : Bytes
  pub body : Bytes

-- What `write_http_response` writes.
unfoldable pub write_http_response : Answer → Bytes
unfolding status_text
write_http_response answer =
    text "HTTP/1.1 "
    ++ (status_text answer.status
        ++ (text "\r\nContent-Type: "
            ++ (answer.content_type
                ++ (text "\r\nContent-Length: "
                    ++ (decimal (length answer.body)
                        ++ (text "\r\nConnection: close\r\n\r\n" ++ answer.body))))))

abbrev plain : Status → Bytes → Answer
plain status message = record { status = status; content_type = text "text/plain"; body = message }

unfoldable pub signal_of_path : Bytes → Option SignalKind
signal_of_path path =
    if path =text text "/v1/traces"
    then some trace
    else if path =text text "/v1/metrics"
    then some metric
    else if path =text text "/v1/logs"
    then some log
    else none

module _ {X : Type 0} where
  after_ingest :
      (AgentRuntime X → Result RuntimeError (Unit {0}) × AgentRuntime X)
      → Result RuntimeError (Unit {0}) × AgentRuntime X
      → Result RuntimeError (Unit {0}) × AgentRuntime X
  after_ingest more (err e, a) = (err e, a)
  after_ingest more (ok _, a) = more a

  -- `for record in records { runtime.ingest(record)?; }`
  unfoldable pub ingest_records :
      List TelemetryRecord → AgentRuntime X → Result RuntimeError (Unit {0}) × AgentRuntime X
  unfolding after_ingest
  ingest_records [] a = (ok tt, a)
  ingest_records (r ∷ records) a = after_ingest (ingest_records records) (ingest r a)

module _ {Req : SignalKind → Type 0}
    (decode_json decode_protobuf : (s : SignalKind) → Bytes → Result Bytes (Req s))
    (to_records : (s : SignalKind) → Bytes → Req s → List TelemetryRecord)
    (encode_json : SignalKind → Result Bytes Bytes) (encode_protobuf : SignalKind → Bytes)
    (tenant_id : Bytes) where
  unfoldable pub decode_otlp_http_body : (s : SignalKind) → OtlpHttpRequest → Result Bytes (Req s)
  decode_otlp_http_body s request =
      if is_json request then decode_json s request.body else decode_protobuf s request.body

  json_answer : Result Bytes Bytes → Answer
  json_answer (err message) = plain bad_request message
  json_answer (ok body) = record {
    status = okay;
    content_type = text "application/json";
    body = body;
  }

  -- `encode_otlp_http_response`, and the answer that is made of it.
  unfoldable pub encoded_answer : SignalKind → OtlpHttpRequest → Answer
  unfolding json_answer
  encoded_answer s request = if is_json request then json_answer (encode_json s) else record {
    status = okay;
    content_type = text "application/x-protobuf";
    body = encode_protobuf s;
  }

  -- A request for a signal, with the records that its body gives.
  pub record Carries (request : OtlpHttpRequest) (records : List TelemetryRecord) : Type 0 where
    pub post : (request.method =text text "POST") ≡ true
    pub signal : SignalKind
    pub path : signal_of_path request.path ≡ some signal
    pub message : Req signal
    pub decodes : decode_otlp_http_body signal request ≡ ok message
    pub same : to_records signal tenant_id message ≡ records

  module _ {X : Type 0} where
    -- `ingest_records(..).await?`: an error ends the connection with no answer.
    ingested :
        Answer
        → Result RuntimeError (Unit {0}) × AgentRuntime X
        → Result RuntimeError Answer × AgentRuntime X
    ingested answer (err e, a) = (err e, a)
    ingested answer (ok _, a) = (ok answer, a)

    decoded :
        (s : SignalKind)
        → OtlpHttpRequest
        → AgentRuntime X
        → Result Bytes (Req s)
        → Result RuntimeError Answer × AgentRuntime X
    unfolding ingested
    decoded s request a (err message) = (ok (plain bad_request message), a)
    decoded s request a (ok req) =
        ingested (encoded_answer s request) (ingest_records (to_records s tenant_id req) a)

    routed :
        OtlpHttpRequest
        → AgentRuntime X
        → Option SignalKind
        → Result RuntimeError Answer × AgentRuntime X
    unfolding decoded
    routed request a none = (ok (plain not_found (text "unknown OTLP/HTTP signal path")), a)
    routed request a (some s) = decoded s request a (decode_otlp_http_body s request)

    unfoldable pub handle_request :
        OtlpHttpRequest → AgentRuntime X → Result RuntimeError Answer × AgentRuntime X
    unfolding routed
    handle_request request a =
        if not (request.method =text text "POST")
        then (ok (plain method_not_allowed (text "method must be POST")), a)
        else routed request a (signal_of_path request.path)

    -- `handle_otlp_http`, on what the connection's reads return.
    unfoldable pub handle_otlp_http :
        List (Result Bytes Bytes) → AgentRuntime X → Result RuntimeError Answer × AgentRuntime X
    handle_otlp_http reads a = elim (read_otlp_http_request reads) [
      | err message ↦ (ok (plain bad_request message), a)
      | ok request ↦ handle_request request a
    ]
