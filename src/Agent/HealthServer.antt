-- ===== src/Agent/HealthServer.antt =====
-- crates/telemetry-agent/src/main.rs: the answers of the health endpoint. `health` and
-- `prometheus_metrics` of the model do not fail, so that the answers 503 do not occur.
use telemetry_fabric.Prelude.{
  ◌++◌, ◌∷◌, [], Option, none, some, ◌=text◌, if◌then◌else◌, length, unwrap_or, ◌≡◌, refl,
}
use telemetry_fabric.Std.Bytes.{Bytes}
use telemetry_fabric.Std.Text.{text}
use telemetry_fabric.Std.Decimal.{decimal}
use telemetry_fabric.Std.Lines.{lines, nth, split_whitespace, space_width, from_utf8_lossy}
use telemetry_fabric.Agent.Runtime.{AgentRuntime, RuntimeHealth, health, prometheus_metrics}

second_word : Option Bytes → Option Bytes
second_word none = none
second_word (some line) = nth 1 (split_whitespace line)

unfoldable pub parse_request_path : Bytes → Option Bytes
unfolding second_word
parse_request_path request = second_word (nth 0 (lines request))

-- `read_request_path`, on what the one read returned.
unfoldable pub read_request_path : Bytes → Option Bytes
read_request_path [] = none
read_request_path (b ∷ bytes) = parse_request_path (from_utf8_lossy (b ∷ bytes))

unfoldable pub health_body : RuntimeHealth → Bytes
health_body h =
    text "{\"status\":\"ok\",\"queued_bytes\":"
    ++ (decimal h.queued_bytes
        ++ (text ",\"cursor_segment_id\":"
            ++ (decimal h.cursor_segment_id
                ++ (text ",\"cursor_offset\":"
                    ++ (decimal h.cursor_offset
                        ++ (text ",\"exports_paused\":"
                            ++ ((if h.exports_paused then text "true" else text "false")
                                ++ (125 ∷ []))))))))

unfoldable pub handle_health : {X : Type 0} → Bytes → AgentRuntime X → Bytes
handle_health bytes a =
    let path = unwrap_or (read_request_path bytes) (text "/") in
    let is_metrics = path =text text "/metrics" in
    let body = if is_metrics then prometheus_metrics a else health_body (health a) in
    text "HTTP/1.1 200 OK\r\nContent-Type: "
    ++ ((if is_metrics then text "text/plain; version=0.0.4" else text "application/json")
        ++ (text "\r\nContent-Length: "
            ++ (decimal (length body) ++ (text "\r\nConnection: close\r\n\r\n" ++ body))))

metrics_path :
    parse_request_path (text "GET /metrics HTTP/1.1\r\nHost: localhost\r\n\r\n")
    ≡ some (text "/metrics")
unfolding parse_request_path text lines split_whitespace space_width
metrics_path = refl
