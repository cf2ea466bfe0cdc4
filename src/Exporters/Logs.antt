-- ===== src/Exporters/Logs.antt =====
-- `record_to_log_record`, `batch_to_logs_request` and `count_log_records`.
use telemetry_fabric.Prelude.{ℕ, List, [], ◌∷◌, map, some, unwrap_or}
use telemetry_fabric.Std.Text.{text}
use telemetry_fabric.Std.Lines.{from_utf8_lossy}
use telemetry_fabric.Std.Signed.{pos}
use telemetry_fabric.Core.Telemetry.{TelemetryRecord, SignalKind}
use telemetry_fabric.Exporters.Attributes.{
  find_attribute, and_then, parse_u32, parse_u64_attribute, parse_i32_attribute,
  record_to_log_attributes, record_to_resource_attributes, record_scope,
}
use telemetry_fabric.Exporters.Spans.{record_time, id_attribute, of_signal, count_request}
use telemetry_fabric.Otlp.Messages.{LogRecord, string_value, Resourced}

module _ {F : Type 0} where
  -- `SeverityNumber::Unspecified` is 0.
  unfoldable pub record_to_log_record : TelemetryRecord → LogRecord F
  unfolding id_attribute and_then parse_u32 parse_i32_attribute parse_u64_attribute
      record_to_log_attributes
  record_to_log_record r = record {
    time_unix_nano =
        unwrap_or (parse_u64_attribute r (text "otel.log.time_unix_nano")) (record_time r);
    observed_time_unix_nano =
        unwrap_or (parse_u64_attribute r (text "otel.log.observed_time_unix_nano")) (record_time r);
    severity_number = unwrap_or (parse_i32_attribute r (text "otel.log.severity_number")) (pos 0);
    severity_text = unwrap_or (find_attribute r (text "otel.log.severity_text")) [];
    body = some (string_value (from_utf8_lossy r.body));
    attributes = record_to_log_attributes r;
    dropped_attributes_count = 0;
    flags = unwrap_or (and_then (find_attribute r (text "otel.log.flags")) parse_u32) 0;
    trace_id = unwrap_or (id_attribute r (text "otel.trace_id") 16) [];
    span_id = unwrap_or (id_attribute r (text "otel.span_id") 8) [];
    event_name = unwrap_or (find_attribute r (text "otel.log.event_name")) [];
  }

  unfoldable pub record_to_resource_log : TelemetryRecord → Resourced F (LogRecord F)
  unfolding record_to_log_record record_scope record_to_resource_attributes
  record_to_resource_log r = record {
    resource = some (record_to_resource_attributes r);
    scopes = record { scope = record_scope r; items = record_to_log_record r ∷ [] } ∷ [];
  }

  -- `filter_map` on a function that always gives a message.
  unfoldable pub batch_to_logs_request : List TelemetryRecord → List (Resourced F (LogRecord F))
  unfolding record_to_resource_log of_signal
  batch_to_logs_request records = map record_to_resource_log (of_signal SignalKind.log records)

unfoldable pub count_log_records : {F : Type 0} → List (Resourced F (LogRecord F)) → ℕ
unfolding count_request
count_log_records = count_request λ l. 1
