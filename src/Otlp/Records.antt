-- ===== src/Otlp/Records.antt =====
-- `span_to_record` and `log_record_to_record`. Each takes the clock that `TelemetryRecord::new`
-- reads as its last argument.
use telemetry_fabric.Prelude.{ℕ, List, [], ◌∷◌, Option, none, some, if◌then◌else◌}
use telemetry_fabric.Std.Bytes.{Bytes}
use telemetry_fabric.Std.Text.{text, is_blank}
use telemetry_fabric.Std.Decimal.{decimal}
use telemetry_fabric.Std.Signed.{print_int}
use telemetry_fabric.Core.Telemetry.{
  Attribute, TelemetryRecord, SignalKind, new_record, with_attribute,
}
use telemetry_fabric.Exporters.Hex.{hex_encode}
use telemetry_fabric.Otlp.Messages.{Floats, Span, LogRecord, AnyValue}
use telemetry_fabric.Otlp.Values.{any_value_to_string, attributes_from_key_values}

-- `record.with_attribute(key, value)`
infixl 20 ◌&◌
unfoldable pub ◌&◌ : TelemetryRecord → Bytes × Bytes → TelemetryRecord
unfolding with_attribute
r & (key, value) = with_attribute r key value

-- The loops that add one attribute after another.
unfoldable pub with_attributes : TelemetryRecord → List Attribute → TelemetryRecord
unfolding with_attribute
with_attributes r [] = r
with_attributes r (attribute ∷ rest) =
    with_attributes (with_attribute r attribute.key attribute.value) rest

-- `if !value.is_empty()`
unfoldable pub with_nonempty : TelemetryRecord → Bytes → Bytes → TelemetryRecord
unfolding ◌&◌
with_nonempty r key [] = r
with_nonempty r key (b ∷ value) = r & (key, b ∷ value)

unfoldable pub span_base : Option ℕ → Bytes → {F : Type 0} → Span F → TelemetryRecord
unfolding ◌&◌
span_base now tenant_id span =
    new_record now tenant_id SignalKind.trace span.name
    & (text "otel.signal", text "trace")
    & (text "otel.span.name", span.name)
    & (text "otel.trace_id", hex_encode span.trace_id)
    & (text "otel.span_id", hex_encode span.span_id)
    & (text "otel.parent_span_id", hex_encode span.parent_span_id)
    & (text "otel.span.kind", print_int span.kind)
    & (text "otel.start_unix_nano", decimal span.start_time_unix_nano)
    & (text "otel.end_unix_nano", decimal span.end_time_unix_nano)

-- What the body of a log record says, unless it is missing or blank.
unfoldable pub body_or : Option Bytes → Bytes → Bytes
body_or none event_name = event_name
body_or (some value) event_name = if is_blank value then event_name else value

module _ (fl : Floats) where
  unfoldable pub span_to_record :
      Bytes → List Attribute → Bytes → Span fl.F → Option ℕ → TelemetryRecord
  unfolding span_base with_attributes with_nonempty
  span_to_record tenant_id resource_attributes scope_name span now =
      let r = with_nonempty (span_base now tenant_id span) (text "otel.scope.name") scope_name in
      let r = with_attributes r resource_attributes in
      with_attributes r (attributes_from_key_values fl [] span.attributes)

  unfoldable pub rendered_body : Option (AnyValue fl.F) → Option Bytes
  rendered_body none = none
  rendered_body (some value) = some (any_value_to_string fl value)

  unfoldable pub log_base : Option ℕ → Bytes → LogRecord fl.F → TelemetryRecord
  unfolding ◌&◌ body_or rendered_body
  log_base now tenant_id l =
      new_record now tenant_id SignalKind.log (body_or (rendered_body l.body) l.event_name)
      & (text "otel.signal", text "log")
      & (text "otel.log.time_unix_nano", decimal l.time_unix_nano)
      & (text "otel.log.observed_time_unix_nano", decimal l.observed_time_unix_nano)
      & (text "otel.log.severity_number", print_int l.severity_number)
      & (text "otel.log.severity_text", l.severity_text)
      & (text "otel.trace_id", hex_encode l.trace_id)
      & (text "otel.span_id", hex_encode l.span_id)
      & (text "otel.log.flags", decimal l.flags)

  unfoldable pub log_record_to_record :
      Bytes → List Attribute → Bytes → LogRecord fl.F → Option ℕ → TelemetryRecord
  unfolding log_base with_attributes with_nonempty
  log_record_to_record tenant_id resource_attributes scope_name log_record now =
      let r =
        with_nonempty (log_base now tenant_id log_record) (text "otel.log.event_name")
          log_record.event_name in
      let r = with_nonempty r (text "otel.scope.name") scope_name in
      let r = with_attributes r resource_attributes in
      with_attributes r (attributes_from_key_values fl [] log_record.attributes)
