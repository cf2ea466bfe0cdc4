-- ===== src/Exporters/Spans.antt =====
-- `record_to_span`, `batch_to_trace_request` and `count_spans`.
use telemetry_fabric.Prelude.{
  ℕ, ◌+◌, ◌%◌, ◌^◌, not, List, [], ◌∷◌, map, Option, none, some, unwrap_or, if◌then◌else◌,
}
use telemetry_fabric.Std.Bytes.{Bytes}
use telemetry_fabric.Std.Text.{text}
use telemetry_fabric.Std.Lines.{from_utf8_lossy}
use telemetry_fabric.Std.Signed.{pos}
use telemetry_fabric.Core.Telemetry.{TelemetryRecord, SignalKind, ◌=signal◌}
use telemetry_fabric.Exporters.Hex.{hex_decode_fixed}
use telemetry_fabric.Exporters.Ids.{fallback_id}
use telemetry_fabric.Exporters.Attributes.{
  find_attribute, and_then, parse_u64_attribute, parse_i32_attribute, string_attributes, is_own,
  not_blank,
}
use telemetry_fabric.Otlp.Messages.{Span, end, Scoped, Resourced}

-- `record.timestamp_unix_nanos as u64`
abbrev pub record_time : TelemetryRecord → ℕ
record_time r = r.timestamp_unix_nanos % 2 ^ 64

-- An identifier of some length in an attribute.
unfoldable pub id_attribute : TelemetryRecord → Bytes → ℕ → Option Bytes
unfolding find_attribute and_then
id_attribute r key len = and_then (find_attribute r key) λ value. hex_decode_fixed value len

-- The records of one signal.
unfoldable pub of_signal : SignalKind → List TelemetryRecord → List TelemetryRecord
unfolding ◌=signal◌
of_signal kind [] = []
of_signal kind (r ∷ rest) =
    let others = of_signal kind rest in if r.signal =signal kind then r ∷ others else others

module _ {F : Type 0} where
  -- The fields that are zero, empty or missing are those of `..Span::default()`.
  unfoldable pub record_to_span : TelemetryRecord → Span F
  unfolding id_attribute not_blank parse_i32_attribute parse_u64_attribute string_attributes
  record_to_span r =
      let name =
        unwrap_or (not_blank (find_attribute r (text "otel.span.name"))) (from_utf8_lossy r.body) in
      record {
        trace_id = unwrap_or (id_attribute r (text "otel.trace_id") 16) (fallback_id r.body 16);
        span_id = unwrap_or (id_attribute r (text "otel.span_id") 8) (fallback_id name 8);
        trace_state = [];
        parent_span_id = unwrap_or (id_attribute r (text "otel.parent_span_id") 8) [];
        flags = 0;
        name = name;
        kind = unwrap_or (parse_i32_attribute r (text "otel.span.kind")) (pos 0);
        start_time_unix_nano =
            unwrap_or (parse_u64_attribute r (text "otel.start_unix_nano")) (record_time r);
        end_time_unix_nano =
            unwrap_or (parse_u64_attribute r (text "otel.end_unix_nano")) (record_time r);
        attributes = string_attributes (λ key. not (is_own key)) r.attributes;
        dropped_attributes_count = 0;
        events = [];
        dropped_events_count = 0;
        links = [];
        dropped_links_count = 0;
        status = none;
      }

  -- One resource without attributes and one scope without a name.
  unfoldable pub request_of : List (Span F) → List (Resourced F (Span F))
  request_of [] = []
  request_of (s ∷ spans) =
      record { resource = some end; scopes = record { scope = none; items = s ∷ spans } ∷ [] } ∷ []

  unfoldable pub batch_to_trace_request : List TelemetryRecord → List (Resourced F (Span F))
  unfolding request_of record_to_span of_signal
  batch_to_trace_request records =
      request_of (map record_to_span (of_signal SignalKind.trace records))

-- `sum` of the lengths of the scopes of all resources.
module _ {T : Type 0} (count_item : T → ℕ) where
  count_items : List T → ℕ
  count_items [] = 0
  count_items (t ∷ rest) = count_item t + count_items rest

  count_scopes : List (Scoped T) → ℕ
  unfolding count_items
  count_scopes [] = 0
  count_scopes (s ∷ rest) = count_items s.items + count_scopes rest

  unfoldable pub count_request : {F : Type 0} → List (Resourced F T) → ℕ
  unfolding count_scopes
  count_request [] = 0
  count_request (r ∷ rest) = count_scopes r.scopes + count_request rest

unfoldable pub count_spans : {F : Type 0} → List (Resourced F (Span F)) → ℕ
unfolding count_request
count_spans = count_request λ s. 1
