-- ===== src/Exporters/ConversionTests.antt =====
-- The conversions between records and messages on concrete values, with whole numbers for `f64`.
use telemetry_fabric.Exporters.LogRoundTrip.{
  IsLog, said, is_senders, record_to_log_record-log_record_to_record,
}
use telemetry_fabric.Exporters.Logs.{record_to_log_record}
use telemetry_fabric.Prelude.{
  ℕ, zero, suc, ◌≡◌, refl, true, List, [], ◌∷◌, ◌++◌, not, none, some, inl, All, arith, inr,
}
use telemetry_fabric.Prelude.Words.{saturating_add_u64}
use telemetry_fabric.Std.Bytes.{Bytes}
use telemetry_fabric.Std.Lines.{starts_with, is_empty}
use telemetry_fabric.Std.Decimal.{decimal}
use telemetry_fabric.Exporters.Hex.{all_zero}
use telemetry_fabric.Std.Text.{text, is_blank, utf8_error, IsUtf8}
use telemetry_fabric.Std.Signed.{ℤ, pos, negsuc, print_int, parse_signed, i64_max}
use telemetry_fabric.Core.Telemetry.{TelemetryRecord, SignalKind, Attribute}
use telemetry_fabric.Exporters.Attributes.{string_attributes, is_own}
use telemetry_fabric.Exporters.Spans.{record_to_span, batch_to_trace_request}
use telemetry_fabric.Exporters.SpanRoundTrip.{
  IsSpan, without_details, record_to_span-span_to_record,
}
use telemetry_fabric.Exporters.TraceRoundTrip.{
  spans_in, flattened_spans, spans_in-batch_to_trace_request,
}
use telemetry_fabric.Exporters.Prometheus.Buckets.{cumulative}
use telemetry_fabric.Exporters.Prometheus.Cumulative.{NeverFalls, total, cumulative-NeverFalls}
use telemetry_fabric.Exporters.Prometheus.Series.{last_count, record_to_prometheus_timeseries}
use telemetry_fabric.Exporters.Prometheus.SeriesTenant.{
  HasTenant, record_to_prometheus_timeseries-HasTenant,
}
use telemetry_fabric.Otlp.Messages.{
  Floats, Span, pair, bare, end, int_value, Resourced, string_value, LogRecord, array_value, cons,
  bool_value, nil,
}
use telemetry_fabric.Otlp.Records.{span_to_record, log_record_to_record}
use telemetry_fabric.Otlp.Requests.{trace_request_to_records, stamp}
use telemetry_fabric.Otlp.Values.{attributes_from_key_values, any_value_to_string, join_comma}

abbrev opposite : ℤ → ℤ
opposite (pos zero) = pos zero
opposite (pos (suc n)) = negsuc n
opposite (negsuc n) = pos (suc n)

abbrev whole : Floats
whole = record {
  F = ℤ;
  to_text = print_int;
  parse = parse_signed i64_max;
  is_finite = λ x. true;
  of_unsigned = pos;
  of_signed = λ x. x;
  negate = opposite;
  base_of = λ n. pos 2;
  powi = λ base n. n;
  total_le = λ x y. true;
}

abbrev call : Span ℤ
call = record {
  trace_id = 1 ∷ 2 ∷ 3 ∷ 4 ∷ 5 ∷ 6 ∷ 7 ∷ 8 ∷ 9 ∷ 10 ∷ 11 ∷ 12 ∷ 13 ∷ 14 ∷ 15 ∷ 255 ∷ [];
  span_id = 0 ∷ 0 ∷ 0 ∷ 0 ∷ 0 ∷ 0 ∷ 0 ∷ 9 ∷ [];
  trace_state = text "a=b";
  parent_span_id = [];
  flags = 1;
  name = text "call";
  kind = negsuc 1;
  start_time_unix_nano = 7;
  end_time_unix_nano = 12;
  attributes =
      pair (text "otel.x") (int_value (pos 3)) (pair (text "n") (int_value (negsuc 3)) end);
  dropped_attributes_count = 2;
  events =
      record { time_unix_nano = 8; name = text "e"; attributes = end; dropped_attributes_count = 0 }
      ∷ [];
  dropped_events_count = 3;
  links = [];
  dropped_links_count = 0;
  status = some (record { message = text "failed"; code = pos 2 });
}

call-IsSpan : IsSpan call
unfolding text is_blank all_zero
call-IsSpan = (
  refl,
  (refl, omega arith, refl),
  (refl, omega arith, refl),
  inl refl,
  omega arith,
  omega arith,
  omega arith,
)

abbrev host : List Attribute
host = record { key = text "resource.host"; value = text "a" } ∷ []

record_to_span-span_to_record_example :
    record_to_span (span_to_record whole (text "t") host (text "lib") call (some 5))
    ≡ record (without_details call) {
      attributes =
          string_attributes
            (λ key. not (is_own key))
            (host ++ attributes_from_key_values whole [] call.attributes);
    }
record_to_span-span_to_record_example =
    record_to_span-span_to_record whole (text "t") host (text "lib") call (some 5) call-IsSpan

-- The attribute `otel.x` is lost, and the number is a text.
attributes_run :
    string_attributes {F = ℤ}
      (λ key. not (is_own key))
      (attributes_from_key_values whole [] call.attributes)
    ≡ pair (text "n") (string_value (text "-4")) end
unfolding string_attributes attributes_from_key_values is_blank text starts_with print_int decimal
attributes_run = refl

abbrev calls : List (Resourced ℤ (Span ℤ))
calls =
    record {
      resource = some (bare (text "host") end);
      scopes =
          record { scope = none; items = call ∷ call ∷ [] }
          ∷ record { scope = some (text "lib"); items = call ∷ [] }
          ∷ [];
    }
    ∷ []

spans_in-batch_to_trace_request_example :
    spans_in
      (batch_to_trace_request (stamp some 0 (trace_request_to_records whole (text "t") calls)))
    ≡ flattened_spans whole calls
spans_in-batch_to_trace_request_example =
    spans_in-batch_to_trace_request whole some (text "t") calls
      (((call-IsSpan, (call-IsSpan, tt)), ((call-IsSpan, tt), tt)), tt)

-- A sender that claims another tenant.
abbrev claim : TelemetryRecord
claim = record {
  tenant_id = text "mine";
  signal = SignalKind.metric;
  timestamp_unix_nanos = 0;
  attributes =
      record { key = text "tenant.id"; value = text "theirs" }
      ∷ record { key = text "otel.metric.data_type"; value = text "histogram" }
      ∷ record { key = text "otel.metric.bucket_counts"; value = text "1, 2" }
      ∷ [];
  body = text "hits";
}

record_to_prometheus_timeseries-HasTenant_example :
    All (HasTenant whole claim) (record_to_prometheus_timeseries whole claim)
record_to_prometheus_timeseries-HasTenant_example =
    record_to_prometheus_timeseries-HasTenant whole claim

abbrev buckets : List (Bytes × ℕ)
buckets = (text "1", 2) ∷ (text "+Inf", 3) ∷ []

cumulative-NeverFalls_example :
    NeverFalls 0 buckets (cumulative 0 buckets)
    × (last_count 0 (cumulative 0 buckets) ≡ saturating_add_u64 0 (total buckets))
cumulative-NeverFalls_example = cumulative-NeverFalls buckets

abbrev line : LogRecord ℤ
line = record {
  time_unix_nano = 3;
  observed_time_unix_nano = 4;
  severity_number = pos 9;
  severity_text = text "INFO";
  body = some (array_value (cons (int_value (pos 1)) (cons (bool_value true) nil)));
  attributes = pair (text "k") (string_value (text "v")) end;
  dropped_attributes_count = 4;
  flags = 1;
  trace_id = [];
  span_id = 0 ∷ 0 ∷ 0 ∷ 0 ∷ 0 ∷ 0 ∷ 0 ∷ 9 ∷ [];
  event_name = text "start";
}

line-IsLog : IsLog line
unfolding text is_empty all_zero
line-IsLog = (
  refl,
  inl refl,
  inr (refl, omega arith, refl),
  omega arith,
  omega arith,
  omega arith,
  omega arith,
)

said_run : said whole line ≡ text "[1,true]"
unfolding said any_value_to_string text decimal print_int is_blank join_comma
said_run = refl

line-IsUtf8 : IsUtf8 (said whole line)
unfolding said any_value_to_string text decimal print_int is_blank join_comma utf8_error
line-IsUtf8 = refl

record_to_log_record-log_record_to_record_example :
    record_to_log_record (log_record_to_record whole (text "t") host (text "lib") line none)
    ≡ record line {
      body = some (string_value (said whole line));
      attributes =
          string_attributes is_senders
            (host ++ attributes_from_key_values whole [] line.attributes);
      dropped_attributes_count = 0;
    }
record_to_log_record-log_record_to_record_example =
    record_to_log_record-log_record_to_record whole line (text "t") host (text "lib") none
      line-IsLog line-IsUtf8
