-- ===== src/Exporters/Prometheus/Exemplars.antt =====
-- Time stamps in milliseconds, and `prometheus_exemplars`.
use telemetry_fabric.Prelude.{
  ℕ, ◌+◌, ◌*◌, ◌-◌, ◌/◌, List, [], ◌∷◌, ◌++◌, Option, none, some, ltb, leb, ◌==◌, unwrap_or,
  if◌then◌else◌,
}
use telemetry_fabric.Std.Bytes.{Bytes}
use telemetry_fabric.Std.Text.{text, is_blank}
use telemetry_fabric.Std.Decimal.{is_digit}
use telemetry_fabric.Std.Signed.{i64_max, print_int}
use telemetry_fabric.Core.Telemetry.{TelemetryRecord}
use telemetry_fabric.Exporters.Hex.{hex_encode}
use telemetry_fabric.Exporters.Attributes.{find_attribute, and_then}
use telemetry_fabric.Exporters.Points.{record_to_exemplars}
use telemetry_fabric.Exporters.Prometheus.Labels.{PromLabel, sanitize_prometheus_label_name}
use telemetry_fabric.Otlp.Messages.{
  Floats, Number, as_double, as_int, KeyValues, end, pair, bare, Exemplar, AnyValue, Values, empty,
  string_value, bool_value, int_value, double_value, bytes_value, array_value, kvlist_value,
  string_value_strindex, nil, cons,
}
use telemetry_fabric.Otlp.Values.{bool_text, join_comma}
use telemetry_fabric.Otlp.Requests.{filter_map}

-- `parse::<u128>()`, as `parse_u64` does for 64 bits.
parse_digits_u128 : ℕ → Bytes → Option ℕ
parse_digits_u128 acc [] = some acc
parse_digits_u128 acc (c ∷ rest) =
    let value = acc * 10 + (c - 48) in
    let more = parse_digits_u128 value rest in
    if is_digit c
    then (if ltb value 340282366920938463463374607431768211456 then more else none)
    else none

parse_u128 : Bytes → Option ℕ
unfolding parse_digits_u128
parse_u128 [] = none
parse_u128 (c ∷ []) = if c == 43 then none else parse_digits_u128 0 (c ∷ [])
parse_u128 (c ∷ d ∷ rest) =
    if c == 43 then parse_digits_u128 0 (d ∷ rest) else parse_digits_u128 0 (c ∷ d ∷ rest)

-- `(nanos / 1_000_000).min(i64::MAX)`
millis : ℕ → ℕ
millis nanos = if leb (nanos / 1000000) i64_max then nanos / 1000000 else i64_max

unfoldable pub metric_timestamp_millis : TelemetryRecord → ℕ
unfolding millis and_then parse_u128
metric_timestamp_millis r = millis (
    unwrap_or (and_then (find_attribute r (text "otel.metric.time_unix_nano")) parse_u128)
      r.timestamp_unix_nanos)

pub record PromExemplar (F : Type 0) : Type 0 where
  pub labels : List PromLabel
  pub value : F
  pub timestamp : ℕ

id_label : Bytes → Bytes → List PromLabel
unfolding hex_encode
id_label name [] = []
id_label name (b ∷ id) = record { name = name; value = hex_encode (b ∷ id) } ∷ []

module _ (fl : Floats) where
  unfoldable pub metric_value_to_f64 : Number fl.F → Option fl.F
  metric_value_to_f64 (as_double x) = if fl.is_finite x then some x else none
  metric_value_to_f64 (as_int n) = some (fl.of_signed n)

  -- The exporters' `any_value_to_string`, which puts no brackets around an array or a list of pairs.
  -- The third function has the texts of the pairs but those with a blank key.
  unfoldable mutual
    pub value_to_label : AnyValue fl.F → Bytes
    value_to_label empty = []
    value_to_label (string_value value) = value
    value_to_label (bool_value value) = bool_text value
    value_to_label (int_value value) = print_int value
    value_to_label (double_value value) = fl.to_text value
    value_to_label (bytes_value value) = hex_encode value
    value_to_label (array_value values) = join_comma (value_labels values)
    value_to_label (kvlist_value values) = join_comma (pair_labels values)
    value_to_label (string_value_strindex value) = print_int value

    pub value_labels : Values fl.F → List Bytes
    value_labels nil = []
    value_labels (cons value rest) = value_to_label value ∷ value_labels rest

    pub pair_labels : KeyValues fl.F → List Bytes
    pair_labels end = []
    pair_labels (pair key value rest) =
        let texts = pair_labels rest in
        if is_blank key then texts else (key ++ (61 ∷ value_to_label value)) ∷ texts
    pair_labels (bare key rest) =
        let texts = pair_labels rest in if is_blank key then texts else (key ++ (61 ∷ [])) ∷ texts

  filtered_labels : KeyValues fl.F → List PromLabel
  unfolding sanitize_prometheus_label_name value_to_label
  filtered_labels end = []
  filtered_labels (pair key value rest) =
      record { name = sanitize_prometheus_label_name key; value = value_to_label value }
      ∷ filtered_labels rest
  filtered_labels (bare key rest) = filtered_labels rest

  prometheus_exemplar : Exemplar fl.F → Option (PromExemplar fl.F)
  unfolding and_then metric_value_to_f64 id_label filtered_labels millis
  prometheus_exemplar e = and_then e.value λ number. and_then (metric_value_to_f64 number) λ value.
      some (record {
        labels =
            id_label (text "trace_id") e.trace_id
            ++ (id_label (text "span_id") e.span_id ++ filtered_labels e.filtered_attributes);
        value = value;
        timestamp = millis e.time_unix_nano;
      })

  unfoldable pub prometheus_exemplars : TelemetryRecord → List (PromExemplar fl.F)
  unfolding filter_map prometheus_exemplar record_to_exemplars
  prometheus_exemplars r = filter_map prometheus_exemplar (record_to_exemplars fl r)
