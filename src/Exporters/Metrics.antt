-- ===== src/Exporters/Metrics.antt =====
-- What the exporters read of a metric's record. `F` is `f64`.
use telemetry_fabric.Prelude.{
  ℕ, Bool, true, false, ◌||◌, List, [], ◌∷◌, Option, none, some, unwrap_or, ◌=text◌, if◌then◌else◌,
}
use telemetry_fabric.Std.Bytes.{Bytes}
use telemetry_fabric.Std.Text.{text}
use telemetry_fabric.Std.Lines.{split_once, from_utf8_lossy}
use telemetry_fabric.Std.Signed.{ℤ, pos, parse_signed, i64_max}
use telemetry_fabric.Core.Telemetry.{TelemetryRecord}
use telemetry_fabric.Exporters.Attributes.{
  find_attribute, and_then, or_else, not_blank, parse_u32, parse_u64_attribute, parse_i32_attribute,
  parse_u64_list_attribute, parse_list,
}
use telemetry_fabric.Exporters.Spans.{record_time}
use telemetry_fabric.Otlp.Messages.{Floats, Number, as_double, as_int, Buckets}

unfoldable pub metric_name : TelemetryRecord → Option Bytes
unfolding find_attribute not_blank
metric_name r = or_else (find_attribute r (text "otel.metric.name")) (
    or_else (find_attribute r (text "metric.name")) (
      or_else (find_attribute r (text "service.name")) (not_blank (some (from_utf8_lossy r.body)))))

unfoldable pub metric_start_time_unix_nano : TelemetryRecord → ℕ
unfolding parse_u64_attribute
metric_start_time_unix_nano r =
    unwrap_or (parse_u64_attribute r (text "otel.metric.start_time_unix_nano")) 0

unfoldable pub metric_time_unix_nano : TelemetryRecord → ℕ
unfolding parse_u64_attribute
metric_time_unix_nano r =
    unwrap_or (parse_u64_attribute r (text "otel.metric.time_unix_nano")) (record_time r)

unfoldable pub metric_flags : TelemetryRecord → ℕ
unfolding find_attribute and_then parse_u32
metric_flags r = unwrap_or (and_then (find_attribute r (text "otel.metric.flags")) parse_u32) 0

-- The numbers of `AggregationTemporality` in the protocol.
unfoldable pub aggregation_temporality_from_name : Bytes → Option ℤ
unfolding ◌=text◌
aggregation_temporality_from_name value =
    if (value =text text "AGGREGATION_TEMPORALITY_UNSPECIFIED") || (value =text text "unspecified")
    then some (pos 0)
    else if (value =text text "AGGREGATION_TEMPORALITY_DELTA") || (value =text text "delta")
    then some (pos 1)
    else if (value =text text "AGGREGATION_TEMPORALITY_CUMULATIVE")
        || (value =text text "cumulative")
    then some (pos 2)
    else none

unfoldable pub metric_aggregation_temporality : TelemetryRecord → ℤ
unfolding parse_i32_attribute and_then aggregation_temporality_from_name
metric_aggregation_temporality r =
    unwrap_or
      (or_else (parse_i32_attribute r (text "otel.metric.aggregation_temporality")) (
        and_then (find_attribute r (text "otel.metric.aggregation_temporality_name"))
          aggregation_temporality_from_name))
      (pos 2)

-- `s.parse::<bool>()`
parse_bool : Bytes → Option Bool
unfolding ◌=text◌
parse_bool s =
    if s =text text "true" then some true else if s =text text "false" then some false else none

unfoldable pub metric_is_monotonic : TelemetryRecord → Bool
unfolding parse_bool and_then
metric_is_monotonic r =
    unwrap_or (and_then (find_attribute r (text "otel.metric.is_monotonic")) parse_bool) false

buckets_from : Option ℤ → List ℕ → Option Buckets
buckets_from offset [] = none
buckets_from offset (count ∷ counts) =
    some (record { offset = unwrap_or offset (pos 0); bucket_counts = count ∷ counts })

unfoldable pub record_to_exponential_buckets : TelemetryRecord → Bytes → Bytes → Option Buckets
unfolding buckets_from parse_i32_attribute parse_u64_list_attribute
record_to_exponential_buckets r offset_key bucket_counts_key =
    buckets_from (parse_i32_attribute r offset_key) (parse_u64_list_attribute r bucket_counts_key)

module _ (fl : Floats) where
  -- `parse::<f64>().ok().filter(is_finite)`
  unfoldable pub parse_finite : Bytes → Option fl.F
  parse_finite s = elim (fl.parse s) [
    | none ↦ none
    | some x ↦ if fl.is_finite x then some x else none
  ]

  unfoldable pub parse_f64_attribute : TelemetryRecord → Bytes → Option fl.F
  unfolding and_then parse_finite
  parse_f64_attribute r key = and_then (find_attribute r key) parse_finite

  unfoldable pub parse_f64_list_attribute : TelemetryRecord → Bytes → List fl.F
  unfolding parse_list parse_finite
  parse_f64_list_attribute r key = parse_list parse_finite (find_attribute r key)

  parse_quantile : Bytes → Option (fl.F × fl.F)
  unfolding and_then parse_finite
  parse_quantile item = and_then (split_once 58 item) λ parts.
      and_then (parse_finite parts.0)
        λ quantile. and_then (parse_finite parts.1) λ value. some (quantile, value)

  unfoldable pub parse_quantile_values_attribute : TelemetryRecord → Bytes → List (fl.F × fl.F)
  unfolding parse_list parse_quantile
  parse_quantile_values_attribute r key = parse_list parse_quantile (find_attribute r key)

  -- A value by the text that says its type.
  unfoldable pub parse_number : Option Bytes → Bytes → Option (Number fl.F)
  unfolding ◌=text◌ parse_finite and_then
  parse_number value_type value =
      if unwrap_or value_type [] =text text "int"
      then and_then (parse_signed i64_max value) (λ n. some (as_int n))
      else and_then (parse_finite value) (λ x. some (as_double x))

  unfoldable pub metric_value : TelemetryRecord → Option (Number fl.F)
  unfolding parse_number
  metric_value r =
      parse_number (find_attribute r (text "otel.metric.value_type"))
        (unwrap_or (find_attribute r (text "otel.metric.value")) (from_utf8_lossy r.body))
