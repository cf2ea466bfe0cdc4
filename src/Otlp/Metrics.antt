-- ===== src/Otlp/Metrics.antt =====
-- `metric_to_records`: a record for each data point.
use telemetry_fabric.Prelude.{
  ℕ, ◌+◌, Bool, List, [], ◌∷◌, ◌++◌, Option, none, some, if◌then◌else◌, length,
}
use telemetry_fabric.Std.Bytes.{Bytes}
use telemetry_fabric.Std.Text.{text}
use telemetry_fabric.Std.Decimal.{decimal}
use telemetry_fabric.Std.Signed.{ℤ, print_int}
use telemetry_fabric.Core.Telemetry.{Attribute, TelemetryRecord, SignalKind, new_record}
use telemetry_fabric.Exporters.Hex.{hex_encode}
use telemetry_fabric.Otlp.Messages.{
  Floats, KeyValues, Number, as_double, as_int, Exemplar, NumberDataPoint, HistogramDataPoint,
  Buckets, ExponentialHistogramDataPoint, SummaryDataPoint,
}
use telemetry_fabric.Otlp.Values.{
  bool_text, join_u64_values, join_f64_values, join_quantile_values, attributes_from_key_values,
}
use telemetry_fabric.Otlp.Records.{◌&◌, with_attributes, with_nonempty}

-- `tenant_id`, `resource_attributes` and `scope_name`.
pub record Origin : Type 0 where
  pub tenant_id : Bytes
  pub resource_attributes : List Attribute
  pub scope_name : Bytes

pub record MetricRecordMetadata : Type 0 where
  pub name : Bytes
  pub description : Bytes
  pub unit : Bytes
  pub data_type : Bytes
  pub aggregation_temporality : Option ℤ
  pub is_monotonic : Option Bool

-- `if let Some(value) = value`
with_some : {A : Type 0} → TelemetryRecord → Bytes → (A → Bytes) → Option A → TelemetryRecord
unfolding ◌&◌
with_some r key f none = r
with_some r key f (some a) = r & (key, f a)

-- `temporality_name` is `AggregationTemporality::try_from` and `as_str_name`, which are generated.
with_temporality : (ℤ → Option Bytes) → TelemetryRecord → Option ℤ → TelemetryRecord
unfolding ◌&◌ with_some
with_temporality temporality_name r none = r
with_temporality temporality_name r (some temporality) =
    with_some (r & (text "otel.metric.aggregation_temporality", print_int temporality))
      (text "otel.metric.aggregation_temporality_name") (λ name. name)
      (temporality_name temporality)

with_buckets : TelemetryRecord → Bytes → Bytes → Option Buckets → TelemetryRecord
unfolding ◌&◌ join_u64_values
with_buckets r offset_key counts_key none = r
with_buckets r offset_key counts_key (some buckets) =
    r & (offset_key, print_int buckets.offset) & (counts_key, join_u64_values buckets.bucket_counts)

-- `number_value_to_string` and `exemplar_value_to_string`, on the two types with one shape: the type
-- of the value and its text.
unfoldable pub number_value_to_string : (fl : Floats) → Number fl.F → Option (Bytes × Bytes)
number_value_to_string fl (as_double value) =
    if fl.is_finite value then some (text "double", fl.to_text value) else none
number_value_to_string fl (as_int value) = some (text "int", print_int value)

unfoldable pub number_of : (fl : Floats) → Option (Number fl.F) → Option (Bytes × Bytes)
unfolding number_value_to_string
number_of fl none = none
number_of fl (some value) = number_value_to_string fl value

with_value : TelemetryRecord → Bytes → Option (Bytes × Bytes) → TelemetryRecord
unfolding ◌&◌
with_value r prefix none = r
with_value r prefix (some (value_type, value)) =
    r & (prefix ++ text ".value", value) & (prefix ++ text ".value_type", value_type)

module _ (fl : Floats) where
  append_exemplar : TelemetryRecord → Bytes → Exemplar fl.F → TelemetryRecord
  unfolding ◌&◌ with_attributes with_value number_of
  append_exemplar r prefix e =
      let r =
        r
        & (prefix ++ text ".time_unix_nano", decimal e.time_unix_nano)
        & (prefix ++ text ".trace_id", hex_encode e.trace_id)
        & (prefix ++ text ".span_id", hex_encode e.span_id) in
      let r = with_value r prefix (number_of fl e.value) in
      with_attributes r
        (attributes_from_key_values fl (prefix ++ text ".filtered.") e.filtered_attributes)

  append_exemplars : TelemetryRecord → ℕ → List (Exemplar fl.F) → TelemetryRecord
  unfolding append_exemplar
  append_exemplars r index [] = r
  append_exemplars r index (e ∷ rest) =
      append_exemplars (append_exemplar r (text "otel.metric.exemplar." ++ decimal index) e)
        (index + 1) rest

  unfoldable pub append_exemplar_attributes :
      TelemetryRecord → List (Exemplar fl.F) → TelemetryRecord
  unfolding append_exemplars ◌&◌
  append_exemplar_attributes r [] = r
  append_exemplar_attributes r (e ∷ rest) =
      append_exemplars (r & (text "otel.metric.exemplar.count", decimal (length (e ∷ rest)))) 0
        (e ∷ rest)

  module _ (temporality_name : ℤ → Option Bytes) (origin : Origin) where
    unfoldable pub metric_record_base :
        MetricRecordMetadata
        → KeyValues fl.F
        → (start_time_unix_nano time_unix_nano flags : ℕ) → Option ℕ
        → TelemetryRecord
    unfolding ◌&◌ with_nonempty with_temporality with_some with_attributes
    metric_record_base metadata attributes start_time_unix_nano time_unix_nano flags now =
        let r =
          new_record now origin.tenant_id SignalKind.metric metadata.name
          & (text "otel.signal", text "metric")
          & (text "otel.metric.name", metadata.name)
          & (text "otel.metric.data_type", metadata.data_type)
          & (text "otel.metric.time_unix_nano", decimal time_unix_nano)
          & (text "otel.metric.start_time_unix_nano", decimal start_time_unix_nano)
          & (text "otel.metric.flags", decimal flags) in
        let r = with_nonempty r (text "otel.metric.description") metadata.description in
        let r = with_nonempty r (text "otel.metric.unit") metadata.unit in
        let r = with_temporality temporality_name r metadata.aggregation_temporality in
        let r = with_some r (text "otel.metric.is_monotonic") bool_text metadata.is_monotonic in
        let r = with_nonempty r (text "otel.scope.name") origin.scope_name in
        let r = with_attributes r origin.resource_attributes in
        with_attributes r (attributes_from_key_values fl [] attributes)

    unfoldable pub number_data_point_to_record :
        MetricRecordMetadata → NumberDataPoint fl.F → Option (Option ℕ → TelemetryRecord)
    unfolding ◌&◌ metric_record_base append_exemplar_attributes
    number_data_point_to_record metadata p = elim (number_of fl p.value) [
      | none ↦ none
      | some (value_type, value) ↦ some (λ now.
          append_exemplar_attributes
            (metric_record_base metadata p.attributes p.start_time_unix_nano p.time_unix_nano
                p.flags now
              & (text "otel.metric.value", value)
              & (text "otel.metric.value_type", value_type))
            p.exemplars)
    ]

    unfoldable pub histogram_data_point_to_record :
        MetricRecordMetadata → HistogramDataPoint fl.F → Option ℕ → TelemetryRecord
    unfolding ◌&◌ metric_record_base with_some append_exemplar_attributes
    histogram_data_point_to_record metadata p now =
        let r =
          metric_record_base metadata p.attributes p.start_time_unix_nano p.time_unix_nano p.flags
            now
          & (text "otel.metric.count", decimal p.count)
          & (text "otel.metric.bucket_counts", join_u64_values p.bucket_counts)
          & (text "otel.metric.explicit_bounds", join_f64_values fl p.explicit_bounds) in
        let r = with_some r (text "otel.metric.sum") fl.to_text p.sum in
        let r = with_some r (text "otel.metric.min") fl.to_text p.min in
        let r = with_some r (text "otel.metric.max") fl.to_text p.max in
        append_exemplar_attributes r p.exemplars

    unfoldable pub exponential_histogram_data_point_to_record :
        MetricRecordMetadata → ExponentialHistogramDataPoint fl.F → Option ℕ → TelemetryRecord
    unfolding ◌&◌ metric_record_base with_some with_buckets append_exemplar_attributes
    exponential_histogram_data_point_to_record metadata p now =
        let r =
          metric_record_base metadata p.attributes p.start_time_unix_nano p.time_unix_nano p.flags
            now
          & (text "otel.metric.count", decimal p.count)
          & (text "otel.metric.scale", print_int p.scale)
          & (text "otel.metric.zero_count", decimal p.zero_count)
          & (text "otel.metric.zero_threshold", fl.to_text p.zero_threshold) in
        let r = with_some r (text "otel.metric.sum") fl.to_text p.sum in
        let r = with_some r (text "otel.metric.min") fl.to_text p.min in
        let r = with_some r (text "otel.metric.max") fl.to_text p.max in
        let r =
          with_buckets r (text "otel.metric.positive_offset")
            (text "otel.metric.positive_bucket_counts") p.positive in
        let r =
          with_buckets r (text "otel.metric.negative_offset")
            (text "otel.metric.negative_bucket_counts") p.negative in
        append_exemplar_attributes r p.exemplars

    unfoldable pub summary_data_point_to_record :
        MetricRecordMetadata → SummaryDataPoint fl.F → Option ℕ → TelemetryRecord
    unfolding ◌&◌ metric_record_base
    summary_data_point_to_record metadata p now =
        metric_record_base metadata p.attributes p.start_time_unix_nano p.time_unix_nano p.flags now
        & (text "otel.metric.count", decimal p.count)
        & (text "otel.metric.sum", fl.to_text p.sum)
        & (text "otel.metric.quantile_values", join_quantile_values fl p.quantile_values)
