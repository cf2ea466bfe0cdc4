-- ===== src/Exporters/Points.antt =====
-- `record_to_metric`, its data points and exemplars, and `batch_to_metrics_request`.
use telemetry_fabric.Prelude.{
  ℕ, zero, suc, true, List, [], ◌∷◌, ◌++◌, map, Option, none, some, unwrap_or, ◌=text◌,
  if◌then◌else◌, length,
}
use telemetry_fabric.Std.Bytes.{Bytes}
use telemetry_fabric.Std.Text.{text}
use telemetry_fabric.Std.Decimal.{decimal}
use telemetry_fabric.Std.Signed.{pos}
use telemetry_fabric.Core.Telemetry.{TelemetryRecord, SignalKind}
use telemetry_fabric.Exporters.Attributes.{
  find_attribute, and_then, parse_u64_attribute, parse_i32_attribute, parse_u64_list_attribute,
  stripped_attributes, record_to_metric_attributes, record_to_resource_attributes, record_scope,
}
use telemetry_fabric.Exporters.Metrics.{
  metric_name, metric_value, parse_number, metric_start_time_unix_nano, metric_time_unix_nano,
  metric_flags, metric_aggregation_temporality, metric_is_monotonic, record_to_exponential_buckets,
  parse_f64_attribute, parse_f64_list_attribute, parse_quantile_values_attribute,
}
use telemetry_fabric.Exporters.Spans.{id_attribute, of_signal, count_request}
use telemetry_fabric.Otlp.Messages.{
  Floats, Number, Exemplar, NumberDataPoint, HistogramDataPoint, ExponentialHistogramDataPoint,
  SummaryDataPoint, MetricData, gauge, sum, histogram, exponential_histogram, summary, Metric,
  Resourced,
}
use telemetry_fabric.Otlp.Requests.{filter_map}

module _ (fl : Floats) where
  unfoldable pub record_to_exemplar_value : TelemetryRecord → Bytes → Option (Number fl.F)
  unfolding parse_number and_then
  record_to_exemplar_value r prefix =
      and_then (find_attribute r (prefix ++ text ".value"))
        λ value. parse_number fl (find_attribute r (prefix ++ text ".value_type")) value

  record_to_exemplar_at : TelemetryRecord → Bytes → Exemplar fl.F
  unfolding record_to_exemplar_value stripped_attributes parse_u64_attribute id_attribute
  record_to_exemplar_at r prefix = record {
    filtered_attributes =
        stripped_attributes (prefix ++ text ".filtered.") (λ key. true) r.attributes;
    time_unix_nano = unwrap_or (parse_u64_attribute r (prefix ++ text ".time_unix_nano")) 0;
    span_id = unwrap_or (id_attribute r (prefix ++ text ".span_id") 8) [];
    trace_id = unwrap_or (id_attribute r (prefix ++ text ".trace_id") 16) [];
    value = record_to_exemplar_value r prefix;
  }

  unfoldable pub record_to_exemplar : TelemetryRecord → ℕ → Exemplar fl.F
  unfolding record_to_exemplar_at
  record_to_exemplar r index =
      record_to_exemplar_at r (text "otel.metric.exemplar." ++ decimal index)

  -- The loop over `index .. index + count`.
  exemplars_from : TelemetryRecord → ℕ → ℕ → List (Exemplar fl.F)
  unfolding record_to_exemplar
  exemplars_from r index zero = []
  exemplars_from r index (suc count) =
      record_to_exemplar r index ∷ exemplars_from r (suc index) count

  unfoldable pub record_to_exemplars : TelemetryRecord → List (Exemplar fl.F)
  unfolding exemplars_from parse_u64_attribute
  record_to_exemplars r =
      exemplars_from r 0 (unwrap_or (parse_u64_attribute r (text "otel.metric.exemplar.count")) 0)

  unfoldable pub record_to_number_data_point : TelemetryRecord → Number fl.F → NumberDataPoint fl.F
  unfolding record_to_exemplars
  record_to_number_data_point r value = record {
    attributes = record_to_metric_attributes r;
    start_time_unix_nano = metric_start_time_unix_nano r;
    time_unix_nano = metric_time_unix_nano r;
    value = some value;
    exemplars = record_to_exemplars r;
    flags = metric_flags r;
  }

  unfoldable pub record_to_histogram_data_point : TelemetryRecord → Option (HistogramDataPoint fl.F)
  unfolding and_then
  record_to_histogram_data_point r =
      and_then (parse_u64_attribute r (text "otel.metric.count")) λ count. some (record {
        attributes = record_to_metric_attributes r;
        start_time_unix_nano = metric_start_time_unix_nano r;
        time_unix_nano = metric_time_unix_nano r;
        count = count;
        sum = parse_f64_attribute fl r (text "otel.metric.sum");
        bucket_counts = parse_u64_list_attribute r (text "otel.metric.bucket_counts");
        explicit_bounds = parse_f64_list_attribute fl r (text "otel.metric.explicit_bounds");
        exemplars = record_to_exemplars r;
        flags = metric_flags r;
        min = parse_f64_attribute fl r (text "otel.metric.min");
        max = parse_f64_attribute fl r (text "otel.metric.max");
      })

  unfoldable pub record_to_exponential_histogram_data_point :
      TelemetryRecord → Option (ExponentialHistogramDataPoint fl.F)
  unfolding and_then
  record_to_exponential_histogram_data_point r =
      and_then (parse_u64_attribute r (text "otel.metric.count")) λ count. some (record {
        attributes = record_to_metric_attributes r;
        start_time_unix_nano = metric_start_time_unix_nano r;
        time_unix_nano = metric_time_unix_nano r;
        count = count;
        sum = parse_f64_attribute fl r (text "otel.metric.sum");
        scale = unwrap_or (parse_i32_attribute r (text "otel.metric.scale")) (pos 0);
        zero_count = unwrap_or (parse_u64_attribute r (text "otel.metric.zero_count")) 0;
        positive =
            record_to_exponential_buckets r (text "otel.metric.positive_offset")
              (text "otel.metric.positive_bucket_counts");
        negative =
            record_to_exponential_buckets r (text "otel.metric.negative_offset")
              (text "otel.metric.negative_bucket_counts");
        flags = metric_flags r;
        exemplars = record_to_exemplars r;
        min = parse_f64_attribute fl r (text "otel.metric.min");
        max = parse_f64_attribute fl r (text "otel.metric.max");
        zero_threshold =
            unwrap_or (parse_f64_attribute fl r (text "otel.metric.zero_threshold"))
              (fl.of_unsigned 0);
      })

  unfoldable pub record_to_summary_data_point : TelemetryRecord → Option (SummaryDataPoint fl.F)
  unfolding and_then
  record_to_summary_data_point r =
      and_then (parse_u64_attribute r (text "otel.metric.count")) λ count.
        and_then (parse_f64_attribute fl r (text "otel.metric.sum")) λ sum. some (record {
          attributes = record_to_metric_attributes r;
          start_time_unix_nano = metric_start_time_unix_nano r;
          time_unix_nano = metric_time_unix_nano r;
          count = count;
          sum = sum;
          quantile_values =
              map (λ q. record { quantile = q.0; value = q.1 })
                (parse_quantile_values_attribute fl r (text "otel.metric.quantile_values"));
          flags = metric_flags r;
        })

  -- By the data type, each with one data point.
  metric_data : TelemetryRecord → Bytes → Option (MetricData fl.F)
  unfolding ◌=text◌ and_then record_to_number_data_point record_to_histogram_data_point
      record_to_exponential_histogram_data_point record_to_summary_data_point
  metric_data r data_type =
      if data_type =text text "sum"
      then and_then (metric_value fl r) (λ v. some (
          sum (record_to_number_data_point r v ∷ []) (metric_aggregation_temporality r)
            (metric_is_monotonic r)))
      else if data_type =text text "histogram"
      then and_then (record_to_histogram_data_point r)
          (λ p. some (histogram (p ∷ []) (metric_aggregation_temporality r)))
      else if data_type =text text "exponential_histogram"
      then and_then (record_to_exponential_histogram_data_point r)
          (λ p. some (exponential_histogram (p ∷ []) (metric_aggregation_temporality r)))
      else if data_type =text text "summary"
      then and_then (record_to_summary_data_point r) (λ p. some (summary (p ∷ [])))
      else and_then (metric_value fl r) (λ v. some (gauge (record_to_number_data_point r v ∷ [])))

  unfoldable pub record_to_metric : TelemetryRecord → Option (Metric fl.F)
  unfolding metric_data and_then
  record_to_metric r = and_then (metric_name r) λ name.
      and_then (metric_data r (unwrap_or (find_attribute r (text "otel.metric.data_type")) []))
        λ points. some (record {
          name = name;
          description = unwrap_or (find_attribute r (text "otel.metric.description")) [];
          unit = unwrap_or (find_attribute r (text "otel.metric.unit")) [];
          points = some points;
        })

  unfoldable pub record_to_resource_metric : TelemetryRecord → Option (Resourced fl.F (Metric fl.F))
  unfolding and_then record_to_metric
  record_to_resource_metric r = and_then (record_to_metric r) λ m. some (record {
    resource = some (record_to_resource_attributes r);
    scopes = record { scope = record_scope r; items = m ∷ [] } ∷ [];
  })

  unfoldable pub batch_to_metrics_request :
      List TelemetryRecord → List (Resourced fl.F (Metric fl.F))
  unfolding record_to_resource_metric filter_map of_signal
  batch_to_metrics_request records =
      filter_map record_to_resource_metric (of_signal SignalKind.metric records)

points_of : {F : Type 0} → Option (MetricData F) → ℕ
points_of none = 0
points_of (some (gauge points)) = length points
points_of (some (sum points temporality is_monotonic)) = length points
points_of (some (histogram points temporality)) = length points
points_of (some (exponential_histogram points temporality)) = length points
points_of (some (summary points)) = length points

unfoldable pub count_metric_data_points : {F : Type 0} → List (Resourced F (Metric F)) → ℕ
unfolding count_request points_of
count_metric_data_points = count_request λ m. points_of m.points
