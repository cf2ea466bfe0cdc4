-- ===== src/Exporters/Prometheus/Series.antt =====
-- The time series of a metric's record, and `batch_to_prometheus_remote_write_request`.
use telemetry_fabric.Prelude.{
  ℕ, List, [], ◌∷◌, ◌++◌, Option, none, some, leb, ◌=text◌, unwrap_or, if◌then◌else◌,
}
use telemetry_fabric.Std.Bytes.{Bytes}
use telemetry_fabric.Std.Text.{text}
use telemetry_fabric.Core.Telemetry.{TelemetryRecord, SignalKind}
use telemetry_fabric.Exporters.Attributes.{
  find_attribute, and_then, parse_u64_attribute, parse_u64_list_attribute,
}
use telemetry_fabric.Exporters.Spans.{of_signal}
use telemetry_fabric.Exporters.Metrics.{
  metric_name, metric_value, parse_f64_attribute, parse_f64_list_attribute,
  parse_quantile_values_attribute,
}
use telemetry_fabric.Exporters.Prometheus.Labels.{
  PromLabel, prometheus_labels_with_extra, sanitize_prometheus_metric_name,
}
use telemetry_fabric.Exporters.Prometheus.Exemplars.{
  PromExemplar, prometheus_exemplars, metric_value_to_f64, metric_timestamp_millis,
}
use telemetry_fabric.Exporters.Prometheus.Buckets.{
  cumulative, exponential_histogram_prometheus_buckets,
}
use telemetry_fabric.Otlp.Messages.{Floats}
use telemetry_fabric.Otlp.Requests.{flat_map}

-- A series with one sample.
pub record PromTimeSeries (F : Type 0) : Type 0 where
  pub labels : List PromLabel
  pub value : F
  pub timestamp : ℕ
  pub exemplars : List (PromExemplar F)

-- `cumulative_count` after the last bucket.
unfoldable pub last_count : ℕ → List (Bytes × ℕ) → ℕ
last_count count [] = count
last_count count (b ∷ rest) = last_count b.1 rest

module _ (fl : Floats) where
  -- The counts with their bounds; those past the last bound have none.
  unfoldable pub with_bounds : List fl.F → List ℕ → List (Bytes × ℕ)
  with_bounds bounds [] = []
  with_bounds [] (count ∷ counts) = (text "+Inf", count) ∷ with_bounds [] counts
  with_bounds (bound ∷ bounds) (count ∷ counts) =
      (fl.to_text bound, count) ∷ with_bounds bounds counts

  unfoldable pub optional_series : Option (PromTimeSeries fl.F) → List (PromTimeSeries fl.F)
  optional_series none = []
  optional_series (some s) = s ∷ []

  module _ (r : TelemetryRecord) where
    -- Without extra labels, `prometheus_labels` is the same on an empty list of them.
    unfoldable pub prometheus_timeseries :
        Bytes → List PromLabel → fl.F → List (PromExemplar fl.F) → PromTimeSeries fl.F
    unfolding prometheus_labels_with_extra metric_timestamp_millis
    prometheus_timeseries metric_name extra_labels value exemplars = record {
      labels = prometheus_labels_with_extra r metric_name extra_labels;
      value = value;
      timestamp = metric_timestamp_millis r;
      exemplars = exemplars;
    }

    unfoldable pub record_to_prometheus_scalar_timeseries : Bytes → Option (PromTimeSeries fl.F)
    unfolding and_then metric_value_to_f64 prometheus_timeseries
    record_to_prometheus_scalar_timeseries metric_name = and_then (metric_value fl r) λ number.
        and_then (metric_value_to_f64 fl number)
          λ value. some (prometheus_timeseries metric_name [] value (prometheus_exemplars fl r))

    -- A series where there is a value.
    unfoldable pub series_of :
        Bytes → Option fl.F → List (PromExemplar fl.F) → List (PromTimeSeries fl.F)
    unfolding prometheus_timeseries
    series_of name none exemplars = []
    series_of name (some value) exemplars = prometheus_timeseries name [] value exemplars ∷ []

    unsigned_attribute : Bytes → Option fl.F
    unfolding and_then
    unsigned_attribute key =
        and_then (parse_u64_attribute r key) λ count. some (fl.of_unsigned count)

    unfoldable pub count_and_sum : Bytes → List (PromExemplar fl.F) → List (PromTimeSeries fl.F)
    unfolding series_of unsigned_attribute
    count_and_sum metric_name exemplars =
        series_of (metric_name ++ text "_count") (unsigned_attribute (text "otel.metric.count")) []
        ++ series_of (metric_name ++ text "_sum")
            (parse_f64_attribute fl r (text "otel.metric.sum")) exemplars

    unfoldable pub bucket_series : Bytes → List (Bytes × ℕ) → List (PromTimeSeries fl.F)
    unfolding prometheus_timeseries
    bucket_series metric_name [] = []
    bucket_series metric_name (b ∷ rest) =
        prometheus_timeseries (metric_name ++ text "_bucket")
          (record { name = text "le"; value = b.0 } ∷ []) (fl.of_unsigned b.1) []
        ∷ bucket_series metric_name rest

    unfoldable pub record_to_prometheus_histogram_timeseries : Bytes → List (PromTimeSeries fl.F)
    unfolding count_and_sum bucket_series cumulative with_bounds
    record_to_prometheus_histogram_timeseries metric_name =
        count_and_sum metric_name (prometheus_exemplars fl r)
        ++ bucket_series metric_name (
            cumulative 0 (
              with_bounds (parse_f64_list_attribute fl r (text "otel.metric.explicit_bounds"))
                (parse_u64_list_attribute r (text "otel.metric.bucket_counts"))))

    unfoldable pub infinite_bucket : Bytes → ℕ → Option ℕ → List (PromTimeSeries fl.F)
    unfolding bucket_series
    infinite_bucket metric_name cumulative_count none = []
    infinite_bucket metric_name cumulative_count (some count) =
        bucket_series metric_name
          ((text "+Inf", if leb cumulative_count count then count else cumulative_count) ∷ [])

    unfoldable pub record_to_prometheus_exponential_histogram_timeseries :
        Bytes → List (PromTimeSeries fl.F)
    unfolding count_and_sum bucket_series cumulative last_count infinite_bucket
    record_to_prometheus_exponential_histogram_timeseries metric_name =
        let buckets = cumulative 0 (exponential_histogram_prometheus_buckets fl r) in
        count_and_sum metric_name (prometheus_exemplars fl r)
        ++ (bucket_series metric_name buckets
            ++ infinite_bucket metric_name (last_count 0 buckets)
                (parse_u64_attribute r (text "otel.metric.count")))

    unfoldable pub quantile_series : Bytes → List (fl.F × fl.F) → List (PromTimeSeries fl.F)
    unfolding prometheus_timeseries
    quantile_series metric_name [] = []
    quantile_series metric_name (q ∷ rest) =
        prometheus_timeseries metric_name
          (record { name = text "quantile"; value = fl.to_text q.0 } ∷ []) q.1 []
        ∷ quantile_series metric_name rest

    unfoldable pub record_to_prometheus_summary_timeseries : Bytes → List (PromTimeSeries fl.F)
    unfolding count_and_sum quantile_series
    record_to_prometheus_summary_timeseries metric_name =
        count_and_sum metric_name []
        ++ quantile_series metric_name
            (parse_quantile_values_attribute fl r (text "otel.metric.quantile_values"))

    -- By the data type.
    unfoldable pub series_by_type : Bytes → Bytes → List (PromTimeSeries fl.F)
    unfolding ◌=text◌ optional_series
    series_by_type metric_name data_type =
        if data_type =text text "histogram"
        then record_to_prometheus_histogram_timeseries metric_name
        else if data_type =text text "exponential_histogram"
        then record_to_prometheus_exponential_histogram_timeseries metric_name
        else if data_type =text text "summary"
        then record_to_prometheus_summary_timeseries metric_name
        else optional_series (record_to_prometheus_scalar_timeseries metric_name)

  -- Nothing where the record names no metric.
  unfoldable pub named_series : TelemetryRecord → Option Bytes → List (PromTimeSeries fl.F)
  unfolding series_by_type sanitize_prometheus_metric_name
  named_series r none = []
  named_series r (some name) =
      series_by_type r (sanitize_prometheus_metric_name name)
        (unwrap_or (find_attribute r (text "otel.metric.data_type")) [])

  unfoldable pub record_to_prometheus_timeseries : TelemetryRecord → List (PromTimeSeries fl.F)
  unfolding named_series metric_name
  record_to_prometheus_timeseries r = named_series r (metric_name r)

  unfoldable pub batch_to_prometheus_remote_write_request :
      List TelemetryRecord → List (PromTimeSeries fl.F)
  unfolding flat_map record_to_prometheus_timeseries of_signal
  batch_to_prometheus_remote_write_request records =
      flat_map record_to_prometheus_timeseries (of_signal SignalKind.metric records)
