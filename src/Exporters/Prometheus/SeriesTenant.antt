-- ===== src/Exporters/Prometheus/SeriesTenant.antt =====
-- Every series of a request carries the tenant of the record that it comes from.
use telemetry_fabric.Prelude.{
  ℕ, ◌≡◌, refl, false, List, [], ◌∷◌, ◌++◌, Option, none, some, ◌=text◌, All, Bool-cases, inl, inr,
  Option-cases,
}
use telemetry_fabric.Std.Bytes.{Bytes}
use telemetry_fabric.Std.Text.{text}
use telemetry_fabric.Core.Telemetry.{TelemetryRecord}
use telemetry_fabric.Otlp.Messages.{Floats}
use telemetry_fabric.Exporters.Attributes.{and_then}
use telemetry_fabric.Exporters.Metrics.{metric_name, metric_value}
use telemetry_fabric.Exporters.Prometheus.Labels.{PromLabel, lookup_label}
use telemetry_fabric.Exporters.Prometheus.Tenant.{prometheus_labels-tenant}
use telemetry_fabric.Exporters.Prometheus.Exemplars.{
  PromExemplar, metric_value_to_f64, prometheus_exemplars,
}
use telemetry_fabric.Exporters.Prometheus.Series.{
  PromTimeSeries, prometheus_timeseries, record_to_prometheus_scalar_timeseries, series_of,
  count_and_sum, bucket_series, infinite_bucket, quantile_series,
  record_to_prometheus_histogram_timeseries, record_to_prometheus_exponential_histogram_timeseries,
  record_to_prometheus_summary_timeseries, optional_series, series_by_type, named_series,
  record_to_prometheus_timeseries,
}

All-append {ℓ κ} :
    {A : Type ℓ} (P : A → Type κ) (xs ys : List A) → All P xs → All P ys → All P (xs ++ ys)
All-append P [] ys h k = k
All-append P (x ∷ xs) ys h k = (h.0, All-append P xs ys h.1 k)

module _ (fl : Floats) (r : TelemetryRecord) where
  abbrev pub HasTenant : PromTimeSeries fl.F → Type 0
  HasTenant s = lookup_label (text "tenant_id") s.labels ≡ some r.tenant_id

  plain :
      (name : Bytes) (value : fl.F) (exemplars : List (PromExemplar fl.F))
      → HasTenant (prometheus_timeseries fl r name [] value exemplars)
  unfolding prometheus_timeseries
  plain name value exemplars = (prometheus_labels-tenant r name [] tt tt).0

  labelled :
      (name : Bytes) (l : PromLabel) (value : fl.F)
      → (l.name =text text "tenant_id") ≡ false
      → (l.name =text text "__name__") ≡ false
      → HasTenant (prometheus_timeseries fl r name (l ∷ []) value [])
  unfolding prometheus_timeseries
  labelled name l value h k = (prometheus_labels-tenant r name (l ∷ []) (h, tt) (k, tt)).0

  series_of-HasTenant :
      (name : Bytes) (value : Option fl.F) (exemplars : List (PromExemplar fl.F))
      → All HasTenant (series_of fl r name value exemplars)
  unfolding series_of
  series_of-HasTenant name none exemplars = tt
  series_of-HasTenant name (some value) exemplars = (plain name value exemplars, tt)

  count_and_sum-HasTenant :
      (name : Bytes) (exemplars : List (PromExemplar fl.F))
      → All HasTenant (count_and_sum fl r name exemplars)
  unfolding count_and_sum
  count_and_sum-HasTenant name exemplars = search (All-append, series_of-HasTenant)

  bucket_series-HasTenant :
      (name : Bytes) (buckets : List (Bytes × ℕ)) → All HasTenant (bucket_series fl r name buckets)
  unfolding bucket_series text ◌=text◌
  bucket_series-HasTenant name [] = tt
  bucket_series-HasTenant name (b ∷ buckets) = (
    labelled _ (record { name = text "le"; value = b.0 }) (fl.of_unsigned b.1) refl refl,
    bucket_series-HasTenant name buckets,
  )

  infinite_bucket-HasTenant :
      (name : Bytes) (cumulative_count : ℕ) (count : Option ℕ)
      → All HasTenant (infinite_bucket fl r name cumulative_count count)
  unfolding infinite_bucket
  infinite_bucket-HasTenant name cumulative_count none = tt
  infinite_bucket-HasTenant name cumulative_count (some count) = search bucket_series-HasTenant

  quantile_series-HasTenant :
      (name : Bytes) (values : List (fl.F × fl.F))
      → All HasTenant (quantile_series fl r name values)
  unfolding quantile_series text ◌=text◌
  quantile_series-HasTenant name [] = tt
  quantile_series-HasTenant name (q ∷ values) = (
    labelled name (record { name = text "quantile"; value = fl.to_text q.0 }) q.1 refl refl,
    quantile_series-HasTenant name values,
  )

  scalar-HasTenant :
      (name : Bytes)
      → All HasTenant (optional_series fl (record_to_prometheus_scalar_timeseries fl r name))
  unfolding record_to_prometheus_scalar_timeseries optional_series and_then
  scalar-HasTenant name = elim (Option-cases (metric_value fl r)) [
    | inl e ↦ rw e tt
    | inr (number, e) ↦ elim (Option-cases (metric_value_to_f64 fl number)) [
      | inl f ↦ rw (e, f) tt
      | inr (value, f) ↦ rw (e, f) (plain name value (prometheus_exemplars fl r), tt)
    ]
  ]

  series_by_type-HasTenant :
      (name data_type : Bytes) → All HasTenant (series_by_type fl r name data_type)
  unfolding series_by_type record_to_prometheus_histogram_timeseries
      record_to_prometheus_exponential_histogram_timeseries record_to_prometheus_summary_timeseries
  series_by_type-HasTenant name data_type = elim (Bool-cases (data_type =text text "histogram")) [
    | inl e ↦ rw e (search (All-append, count_and_sum-HasTenant, bucket_series-HasTenant))
    | inr e ↦ elim (Bool-cases (data_type =text text "exponential_histogram")) [
      | inl f ↦
          rw (e, f)
            (search (
              All-append, count_and_sum-HasTenant, bucket_series-HasTenant,
              infinite_bucket-HasTenant,
            ))
      | inr f ↦ elim (Bool-cases (data_type =text text "summary")) [
        | inl g ↦
            rw (e, f, g) (search (All-append, count_and_sum-HasTenant, quantile_series-HasTenant))
        | inr g ↦ rw (e, f, g) (scalar-HasTenant name)
      ]
    ]
  ]

  named_series-HasTenant : (name : Option Bytes) → All HasTenant (named_series fl r name)
  unfolding named_series
  named_series-HasTenant none = tt
  named_series-HasTenant (some name) = search series_by_type-HasTenant

  -- Whatever the attributes of a record say, every series that it gives, of any type of metric, has
  -- the record's tenant as its label `tenant_id`.
  pub record_to_prometheus_timeseries-HasTenant :
      All HasTenant (record_to_prometheus_timeseries fl r)
  unfolding record_to_prometheus_timeseries
  record_to_prometheus_timeseries-HasTenant = named_series-HasTenant (metric_name r)
