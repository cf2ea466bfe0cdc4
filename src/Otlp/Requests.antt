-- ===== src/Otlp/Requests.antt =====
-- `metric_to_records` and the requests of the three signals, as the records that they give in order.
-- Each record waits for the clock that it reads.
use telemetry_fabric.Prelude.{ℕ, suc, Bool, List, [], ◌∷◌, ◌++◌, map, Option, none, some, unwrap_or}
use telemetry_fabric.Std.Bytes.{Bytes}
use telemetry_fabric.Std.Text.{text}
use telemetry_fabric.Std.Signed.{ℤ}
use telemetry_fabric.Core.Telemetry.{Attribute, TelemetryRecord}
use telemetry_fabric.Otlp.Messages.{
  Floats, KeyValues, MetricData, gauge, sum, histogram, exponential_histogram, summary, Metric,
  Span, LogRecord, Scoped, Resourced,
}
use telemetry_fabric.Otlp.Values.{attributes_from_key_values}
use telemetry_fabric.Otlp.Records.{span_to_record, log_record_to_record}
use telemetry_fabric.Otlp.Metrics.{
  Origin, MetricRecordMetadata, number_data_point_to_record, histogram_data_point_to_record,
  exponential_histogram_data_point_to_record, summary_data_point_to_record,
}

-- A record but for its time.
abbrev pub Pending : Type 0
Pending = Option ℕ → TelemetryRecord

-- The loops that push a record where there is one.
unfoldable pub filter_map {ℓ κ} : {A : Type ℓ} {B : Type κ} → (A → Option B) → List A → List B
filter_map f [] = []
filter_map f (a ∷ rest) = elim (f a) [ none ↦ filter_map f rest | some b ↦ b ∷ filter_map f rest ]

unfoldable pub flat_map {ℓ κ} : {A : Type ℓ} {B : Type κ} → (A → List B) → List A → List B
flat_map f [] = []
flat_map f (a ∷ rest) = f a ++ flat_map f rest

module _ (fl : Floats) where
  metadata_of : Metric fl.F → Bytes → Option ℤ → Option Bool → MetricRecordMetadata
  metadata_of m data_type temporality monotonic = record {
    name = m.name;
    description = m.description;
    unit = m.unit;
    data_type = data_type;
    aggregation_temporality = temporality;
    is_monotonic = monotonic;
  }

  module _ (temporality_name : ℤ → Option Bytes) where
    unfoldable pub metric_data_to_records :
        Origin → Metric fl.F → Option (MetricData fl.F) → List Pending
    unfolding metadata_of filter_map
    metric_data_to_records o m none = []
    metric_data_to_records o m (some (gauge points)) =
        filter_map
          (number_data_point_to_record fl temporality_name o
            (metadata_of m (text "gauge") none none))
          points
    metric_data_to_records o m (some (sum points temporality is_monotonic)) =
        filter_map
          (number_data_point_to_record fl temporality_name o
            (metadata_of m (text "sum") (some temporality) (some is_monotonic)))
          points
    metric_data_to_records o m (some (histogram points temporality)) =
        map
          (histogram_data_point_to_record fl temporality_name o
            (metadata_of m (text "histogram") (some temporality) none))
          points
    metric_data_to_records o m (some (exponential_histogram points temporality)) =
        map
          (exponential_histogram_data_point_to_record fl temporality_name o
            (metadata_of m (text "exponential_histogram") (some temporality) none))
          points
    metric_data_to_records o m (some (summary points)) =
        map
          (summary_data_point_to_record fl temporality_name o
            (metadata_of m (text "summary") none none))
          points

    unfoldable pub metric_to_records : Bytes → List Attribute → Bytes → Metric fl.F → List Pending
    unfolding metric_data_to_records
    metric_to_records tenant_id resource_attributes scope_name m =
        metric_data_to_records
          (record {
            tenant_id = tenant_id;
            resource_attributes = resource_attributes;
            scope_name = scope_name;
          })
          m m.points

  unfoldable pub resource_attributes_of : Option (KeyValues fl.F) → List Attribute
  resource_attributes_of none = []
  resource_attributes_of (some attributes) =
      attributes_from_key_values fl (text "resource.") attributes

  module _ {T : Type 0} (item_to_records : List Attribute → Bytes → T → List Pending) where
    unfoldable pub scope_to_records : List Attribute → Scoped T → List Pending
    unfolding flat_map
    scope_to_records resource_attributes s =
        flat_map (item_to_records resource_attributes (unwrap_or s.scope [])) s.items

    unfoldable pub resource_to_records : Resourced fl.F T → List Pending
    unfolding flat_map scope_to_records resource_attributes_of
    resource_to_records r = flat_map (scope_to_records (resource_attributes_of r.resource)) r.scopes

    -- The three nested loops, the same for each signal.
    unfoldable pub request_to_records : List (Resourced fl.F T) → List Pending
    unfolding flat_map resource_to_records
    request_to_records request = flat_map resource_to_records request

  unfoldable pub trace_request_to_records : Bytes → List (Resourced fl.F (Span fl.F)) → List Pending
  unfolding request_to_records
  trace_request_to_records tenant_id =
      request_to_records
        λ attributes scope_name span. span_to_record fl tenant_id attributes scope_name span ∷ []

  unfoldable pub metrics_request_to_records :
      (ℤ → Option Bytes) → Bytes → List (Resourced fl.F (Metric fl.F)) → List Pending
  unfolding request_to_records metric_to_records
  metrics_request_to_records temporality_name tenant_id =
      request_to_records (metric_to_records temporality_name tenant_id)

  unfoldable pub logs_request_to_records :
      Bytes → List (Resourced fl.F (LogRecord fl.F)) → List Pending
  unfolding request_to_records
  logs_request_to_records tenant_id = request_to_records λ attributes scope_name log_record.
      log_record_to_record fl tenant_id attributes scope_name log_record ∷ []

-- The times at which the records are made, the first one at `clock n`.
unfoldable pub stamp : (ℕ → Option ℕ) → ℕ → List Pending → List TelemetryRecord
stamp clock n [] = []
stamp clock n (r ∷ rest) = r (clock n) ∷ stamp clock (suc n) rest
