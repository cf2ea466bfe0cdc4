-- ===== src/Otlp/Messages.antt =====
-- The OTLP messages, which `opentelemetry_proto` generates. Spans and log records have all the fields
-- that OTLP documents, those too that the agent loses. Of a pair its `key_strindex`, of a metric its
-- metadata, of a scope its version and its attributes, and of a resource and its scopes the dropped
-- counts, entity references and schema URLs are left out: the receivers do not read them, and the
-- exporters write them as zero or empty. `F` is `f64`. A `Vec<KeyValue>` is `KeyValues`.
use telemetry_fabric.Prelude.{ℕ, Bool, List, Option}
use telemetry_fabric.Std.Bytes.{Bytes}
use telemetry_fabric.Std.Signed.{ℤ}

-- What the code uses of `f64`. There are no floats in the model.
pub record Floats : Type 1 where
  pub F : Type 0
  pub to_text : F → Bytes
  -- `str::parse::<f64>`
  pub parse : Bytes → Option F
  pub is_finite : F → Bool
  -- `as f64`
  pub of_unsigned : ℕ → F
  pub of_signed : ℤ → F
  pub negate : F → F
  -- `2_f64.powf(2_f64.powi(n))`
  pub base_of : ℤ → F
  pub powi : F → ℤ → F
  -- Whether `total_cmp` says that the first is not greater.
  pub total_le : F → F → Bool

mutual
  -- `AnyValue` and its `any_value::Value`; `empty` where there is no value.
  pub data AnyValue (F : Type 0) : Type 0 where
    empty : AnyValue F
    string_value : Bytes → AnyValue F
    bool_value : Bool → AnyValue F
    int_value : ℤ → AnyValue F
    double_value : F → AnyValue F
    bytes_value : Bytes → AnyValue F
    array_value : Values F → AnyValue F
    kvlist_value : KeyValues F → AnyValue F
    string_value_strindex : ℤ → AnyValue F

  pub data Values (F : Type 0) : Type 0 where
    nil : Values F
    cons : AnyValue F → Values F → Values F

  -- A key with its value, or with none.
  pub data KeyValues (F : Type 0) : Type 0 where
    end : KeyValues F
    pair : Bytes → AnyValue F → KeyValues F → KeyValues F
    bare : Bytes → KeyValues F → KeyValues F

-- `span::Event`
pub record Event (F : Type 0) : Type 0 where
  pub time_unix_nano : ℕ
  pub name : Bytes
  pub attributes : KeyValues F
  pub dropped_attributes_count : ℕ

-- `span::Link`, to a span of another trace or of this one.
pub record SpanLink (F : Type 0) : Type 0 where
  pub trace_id : Bytes
  pub span_id : Bytes
  pub trace_state : Bytes
  pub attributes : KeyValues F
  pub dropped_attributes_count : ℕ
  pub flags : ℕ

-- `Status` of a span.
pub record SpanStatus : Type 0 where
  pub message : Bytes
  pub code : ℤ

pub record Span (F : Type 0) : Type 0 where
  pub trace_id : Bytes
  pub span_id : Bytes
  pub trace_state : Bytes
  pub parent_span_id : Bytes
  pub flags : ℕ
  pub name : Bytes
  pub kind : ℤ
  pub start_time_unix_nano : ℕ
  pub end_time_unix_nano : ℕ
  pub attributes : KeyValues F
  pub dropped_attributes_count : ℕ
  pub events : List (Event F)
  pub dropped_events_count : ℕ
  pub links : List (SpanLink F)
  pub dropped_links_count : ℕ
  pub status : Option SpanStatus

pub record LogRecord (F : Type 0) : Type 0 where
  pub time_unix_nano : ℕ
  pub observed_time_unix_nano : ℕ
  pub severity_number : ℤ
  pub severity_text : Bytes
  pub body : Option (AnyValue F)
  pub attributes : KeyValues F
  pub dropped_attributes_count : ℕ
  pub flags : ℕ
  pub trace_id : Bytes
  pub span_id : Bytes
  pub event_name : Bytes

-- `number_data_point::Value` and `exemplar::Value`.
pub data Number (F : Type 0) : Type 0 where
  as_double : F → Number F
  as_int : ℤ → Number F

pub record Exemplar (F : Type 0) : Type 0 where
  pub filtered_attributes : KeyValues F
  pub time_unix_nano : ℕ
  pub span_id : Bytes
  pub trace_id : Bytes
  pub value : Option (Number F)

pub record NumberDataPoint (F : Type 0) : Type 0 where
  pub attributes : KeyValues F
  pub start_time_unix_nano : ℕ
  pub time_unix_nano : ℕ
  pub value : Option (Number F)
  pub exemplars : List (Exemplar F)
  pub flags : ℕ

pub record HistogramDataPoint (F : Type 0) : Type 0 where
  pub attributes : KeyValues F
  pub start_time_unix_nano : ℕ
  pub time_unix_nano : ℕ
  pub count : ℕ
  pub sum : Option F
  pub bucket_counts : List ℕ
  pub explicit_bounds : List F
  pub exemplars : List (Exemplar F)
  pub flags : ℕ
  pub min : Option F
  pub max : Option F

pub record Buckets : Type 0 where
  pub offset : ℤ
  pub bucket_counts : List ℕ

pub record ExponentialHistogramDataPoint (F : Type 0) : Type 0 where
  pub attributes : KeyValues F
  pub start_time_unix_nano : ℕ
  pub time_unix_nano : ℕ
  pub count : ℕ
  pub sum : Option F
  pub scale : ℤ
  pub zero_count : ℕ
  pub positive : Option Buckets
  pub negative : Option Buckets
  pub flags : ℕ
  pub exemplars : List (Exemplar F)
  pub min : Option F
  pub max : Option F
  pub zero_threshold : F

pub record ValueAtQuantile (F : Type 0) : Type 0 where
  pub quantile : F
  pub value : F

pub record SummaryDataPoint (F : Type 0) : Type 0 where
  pub attributes : KeyValues F
  pub start_time_unix_nano : ℕ
  pub time_unix_nano : ℕ
  pub count : ℕ
  pub sum : F
  pub quantile_values : List (ValueAtQuantile F)
  pub flags : ℕ

-- `metric::Data`, with the aggregation temporality of the messages that have one.
pub data MetricData (F : Type 0) : Type 0 where
  gauge : List (NumberDataPoint F) → MetricData F
  sum : List (NumberDataPoint F) → (temporality : ℤ) → (is_monotonic : Bool) → MetricData F
  histogram : List (HistogramDataPoint F) → (temporality : ℤ) → MetricData F
  exponential_histogram : List (ExponentialHistogramDataPoint F) → (temporality : ℤ) → MetricData F
  summary : List (SummaryDataPoint F) → MetricData F

pub record Metric (F : Type 0) : Type 0 where
  pub name : Bytes
  pub description : Bytes
  pub unit : Bytes
  pub points : Option (MetricData F)

-- `ScopeSpans`, `ScopeMetrics` and `ScopeLogs`: the name of the scope, if there is one.
pub record Scoped (T : Type 0) : Type 0 where
  pub scope : Option Bytes
  pub items : List T

-- `ResourceSpans`, `ResourceMetrics` and `ResourceLogs`: the attributes of the resource.
pub record Resourced (F T : Type 0) : Type 0 where
  pub resource : Option (KeyValues F)
  pub scopes : List (Scoped T)
