-- ===== src/Agent/Export.antt =====
-- crates/telemetry-agent/src/runtime.rs: `export_records`, and the exporters as it sees them.
-- A `dyn Exporter` is a value of a type `X` that is left open; `export` is its method under
-- `tokio::time::timeout`, with `none` for a timeout. It returns what the exporter has become. A
-- duration is a number of milliseconds. What is printed to the error output is left out.
pub mod Retry
pub mod Grouping
pub mod Delivery
use telemetry_fabric.Prelude.{
  ℕ, zero, suc, ◌+◌, ◌-◌, ◌*◌, ◌%◌, ◌^◌, ◌++◌, List, [], ◌∷◌, Option, none, some, Bool, true, false,
  ltb, ◌==◌, ◌=text◌, if◌then◌else◌, find,
}
use telemetry_fabric.Prelude.Words.{add_u64}
use telemetry_fabric.Prelude.Result.{Result, ok, err}
use telemetry_fabric.Std.Bytes.{Bytes}
use telemetry_fabric.Std.Text.{text}
use telemetry_fabric.Std.Decimal.{decimal}
use telemetry_fabric.Core.Error.{PipelineError, display_pipeline_error}
use telemetry_fabric.Core.Telemetry.{TelemetryRecord, RecordBatch}
use telemetry_fabric.Core.Config.{
  PipelineConfig, ExporterConfig, ExporterRetryConfig, default_retry,
}
use telemetry_fabric.Core.Routing.{exporters_for}
use telemetry_fabric.Buffer.Error.{DiskQueueError, sink_failed}
use telemetry_fabric.Exporters.Error.{ExporterError, display_exporter_error}
use telemetry_fabric.Agent.Runtime.{FlushReport}

pub record ExportReport : Type 0 where
  pub records : ℕ
  pub bytes : ℕ

-- What comes of one call of `export`: a result, or a timeout.
abbrev pub Outcome : Type 0
Outcome = Option (Result ExporterError ExportReport)

-- An exporter's method: the milliseconds that it has, the exporter, the batch.
abbrev pub Export : Type 0 → Type 0
Export X = ℕ → X → RecordBatch → Outcome × X

-- `BTreeMap<String, Box<dyn Exporter>>`
abbrev pub ExporterMap : Type 0 → Type 0
ExporterMap X = List (Bytes × X)

abbrev pub no_report : FlushReport
no_report = record {
  drained_records = 0;
  exported_records = 0;
  dropped_records = 0;
  exported_bytes = 0;
}

-- The order of `String`: by bytes.
unfoldable pub text_lt : Bytes → Bytes → Bool
text_lt [] [] = false
text_lt [] (b ∷ t) = true
text_lt (a ∷ s) [] = false
text_lt (a ∷ s) (b ∷ t) = let rest = text_lt s t in if a == b then rest else ltb a b

-- `BTreeMap<String, Vec<TelemetryRecord>>`, in order of its keys.
abbrev pub Groups : Type 0
Groups = List (Bytes × List TelemetryRecord)

-- `grouped.entry(name).or_default().push(record)`
unfoldable pub push_group : Bytes → TelemetryRecord → Groups → Groups
push_group name r [] = (name, r ∷ []) ∷ []
push_group name r ((n, rs) ∷ groups) =
    if n =text name
    then (n, rs ++ (r ∷ [])) ∷ groups
    else let later = push_group name r groups in
      if text_lt name n then (name, r ∷ []) ∷ (n, rs) ∷ groups else (n, rs) ∷ later

unfoldable pub push_groups : List ExporterConfig → TelemetryRecord → Groups → Groups
push_groups [] r groups = groups
push_groups (e ∷ es) r groups = push_groups es r (push_group e.name r groups)

group_routed :
    TelemetryRecord
    → Result PipelineError (List ExporterConfig)
    → Groups
    → Result DiskQueueError Groups
group_routed r (err e) groups = err (sink_failed (display_pipeline_error e))
group_routed r (ok es) groups = ok (push_groups es r groups)

group_next :
    (Groups → Result DiskQueueError Groups)
    → Result DiskQueueError Groups
    → Result DiskQueueError Groups
group_next more (err e) = err e
group_next more (ok groups) = more groups

-- The first loop of `export_records`.
unfoldable pub group_records :
    PipelineConfig → List TelemetryRecord → Groups → Result DiskQueueError Groups
unfolding group_routed group_next
group_records config [] groups = ok groups
group_records config (r ∷ rs) groups =
    group_next (group_records config rs) (group_routed r (exporters_for config r.signal) groups)

-- The wait behind a failed attempt. `attempt - 1` is cut to 32 bits, and a shift by 32 or more
-- gives none. The wait is in milliseconds; the program panics where it is beyond the range of a
-- `Duration`, 2^64 seconds, and here it is not cut.
unfoldable pub backoff : ℕ → ExporterRetryConfig → ℕ
backoff attempt retry =
    let shift = (attempt - 1) % 2 ^ 32 in
    retry.initial_backoff_ms * (if ltb shift 32 then 2 ^ shift else 1)

unfoldable pub failed_text : Bytes → ℕ → ExporterError → Bytes
failed_text name attempt e =
    text "exporter "
    ++ (name
        ++ (text " failed after "
            ++ (decimal attempt ++ (text " attempts: " ++ display_exporter_error e))))

unfoldable pub timed_out_text : Bytes → ℕ → Bytes
timed_out_text name attempt =
    text "exporter "
    ++ (name ++ (text " timed out after " ++ (decimal attempt ++ text " attempts")))

-- The error behind the last attempt.
last_error : Bytes → ℕ → Option ExporterError → DiskQueueError
last_error name attempt (some e) = sink_failed (failed_text name attempt e)
last_error name attempt none = sink_failed (timed_out_text name attempt)

-- `none` where the attempt succeeded; else why it did not: an error, or a timeout.
abbrev pub Failure : Type 0
Failure = Option ExporterError

module _ {X : Type 0} (export : Export X) where
  -- What the attempts gave, the exporter, and the waits between the attempts.
  abbrev pub Attempts : Type 0
  Attempts = Result DiskQueueError ExportReport × X × List ℕ

  waited : ℕ → Attempts → Attempts
  waited ms (r, x, waits) = (r, x, ms ∷ waits)

  -- The loop of `export_with_retry`; `left` is `retry.max_attempts - attempt`, the number of
  -- attempts that may follow.
  unfoldable pub attempts_from : Bytes → ExporterRetryConfig → RecordBatch → ℕ → ℕ → X → Attempts
  unfolding waited last_error
  attempts_from name retry batch zero attempt x =
      let (outcome, x') = export retry.timeout_ms x batch in
      elim outcome [
        | some (ok report) ↦ (ok report, x', [])
        | some (err e) ↦ (err (last_error name attempt (some e)), x', [])
        | none ↦ (err (last_error name attempt none), x', [])
      ]
  attempts_from name retry batch (suc left) attempt x =
      let (outcome, x') = export retry.timeout_ms x batch in
      elim outcome [
        | some (ok report) ↦ (ok report, x', [])
        | some (err e) ↦
            waited (backoff attempt retry) (attempts_from name retry batch left (attempt + 1) x')
        | none ↦
            waited (backoff attempt retry) (attempts_from name retry batch left (attempt + 1) x')
      ]

  unfoldable pub export_with_retry : Bytes → X → RecordBatch → ExporterRetryConfig → Attempts
  export_with_retry name x batch retry = attempts_from name retry batch (retry.max_attempts - 1) 1 x

-- `config.exporters.iter().find(..).map(|exporter| exporter.retry).unwrap_or_default()`
unfoldable pub retry_of : Bytes → List ExporterConfig → ExporterRetryConfig
retry_of name exporters = elim (find (λ (e : ExporterConfig). e.name =text name) exporters) [
  | none ↦ default_retry
  | some e ↦ e.retry
]

module _ {X : Type 0} where
  -- `exporters.get_mut(name)`
  unfoldable pub get_exporter : Bytes → ExporterMap X → Option X
  get_exporter name [] = none
  get_exporter name ((n, x) ∷ exporters) =
      if n =text name then some x else get_exporter name exporters

  -- The exporter that was got has changed in place.
  unfoldable pub put_exporter : Bytes → X → ExporterMap X → ExporterMap X
  put_exporter name x [] = []
  put_exporter name x ((n, y) ∷ exporters) =
      if n =text name then (n, x) ∷ exporters else (n, y) ∷ put_exporter name x exporters

add_report : ExportReport → FlushReport → FlushReport
add_report e r = record r {
  exported_records = add_u64 r.exported_records e.records;
  exported_bytes = add_u64 r.exported_bytes e.bytes;
}

module _ {X : Type 0} (export : Export X) where
  abbrev pub Exported : Type 0
  Exported = Result DiskQueueError FlushReport × ExporterMap X

  -- After one group: on to the others, or out with its error.
  next_group :
      Bytes
      → FlushReport
      → ExporterMap X
      → (FlushReport → ExporterMap X → Exported)
      → Attempts export
      → Exported
  unfolding add_report
  next_group name report exporters more (err e, x, waits) = (err e, put_exporter name x exporters)
  next_group name report exporters more (ok done, x, waits) =
      more (add_report done report) (put_exporter name x exporters)

  -- One group, with the exporter of its name, if there is one.
  export_group :
      PipelineConfig
      → Bytes
      → List TelemetryRecord
      → FlushReport
      → ExporterMap X
      → (FlushReport → ExporterMap X → Exported)
      → Option X
      → Exported
  unfolding next_group
  export_group config name records report exporters more none =
      (err (sink_failed (text "exporter not initialized: " ++ name)), exporters)
  export_group config name records report exporters more (some x) =
      next_group name report exporters more (
        export_with_retry export name x (record { records = records })
          (retry_of name config.exporters))

  -- The second loop of `export_records`.
  unfoldable pub export_groups : PipelineConfig → Groups → FlushReport → ExporterMap X → Exported
  unfolding export_group
  export_groups config [] report exporters = (ok report, exporters)
  export_groups config ((name, records) ∷ groups) report exporters =
      export_group config name records report exporters (export_groups config groups)
        (get_exporter name exporters)

  export_grouped : PipelineConfig → ExporterMap X → Result DiskQueueError Groups → Exported
  export_grouped config exporters (err e) = (err e, exporters)
  export_grouped config exporters (ok groups) = export_groups config groups no_report exporters

  unfoldable pub export_records : PipelineConfig → ExporterMap X → List TelemetryRecord → Exported
  unfolding export_grouped
  export_records config exporters records =
      export_grouped config exporters (group_records config records [])
