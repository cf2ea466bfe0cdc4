-- ===== src/Agent/Flush.antt =====
-- crates/telemetry-agent/src/runtime.rs: a flush that holds the runtime all the time, opening and
-- reloading. `clocks` holds the times at which the processors ask, a list for each record.
pub mod Processing
pub mod Outcome
use telemetry_fabric.Prelude.{
  ℕ, ◌++◌, List, [], ◌∷◌, Option, none, some, Bool, true, false, length, if◌then◌else◌,
}
use telemetry_fabric.Prelude.Words.{add_u64}
use telemetry_fabric.Prelude.Result.{Result, ok, err}
use telemetry_fabric.Std.Bytes.{Bytes}
use telemetry_fabric.Core.Error.{PipelineError, TelemetryError, display_telemetry_error}
use telemetry_fabric.Core.Telemetry.{TelemetryRecord, decode}
use telemetry_fabric.Core.Config.{PipelineConfig, ExporterConfig, validate_config}
use telemetry_fabric.Buffer.Error.{DiskQueueError, sink_failed}
use telemetry_fabric.Buffer.Files.{Dir}
use telemetry_fabric.Buffer.Queue.{
  DiskQueue, DiskQueueOptions, PendingBatch, open_queue, read_batch, commit_batch,
}
use telemetry_fabric.Processors.{ProcessorChain, from_config, process}
use telemetry_fabric.Exporters.Error.{ExporterError}
use telemetry_fabric.Agent.Runtime.{
  AgentRuntime, FlushReport, RuntimeMetrics, record_flush_success, record_flush_failure,
}
use telemetry_fabric.Agent.Export.{Export, ExporterMap, no_report, export_records}

-- What the processors made of a batch: the records that are left, and how many were dropped.
pub record Processed : Type 0 where
  pub records : List TelemetryRecord
  pub dropped : ℕ

abbrev pub first_clock : List (List ℕ) → List ℕ
first_clock [] = []
first_clock (clock ∷ clocks) = clock

abbrev pub later_clocks : List (List ℕ) → List (List ℕ)
later_clocks [] = []
later_clocks (clock ∷ clocks) = clocks

keep_or_drop : Option TelemetryRecord → Processed → Processed
keep_or_drop (some r) p = record p { records = p.records ++ (r ∷ []) }
keep_or_drop none p = record p { dropped = add_u64 p.dropped 1 }

abbrev Looped : Type 0
Looped = Result DiskQueueError Processed × ProcessorChain

-- One round, for a record that was decoded.
process_decoded :
    (Processed → ProcessorChain → Looped)
    → Processed
    → List ℕ
    → ProcessorChain
    → Result TelemetryError TelemetryRecord
    → Looped
unfolding keep_or_drop
process_decoded more done clock chain (err e) =
    (err (sink_failed (display_telemetry_error e)), chain)
process_decoded more done clock chain (ok r) =
    let (out, chain') = process clock r chain in more (keep_or_drop out done) chain'

-- `for payload in batch.payloads()`
unfoldable pub process_payloads :
    List (List ℕ)
    → List Bytes
    → Processed
    → ProcessorChain
    → Result DiskQueueError Processed × ProcessorChain
unfolding process_decoded
process_payloads clocks [] done chain = (ok done, chain)
process_payloads clocks (payload ∷ payloads) done chain =
    process_decoded (process_payloads (later_clocks clocks) payloads) done (first_clock clocks)
      chain (decode payload)

abbrev pub nothing_done : Processed
nothing_done = record { records = []; dropped = 0 }

-- The report on a batch that was read and processed.
abbrev pub report_of : PendingBatch → Processed → FlushReport
report_of batch p = record {
  drained_records = length batch.payloads;
  exported_records = 0;
  dropped_records = p.dropped;
  exported_bytes = 0;
}

-- `report.exported_records += ..; report.exported_bytes += ..`
abbrev pub with_exported : FlushReport → FlushReport → FlushReport
with_exported report exported = record report {
  exported_records = add_u64 report.exported_records exported.exported_records;
  exported_bytes = add_u64 report.exported_bytes exported.exported_bytes;
}

-- An agent whose exporters are of the type `X`, and the result of a flush with the agent behind it.
abbrev pub Agent : Type 0 → Type 0
Agent X = AgentRuntime (ExporterMap X)

abbrev pub Flushed : Type 0 → Type 0
Flushed X = Result DiskQueueError FlushReport × Agent X

abbrev pub count_attempt : RuntimeMetrics → RuntimeMetrics
count_attempt m = record m { flush_attempts_total = add_u64 m.flush_attempts_total 1 }

module _ {X : Type 0} where
  -- `self.queue.commit_batch(batch)?; Ok(report)`
  unfoldable pub commit_and_report : PendingBatch → FlushReport → Agent X → Flushed X
  commit_and_report batch report a =
      let (r, q) = commit_batch batch a.queue in
      (elim r [ err e ↦ err e | ok _ ↦ ok report ], record a { queue = q })

  after_export :
      PendingBatch
      → FlushReport
      → Agent X
      → Result DiskQueueError FlushReport × ExporterMap X
      → Flushed X
  after_export batch report a (err e, exporters) = (err e, record a { exporters = exporters })
  after_export batch report a (ok exported, exporters) =
      commit_and_report batch (with_exported report exported) (record a { exporters = exporters })

  after_process :
      Export X
      → PendingBatch
      → Agent X
      → Result DiskQueueError Processed × ProcessorChain
      → Flushed X
  unfolding after_export
  after_process export batch a (err e, chain) = (err e, record a { processors = chain })
  after_process export batch a (ok p, chain) =
      after_export batch (report_of batch p) (record a { processors = chain })
        (export_records export a.config a.exporters p.records)

  -- `if batch.is_empty()`, and the rest.
  flush_payloads : Export X → List (List ℕ) → PendingBatch → Agent X → List Bytes → Flushed X
  unfolding after_process
  flush_payloads export clocks batch a [] = commit_and_report batch (report_of batch nothing_done) a
  flush_payloads export clocks batch a (payload ∷ payloads) =
      after_process export batch a
        (process_payloads clocks (payload ∷ payloads) nothing_done a.processors)

  flush_read :
      Export X
      → List (List ℕ)
      → Agent X
      → Result DiskQueueError PendingBatch × DiskQueue
      → Flushed X
  unfolding flush_payloads
  flush_read export clocks a (err e, q) = (err e, record a { queue = q })
  flush_read export clocks a (ok batch, q) =
      flush_payloads export clocks batch (record a { queue = q }) batch.payloads

  unfoldable pub flush_inner : Export X → List (List ℕ) → ℕ → Agent X → Flushed X
  unfolding flush_read
  flush_inner export clocks max_items a = flush_read export clocks a (read_batch max_items a.queue)

  abbrev pub with_metrics : (RuntimeMetrics → RuntimeMetrics) → Agent X → Agent X
  with_metrics f a = record a { metrics = f a.metrics }

  -- `record_flush_success` or `record_flush_failure`, by the result.
  unfoldable pub count_flush : Flushed X → Flushed X
  count_flush (ok report, a) = (ok report, with_metrics (record_flush_success report) a)
  count_flush (err e, a) = (err e, with_metrics record_flush_failure a)

  unfoldable pub flush_unpaused : Export X → List (List ℕ) → ℕ → Agent X → Flushed X
  flush_unpaused export clocks max_items a =
      count_flush (flush_inner export clocks max_items (with_metrics count_attempt a))

  unfoldable pub flush : Export X → List (List ℕ) → ℕ → Agent X → Flushed X
  flush export clocks max_items a =
      if a.exports_paused then (ok no_report, a) else flush_unpaused export clocks max_items a

  unfoldable pub flush_to_stdout :
      Export X → List (List ℕ) → ℕ → Agent X → Result DiskQueueError ℕ × Agent X
  flush_to_stdout export clocks max_items a =
      let (r, a') = flush export clocks max_items a in
      (elim r [ err e ↦ err e | ok report ↦ ok report.drained_records ], a')
