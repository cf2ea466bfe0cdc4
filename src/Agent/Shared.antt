-- ===== src/Agent/Shared.antt =====
-- crates/telemetry-agent/src/runtime.rs: a flush that lets the runtime go while it exports. The
-- code locks the runtime twice: to prepare the work, and to finish it. What lies between the two is
-- `export_records` on a copy of the configuration, with the exporters taken out of the runtime.
pub mod InFlight
pub mod Locked
pub mod Ingesting
pub mod World
pub mod Interleaving
use telemetry_fabric.Prelude.{ℕ, List, [], ◌∷◌, Bool, true, false, not, ◌&&◌, ◌==◌, if◌then◌else◌}
use telemetry_fabric.Prelude.Result.{Result, ok, err}
use telemetry_fabric.Std.Bytes.{Bytes}
use telemetry_fabric.Core.Telemetry.{TelemetryRecord}
use telemetry_fabric.Core.Config.{PipelineConfig}
use telemetry_fabric.Buffer.Error.{DiskQueueError}
use telemetry_fabric.Buffer.Queue.{DiskQueue, PendingBatch, read_batch, commit_batch}
use telemetry_fabric.Processors.{ProcessorChain}
use telemetry_fabric.Agent.Runtime.{FlushReport, record_flush_success, record_flush_failure}
use telemetry_fabric.Agent.Export.{Export, ExporterMap, export_records}
use telemetry_fabric.Agent.Flush.{
  Agent, Flushed, Processed, nothing_done, report_of, with_exported, process_payloads,
  commit_and_report, with_metrics, count_attempt, count_flush,
}

pub record PreparedFlush (X : Type 0) : Type 0 where
  pub batch : PendingBatch
  pub report : FlushReport
  pub config : PipelineConfig
  pub exporters : ExporterMap X
  pub config_generation : ℕ
  pub records : List TelemetryRecord

-- `Result<PreparedFlushState, DiskQueueError>`
pub data PreparedFlushState (X : Type 0) : Type 0 where
  nothing : FlushReport → PreparedFlushState X
  ready : PreparedFlush X → PreparedFlushState X
  failed : DiskQueueError → PreparedFlushState X

-- What one turn of the loop of `prepare_shared_flush` comes to.
pub data Turn (X : Type 0) : Type 0 where
  skip : Turn X
  wait : Turn X
  prepared : PreparedFlush X → Turn X
  refused : DiskQueueError → Turn X

module _ {X : Type 0} where
  -- `commit_batch(batch)?` on a batch with no payloads.
  empty_work :
      FlushReport → Agent X → Result DiskQueueError ℕ × DiskQueue → PreparedFlushState X × Agent X
  empty_work report a (err e, q) = (failed e, record a { queue = q })
  empty_work report a (ok n, q) = (nothing report, record a { queue = q })

  -- `std::mem::take` leaves the runtime with no exporters.
  ready_work :
      PendingBatch
      → Agent X
      → Result DiskQueueError Processed × ProcessorChain
      → PreparedFlushState X × Agent X
  ready_work batch a (err e, chain) = (failed e, record a { processors = chain })
  ready_work batch a (ok p, chain) = (
    ready (record {
      batch = batch;
      report = report_of batch p;
      config = a.config;
      exporters = a.exporters;
      config_generation = a.config_generation;
      records = p.records;
    }),
    record a { processors = chain; exporters = [] },
  )

  work_on : List (List ℕ) → PendingBatch → Agent X → List Bytes → PreparedFlushState X × Agent X
  unfolding empty_work ready_work
  work_on clocks batch a [] =
      empty_work (report_of batch nothing_done) a (commit_batch batch a.queue)
  work_on clocks batch a (payload ∷ payloads) =
      ready_work batch a (process_payloads clocks (payload ∷ payloads) nothing_done a.processors)

  work_read :
      List (List ℕ)
      → Agent X
      → Result DiskQueueError PendingBatch × DiskQueue
      → PreparedFlushState X × Agent X
  unfolding work_on
  work_read clocks a (err e, q) = (failed e, record a { queue = q })
  work_read clocks a (ok batch, q) = work_on clocks batch (record a { queue = q }) batch.payloads

  unfoldable pub prepare_flush_work : List (List ℕ) → ℕ → Agent X → PreparedFlushState X × Agent X
  unfolding work_read
  prepare_flush_work clocks max_items a = work_read clocks a (read_batch max_items a.queue)

  turn_of : PreparedFlushState X × Agent X → Turn X × Agent X
  turn_of (nothing report, a) = (skip, with_metrics (record_flush_success report) a)
  turn_of (ready p, a) = (prepared p, record a { flush_in_progress = true })
  turn_of (failed e, a) = (refused e, with_metrics record_flush_failure a)

  -- One turn of the loop, under the lock. After `wait` the code sleeps and takes another turn.
  unfoldable pub prepare_turn : List (List ℕ) → ℕ → Bool → Agent X → Turn X × Agent X
  unfolding turn_of
  prepare_turn clocks max_items force_unpaused a =
      if a.exports_paused && not force_unpaused
      then (skip, a)
      else if a.flush_in_progress
      then (wait, a)
      else turn_of (prepare_flush_work clocks max_items (with_metrics count_attempt a))

  -- `if runtime.config_generation == config_generation { runtime.exporters = exporters; }`
  unfoldable pub give_back : PreparedFlush X → ExporterMap X → Agent X → Agent X
  give_back p exporters a =
      if a.config_generation == p.config_generation then record a { exporters = exporters } else a

  finish_result : PreparedFlush X → Result DiskQueueError FlushReport → Agent X → Flushed X
  finish_result p (err e) a = (err e, a)
  finish_result p (ok exported) a = commit_and_report p.batch (with_exported p.report exported) a

  -- The second locked part: the exporters go back, and the batch is committed if it was exported.
  unfoldable pub finish_flush :
      PreparedFlush X → Result DiskQueueError FlushReport × ExporterMap X → Agent X → Flushed X
  unfolding finish_result
  finish_flush p (result, exporters) a =
      count_flush
        (finish_result p result (record (give_back p exporters a) { flush_in_progress = false }))

  -- The exporting in between.
  unfoldable pub export_prepared :
      Export X → PreparedFlush X → Result DiskQueueError FlushReport × ExporterMap X
  export_prepared export p = export_records export p.config p.exporters p.records
