-- ===== src/Agent/Flush/Outcome.antt =====
-- What a flush does to the queue, by its result.
use telemetry_fabric.Prelude.{
  ℕ, ◌+◌, ◌%◌, ◌^◌, ◌≡◌, refl, sym, ap, ◌∙◌, ◌⊎◌, inl, inr, List, [], ◌∷◌, false, length, take,
  drop, arith,
}
use telemetry_fabric.Prelude.Result.{Result, ok, err}
use telemetry_fabric.Std.Bytes.{Bytes}
use telemetry_fabric.Buffer.Error.{DiskQueueError}
use telemetry_fabric.Buffer.Queue.{DiskQueue, PendingBatch, read_batch, commit_batch}
use telemetry_fabric.Buffer.Reading.{read_batch-IsBatch}
use telemetry_fabric.Buffer.Committing.{commit_batch-Holds}
use telemetry_fabric.Buffer.Fifo.{Queues}
use telemetry_fabric.Core.Telemetry.{TelemetryRecord}
use telemetry_fabric.Processors.{ProcessorChain}
use telemetry_fabric.Agent.Runtime.{FlushReport, RuntimeMetrics}
use telemetry_fabric.Agent.Export.{
  Export, ExporterMap, no_report, export_records, group_records, export_groups,
}
use telemetry_fabric.Agent.Flush.Processing.{Processes, Undecodable, Run, process_payloads-Run}
use telemetry_fabric.Agent.Flush.{
  Agent, Flushed, Processed, nothing_done, report_of, with_exported, process_payloads,
  commit_and_report, after_export, after_process, flush_payloads, flush_read, flush_inner,
  count_flush, count_attempt, with_metrics, flush, flush_unpaused,
}

-- A batch that was read, and the queue after its commit.
pub record Read (n : ℕ) (q : DiskQueue) (ps : List Bytes) (b : PendingBatch) : Type 0 where
  pub payloads : b.payloads ≡ take n ps
  pub commits : (commit_batch b q).0 ≡ ok (length b.payloads)
  pub queues : Queues (commit_batch b q).1 (drop n ps)

pub read_batch-Read :
    (n : ℕ) (q : DiskQueue) (ps : List Bytes)
    → Queues q ps
    → (b : PendingBatch) × (read_batch n q ≡ (ok b, q)) × Read n q ps b
read_batch-Read n q ps (p, h, e) =
    let (b, r, is) = read_batch-IsBatch q n p h.sees in
    let (c, (p', h', e')) = commit_batch-Holds q n p b h is in
    (
      b,
      r,
      record {
        payloads = is.payloads ∙ ap (take n) e;
        commits = c;
        queues = (p', h', e' ∙ ap (drop n) e);
      },
    )

module _ {X : Type 0} (export : Export X) (clocks : List (List ℕ)) where
  -- A flush that is done: each payload that it took decoded, the processors let `kept` through and
  -- dropped the others, `kept` was exported, and the payloads are gone from the queue.
  pub record Done (a : Agent X) (taken left : List Bytes) (r : Flushed X) : Type 0 where
    pub kept : List TelemetryRecord
    pub drops : ℕ
    pub processes : Processes clocks taken a.processors kept drops r.1.processors
    pub counts : length kept + drops ≡ length taken
    pub exported : FlushReport
    pub exports : export_records export a.config a.exporters kept ≡ (ok exported, r.1.exporters)
    pub report : FlushReport
    pub result : r.0 ≡ ok report
    pub drained : report.drained_records ≡ length taken
    pub dropped : report.dropped_records ≡ drops % 2 ^ 64
    pub exported_records : report.exported_records ≡ exported.exported_records % 2 ^ 64
    pub queues : Queues r.1.queue left

  -- The export of what the processors let through failed.
  pub record Unexported (a : Agent X) (taken : List Bytes) (e : DiskQueueError) (b : Agent X)
      : Type 0 where
    pub kept : List TelemetryRecord
    pub drops : ℕ
    pub processes : Processes clocks taken a.processors kept drops b.processors
    pub exports : export_records export a.config a.exporters kept ≡ (err e, b.exporters)

  -- A flush that failed, and why: the queue is as it was.
  pub record Failed (a : Agent X) (taken : List Bytes) (r : Flushed X) : Type 0 where
    pub error : DiskQueueError
    pub result : r.0 ≡ err error
    pub keeps_queue : r.1.queue ≡ a.queue
    pub why :
        (Undecodable clocks taken a.processors error r.1.processors × (r.1.exporters ≡ a.exporters))
        ⊎ Unexported a taken error r.1

  abbrev pub Outcome : Agent X → List Bytes → List Bytes → Flushed X → Type 0
  Outcome a taken left r = Done a taken left r ⊎ Failed a taken r

  commit_and_report-ok :
      (n : ℕ) (ps : List Bytes) (b : PendingBatch) (report : FlushReport) (a : Agent X)
      → Read n a.queue ps b
      → commit_and_report b report a ≡ (ok report, record a { queue = (commit_batch b a.queue).1 })
  unfolding commit_and_report
  commit_and_report-ok n ps b report a r = rw (r.commits, commit_and_report) refl

  module _ (n : ℕ) (ps : List Bytes) (b : PendingBatch) (a : Agent X)
      (r : Read n a.queue ps b) where
    module _ (payloads : List Bytes) (same : b.payloads ≡ payloads) where
      exported-Outcome :
          (kept : List TelemetryRecord) (drops : ℕ) (chain : ProcessorChain) (dropped : ℕ)
          → Processes clocks payloads a.processors kept drops chain
          → length kept + drops ≡ length payloads
          → dropped ≡ drops % 2 ^ 64
          → (result : Result DiskQueueError FlushReport) (exporters : ExporterMap X)
          → export_records export a.config a.exporters kept ≡ (result, exporters)
          → let p : Processed = record { records = kept; dropped = dropped } in
            Outcome a payloads
              (drop n ps)
              (after_export b (report_of b p) (record a { processors = chain }) (result, exporters))
      unfolding after_export
      exported-Outcome kept drops chain dropped h c d (err e) exporters x = inr (record {
        error = e;
        result = refl;
        keeps_queue = refl;
        why = inr (record { kept = kept; drops = drops; processes = h; exports = x });
      })
      exported-Outcome kept drops chain dropped h c d (ok exported) exporters x =
          let p : Processed = record { records = kept; dropped = dropped } in
          rw
            (commit_and_report-ok n ps b (with_exported (report_of b p) exported)
              (record a { processors = chain; exporters = exporters }) r)
            (inl (record {
              kept = kept;
              drops = drops;
              processes = h;
              counts = c;
              exported = exported;
              exports = x;
              report = with_exported (report_of b p) exported;
              result = refl;
              drained = ap length same;
              dropped = d;
              exported_records = omega arith;
              queues = r.queues;
            }))

      processed-Outcome :
          (result : Result DiskQueueError Processed × ProcessorChain)
          → Run clocks payloads nothing_done a.processors result
          → Outcome a payloads (drop n ps) (after_process export b a result)
      unfolding after_process
      processed-Outcome result (inr (e, chain, h, u)) =
          rw h (inr (record { error = e; result = refl; keeps_queue = refl; why = inl (u, refl) }))
      processed-Outcome result (inl f) =
          let out : f.out ≡ record { records = f.kept; dropped = f.out.dropped } =
            ap (λ (l : List TelemetryRecord). record { records = l; dropped = f.out.dropped })
              f.records in
          rw (f.result_is, out)
            (exported-Outcome f.kept f.drops f.behind f.out.dropped f.processes f.counts
              (omega (arith, f.dropped)) (export_records export a.config a.exporters f.kept).0
              (export_records export a.config a.exporters f.kept).1 refl)

    payloads-Outcome :
        (payloads : List Bytes)
        → b.payloads ≡ payloads
        → Outcome a payloads (drop n ps) (flush_payloads export clocks b a payloads)
    unfolding flush_payloads
    payloads-Outcome [] same = rw (commit_and_report-ok n ps b (report_of b nothing_done) a r) (
        inl (record {
          kept = [];
          drops = 0;
          processes = Processes.ends;
          counts = refl;
          exported = no_report;
          exports = unfold export_records group_records export_groups in refl;
          report = report_of b nothing_done;
          result = refl;
          drained = ap length same;
          dropped = refl;
          exported_records = refl;
          queues = r.queues;
        }))
    payloads-Outcome (payload ∷ payloads) same =
        processed-Outcome (payload ∷ payloads) same
          (process_payloads clocks (payload ∷ payloads) nothing_done a.processors)
          (process_payloads-Run clocks (payload ∷ payloads) nothing_done a.processors (omega arith))

  flush_inner-Outcome :
      (n : ℕ) (ps : List Bytes) (a : Agent X)
      → Queues a.queue ps
      → Outcome a (take n ps) (drop n ps) (flush_inner export clocks n a)
  unfolding flush_inner flush_read
  flush_inner-Outcome n ps a h =
      let (b, e, r) = read_batch-Read n a.queue ps h in
      rw (e, sym r.payloads) (payloads-Outcome n ps b a r b.payloads refl)

  -- The counters do not touch what an outcome is about.
  count_flush-Outcome :
      (f : RuntimeMetrics → RuntimeMetrics) (a : Agent X) (taken left : List Bytes) (r : Flushed X)
      → Outcome (with_metrics f a) taken left r
      → Outcome a taken left (count_flush r)
  unfolding count_flush
  count_flush-Outcome f a taken left (ok report, b) (inl d) = inl (record {
    kept = d.kept;
    drops = d.drops;
    processes = d.processes;
    counts = d.counts;
    exported = d.exported;
    exports = d.exports;
    report = d.report;
    result = d.result;
    drained = d.drained;
    dropped = d.dropped;
    exported_records = d.exported_records;
    queues = d.queues;
  })
  count_flush-Outcome f a taken left (ok report, b) (inr d) = cc (d.result)
  count_flush-Outcome f a taken left (err e, b) (inl d) = cc (d.result)
  count_flush-Outcome f a taken left (err e, b) (inr d) = inr (record {
    error = d.error;
    result = d.result;
    keeps_queue = d.keeps_queue;
    why = elim d.why [
      | inl u ↦ inl u
      | inr u ↦
          inr (record {
            kept = u.kept;
            drops = u.drops;
            processes = u.processes;
            exports = u.exports;
          })
    ];
  })

  flush_running :
      (n : ℕ) (a : Agent X)
      → a.exports_paused ≡ false
      → flush export clocks n a ≡ flush_unpaused export clocks n a
  unfolding flush
  flush_running n a h = ground arith

  -- A flush of at most `n` records that is not paused, over a queue in order that holds `ps`, has one of
  -- two outcomes. Either it takes the first `n` payloads out of the queue: each of them decoded and went
  -- through the processors, one after another; exactly the records that these let through were handed to
  -- `export_records`, in order, and that succeeded; and the report counts the payloads, the records
  -- that were dropped, which are the others, and those exported, the last two modulo 2^64. Or it fails
  -- and leaves the queue as it was, because a payload among the first `n` does not decode, with the
  -- exporters as they were, or because `export_records` failed on the records that were let through.
  pub flush-Outcome :
      (n : ℕ) (ps : List Bytes) (a : Agent X)
      → a.exports_paused ≡ false
      → Queues a.queue ps
      → Outcome a (take n ps) (drop n ps) (flush export clocks n a)
  unfolding flush_unpaused
  flush-Outcome n ps a running h = rw (flush_running n a running) (
      count_flush-Outcome count_attempt a (take n ps) (drop n ps)
        (flush_inner export clocks n (with_metrics count_attempt a))
        (flush_inner-Outcome n ps (with_metrics count_attempt a) h))
