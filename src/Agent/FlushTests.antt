-- ===== src/Agent/FlushTests.antt =====
-- Exports and flushes at concrete inputs.
use telemetry_fabric.Prelude.{
  ℕ, zero, suc, ◌≤◌, ◌≡◌, ◌⊎◌, refl, inl, inr, List, [], ◌∷◌, ◌++◌, none, some, false, arith,
  length, ◌=text◌,
}
use telemetry_fabric.Prelude.Result.{ok}
use telemetry_fabric.Std.Bytes.{Bytes, le_bytes}
use telemetry_fabric.Std.Text.{text, is_blank}
use telemetry_fabric.Core.Telemetry.{
  TelemetryRecord, RecordBatch, trace, ◌=signal◌, encode, validate, write_attributes,
}
use telemetry_fabric.Core.Config.{
  ExporterConfig, default_retry, default_config, stdout, tls_disabled,
}
use telemetry_fabric.Core.Routing.{exporters_for, resolve_from, find_exporter}
use telemetry_fabric.Buffer.Files.{lookup, total_segment_bytes}
use telemetry_fabric.Buffer.Queue.{DiskQueue, enqueue}
use telemetry_fabric.Buffer.Log.{position, Holds}
use telemetry_fabric.Buffer.Fifo.{Queues, Enqueued, enqueue-Enqueued}
use telemetry_fabric.Agent.Runtime.{ingest}
use telemetry_fabric.Agent.Export.{
  Export, ExporterMap, ExportReport, export_with_retry, export_records, attempts_from, backoff,
  group_records, push_groups, push_group, export_groups, get_exporter, put_exporter, retry_of,
  text_lt,
}
use telemetry_fabric.Agent.Export.Retry.{Tried, export_with_retry-Tried}
use telemetry_fabric.Agent.Export.Grouping.{In}
use telemetry_fabric.Agent.Export.Delivery.{Takes, Delivered, export_records-Delivered}
use telemetry_fabric.Agent.Flush.{Agent, flush}
use telemetry_fabric.Agent.Flush.Outcome.{Outcome, flush-Outcome}
use telemetry_fabric.Agent.Setup.{zero_metrics}
use telemetry_fabric.Agent.Shared.World.{World, Step, Reach, start, accept}
use telemetry_fabric.Agent.Shared.Interleaving.{Reach-account}
use telemetry_fabric.Agent.Tests.{small_config, point}

-- An exporter that times out on its first attempt, and keeps what it takes after that.
abbrev pub Slow : Type 0
Slow = ℕ × List TelemetryRecord

abbrev pub slow : Export Slow
slow ms (zero, kept) batch = (none, (1, kept))
slow ms (suc n, kept) batch =
    (some (ok (record { records = 1; bytes = 1 })), (suc n, kept ++ batch.records))

abbrev one_point : RecordBatch
one_point = record { records = point ∷ [] }

export_with_retry-Tried_example :
    Tried slow
      (text "out")
      default_retry
      one_point
      2
      1
      (0, [])
      (export_with_retry slow (text "out") (0, []) one_point default_retry)
export_with_retry-Tried_example =
    export_with_retry-Tried slow (text "out") default_retry one_point (0, [])

retried : (export_with_retry slow (text "out") (0, []) one_point default_retry).2 ≡ 100 ∷ []
unfolding export_with_retry attempts_from backoff
retried = refl

In-append_either :
    (r : TelemetryRecord) (xs ys : List TelemetryRecord) → In r xs ⊎ In r ys → In r (xs ++ ys)
In-append_either r [] ys (inl m) = absurd m
In-append_either r [] ys (inr m) = m
In-append_either r (x ∷ xs) ys (inl (inl e)) = inl e
In-append_either r (x ∷ xs) ys (inl (inr m)) = inr (In-append_either r xs ys (inl m))
In-append_either r (x ∷ xs) ys (inr m) = inr (In-append_either r xs ys (inr m))

slow-stays :
    (ms : ℕ) (x : Slow) (batch : RecordBatch) (r : TelemetryRecord)
    → In r x.1
    → In r (slow ms x batch).1.1
slow-stays ms (zero, kept) batch r m = m
slow-stays ms (suc n, kept) batch r m = In-append_either r kept batch.records (inl m)

slow-success :
    (ms : ℕ) (x : Slow) (batch : RecordBatch) (report : ExportReport) (r : TelemetryRecord)
    → (slow ms x batch).0 ≡ some (ok report)
    → In r batch.records
    → In r (slow ms x batch).1.1
slow-success ms (zero, kept) batch report r h m = cc
slow-success ms (suc n, kept) batch report r h m = In-append_either r kept batch.records (inr m)

slow-Takes : Takes slow
slow-Takes = record { taken = λ x. x.1; stays = slow-stays; success = slow-success }

abbrev outs : ExporterMap Slow
outs = (text "stdout", (0, [])) ∷ []

abbrev stdout_config : ExporterConfig
stdout_config = record {
  name = text "stdout";
  protocol = stdout;
  endpoint = text "stdout://local";
  tls = tls_disabled;
  retry = default_retry;
}

abbrev outs_after : ExporterMap Slow
outs_after = (text "stdout", (1, point ∷ [])) ∷ []

exported_point : export_records slow default_config outs (point ∷ []) ≡ (
  ok (record {
    drained_records = 0;
    exported_records = 1;
    dropped_records = 0;
    exported_bytes = 1;
  }),
  outs_after,
)
unfolding export_records group_records push_groups push_group export_groups get_exporter
    put_exporter retry_of export_with_retry attempts_from backoff exporters_for resolve_from
    find_exporter default_config text ◌=text◌ ◌=signal◌ text_lt
exported_point = refl

routed_point : exporters_for default_config trace ≡ ok (stdout_config ∷ [])
unfolding exporters_for resolve_from find_exporter default_config text ◌=text◌ ◌=signal◌
routed_point = refl

export_records-Delivered_example : Delivered slow slow-Takes (text "stdout") point outs_after
export_records-Delivered_example =
    export_records-Delivered slow slow-Takes default_config outs outs_after (point ∷ []) _ point
      (stdout_config ∷ []) stdout_config exported_point (inl refl) routed_point (inl refl)

abbrev pub empty_queue : DiskQueue
empty_queue = record {
  dir = record {
    path = 113 ∷ [];
    segments = (1, []) ∷ [];
    corrupt = [];
    reasons = [];
    cursor_file = none;
    cursor_tmp = none;
  };
  options = record { max_segment_bytes = 64; fsync_on_write = false };
  active_segment_id = 1;
  active_segment_bytes = 0;
  queued_bytes = 0;
  cursor = record { segment_id = 1; offset = 0 };
}

abbrev pub agent : Agent Slow
agent = record {
  config = small_config;
  queue = empty_queue;
  processors = record { processors = []; dropped_records = 0 };
  exporters = outs;
  metrics = zero_metrics;
  exports_paused = false;
  config_generation = 0;
  flush_in_progress = false;
}

empty_queue-Holds : Holds empty_queue (position [] [] [] [])
unfolding lookup total_segment_bytes
empty_queue-Holds = record {
  sees = record {
    files = refl;
    offset = refl;
    older = tt;
    ascending = tt;
    payloads = tt;
    active = refl;
    fits = omega arith;
  };
  active_bytes = refl;
  queued = refl;
}

pub empty_queue-Queues : Queues empty_queue []
empty_queue-Queues = (position [] [] [] [], empty_queue-Holds, refl)

-- A queue that holds one record.
abbrev point_bytes : Bytes
point_bytes =
    84 ∷ 70 ∷ 66 ∷ 49 ∷ 1 ∷ 1 ∷ 0 ∷ 0 ∷ 0 ∷ 0 ∷ 0 ∷ 0 ∷ 0 ∷ 0 ∷ 0 ∷ 0 ∷ 0 ∷ 0 ∷ 0 ∷ 0 ∷ 0 ∷ 1 ∷ 0
    ∷ 112 ∷ 0 ∷ 0 ∷ 1 ∷ 0 ∷ 0 ∷ 0 ∷ 1 ∷ []

encode-point : encode point ≡ ok point_bytes
unfolding encode validate is_blank write_attributes le_bytes
encode-point = refl

abbrev loaded : Agent Slow
loaded = record agent { queue = (enqueue point_bytes empty_queue).1 }

loaded-Enqueued : Enqueued point_bytes empty_queue [] (enqueue point_bytes empty_queue)
loaded-Enqueued =
    enqueue-Enqueued point_bytes empty_queue [] empty_queue-Queues (omega arith) (omega arith)
      (omega arith)

flush-Outcome_example : Outcome slow [] loaded (point_bytes ∷ []) [] (flush slow [] 5 loaded)
flush-Outcome_example = flush-Outcome slow [] 5 (point_bytes ∷ []) loaded refl loaded-Enqueued.holds

abbrev after_ingest : World Slow
after_ingest = record (start agent) {
  agent = (ingest point agent).1;
  accepted = accept (ingest point agent).0 (encode point) [];
}

reach-account_example :
    (waiting : List Bytes) × Queues after_ingest.agent.queue waiting
    × (after_ingest.committed ++ waiting ≡ [] ++ after_ingest.accepted)
    × (length after_ingest.in_flight ≤ 1)
reach-account_example =
    Reach-account agent [] after_ingest empty_queue-Queues (omega arith)
      (Reach.next Reach.here (Step.ingests point (omega arith) refl))
