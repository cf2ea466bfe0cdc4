-- ===== src/Agent/Runtime.antt =====
-- crates/telemetry-agent/src/runtime.rs: what `AgentRuntime` takes in, counts and reports.
-- `exporters` is of a type that is left open. Not here: flushing, exporting and reloading.
pub mod Quota
use telemetry_fabric.Prelude.{ℕ, ◌++◌, List, [], ◌∷◌, Bool, true, false, ltb, if◌then◌else◌, length}
use telemetry_fabric.Prelude.Words.{add_u64, saturating_add_u64}
use telemetry_fabric.Prelude.Result.{Result, ok, err}
use telemetry_fabric.Prelude.Exec.{Exec}
use telemetry_fabric.Std.Bytes.{Bytes}
use telemetry_fabric.Std.Text.{text}
use telemetry_fabric.Std.Decimal.{decimal}
use Prim.Native.String.{String}
use telemetry_fabric.Core.Error.{TelemetryError}
use telemetry_fabric.Core.Telemetry.{TelemetryRecord, validate, encode}
use telemetry_fabric.Core.Config.{PipelineConfig}
use telemetry_fabric.Buffer.Error.{DiskQueueError}
use telemetry_fabric.Buffer.Queue.{DiskQueue, enqueue, storage_bytes_for_payload, cursor_position}
use telemetry_fabric.Processors.{ProcessorChain}

pub record FlushReport : Type 0 where
  pub drained_records : ℕ
  pub exported_records : ℕ
  pub dropped_records : ℕ
  pub exported_bytes : ℕ

pub record RuntimeHealth : Type 0 where
  pub queued_bytes : ℕ
  pub cursor_segment_id : ℕ
  pub cursor_offset : ℕ
  pub exports_paused : Bool

pub record RuntimeMetrics : Type 0 where
  pub ingested_records_total : ℕ
  pub ingest_rejected_records_total : ℕ
  pub flush_attempts_total : ℕ
  pub flush_successes_total : ℕ
  pub flush_failures_total : ℕ
  pub drained_records_total : ℕ
  pub exported_records_total : ℕ
  pub dropped_records_total : ℕ
  pub exported_bytes_total : ℕ
  pub config_reloads_total : ℕ
  pub config_reload_failures_total : ℕ
  pub control_registrations_total : ℕ
  pub control_registration_failures_total : ℕ
  pub control_heartbeats_total : ℕ
  pub control_heartbeat_failures_total : ℕ
  pub control_config_fetches_total : ℕ
  pub control_config_fetch_failures_total : ℕ

pub record AgentRuntime (Exporters : Type 0) : Type 0 where
  pub config : PipelineConfig
  pub queue : DiskQueue
  pub processors : ProcessorChain
  pub exporters : Exporters
  pub metrics : RuntimeMetrics
  pub exports_paused : Bool
  pub config_generation : ℕ
  pub flush_in_progress : Bool

-- `RuntimeError::QueueFull`, and the errors that are boxed beside it.
pub data RuntimeError : Type 0 where
  queue_full : ℕ → ℕ → ℕ → RuntimeError
  telemetry : TelemetryError → RuntimeError
  disk_queue : DiskQueueError → RuntimeError

unfoldable pub display_queue_full : ℕ → ℕ → ℕ → Bytes
display_queue_full queued_bytes record_bytes max_queue_bytes =
    text "queue is full: queued_bytes="
    ++ (decimal queued_bytes
        ++ (text " record_bytes="
            ++ (decimal record_bytes ++ (text " max_queue_bytes=" ++ decimal max_queue_bytes))))

unfoldable pub write_metric : String → String → String → ℕ → Bytes
write_metric name help kind value =
    text "# HELP "
    ++ (text name
        ++ (text " "
            ++ (text help
                ++ (10
                    ∷ (text "# TYPE "
                        ++ (text name
                            ++ (text " "
                                ++ (text kind
                                    ++ (10
                                        ∷ (text name
                                            ++ (text " " ++ (decimal value ++ (10 ∷ [])))))))))))))

unfoldable pub write_counter : String → String → ℕ → Bytes
write_counter name help value = write_metric name help "counter" value

unfoldable pub write_gauge : String → String → ℕ → Bytes
write_gauge name help value = write_metric name help "gauge" value

-- The pieces in the order in which they are written.
unfoldable pub metric_texts : RuntimeHealth → RuntimeMetrics → List Bytes
metric_texts h m =
    write_gauge "telemetry_agent_queue_bytes" "Current durable queue size in bytes." h.queued_bytes
    ∷ write_gauge "telemetry_agent_queue_cursor_segment_id"
        "Current durable queue cursor segment id." h.cursor_segment_id
    ∷ write_gauge "telemetry_agent_queue_cursor_offset_bytes"
        "Current durable queue cursor offset in bytes." h.cursor_offset
    ∷ write_gauge "telemetry_agent_exports_paused"
        "Whether exporter flushing is paused by the control plane."
        (if h.exports_paused then 1 else 0)
    ∷ write_counter "telemetry_agent_ingested_records_total"
        "Records accepted into the durable queue." m.ingested_records_total
    ∷ write_counter "telemetry_agent_ingest_rejected_records_total"
        "Records rejected before durable queue enqueue." m.ingest_rejected_records_total
    ∷ write_counter "telemetry_agent_flush_attempts_total" "Flush attempts started by the runtime."
        m.flush_attempts_total
    ∷ write_counter "telemetry_agent_flush_successes_total"
        "Flush attempts that completed successfully." m.flush_successes_total
    ∷ write_counter "telemetry_agent_flush_failures_total"
        "Flush attempts that failed before committing the queue cursor." m.flush_failures_total
    ∷ write_counter "telemetry_agent_drained_records_total"
        "Records drained from the durable queue." m.drained_records_total
    ∷ write_counter "telemetry_agent_exported_records_total" "Records exported successfully."
        m.exported_records_total
    ∷ write_counter "telemetry_agent_dropped_records_total" "Records dropped by processors."
        m.dropped_records_total
    ∷ write_counter "telemetry_agent_exported_bytes_total"
        "Approximate bytes exported successfully." m.exported_bytes_total
    ∷ write_counter "telemetry_agent_config_reloads_total"
        "Control-plane config reloads applied successfully." m.config_reloads_total
    ∷ write_counter "telemetry_agent_config_reload_failures_total"
        "Control-plane config reloads that failed validation or runtime application."
        m.config_reload_failures_total
    ∷ write_counter "telemetry_agent_control_registrations_total"
        "Successful control-plane registrations." m.control_registrations_total
    ∷ write_counter "telemetry_agent_control_registration_failures_total"
        "Failed control-plane registration attempts." m.control_registration_failures_total
    ∷ write_counter "telemetry_agent_control_heartbeats_total"
        "Successful control-plane heartbeat calls." m.control_heartbeats_total
    ∷ write_counter "telemetry_agent_control_heartbeat_failures_total"
        "Failed control-plane heartbeat calls." m.control_heartbeat_failures_total
    ∷ write_counter "telemetry_agent_control_config_fetches_total"
        "Successful control-plane config fetch calls." m.control_config_fetches_total
    ∷ write_counter "telemetry_agent_control_config_fetch_failures_total"
        "Failed control-plane config fetch calls." m.control_config_fetch_failures_total
    ∷ []

join : List Bytes → Bytes
join [] = []
join (piece ∷ pieces) = piece ++ join pieces

unfoldable pub format_prometheus_metrics : RuntimeHealth → RuntimeMetrics → Bytes
unfolding join
format_prometheus_metrics h m = join (metric_texts h m)

abbrev pub health_of : DiskQueue → Bool → RuntimeHealth
health_of q paused = record {
  queued_bytes = q.queued_bytes;
  cursor_segment_id = (cursor_position q).0;
  cursor_offset = (cursor_position q).1;
  exports_paused = paused;
}

count_ingest : {A : Type 0} → Result RuntimeError A → RuntimeMetrics → RuntimeMetrics
count_ingest (ok _) m = record m { ingested_records_total = add_u64 m.ingested_records_total 1 }
count_ingest (err e) m = record m {
  ingest_rejected_records_total = add_u64 m.ingest_rejected_records_total 1;
}

module _ {X : Type 0} where
  unfoldable pub health : AgentRuntime X → RuntimeHealth
  health a = health_of a.queue a.exports_paused

  unfoldable pub prometheus_metrics : AgentRuntime X → Bytes
  prometheus_metrics a = format_prometheus_metrics (health a) a.metrics

  -- The quota, and the queue.
  unfoldable pub admit :
      Bytes → ℕ → AgentRuntime X → Result RuntimeError (Unit {0}) × AgentRuntime X
  admit encoded record_bytes a =
      if ltb a.config.limits.max_queue_bytes (saturating_add_u64 a.queue.queued_bytes record_bytes)
      then (err (queue_full a.queue.queued_bytes record_bytes a.config.limits.max_queue_bytes), a)
      else let (r, q) = enqueue encoded a.queue in
        (elim r [ err e ↦ err (disk_queue e) | ok _ ↦ ok tt ], record a { queue = q })

  unfoldable pub admit_sized :
      Bytes
      → Result DiskQueueError ℕ
      → AgentRuntime X
      → Result RuntimeError (Unit {0}) × AgentRuntime X
  admit_sized encoded (err e) a = (err (disk_queue e), a)
  admit_sized encoded (ok record_bytes) a = admit encoded record_bytes a

  unfoldable pub admit_encoded :
      Result TelemetryError Bytes → AgentRuntime X → Result RuntimeError (Unit {0}) × AgentRuntime X
  admit_encoded (err e) a = (err (telemetry e), a)
  admit_encoded (ok encoded) a = admit_sized encoded (storage_bytes_for_payload (length encoded)) a

  unfoldable pub admit_valid :
      TelemetryRecord
      → Result TelemetryError (Unit {0})
      → AgentRuntime X
      → Result RuntimeError (Unit {0}) × AgentRuntime X
  admit_valid r (err e) a = (err (telemetry e), a)
  admit_valid r (ok _) a = admit_encoded (encode r) a

  unfoldable pub ingest_inner :
      TelemetryRecord → AgentRuntime X → Result RuntimeError (Unit {0}) × AgentRuntime X
  ingest_inner r a = admit_valid r (validate r a.config.limits.max_record_bytes) a

  unfoldable pub ingest :
      TelemetryRecord → AgentRuntime X → Result RuntimeError (Unit {0}) × AgentRuntime X
  unfolding count_ingest
  ingest r a =
      let (result, b) = ingest_inner r a in
      (result, record b { metrics = count_ingest result b.metrics })

  unfoldable pub pause_exports : AgentRuntime X → AgentRuntime X
  pause_exports a = record a { exports_paused = true }

  unfoldable pub resume_exports : AgentRuntime X → AgentRuntime X
  resume_exports a = record a { exports_paused = false }

unfoldable pub record_flush_success : FlushReport → RuntimeMetrics → RuntimeMetrics
record_flush_success report m = record m {
  flush_successes_total = add_u64 m.flush_successes_total 1;
  drained_records_total = add_u64 m.drained_records_total report.drained_records;
  exported_records_total = add_u64 m.exported_records_total report.exported_records;
  dropped_records_total = add_u64 m.dropped_records_total report.dropped_records;
  exported_bytes_total = add_u64 m.exported_bytes_total report.exported_bytes;
}

unfoldable pub record_flush_failure : RuntimeMetrics → RuntimeMetrics
record_flush_failure m = record m { flush_failures_total = add_u64 m.flush_failures_total 1 }

unfoldable pub record_control_registration : Bool → RuntimeMetrics → RuntimeMetrics
record_control_registration true m = record m {
  control_registrations_total = add_u64 m.control_registrations_total 1;
}
record_control_registration false m = record m {
  control_registration_failures_total = add_u64 m.control_registration_failures_total 1;
}

unfoldable pub record_control_heartbeat : Bool → RuntimeMetrics → RuntimeMetrics
record_control_heartbeat true m = record m {
  control_heartbeats_total = add_u64 m.control_heartbeats_total 1;
}
record_control_heartbeat false m = record m {
  control_heartbeat_failures_total = add_u64 m.control_heartbeat_failures_total 1;
}

unfoldable pub record_control_config_fetch : Bool → RuntimeMetrics → RuntimeMetrics
record_control_config_fetch true m = record m {
  control_config_fetches_total = add_u64 m.control_config_fetches_total 1;
}
record_control_config_fetch false m = record m {
  control_config_fetch_failures_total = add_u64 m.control_config_fetch_failures_total 1;
}
