-- ===== src/Agent/Setup.antt =====
-- crates/telemetry-agent/src/runtime.rs: opening the runtime, and reloading its configuration.
-- `construct` builds the exporter of one configuration entry, which opens files and connections.
use telemetry_fabric.Prelude.{◌+◌, ◌%◌, ◌^◌, List, [], ◌∷◌, false, ◌=text◌, if◌then◌else◌}
use telemetry_fabric.Prelude.Words.{add_u64}
use telemetry_fabric.Prelude.Result.{Result, ok, err, ◌>>=◌, ◌>>◌, map_err}
use telemetry_fabric.Std.Bytes.{Bytes}
use telemetry_fabric.Core.Error.{PipelineError}
use telemetry_fabric.Core.Config.{PipelineConfig, ExporterConfig, validate_config}
use telemetry_fabric.Buffer.Error.{DiskQueueError}
use telemetry_fabric.Buffer.Files.{Dir}
use telemetry_fabric.Buffer.Queue.{DiskQueueOptions, open_queue}
use telemetry_fabric.Processors.{from_config}
use telemetry_fabric.Exporters.Error.{ExporterError}
use telemetry_fabric.Agent.Runtime.{RuntimeMetrics}
use telemetry_fabric.Agent.Export.{ExporterMap, text_lt}
use telemetry_fabric.Agent.Flush.{Agent}

-- `Box<dyn Error>` of `open` and `reload_config`.
pub data SetupError : Type 0 where
  config_error : PipelineError → SetupError
  queue_error : DiskQueueError → SetupError
  exporter_error : ExporterError → SetupError

abbrev pub zero_metrics : RuntimeMetrics
zero_metrics = record {
  ingested_records_total = 0;
  ingest_rejected_records_total = 0;
  flush_attempts_total = 0;
  flush_successes_total = 0;
  flush_failures_total = 0;
  drained_records_total = 0;
  exported_records_total = 0;
  dropped_records_total = 0;
  exported_bytes_total = 0;
  config_reloads_total = 0;
  config_reload_failures_total = 0;
  control_registrations_total = 0;
  control_registration_failures_total = 0;
  control_heartbeats_total = 0;
  control_heartbeat_failures_total = 0;
  control_config_fetches_total = 0;
  control_config_fetch_failures_total = 0;
}

count_reload : Result SetupError (Unit {0}) → RuntimeMetrics → RuntimeMetrics
count_reload (ok _) m = record m { config_reloads_total = add_u64 m.config_reloads_total 1 }
count_reload (err e) m = record m {
  config_reload_failures_total = add_u64 m.config_reload_failures_total 1;
}

module _ {X : Type 0} where
  -- `BTreeMap::insert`: in order of name, in place of an entry of that name.
  unfoldable pub insert_exporter : Bytes → X → ExporterMap X → ExporterMap X
  insert_exporter name x [] = (name, x) ∷ []
  insert_exporter name x ((n, y) ∷ rest) =
      if n =text name
      then (n, x) ∷ rest
      else let later = insert_exporter name x rest in
        if text_lt name n then (name, x) ∷ (n, y) ∷ rest else (n, y) ∷ later

  unfoldable pub build_from :
      (ExporterConfig → Result ExporterError X)
      → List ExporterConfig
      → ExporterMap X
      → Result ExporterError (ExporterMap X)
  build_from construct [] exporters = ok exporters
  build_from construct (config ∷ configs) exporters = do
    exporter ← construct config
    build_from construct configs (insert_exporter config.name exporter exporters)

  unfoldable pub build_exporters :
      (ExporterConfig → Result ExporterError X)
      → List ExporterConfig
      → Result ExporterError (ExporterMap X)
  unfolding build_from
  build_exporters construct configs = build_from construct configs []

  unfoldable pub open_runtime :
      (ExporterConfig → Result ExporterError X)
      → PipelineConfig
      → Dir
      → DiskQueueOptions
      → Result SetupError (Agent X)
  open_runtime construct config queue_dir options = do
    map_err config_error (validate_config config)
    queue ← map_err queue_error (open_queue queue_dir options)
    exporters ← map_err exporter_error (build_exporters construct config.exporters)
    ok (record {
      config = config;
      queue = queue;
      processors = from_config config;
      exporters = exporters;
      metrics = zero_metrics;
      exports_paused = false;
      config_generation = 0;
      flush_in_progress = false;
    })

  -- What `reload_config_inner` works out before it changes the runtime.
  unfoldable pub reload_parts :
      (ExporterConfig → Result ExporterError X) → PipelineConfig → Result SetupError (ExporterMap X)
  reload_parts construct config = do
    map_err config_error (validate_config config)
    map_err exporter_error (build_exporters construct config.exporters)

  install :
      PipelineConfig
      → Agent X
      → Result SetupError (ExporterMap X)
      → Result SetupError (Unit {0}) × Agent X
  install config a (err e) = (err e, a)
  install config a (ok exporters) = (
    ok tt,
    record a {
      config = config;
      processors = from_config config;
      exporters = exporters;
      config_generation = (a.config_generation + 1) % 2 ^ 64;
    },
  )

  unfoldable pub reload_config_inner :
      (ExporterConfig → Result ExporterError X)
      → PipelineConfig
      → Agent X
      → Result SetupError (Unit {0}) × Agent X
  unfolding install
  reload_config_inner construct config a = install config a (reload_parts construct config)

  unfoldable pub reload_config :
      (ExporterConfig → Result ExporterError X)
      → PipelineConfig
      → Agent X
      → Result SetupError (Unit {0}) × Agent X
  unfolding count_reload
  reload_config construct config a =
      let (r, b) = reload_config_inner construct config a in
      (r, record b { metrics = count_reload r b.metrics })
