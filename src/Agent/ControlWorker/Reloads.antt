-- ===== src/Agent/ControlWorker/Reloads.antt =====
-- What a fetched configuration does to the runtime.
use telemetry_fabric.Prelude.{◌≡◌, refl, Option, none, some, inl, inr}
use telemetry_fabric.Prelude.Result.{Result, ok, err, Result-cases}
use telemetry_fabric.Std.Bytes.{Bytes}
use telemetry_fabric.Core.Config.{TlsConfig, PipelineConfig, ExporterConfig}
use telemetry_fabric.Exporters.Error.{ExporterError}
use telemetry_fabric.Agent.Flush.{Agent, with_metrics}
use telemetry_fabric.Agent.Runtime.{RuntimeMetrics, record_control_config_fetch}
use telemetry_fabric.Agent.Setup.{SetupError, reload_config, reload_config_inner, reload_parts}
use telemetry_fabric.Agent.ConfigFile.{FilePipelineConfig}
use telemetry_fabric.Agent.ControlClient.{
  HttpEndpoint, Yaml, Exchanged, ControlClient, ConfigUpdate, validate_config_update,
}
use telemetry_fabric.Agent.ControlClient.Accepts.{IsTrusted, validate_config_update-IsTrusted}
use telemetry_fabric.Agent.ControlWorker.{apply_update, apply_checked, reloaded, true}

module _ {X : Type 0} where
  -- The runtime's configuration and queue.
  pub record Untouched (a b : Agent X) : Type 0 where
    pub config : b.config ≡ a.config
    pub exporters : b.exporters ≡ a.exporters
    pub queue : b.queue ≡ a.queue

  pub record Installed (c : PipelineConfig) (a b : Agent X) : Type 0 where
    pub config : b.config ≡ c
    pub queue : b.queue ≡ a.queue

  abbrev Reloaded : PipelineConfig → Agent X → Result SetupError (Unit {0}) × Agent X → Type 0
  Reloaded config a (ok u, b) = Installed config a b
  Reloaded config a (err e, b) = Untouched a b

  reload_config-Reloaded :
      (construct : ExporterConfig → Result ExporterError X) (config : PipelineConfig) (a : Agent X)
      → Reloaded config a (reload_config construct config a)
  unfolding reload_config reload_config_inner
  reload_config-Reloaded construct config a = elim (Result-cases (reload_parts construct config)) [
    | inl (m, e) ↦ rw e (record { config = refl; queue = refl })
    | inr (m, e) ↦ rw e (record { config = refl; exporters = refl; queue = refl })
  ]

  module _ {N : Type 0} (yaml : Yaml)
      (exchange : HttpEndpoint → TlsConfig → Bytes → N → Exchanged × N)
      (from_yaml : Bytes → Result Bytes FilePipelineConfig)
      (construct : ExporterConfig → Result ExporterError X) (client : ControlClient) where
    -- The outcome of fetching and applying: an update that is reported as applied was trusted, and its
    -- configuration is the runtime's; without one, configuration, exporters and queue are as before.
    abbrev pub Applied : Agent X → Result Bytes (Option ConfigUpdate) × Agent X → Type 0
    Applied a (ok (some update), b) =
        (config : PipelineConfig) × IsTrusted from_yaml update client.security.config_signing_key
          config
        × Installed config a b
    Applied a (ok none, b) = Untouched a b
    Applied a (err e, b) = Untouched a b

    module _ (a : Agent X) (count : RuntimeMetrics → RuntimeMetrics) (update : ConfigUpdate) where
      reloaded-Applied :
          (config : PipelineConfig) (r : Result SetupError (Unit {0}) × Agent X)
          → IsTrusted from_yaml update client.security.config_signing_key config
          → Reloaded config (with_metrics count a) r
          → Applied a (reloaded yaml exchange from_yaml construct client update r)
      unfolding reloaded
      reloaded-Applied config (ok u, b) t i =
          (config, t, record { config = i.config; queue = i.queue })
      reloaded-Applied config (err e, b) t i = record {
        config = i.config;
        exporters = i.exporters;
        queue = i.queue;
      }

      apply_checked-Applied :
          (r : Result Bytes PipelineConfig)
          → validate_config_update from_yaml update client.security.config_signing_key ≡ r
          → Applied a (
              apply_checked yaml exchange from_yaml construct client update
                (with_metrics count a)
                r)
      unfolding apply_checked
      apply_checked-Applied (err e) h = record { config = refl; exporters = refl; queue = refl }
      apply_checked-Applied (ok config) h =
          reloaded-Applied config (reload_config construct config (with_metrics count a))
            (validate_config_update-IsTrusted from_yaml update client.security.config_signing_key
              config h)
            (reload_config-Reloaded construct config (with_metrics count a))

    -- Whatever the control plane answers: an update that is reported as applied was trusted, and
    -- the runtime has its configuration and the queue that it had; otherwise the runtime has the
    -- configuration, the exporters and the queue that it had.
    pub apply_update-Applied :
        (a : Agent X) (fetched : Result Bytes (Option ConfigUpdate))
        → Applied a (apply_update yaml exchange from_yaml construct client a fetched)
    unfolding apply_update
    apply_update-Applied a (err e) = record { config = refl; exporters = refl; queue = refl }
    apply_update-Applied a (ok none) = record { config = refl; exporters = refl; queue = refl }
    apply_update-Applied a (ok (some update)) =
        apply_checked-Applied a (record_control_config_fetch true) update
          (validate_config_update from_yaml update client.security.config_signing_key) refl
