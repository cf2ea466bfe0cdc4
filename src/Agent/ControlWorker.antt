-- ===== src/Agent/ControlWorker.antt =====
-- crates/telemetry-agent/src/main.rs: the task that talks to the control plane, and draining the
-- queue. One tick is a step: that other tasks take the lock in between is in Agent/Shared. What is
-- printed is left out.
pub mod Reloads
use telemetry_fabric.Prelude.{
  ℕ, zero, suc, Bool, true, false, List, [], ◌∷◌, Option, none, some, ◌==◌, if◌then◌else◌,
}
use telemetry_fabric.Prelude.Result.{Result, ok, err}
use telemetry_fabric.Std.Bytes.{Bytes}
use telemetry_fabric.Std.Text.{text}
use telemetry_fabric.Core.Error.{display_pipeline_error}
use telemetry_fabric.Core.Config.{TlsConfig, PipelineConfig, ExporterConfig}
use telemetry_fabric.Buffer.Error.{DiskQueueError, display_disk_queue_error}
use telemetry_fabric.Exporters.Error.{ExporterError, display_exporter_error}
use telemetry_fabric.Agent.Runtime.{
  pause_exports, resume_exports, record_control_registration, record_control_heartbeat,
  record_control_config_fetch, health,
}
use telemetry_fabric.Agent.Export.{Export, no_report}
use telemetry_fabric.Agent.Flush.{Agent, Flushed, with_metrics}
use telemetry_fabric.Agent.Setup.{
  SetupError, config_error, queue_error, exporter_error, reload_config,
}
use telemetry_fabric.Agent.Shared.{
  Turn, skip, wait, prepared, refused, prepare_turn, export_prepared, finish_flush,
}
use telemetry_fabric.Agent.ConfigFile.{FilePipelineConfig}
use telemetry_fabric.Agent.ControlClient.{
  HttpEndpoint, ControlClient, RegisterResponse, ControlCommand, ControlCommandKind,
  drain_and_restart, ControlCommandStatus, delivered, ConfigUpdate, Yaml, Exchanged,
  validate_config_update, register, heartbeat, config_update, ack_command,
}

unfoldable pub display_setup_error : SetupError → Bytes
display_setup_error (config_error e) = display_pipeline_error e
display_setup_error (queue_error e) = display_disk_queue_error e
display_setup_error (exporter_error e) = display_exporter_error e

-- How draining comes to an end: `unfinished` where the rounds of the model are used up, or where
-- another flush never ends.
pub data DrainEnd : Type 0 where
  emptied : DrainEnd
  flush_failed : DiskQueueError → DrainEnd
  unfinished : DrainEnd

module _ {X : Type 0} (export : Export X) (clocks : ℕ → List (List ℕ)) (batch_size : ℕ) where
  after_turn : Turn X × Agent X → Option (Flushed X)
  after_turn (skip, a) = some (ok no_report, a)
  after_turn (wait, a) = none
  after_turn (prepared p, a) = some (finish_flush p (export_prepared export p) a)
  after_turn (refused e, a) = some (err e, a)

  -- `flush_for_shutdown_shared` with no other task between its parts; `none` while another flush
  -- is under way.
  unfoldable pub flush_for_shutdown : ℕ → Agent X → Option (Flushed X)
  unfolding after_turn
  flush_for_shutdown round a = after_turn (prepare_turn (clocks round) batch_size true a)

  after_flush : (Agent X → DrainEnd × Agent X) → Agent X → Option (Flushed X) → DrainEnd × Agent X
  after_flush more a none = (unfinished, a)
  after_flush more a (some (err e, b)) = (flush_failed e, b)
  after_flush more a (some (ok report, b)) = elim (report.drained_records == 0) [
    | true ↦ (emptied, b)
    | false ↦ more b
  ]

  -- The loop of `drain_and_exit`, and that of `drain_for_shutdown` as long as its time lasts.
  unfoldable pub drain : ℕ → Agent X → DrainEnd × Agent X
  unfolding after_flush
  drain zero a = (unfinished, a)
  drain (suc rounds) a = after_flush (drain rounds) a (flush_for_shutdown rounds a)

pub record Worker (X N : Type 0) : Type 0 where
  pub agent : Agent X
  pub network : N
  pub applied_config_version : ℕ
  pub registered : Bool

is_delivered : ControlCommandStatus → Bool
is_delivered delivered = true
is_delivered ControlCommandStatus.pending = false
is_delivered ControlCommandStatus.succeeded = false
is_delivered ControlCommandStatus.failed = false
is_delivered ControlCommandStatus.unknown = false

module _ {X N : Type 0} (yaml : Yaml)
    (exchange : HttpEndpoint → TlsConfig → Bytes → N → Exchanged × N)
    (from_yaml : Bytes → Result Bytes FilePipelineConfig)
    (construct : ExporterConfig → Result ExporterError X) (client : ControlClient) where
  unfoldable pub ack_if_delivered : ControlCommand → Bool → Option Bytes → N → N
  unfolding is_delivered
  ack_if_delivered command success error net =
      if is_delivered command.status
      then (ack_command yaml exchange client command.command_id success error net).1
      else net

  -- `reload_config(config)?; Ok(Some(update))`
  reloaded :
      ConfigUpdate
      → Result SetupError (Unit {0}) × Agent X
      → Result Bytes (Option ConfigUpdate) × Agent X
  reloaded update (err e, a) = (err (display_setup_error e), a)
  reloaded update (ok _, a) = (ok (some update), a)

  apply_checked :
      ConfigUpdate
      → Agent X
      → Result Bytes PipelineConfig
      → Result Bytes (Option ConfigUpdate) × Agent X
  unfolding reloaded
  apply_checked update a (err e) = (err e, a)
  apply_checked update a (ok config) = reloaded update (reload_config construct config a)

  unfoldable pub apply_update :
      Agent X → Result Bytes (Option ConfigUpdate) → Result Bytes (Option ConfigUpdate) × Agent X
  unfolding apply_checked
  apply_update a (err e) = (err e, with_metrics (record_control_config_fetch false) a)
  apply_update a (ok none) = (ok none, with_metrics (record_control_config_fetch true) a)
  apply_update a (ok (some update)) =
      apply_checked update (with_metrics (record_control_config_fetch true) a)
        (validate_config_update from_yaml update client.security.config_signing_key)

  unfoldable pub fetch_and_apply_config :
      ℕ → Agent X → N → (Result Bytes (Option ConfigUpdate) × Agent X) × N
  fetch_and_apply_config current_version a net =
      let (fetched, net') = config_update yaml exchange client current_version net in
      (apply_update a fetched, net')

  ack_reload :
      ControlCommand → Worker X N → (Result Bytes (Option ConfigUpdate) × Agent X) × N → Worker X N
  ack_reload command w ((ok (some update), a), net) = record w {
    agent = a;
    network = ack_if_delivered command true none net;
    applied_config_version = update.version;
  }
  ack_reload command w ((ok none, a), net) = record w {
    agent = a;
    network = ack_if_delivered command true none net;
  }
  ack_reload command w ((err e, a), net) = record w {
    agent = a;
    network = ack_if_delivered command false (some e) net;
  }

  module _ (export : Export X) (clocks : ℕ → List (List ℕ)) (batch_size rounds : ℕ) where
    -- `true` where the process exits.
    ack_drain : ControlCommand → Worker X N → DrainEnd × Agent X → Bool × Worker X N
    ack_drain command w (emptied, a) =
        (true, record w { agent = a; network = ack_if_delivered command true none w.network })
    ack_drain command w (flush_failed e, a) = (
      false,
      record w {
        agent = a;
        network = ack_if_delivered command false (some (display_disk_queue_error e)) w.network;
      },
    )
    ack_drain command w (unfinished, a) = (false, record w { agent = a })

    handle_kind : ControlCommand → Worker X N → ControlCommandKind → Bool × Worker X N
    unfolding ack_reload ack_drain
    handle_kind command w ControlCommandKind.reload_config = (
      false,
      ack_reload command w (fetch_and_apply_config w.applied_config_version w.agent w.network),
    )
    handle_kind command w drain_and_restart =
        ack_drain command w (drain export clocks batch_size rounds w.agent)
    handle_kind command w ControlCommandKind.pause_exports = (
      false,
      record w {
        agent = pause_exports w.agent;
        network = ack_if_delivered command true none w.network;
      },
    )
    handle_kind command w ControlCommandKind.resume_exports = (
      false,
      record w {
        agent = resume_exports w.agent;
        network = ack_if_delivered command true none w.network;
      },
    )
    handle_kind command w ControlCommandKind.unknown = (
      false,
      record w {
        network = ack_if_delivered command false (some (text "unknown control command")) w.network;
      },
    )

    unfoldable pub handle_command : ControlCommand → Worker X N → Bool × Worker X N
    unfolding handle_kind
    handle_command command w = handle_kind command w command.kind

    unfoldable pub handle_commands : List ControlCommand → Worker X N → Bool × Worker X N
    handle_commands [] w = (false, w)
    handle_commands (command ∷ commands) w =
        let (exits, w') = handle_command command w in
        let rest = handle_commands commands w' in if exits then (true, w') else rest

    after_heartbeat : Worker X N → Result Bytes (List ControlCommand) × N → Bool × Worker X N
    after_heartbeat w (err e, net) = (
      false,
      record w { agent = with_metrics (record_control_heartbeat false) w.agent; network = net },
    )
    after_heartbeat w (ok commands, net) =
        handle_commands commands
          (record w { agent = with_metrics (record_control_heartbeat true) w.agent; network = net })

    unfoldable pub beat : Worker X N → Bool × Worker X N
    unfolding after_heartbeat
    beat w = after_heartbeat w (
        heartbeat yaml exchange client
          (record {
            config_version = w.applied_config_version;
            queue_depth_bytes = (health w.agent).queued_bytes;
            ingest_bytes_per_second = 0;
          })
          w.network)

    count_registration : Bool → N → Worker X N → Worker X N
    count_registration accepted net w = record w {
      agent = with_metrics (record_control_registration accepted) w.agent;
      network = net;
      registered = accepted;
    }

    after_register : Worker X N → Result Bytes RegisterResponse × N → Bool × Worker X N
    unfolding count_registration
    after_register w (err e, net) = (false, count_registration false net w)
    after_register w (ok response, net) =
        if response.accepted
        then beat (count_registration true net w)
        else (false, count_registration false net w)

    -- One turn of the loop of `spawn_control_worker`.
    unfoldable pub tick : Worker X N → Bool × Worker X N
    unfolding after_register
    tick w =
        if w.registered then beat w else after_register w (register yaml exchange client w.network)
