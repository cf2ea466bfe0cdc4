-- ===== src/Agent/Tests.antt =====
-- The theorems of the agent at concrete inputs.
use telemetry_fabric.Prelude.{◌≡◌, ◌≤◌, refl, [], ◌∷◌, none, false, arith, ◌=text◌}
use telemetry_fabric.Prelude.Result.{Result, ok}
use telemetry_fabric.Std.Bytes.{Bytes}
use telemetry_fabric.Std.Text.{text, is_blank, chars_from, is_whitespace, to_ascii_lowercase}
use telemetry_fabric.Core.Telemetry.{TelemetryRecord, trace, log, from_token}
use telemetry_fabric.Core.Config.{
  ReceiverProtocol, stdout, tls_disabled, default_retry, default_limits, PipelineConfig,
  default_config, validate_config, require_non_empty, validate_limits, validate_retries,
  validate_unique_names, unique_names_from, validate_routes, validate_targets,
}
use telemetry_fabric.Core.Config.Valid.{IsValidConfig}
use telemetry_fabric.Agent.ConfigFile.{
  FilePipelineConfig, parse_pipeline_config, into_pipeline_config, collect_entries,
  into_receiver_config, into_exporter_config, into_processor_config, into_route_config,
  parse_receiver_protocol, parse_exporter_protocol, parse_signal, normalize_token, tls_or_disabled,
  retry_or_default, limits_or_default, processors_or_default, validated,
}
use telemetry_fabric.Agent.ConfigFile.Accepted.{parse_pipeline_config-IsValidConfig}
use telemetry_fabric.Agent.Runtime.{AgentRuntime, ingest}
use telemetry_fabric.Agent.Setup.{zero_metrics}
use telemetry_fabric.Agent.Runtime.Quota.{ingest_quota}

abbrev pub small_config : PipelineConfig
small_config = record default_config {
  limits = record {
    max_ingest_bytes_per_second = 1000;
    max_queue_bytes = 1000;
    max_record_bytes = 100;
  };
}

abbrev idle : AgentRuntime (Unit {0})
idle = record {
  config = small_config;
  queue = record {
    dir = record {
      path = 113 ∷ [];
      segments = (1, []) ∷ [];
      corrupt = [];
      reasons = [];
      cursor_file = none;
      cursor_tmp = none;
    };
    options = record { max_segment_bytes = 64; fsync_on_write = false };
    active_segment_id = 1;
    active_segment_bytes = 0;
    queued_bytes = 0;
    cursor = record { segment_id = 1; offset = 0 };
  };
  processors = record { processors = []; dropped_records = 0 };
  exporters = tt;
  metrics = zero_metrics;
  exports_paused = false;
  config_generation = 0;
  flush_in_progress = false;
}

abbrev pub point : TelemetryRecord
point = record {
  tenant_id = 112 ∷ [];
  signal = trace;
  timestamp_unix_nanos = 1;
  attributes = [];
  body = 1 ∷ [];
}

ingest_quota_example : (ingest point idle).1.queue.queued_bytes ≤ 1000
ingest_quota_example = ingest_quota idle (omega arith) (omega arith) point

-- A file with the spellings that `normalize_token` allows.
abbrev pub small_file : FilePipelineConfig
small_file = record {
  tenant = text "pay";
  pipeline = none;
  receivers =
      (text "in", record { protocol = text " OTLP_grpc"; endpoint = text "x"; tls = none }) ∷ [];
  processors = none;
  exporters =
      (
        text "out",
        record { protocol = text "Stdout"; endpoint = text "y"; tls = none; retry = none },
      )
      ∷ [];
  routes = (text "logs", record { exporters = text "out" ∷ [] }) ∷ [];
  limits = none;
}

abbrev pub yaml : Bytes → Result Bytes FilePipelineConfig
yaml content = ok small_file

abbrev pub expected : PipelineConfig
expected = record {
  tenant_id = text "pay";
  name = text "default";
  receivers =
      record {
        name = text "in";
        protocol = ReceiverProtocol.otlp_grpc;
        endpoint = text "x";
        tls = tls_disabled;
      }
      ∷ [];
  processors = default_config.processors;
  exporters =
      record {
        name = text "out";
        protocol = stdout;
        endpoint = text "y";
        tls = tls_disabled;
        retry = default_retry;
      }
      ∷ [];
  routes = record { signal = log; exporters = text "out" ∷ [] } ∷ [];
  limits = default_limits;
}

pub small_file-accepted : parse_pipeline_config yaml [] ≡ ok expected
unfolding parse_pipeline_config into_pipeline_config collect_entries into_receiver_config
    into_exporter_config into_processor_config into_route_config parse_receiver_protocol
    parse_exporter_protocol parse_signal normalize_token tls_or_disabled retry_or_default
    limits_or_default processors_or_default validated default_config validate_config text is_blank
    require_non_empty validate_limits validate_retries validate_unique_names unique_names_from
    validate_routes validate_targets ◌=text◌ chars_from is_whitespace to_ascii_lowercase from_token
small_file-accepted = refl

parse_pipeline_config-IsValidConfig_example : IsValidConfig expected
parse_pipeline_config-IsValidConfig_example =
    parse_pipeline_config-IsValidConfig yaml [] expected small_file-accepted
