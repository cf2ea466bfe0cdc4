-- ===== src/Agent/ConfigFile.antt =====
-- crates/telemetry-agent/src/config_file.rs: from the parsed YAML file to a configuration.
-- `serde_yaml` is not in the repository: `parse_pipeline_config` takes the parser. A `BTreeMap` is
-- the list of its entries in order of key, which is the order that `into_iter` has. A boxed error is
-- the text that it prints.
pub mod Accepted
use telemetry_fabric.Prelude.{
  ℕ, zero, ◌++◌, List, [], ◌∷◌, Bool, true, false, ◌&&◌, Option, none, some, ◌==◌, ◌=text◌,
  if◌then◌else◌, unwrap_or, map,
}
use telemetry_fabric.Prelude.Result.{Result, ok, err, ◌>>=◌, ◌>>◌, map_err}
use telemetry_fabric.Std.Bytes.{Bytes}
use telemetry_fabric.Std.Text.{text, chars_from, is_whitespace, to_ascii_lowercase}
use telemetry_fabric.Core.Error.{display_pipeline_error}
use telemetry_fabric.Core.Telemetry.{SignalKind, from_token}
use telemetry_fabric.Core.Config.{
  ReceiverProtocol, ProcessorKind, memory_limiter, batch, redact, tenant_rate_limit,
  ExporterProtocol, otlp_http_json, prometheus_remote_write, stdout, file, TlsConfig,
  ReceiverConfig, ProcessorConfig, ExporterRetryConfig, ExporterConfig, RouteConfig, TenantLimits,
  PipelineConfig, default_retry, tls_disabled, default_limits, default_config, is_empty,
  validate_config,
}

pub data FileTlsConfig : Type 0 where
  enabled : Bool → FileTlsConfig
  detailed :
      Option Bool
      → Option Bytes
      → Option Bytes
      → Option Bytes
      → Option Bytes
      → Option Bool
      → FileTlsConfig

pub record FileReceiverConfig : Type 0 where
  pub protocol : Bytes
  pub endpoint : Bytes
  pub tls : Option FileTlsConfig

pub record FileProcessorConfig : Type 0 where
  pub enabled : Option Bool

pub record FileExporterRetryConfig : Type 0 where
  pub max_attempts : Option ℕ
  pub timeout_ms : Option ℕ
  pub initial_backoff_ms : Option ℕ

pub record FileExporterConfig : Type 0 where
  pub protocol : Bytes
  pub endpoint : Bytes
  pub tls : Option FileTlsConfig
  pub retry : Option FileExporterRetryConfig

pub record FileRouteConfig : Type 0 where
  pub exporters : List Bytes

pub record FileTenantLimits : Type 0 where
  pub max_ingest_bytes_per_second : Option ℕ
  pub max_queue_bytes : Option ℕ
  pub max_record_bytes : Option ℕ

pub record FilePipelineConfig : Type 0 where
  pub tenant : Bytes
  pub pipeline : Option Bytes
  pub receivers : List (Bytes × FileReceiverConfig)
  pub processors : Option (List (Bytes × FileProcessorConfig))
  pub exporters : List (Bytes × FileExporterConfig)
  pub routes : List (Bytes × FileRouteConfig)
  pub limits : Option FileTenantLimits

trim_start : List ℕ → List ℕ
trim_start [] = []
trim_start (c ∷ cs) = let rest = trim_start cs in if is_whitespace c then rest else c ∷ cs

trim_end : List ℕ → List ℕ
trim_end [] = []
trim_end (c ∷ cs) =
    let rest = trim_end cs in if is_empty rest && is_whitespace c then [] else c ∷ rest

-- The characters of the token; the program compares them with ASCII texts only, and a character
-- of such a text is its byte.
unfoldable pub normalize_token : Bytes → List ℕ
unfolding trim_start trim_end
normalize_token value =
    map (λ c. if c == 95 then 45 else c)
      (to_ascii_lowercase (trim_end (trim_start (chars_from 0 0 value))))

unfoldable pub parse_receiver_protocol : Bytes → Result Bytes ReceiverProtocol
parse_receiver_protocol value =
    let token = normalize_token value in
    if token =text text "otlp-grpc"
    then ok ReceiverProtocol.otlp_grpc
    else if token =text text "otlp-http"
    then ok ReceiverProtocol.otlp_http
    else err (text "unknown receiver protocol: " ++ value)

unfoldable pub parse_processor_kind : Bytes → Result Bytes ProcessorKind
parse_processor_kind value =
    let token = normalize_token value in
    if token =text text "memory-limiter"
    then ok memory_limiter
    else if token =text text "batch"
    then ok batch
    else if token =text text "redact"
    then ok redact
    else if token =text text "tenant-rate-limit"
    then ok tenant_rate_limit
    else err (text "unknown processor kind: " ++ value)

unfoldable pub parse_exporter_protocol : Bytes → Result Bytes ExporterProtocol
parse_exporter_protocol value =
    let token = normalize_token value in
    if token =text text "otlp-grpc"
    then ok ExporterProtocol.otlp_grpc
    else if token =text text "otlp-http"
    then ok ExporterProtocol.otlp_http
    else if token =text text "otlp-http-json"
    then ok otlp_http_json
    else if token =text text "prometheus-remote-write"
    then ok prometheus_remote_write
    else if token =text text "stdout"
    then ok stdout
    else if token =text text "file"
    then ok file
    else err (text "unknown exporter protocol: " ++ value)

unfoldable pub parse_signal : Bytes → Result Bytes SignalKind
parse_signal value = elim (from_token (normalize_token value)) [
  | none ↦ err (text "unknown route signal: " ++ value)
  | some signal ↦ ok signal
]

unfoldable pub from_tls : FileTlsConfig → TlsConfig
from_tls (enabled on) = record tls_disabled { enabled = on }
from_tls (detailed on ca_file cert_file key_file server_name require_client_auth) = record {
  enabled = unwrap_or on true;
  ca_file = ca_file;
  cert_file = cert_file;
  key_file = key_file;
  server_name = server_name;
  require_client_auth = unwrap_or require_client_auth false;
}

-- `tls.map_or_else(TlsConfig::disabled, Into::into)`
unfoldable pub tls_or_disabled : Option FileTlsConfig → TlsConfig
tls_or_disabled none = tls_disabled
tls_or_disabled (some tls) = from_tls tls

unfoldable pub from_retry : FileExporterRetryConfig → ExporterRetryConfig
from_retry value = record {
  max_attempts = unwrap_or value.max_attempts default_retry.max_attempts;
  timeout_ms = unwrap_or value.timeout_ms default_retry.timeout_ms;
  initial_backoff_ms = unwrap_or value.initial_backoff_ms default_retry.initial_backoff_ms;
}

unfoldable pub retry_or_default : Option FileExporterRetryConfig → ExporterRetryConfig
retry_or_default none = default_retry
retry_or_default (some retry) = from_retry retry

unfoldable pub into_receiver_config : Bytes → FileReceiverConfig → Result Bytes ReceiverConfig
into_receiver_config name receiver = do
  protocol ← parse_receiver_protocol receiver.protocol
  ok (record {
    name = name;
    protocol = protocol;
    endpoint = receiver.endpoint;
    tls = tls_or_disabled receiver.tls;
  })

unfoldable pub into_processor_config : Bytes → FileProcessorConfig → Result Bytes ProcessorConfig
into_processor_config name processor = do
  kind ← parse_processor_kind name
  ok (record { name = name; kind = kind; enabled = unwrap_or processor.enabled true })

unfoldable pub into_exporter_config : Bytes → FileExporterConfig → Result Bytes ExporterConfig
into_exporter_config name exporter = do
  protocol ← parse_exporter_protocol exporter.protocol
  ok (record {
    name = name;
    protocol = protocol;
    endpoint = exporter.endpoint;
    tls = tls_or_disabled exporter.tls;
    retry = retry_or_default exporter.retry;
  })

unfoldable pub into_route_config : Bytes → FileRouteConfig → Result Bytes RouteConfig
into_route_config name route = do
  signal ← parse_signal name
  ok (record { signal = signal; exporters = route.exporters })

unfoldable pub into_tenant_limits : FileTenantLimits → TenantLimits
into_tenant_limits limits = record {
  max_ingest_bytes_per_second =
      unwrap_or limits.max_ingest_bytes_per_second default_limits.max_ingest_bytes_per_second;
  max_queue_bytes = unwrap_or limits.max_queue_bytes default_limits.max_queue_bytes;
  max_record_bytes = unwrap_or limits.max_record_bytes default_limits.max_record_bytes;
}

unfoldable pub limits_or_default : Option FileTenantLimits → TenantLimits
limits_or_default none = default_limits
limits_or_default (some limits) = into_tenant_limits limits

-- `into_iter().map(..).collect::<Result<Vec<_>, _>>()`
unfoldable pub collect_entries :
    {A B : Type 0} → (Bytes → A → Result Bytes B) → List (Bytes × A) → Result Bytes (List B)
collect_entries convert [] = ok []
collect_entries convert ((name, a) ∷ rest) = do
  b ← convert name a
  bs ← collect_entries convert rest
  ok (b ∷ bs)

unfoldable pub processors_or_default : PipelineConfig → PipelineConfig
processors_or_default config =
    if is_empty config.processors
    then record config { processors = default_config.processors }
    else config

unfoldable pub validated : PipelineConfig → Result Bytes PipelineConfig
validated config = do map_err display_pipeline_error (validate_config config); ok config

unfoldable pub into_pipeline_config : FilePipelineConfig → Result Bytes PipelineConfig
unfolding processors_or_default validated
into_pipeline_config f = do
  receivers ← collect_entries into_receiver_config f.receivers
  processors ← collect_entries into_processor_config (unwrap_or f.processors [])
  exporters ← collect_entries into_exporter_config f.exporters
  routes ← collect_entries into_route_config f.routes
  validated (
      processors_or_default (record {
        tenant_id = f.tenant;
        name = unwrap_or f.pipeline (text "default");
        receivers = receivers;
        processors = processors;
        exporters = exporters;
        routes = routes;
        limits = limits_or_default f.limits;
      }))

unfoldable pub parse_pipeline_config :
    (Bytes → Result Bytes FilePipelineConfig) → Bytes → Result Bytes PipelineConfig
parse_pipeline_config from_yaml content = do
  file_config ← from_yaml content
  into_pipeline_config file_config
