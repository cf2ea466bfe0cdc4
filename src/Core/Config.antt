-- ===== src/Core/Config.antt =====
-- crates/telemetry-core/src/config.rs: the pipeline configuration and its check.
pub mod Valid
use telemetry_fabric.Prelude.{
  ℕ, ◌*◌, ◌++◌, List, [], ◌∷◌, map, Bool, true, false, not, Option, none, ◌==◌, ◌=text◌, any,
}
use telemetry_fabric.Prelude.Result.{Result, ok, ◌>>◌, fail_if}
use telemetry_fabric.Std.Bytes.{Bytes}
use telemetry_fabric.Std.Text.{text, is_blank}
use telemetry_fabric.Core.Error.{PipelineError, invalid_config, unknown_exporter}
use telemetry_fabric.Core.Telemetry.{SignalKind, trace, metric, log, as_str}

pub data ReceiverProtocol : Type 0 where
  otlp_grpc otlp_http : ReceiverProtocol

pub data ProcessorKind : Type 0 where
  memory_limiter batch redact tenant_rate_limit : ProcessorKind

pub data ExporterProtocol : Type 0 where
  otlp_grpc otlp_http otlp_http_json prometheus_remote_write stdout file : ExporterProtocol

pub record TlsConfig : Type 0 where
  pub enabled : Bool
  pub ca_file : Option Bytes
  pub cert_file : Option Bytes
  pub key_file : Option Bytes
  pub server_name : Option Bytes
  pub require_client_auth : Bool

pub record ReceiverConfig : Type 0 where
  pub name : Bytes
  pub protocol : ReceiverProtocol
  pub endpoint : Bytes
  pub tls : TlsConfig

pub record ProcessorConfig : Type 0 where
  pub name : Bytes
  pub kind : ProcessorKind
  pub enabled : Bool

pub record ExporterRetryConfig : Type 0 where
  pub max_attempts : ℕ
  pub timeout_ms : ℕ
  pub initial_backoff_ms : ℕ

pub record ExporterConfig : Type 0 where
  pub name : Bytes
  pub protocol : ExporterProtocol
  pub endpoint : Bytes
  pub tls : TlsConfig
  pub retry : ExporterRetryConfig

pub record RouteConfig : Type 0 where
  pub signal : SignalKind
  pub exporters : List Bytes

pub record TenantLimits : Type 0 where
  pub max_ingest_bytes_per_second : ℕ
  pub max_queue_bytes : ℕ
  pub max_record_bytes : ℕ

pub record PipelineConfig : Type 0 where
  pub tenant_id : Bytes
  pub name : Bytes
  pub receivers : List ReceiverConfig
  pub processors : List ProcessorConfig
  pub exporters : List ExporterConfig
  pub routes : List RouteConfig
  pub limits : TenantLimits

abbrev pub default_retry : ExporterRetryConfig
default_retry = record { max_attempts = 3; timeout_ms = 30000; initial_backoff_ms = 100 }

abbrev pub tls_disabled : TlsConfig
tls_disabled = record {
  enabled = false;
  ca_file = none;
  cert_file = none;
  key_file = none;
  server_name = none;
  require_client_auth = false;
}

abbrev pub tls_enabled : TlsConfig
tls_enabled = record tls_disabled { enabled = true }

abbrev pub default_limits : TenantLimits
default_limits = record {
  max_ingest_bytes_per_second = 64 * 1024 * 1024;
  max_queue_bytes = 10 * 1024 * 1024 * 1024;
  max_record_bytes = 4 * 1024 * 1024;
}

unfoldable pub default_config : PipelineConfig
unfolding text
default_config = record {
  tenant_id = text "default";
  name = text "default";
  receivers =
      record {
        name = text "otlp-grpc";
        protocol = ReceiverProtocol.otlp_grpc;
        endpoint = text "0.0.0.0:4317";
        tls = tls_disabled;
      }
      ∷ record {
        name = text "otlp-http";
        protocol = ReceiverProtocol.otlp_http;
        endpoint = text "0.0.0.0:4318";
        tls = tls_disabled;
      }
      ∷ [];
  processors =
      record { name = text "memory-limiter"; kind = memory_limiter; enabled = true }
      ∷ record { name = text "batch"; kind = batch; enabled = true }
      ∷ [];
  exporters =
      record {
        name = text "stdout";
        protocol = stdout;
        endpoint = text "stdout://local";
        tls = tls_disabled;
        retry = default_retry;
      }
      ∷ [];
  routes =
      record { signal = trace; exporters = text "stdout" ∷ [] }
      ∷ record { signal = metric; exporters = text "stdout" ∷ [] }
      ∷ record { signal = log; exporters = text "stdout" ∷ [] }
      ∷ [];
  limits = default_limits;
}

abbrev Check : Type 0
Check = Result PipelineError (Unit {0})

-- `is_empty()` on a list.
abbrev pub is_empty {ℓ} : {A : Type ℓ} → List A → Bool
is_empty [] = true
is_empty (x ∷ xs) = false

unfoldable pub require_non_empty : Bytes → Bytes → Check
require_non_empty field value =
    fail_if (is_blank value) (invalid_config (field ++ text " must not be empty"))

-- `seen` is the hash set of the names so far.
unfoldable pub unique_names_from : Bytes → List Bytes → List Bytes → Check
unique_names_from kind seen [] = ok tt
unique_names_from kind seen (name ∷ names) = do
  require_non_empty kind name
  fail_if (any (λ other. other =text name) seen)
      (invalid_config (text "duplicate " ++ (kind ++ (text " name: " ++ name))))
  unique_names_from kind (name ∷ seen) names

unfoldable pub validate_unique_names : Bytes → List Bytes → Check
unfolding unique_names_from
validate_unique_names kind names = unique_names_from kind [] names

retry_error : ExporterConfig → Bytes → PipelineError
retry_error exporter what = invalid_config (
    text "exporter "
    ++ (exporter.name ++ (text " retry." ++ (what ++ text " must be greater than zero"))))

unfoldable pub validate_retries : List ExporterConfig → Check
unfolding retry_error
validate_retries [] = ok tt
validate_retries (exporter ∷ rest) = do
  fail_if (exporter.retry.max_attempts == 0) (retry_error exporter (text "max_attempts"))
  fail_if (exporter.retry.timeout_ms == 0) (retry_error exporter (text "timeout_ms"))
  fail_if (exporter.retry.initial_backoff_ms == 0)
      (retry_error exporter (text "initial_backoff_ms"))
  validate_retries rest

unfoldable pub validate_targets : List Bytes → List Bytes → Check
validate_targets names [] = ok tt
validate_targets names (exporter ∷ rest) = do
  fail_if (not (any (λ name. name =text exporter) names)) (unknown_exporter exporter)
  validate_targets names rest

unfoldable pub validate_routes : List Bytes → List RouteConfig → Check
validate_routes names [] = ok tt
validate_routes names (route ∷ rest) = do
  fail_if (is_empty route.exporters)
      (invalid_config (text "route for " ++ (as_str route.signal ++ text " has no exporters")))
  validate_targets names route.exporters
  validate_routes names rest

abbrev pub exporter_names : PipelineConfig → List Bytes
exporter_names c = map (λ (e : ExporterConfig). e.name) c.exporters

unfoldable pub validate_limits : TenantLimits → Check
validate_limits limits = do
  fail_if (limits.max_record_bytes == 0)
      (invalid_config (text "max_record_bytes must be greater than zero"))
  fail_if (limits.max_queue_bytes == 0)
      (invalid_config (text "max_queue_bytes must be greater than zero"))
  fail_if (limits.max_ingest_bytes_per_second == 0)
      (invalid_config (text "max_ingest_bytes_per_second must be greater than zero"))

unfoldable pub validate_config : PipelineConfig → Check
validate_config c = do
  require_non_empty (text "tenant_id") c.tenant_id
  require_non_empty (text "name") c.name
  fail_if (is_empty c.receivers) (invalid_config (text "at least one receiver is required"))
  fail_if (is_empty c.exporters) (invalid_config (text "at least one exporter is required"))
  fail_if (is_empty c.routes) (invalid_config (text "at least one route is required"))
  validate_limits c.limits
  validate_retries c.exporters
  validate_unique_names (text "receiver") (map (λ (r : ReceiverConfig). r.name) c.receivers)
  validate_unique_names (text "exporter") (exporter_names c)
  validate_unique_names (text "processor") (map (λ (p : ProcessorConfig). p.name) c.processors)
  validate_routes (exporter_names c) c.routes
