-- ===== src/Agent/Args.antt =====
-- crates/telemetry-agent/src/main.rs: the command line, the configuration that comes of it, and the
-- receiver to run. `env` reads an environment variable; loading the file is a parameter.
pub mod Accepted
use telemetry_fabric.Prelude.{
  ℕ, ◌+◌, Bool, true, false, not, ◌&&◌, List, [], ◌∷◌, ◌++◌, Option, none, some, ltb, ◌==◌, ◌=text◌,
  if◌then◌else◌, find,
}
use telemetry_fabric.Prelude.Words.{usize_max, u64_max}
use telemetry_fabric.Prelude.Result.{Result, ok, err, ◌>>=◌, ◌>>◌, fail_if, map_err}
use telemetry_fabric.Std.Bytes.{Bytes}
use telemetry_fabric.Std.Text.{text}
use telemetry_fabric.Std.Decimal.{parse_int}
use telemetry_fabric.Std.Lines.{starts_with}
use telemetry_fabric.Core.Error.{display_pipeline_error}
use telemetry_fabric.Core.Telemetry.{trace, metric, log}
use telemetry_fabric.Core.Config.{
  ReceiverProtocol, ExporterProtocol, TlsConfig, ReceiverConfig, ExporterConfig, RouteConfig,
  PipelineConfig, default_retry, tls_disabled, tls_enabled, default_config, validate_config,
}
use telemetry_fabric.Agent.ControlClient.{ControlClientSecurity}

pub record Args : Type 0 where
  pub tenant_id : Option Bytes
  pub config_path : Option Bytes
  pub queue_dir : Bytes
  pub otlp_grpc : Option Bytes
  pub otlp_http : Option Bytes
  pub otlp_export_endpoint : Option Bytes
  pub health_listen : Option Bytes
  pub control_endpoint : Option Bytes
  pub agent_id : Option Bytes
  pub control_auth_token : Option Bytes
  pub control_ca_file : Option Bytes
  pub control_cert_file : Option Bytes
  pub control_key_file : Option Bytes
  pub control_server_name : Option Bytes
  pub control_config_signing_key : Option Bytes
  pub flush_batch_size : ℕ
  pub flush_interval_ms : ℕ
  pub control_heartbeat_interval_ms : ℕ
  pub shutdown_drain_timeout_ms : ℕ
  pub check_config : Bool
  pub self_test : Bool
  pub help : Bool

unfoldable pub default_args : (Bytes → Option Bytes) → Args
default_args env = record {
  tenant_id = none;
  config_path = none;
  queue_dir = text ".telemetry-fabric/queue";
  otlp_grpc = none;
  otlp_http = none;
  otlp_export_endpoint = none;
  health_listen = none;
  control_endpoint = none;
  agent_id = none;
  control_auth_token = env (text "TELEMETRY_FABRIC_CONTROL_AUTH_TOKEN");
  control_ca_file = env (text "TELEMETRY_FABRIC_CONTROL_CA_FILE");
  control_cert_file = env (text "TELEMETRY_FABRIC_CONTROL_CERT_FILE");
  control_key_file = env (text "TELEMETRY_FABRIC_CONTROL_KEY_FILE");
  control_server_name = env (text "TELEMETRY_FABRIC_CONTROL_SERVER_NAME");
  control_config_signing_key = env (text "TELEMETRY_FABRIC_CONTROL_CONFIG_SIGNING_KEY");
  flush_batch_size = 128;
  flush_interval_ms = 1000;
  control_heartbeat_interval_ms = 5000;
  shutdown_drain_timeout_ms = 30000;
  check_config = false;
  self_test = false;
  help = false;
}

-- `parse_positive_usize` and `parse_positive_u64`, by the greatest value of the type.
unfoldable pub parse_positive : ℕ → Bytes → Result Bytes ℕ
parse_positive max value = do
  parsed ← parse_int max value
  fail_if (parsed == 0) (text "value must be greater than zero")
  ok parsed

-- A flag that takes a value, with what it does to the arguments.
abbrev pub Setter : Type 0
Setter = Bytes → Args → Result Bytes Args

unfoldable pub set_batch_size : Setter
set_batch_size value args = do
  n ← parse_positive usize_max value
  ok (record args { flush_batch_size = n })

unfoldable pub set_flush_interval : Setter
set_flush_interval value args = do
  n ← parse_positive u64_max value
  ok (record args { flush_interval_ms = n })

unfoldable pub set_heartbeat_interval : Setter
set_heartbeat_interval value args = do
  n ← parse_positive u64_max value
  ok (record args { control_heartbeat_interval_ms = n })

unfoldable pub set_drain_timeout : Setter
set_drain_timeout value args = do
  n ← parse_positive u64_max value
  ok (record args { shutdown_drain_timeout_ms = n })

abbrev pub setters : List (Bytes × Setter)
setters =
    (text "--tenant", λ value args. ok (record args { tenant_id = some value }))
    ∷ (text "--config", λ value args. ok (record args { config_path = some value }))
    ∷ (text "--queue-dir", λ value args. ok (record args { queue_dir = value }))
    ∷ (text "--otlp-grpc", λ value args. ok (record args { otlp_grpc = some value }))
    ∷ (text "--otlp-http", λ value args. ok (record args { otlp_http = some value }))
    ∷ (
      text "--otlp-export-endpoint",
      λ value args. ok (record args { otlp_export_endpoint = some value }),
    )
    ∷ (text "--health-listen", λ value args. ok (record args { health_listen = some value }))
    ∷ (text "--control-endpoint", λ value args. ok (record args { control_endpoint = some value }))
    ∷ (text "--agent-id", λ value args. ok (record args { agent_id = some value }))
    ∷ (
      text "--control-auth-token",
      λ value args. ok (record args { control_auth_token = some value }),
    )
    ∷ (text "--control-ca-file", λ value args. ok (record args { control_ca_file = some value }))
    ∷ (
      text "--control-cert-file",
      λ value args. ok (record args { control_cert_file = some value }),
    )
    ∷ (text "--control-key-file", λ value args. ok (record args { control_key_file = some value }))
    ∷ (
      text "--control-server-name",
      λ value args. ok (record args { control_server_name = some value }),
    )
    ∷ (
      text "--control-config-signing-key",
      λ value args. ok (record args { control_config_signing_key = some value }),
    )
    ∷ (text "--flush-batch-size", set_batch_size)
    ∷ (text "--flush-interval-ms", set_flush_interval)
    ∷ (text "--control-heartbeat-interval-ms", set_heartbeat_interval)
    ∷ (text "--shutdown-drain-timeout-ms", set_drain_timeout)
    ∷ []

look_up : Bytes → List (Bytes × Setter) → Option Setter
look_up flag [] = none
look_up flag ((name, setter) ∷ rest) = if flag =text name then some setter else look_up flag rest

setter_of : Bytes → Option Setter
unfolding look_up
setter_of flag = look_up flag setters

-- A flag that takes no value.
switch_of : Bytes → Args → Option Args
switch_of flag args =
    if flag =text text "--self-test"
    then some (record args { self_test = true })
    else if flag =text text "--check-config"
    then some (record args { check_config = true })
    else if flag =text text "--help"
    then some (record args { help = true })
    else if flag =text text "-h"
    then some (record args { help = true })
    else none

-- The flag is the last word.
last_flag : Bytes → Option Args → Option Setter → Result Bytes Args
last_flag flag (some args) setter = ok args
last_flag flag none (some setter) = err (text "missing value for " ++ flag)
last_flag flag none none = err (text "unknown argument: " ++ flag)

unfoldable pub parse_loop : List Bytes → Args → Result Bytes Args
unfolding setter_of switch_of last_flag
parse_loop [] args = ok args
parse_loop (flag ∷ []) args = last_flag flag (switch_of flag args) (setter_of flag)
parse_loop (flag ∷ value ∷ values) args = elim (switch_of flag args) [
  | some switched ↦ parse_loop (value ∷ values) switched
  | none ↦ elim (setter_of flag) [
    | some setter ↦ setter value args >>= parse_loop values
    | none ↦ err (text "unknown argument: " ++ flag)
  ]
]

abbrev pub is_some {ℓ} : {A : Type ℓ} → Option A → Bool
is_some none = false
is_some (some a) = true

-- `Args::parse`
unfoldable pub parse_args : (Bytes → Option Bytes) → List Bytes → Result Bytes Args
parse_args env values = do
  args ← parse_loop values (default_args env)
  fail_if (is_some args.otlp_grpc && is_some args.otlp_http)
      (text "choose only one receiver mode for this agent process")
  ok args

pub data ReceiverMode : Type 0 where
  otlp_grpc : Bytes → ReceiverMode
  otlp_http : Bytes → TlsConfig → ReceiverMode

abbrev pub is_grpc : ReceiverProtocol → Bool
is_grpc ReceiverProtocol.otlp_grpc = true
is_grpc ReceiverProtocol.otlp_http = false

configured_mode : List ReceiverConfig → Result Bytes (Option ReceiverMode)
configured_mode receivers = elim (find (λ (r : ReceiverConfig). is_grpc r.protocol) receivers) [
  | some r ↦ ok (some (ReceiverMode.otlp_grpc r.endpoint))
  | none ↦ elim (find (λ (r : ReceiverConfig). not (is_grpc r.protocol)) receivers) [
    | some r ↦ ok (some (ReceiverMode.otlp_http r.endpoint r.tls))
    | none ↦
        err
          (text "config has no supported receiver; supported receivers are otlp_grpc and otlp_http")
  ]
]

unfoldable pub receiver_mode : Args → PipelineConfig → Result Bytes (Option ReceiverMode)
unfolding configured_mode
receiver_mode args config = elim args.otlp_grpc [
  | some bind ↦ ok (some (ReceiverMode.otlp_grpc bind))
  | none ↦ elim args.otlp_http [
    | some bind ↦ ok (some (ReceiverMode.otlp_http bind tls_disabled))
    | none ↦ if is_some args.config_path then configured_mode config.receivers else ok none
  ]
]

upstream_config : Bytes → PipelineConfig → PipelineConfig
upstream_config endpoint config = record config {
  exporters =
      record {
        name = text "otlp-upstream";
        protocol = ExporterProtocol.otlp_grpc;
        endpoint = endpoint;
        tls = if starts_with (text "https://") endpoint then tls_enabled else tls_disabled;
        retry = default_retry;
      }
      ∷ record {
        name = text "stdout";
        protocol = ExporterProtocol.stdout;
        endpoint = text "stdout://local";
        tls = tls_disabled;
        retry = default_retry;
      }
      ∷ [];
  routes =
      record { signal = trace; exporters = text "otlp-upstream" ∷ [] }
      ∷ record { signal = metric; exporters = text "otlp-upstream" ∷ [] }
      ∷ record { signal = log; exporters = text "otlp-upstream" ∷ [] }
      ∷ [];
}

with_tenant : Option Bytes → PipelineConfig → PipelineConfig
with_tenant none config = config
with_tenant (some tenant_id) config = record config { tenant_id = tenant_id }

with_upstream : Option Bytes → PipelineConfig → PipelineConfig
unfolding upstream_config
with_upstream none config = config
with_upstream (some endpoint) config = upstream_config endpoint config

unfoldable pub build_pipeline_config :
    (Bytes → Result Bytes PipelineConfig) → Args → Result Bytes PipelineConfig
unfolding with_tenant with_upstream
build_pipeline_config load_pipeline_config args = do
  loaded ← elim args.config_path [
    | some path ↦ load_pipeline_config path
    | none ↦ ok default_config
  ]
  let config = with_upstream args.otlp_export_endpoint (with_tenant args.tenant_id loaded)
  let final = if is_some args.config_path then config else with_tenant args.tenant_id config
  map_err display_pipeline_error (validate_config final)
  ok final

https_endpoint : Option Bytes → Bool
https_endpoint none = false
https_endpoint (some endpoint) = starts_with (text "https://") endpoint

unfoldable pub control_client_security : Args → ControlClientSecurity
unfolding https_endpoint
control_client_security args = record {
  auth_token = args.control_auth_token;
  tls = record {
    enabled = https_endpoint args.control_endpoint;
    ca_file = args.control_ca_file;
    cert_file = args.control_cert_file;
    key_file = args.control_key_file;
    server_name = args.control_server_name;
    require_client_auth = false;
  };
  config_signing_key = args.control_config_signing_key;
}
