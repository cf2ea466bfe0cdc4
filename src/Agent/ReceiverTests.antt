-- ===== src/Agent/ReceiverTests.antt =====
-- Concrete runs of the receiver, the control client and the command line, and their theorems at
-- concrete inputs.
use telemetry_fabric.Prelude.{
  ◌=text◌, ℕ, ◌+◌, ◌%◌, ◌≤◌, ◌≡◌, ◌↔◌, refl, List, [], ◌∷◌, ◌++◌, none, some, true, false, ◌&&◌,
  length, arith, Option, All,
}
use telemetry_fabric.Prelude.Result.{Result, ok, err}
use telemetry_fabric.Std.Bytes.{Bytes}
use telemetry_fabric.Std.Text.{
  is_blank, chars_from, is_whitespace, text, to_ascii_lowercase, is_blank,
}
use telemetry_fabric.Std.Lines.{
  starts_with, eq_ignore_ascii_case, trim, space_width, is_empty, strip_prefix,
}
use telemetry_fabric.Std.Decimal.{parse_int, parse_u64, ok_or}
use telemetry_fabric.Exporters.Hex.{hex_digit}
use telemetry_fabric.Exporters.Error.{ExporterError}
use telemetry_fabric.Core.Config.{
  ExporterConfig, TlsConfig, tls_disabled, PipelineConfig, default_config, tls_enabled,
  ExporterProtocol, validate_config, default_retry, require_non_empty, validate_limits,
}
use telemetry_fabric.Core.Config.{
  validate_limits, validate_config, require_non_empty, validate_retries, validate_unique_names,
  unique_names_from, validate_routes, validate_targets, ExporterProtocol, default_retry,
}
use telemetry_fabric.Core.Config.Valid.{IsValidConfig}
use telemetry_fabric.Core.Telemetry.{trace, metric, log, SignalKind, TelemetryRecord, trace, metric}
use telemetry_fabric.Agent.Tests.{point, yaml, expected, small_file-accepted}
use telemetry_fabric.Agent.FlushTests.{Slow, agent, empty_queue-Queues}
use telemetry_fabric.Agent.OtlpHttp.{
  OtlpHttpRequest, parse_buffered_http_request, read_otlp_http_request,
}
use telemetry_fabric.Agent.OtlpHttp.Framing.{given, joined, read_otlp_http_request-whole}
use telemetry_fabric.Agent.OtlpHttp.Handler.{handle_request}
use telemetry_fabric.Agent.OtlpHttp.Handler.Served.{Served, handle_request-Served}
use telemetry_fabric.Agent.ControlClient.Sha256.{
  sha256_hex, hmac_sha256_hex, constant_time_equal, padded,
}
use telemetry_fabric.Agent.ControlClient.Compare.{constant_time_equal_iff, padded-blocks}
use telemetry_fabric.Agent.ControlClient.{
  json_escape, validate_config_signature, active_key, signature_digits, HttpEndpoint, http,
  ControlClient, ConfigUpdate, Yaml, Exchanged, unconnected, validate_config_update,
}
use telemetry_fabric.Agent.ControlClient.Escape.{
  IsEscapable, read_string_body, read_string_body-json_escape,
}
use telemetry_fabric.Agent.ControlClient.Accepts.{IsTrusted, validate_config_update-IsTrusted}
use telemetry_fabric.Agent.ControlWorker.{apply_update}
use telemetry_fabric.Agent.ControlWorker.Reloads.{Applied, apply_update-Applied}
use telemetry_fabric.Agent.Args.{
  parse_loop, set_batch_size, parse_positive, Args, default_args, parse_args, is_some,
  build_pipeline_config,
}
use telemetry_fabric.Agent.Args.Accepted.{
  IsPaced, parse_args-IsPaced, build_pipeline_config-IsValidConfig,
}

abbrev chunks : List Bytes
chunks =
    text "POST /v1/logs HTTP/1.1\r\ncontent-LENGTH: 3\r"
    ∷ (text "\n\r\n" ++ (1 ∷ []))
    ∷ (2 ∷ 3 ∷ [])
    ∷ []

abbrev logs_request : OtlpHttpRequest
logs_request = record {
  method = text "POST";
  path = text "/v1/logs";
  content_type = none;
  body = 1 ∷ 2 ∷ 3 ∷ [];
}

read_otlp_http_request-whole_example :
    (read_otlp_http_request (given chunks) ≡ ok logs_request)
    ↔ (parse_buffered_http_request (joined chunks) ≡ ok (some logs_request))
unfolding text
read_otlp_http_request-whole_example =
    read_otlp_http_request-whole chunks logs_request (omega arith) (omega arith)

abbrev sent : Bytes
sent = 1 ∷ 2 ∷ []

abbrev computed : Bytes
computed = 1 ∷ 3 ∷ []

constant_time_equal_iff_example : (constant_time_equal sent computed ≡ true) ↔ (sent ≡ computed)
constant_time_equal_iff_example = constant_time_equal_iff sent computed

padded-blocks_example :
    (length (padded (97 ∷ [])) % 64 ≡ 0)
    × (length {A = ℕ} (97 ∷ []) + 9 ≤ length (padded (97 ∷ [])))
    × (length (padded (97 ∷ [])) ≤ length {A = ℕ} (97 ∷ []) + 72)
padded-blocks_example = padded-blocks (97 ∷ [])

abbrev key : Option Bytes
key = some (107 ∷ [])

abbrev update : ConfigUpdate
update = record {
  version = 7;
  pipeline_config = [];
  checksum = text "E3B0C44298FC1C149AFBF4C8996FB92427AE41E4649B934CA495991B7852B855";
  signature = some (text "hmac-sha256=" ++ hmac_sha256_hex (107 ∷ []) []);
}

checksum_fits : eq_ignore_ascii_case (sha256_hex update.pipeline_config) update.checksum ≡ true
unfolding eq_ignore_ascii_case sha256_hex to_ascii_lowercase text hex_digit ◌=text◌
checksum_fits = refl

signature_fits : validate_config_signature update key ≡ ok tt
unfolding validate_config_signature hmac_sha256_hex text hex_digit active_key trim space_width
    is_empty signature_digits strip_prefix ok_or constant_time_equal
signature_fits = refl

update-accepted : validate_config_update yaml update key ≡ ok expected
unfolding validate_config_update
update-accepted = rw (checksum_fits, signature_fits) small_file-accepted

validate_config_update-IsTrusted_example : IsTrusted yaml update key expected
validate_config_update-IsTrusted_example =
    validate_config_update-IsTrusted yaml update key expected update-accepted

abbrev no_yaml : Yaml
no_yaml = record {
  Value = Unit {0};
  from_str = λ s. err s;
  as_mapping = λ v. none;
  as_str = λ v. none;
  as_bool = λ v. none;
  as_u64 = λ v. none;
  as_sequence = λ v. none;
  is_null = λ v. true;
}

abbrev no_network : HttpEndpoint → TlsConfig → Bytes → Unit {0} → Exchanged × Unit {0}
no_network endpoint tls request net = (unconnected [], net)

abbrev construct : ExporterConfig → Result ExporterError Slow
construct config = ok (0, [])

abbrev client : ControlClient
client = record {
  endpoint = record { scheme = http; host = text "c"; port = 80 };
  agent_id = text "a";
  tenant_id = text "t";
  hostname = text "h";
  version = text "1";
  security = record { auth_token = none; tls = tls_disabled; config_signing_key = key };
}

apply_update-Applied_example :
    Applied no_yaml no_network yaml construct client agent
      (apply_update no_yaml no_network yaml construct client agent (ok (some update)))
apply_update-Applied_example =
    apply_update-Applied no_yaml no_network yaml construct client agent (ok (some update))

abbrev no_env : Bytes → Option Bytes
no_env name = none

abbrev words : List Bytes
words =
    text "--self-test"
    ∷ text "--flush-batch-size"
    ∷ text "64"
    ∷ text "--otlp-export-endpoint"
    ∷ text "https://up"
    ∷ []

abbrev parsed_args : Args
parsed_args = record (default_args no_env) {
  self_test = true;
  flush_batch_size = 64;
  otlp_export_endpoint = some (text "https://up");
}

words-accepted : parse_args no_env words ≡ ok parsed_args
unfolding parse_args parse_loop text default_args ◌=text◌ set_batch_size parse_positive parse_int
    parse_u64
words-accepted = refl

parse_args-IsPaced_example :
    IsPaced parsed_args × ((is_some parsed_args.otlp_grpc && is_some parsed_args.otlp_http) ≡ false)
unfolding default_args
parse_args-IsPaced_example = parse_args-IsPaced no_env words parsed_args words-accepted

abbrev no_file : Bytes → Result Bytes PipelineConfig
no_file path = err path

abbrev upstream : PipelineConfig
upstream = record default_config {
  exporters =
      record {
        name = text "otlp-upstream";
        protocol = ExporterProtocol.otlp_grpc;
        endpoint = text "https://up";
        tls = tls_enabled;
        retry = default_retry;
      }
      ∷ record {
        name = text "stdout";
        protocol = ExporterProtocol.stdout;
        endpoint = text "stdout://local";
        tls = tls_disabled;
        retry = default_retry;
      }
      ∷ [];
  routes =
      record { signal = trace; exporters = text "otlp-upstream" ∷ [] }
      ∷ record { signal = metric; exporters = text "otlp-upstream" ∷ [] }
      ∷ record { signal = log; exporters = text "otlp-upstream" ∷ [] }
      ∷ [];
}

upstream-built : build_pipeline_config no_file parsed_args ≡ ok upstream
unfolding build_pipeline_config default_args default_config validate_config text is_blank
    require_non_empty validate_limits validate_retries validate_unique_names unique_names_from
    validate_routes validate_targets ◌=text◌ chars_from is_whitespace starts_with
upstream-built = refl

build_pipeline_config-IsValidConfig_example : IsValidConfig upstream
build_pipeline_config-IsValidConfig_example =
    build_pipeline_config-IsValidConfig no_file parsed_args upstream upstream-built

abbrev Request : SignalKind → Type 0
Request s = Unit {0}

abbrev decode_any : (s : SignalKind) → Bytes → Result Bytes (Request s)
decode_any s body = ok tt

abbrev one_record : (s : SignalKind) → Bytes → Request s → List TelemetryRecord
one_record s tenant req = point ∷ []

handle_request-Served_example :
    Served {Req = Request} decode_any decode_any one_record
      (λ s. ok [])
      (λ s. [])
      (text "t")
      logs_request
      agent
      []
      (handle_request {Req = Request} decode_any decode_any one_record
        (λ s. ok [])
        (λ s. [])
        (text "t")
        logs_request
        agent)
handle_request-Served_example =
    handle_request-Served {Req = Request} decode_any decode_any one_record (λ s. ok []) (λ s. [])
      (text "t") logs_request agent [] (omega arith) (λ s m e. omega arith) empty_queue-Queues

abbrev quoted : Bytes
quoted = 97 ∷ 34 ∷ 92 ∷ 10 ∷ []

read_string_body-json_escape_example :
    (read_string_body (json_escape quoted) ≡ some quoted) ↔ All IsEscapable quoted
read_string_body-json_escape_example = read_string_body-json_escape quoted
