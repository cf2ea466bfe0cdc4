-- ===== src/Agent/ControlClient.antt =====
-- crates/telemetry-agent/src/control_client.rs: what the agent sends to the control plane, and what
-- it reads from the answers. `serde_yaml`, which parses them, is a parameter (`Yaml`), and so is the
-- exchange of bytes over TCP or TLS, on a network `N`. A boxed error is the text that it prints.
pub mod Sha256
pub mod Compare
pub mod Escape
pub mod Accepts
use Prim.Native.String.{String}
use telemetry_fabric.Prelude.{
  ℕ, ◌+◌, Bool, true, false, not, ◌&&◌, ◌||◌, List, [], ◌∷◌, ◌++◌, Option, none, some, ltb, ◌==◌,
  ◌=text◌, if◌then◌else◌, length, unwrap_or,
}
use telemetry_fabric.Prelude.Words.{u16_max}
use telemetry_fabric.Prelude.Result.{Result, ok, err, ◌>>=◌, ◌>>◌, fail_if}
use telemetry_fabric.Std.Bytes.{Bytes}
use telemetry_fabric.Std.Text.{text, utf8_error}
use telemetry_fabric.Std.Decimal.{decimal, parse_int, ok_or}
use telemetry_fabric.Std.Lines.{
  strip_prefix, split_whitespace, trim, is_empty, contains, rsplit_once, lines,
  eq_ignore_ascii_case, nth, split_at_blank_line,
}
use telemetry_fabric.Core.Config.{TlsConfig, PipelineConfig}
use telemetry_fabric.Core.Telemetry.Input.{display_utf8_error}
use telemetry_fabric.Agent.ConfigFile.{FilePipelineConfig, parse_pipeline_config}
use telemetry_fabric.Agent.ControlClient.Sha256.{sha256_hex, hmac_sha256_hex, constant_time_equal}

pub data HttpScheme : Type 0 where
  http https : HttpScheme

pub record HttpEndpoint : Type 0 where
  pub scheme : HttpScheme
  pub host : Bytes
  pub port : ℕ

pub record ControlClientSecurity : Type 0 where
  pub auth_token : Option Bytes
  pub tls : TlsConfig
  pub config_signing_key : Option Bytes

pub record ControlClient : Type 0 where
  pub endpoint : HttpEndpoint
  pub agent_id : Bytes
  pub tenant_id : Bytes
  pub hostname : Bytes
  pub version : Bytes
  pub security : ControlClientSecurity

pub record RegisterResponse : Type 0 where
  pub accepted : Bool
  pub config_version : ℕ
  pub message : Bytes

pub data ControlCommandKind : Type 0 where
  reload_config drain_and_restart pause_exports resume_exports unknown : ControlCommandKind

pub data ControlCommandStatus : Type 0 where
  pending delivered succeeded failed unknown : ControlCommandStatus

pub record ControlCommand : Type 0 where
  pub command_id : Bytes
  pub kind : ControlCommandKind
  pub reason : Bytes
  pub status : ControlCommandStatus

pub record ConfigUpdate : Type 0 where
  pub version : ℕ
  pub pipeline_config : Bytes
  pub checksum : Bytes
  pub signature : Option Bytes

pub record HeartbeatStats : Type 0 where
  pub config_version : ℕ
  pub queue_depth_bytes : ℕ
  pub ingest_bytes_per_second : ℕ

-- `s.replace(c, with)` for an ASCII character.
unfoldable pub replace : ℕ → Bytes → Bytes → Bytes
replace c new [] = []
replace c new (b ∷ s) = (if b == c then new else b ∷ []) ++ replace c new s

unfoldable pub json_escape : Bytes → Bytes
unfolding replace
json_escape value = replace 9 (92 ∷ 116 ∷ []) (
    replace 13 (92 ∷ 114 ∷ [])
      (replace 10 (92 ∷ 110 ∷ []) (replace 34 (92 ∷ 34 ∷ []) (replace 92 (92 ∷ 92 ∷ []) value))))

-- `"name":"value"`, with the value escaped.
unfoldable pub text_field : String → Bytes → Bytes
text_field name value = 34 ∷ (text name ++ (34 ∷ 58 ∷ 34 ∷ (json_escape value ++ (34 ∷ []))))

-- `"name":value`
unfoldable pub raw_field : String → Bytes → Bytes
raw_field name value = 34 ∷ (text name ++ (34 ∷ 58 ∷ value))

unfoldable pub json_object : List Bytes → Bytes
json_object fields = 123 ∷ (fields_text fields ++ (125 ∷ []))
  where
    fields_text : List Bytes → Bytes
    fields_text [] = []
    fields_text (field ∷ []) = field
    fields_text (field ∷ next ∷ rest) = field ++ (44 ∷ fields_text (next ∷ rest))

unfoldable pub register_body : ControlClient → Bytes
register_body client = json_object (
    text_field "agent_id" client.agent_id
    ∷ text_field "tenant_id" client.tenant_id
    ∷ text_field "hostname" client.hostname
    ∷ text_field "version" client.version
    ∷ [])

unfoldable pub heartbeat_body : ControlClient → HeartbeatStats → Bytes
heartbeat_body client stats = json_object (
    text_field "agent_id" client.agent_id
    ∷ text_field "tenant_id" client.tenant_id
    ∷ raw_field "config_version" (decimal stats.config_version)
    ∷ raw_field "queue_depth_bytes" (decimal stats.queue_depth_bytes)
    ∷ raw_field "ingest_bytes_per_second" (decimal stats.ingest_bytes_per_second)
    ∷ [])

unfoldable pub config_body : ControlClient → ℕ → Bytes
config_body client current_version = json_object (
    text_field "agent_id" client.agent_id
    ∷ text_field "tenant_id" client.tenant_id
    ∷ raw_field "current_version" (decimal current_version)
    ∷ [])

error_field : Option Bytes → List Bytes
error_field none = []
error_field (some message) = text_field "error" message ∷ []

unfoldable pub ack_body : ControlClient → Bytes → Bool → Option Bytes → Bytes
unfolding error_field
ack_body client command_id success error = json_object (
    text_field "agent_id" client.agent_id
    ∷ text_field "tenant_id" client.tenant_id
    ∷ text_field "command_id" command_id
    ∷ raw_field "success" (if success then text "true" else text "false")
    ∷ error_field error)

authorization : Option Bytes → Result Bytes Bytes
authorization none = ok []
authorization (some token) =
    if contains 13 token || contains 10 token
    then err (text "control auth token must not contain newline characters")
    else ok (text "Authorization: Bearer " ++ (token ++ (13 ∷ 10 ∷ [])))

unfoldable pub render_post_request : ControlClient → Bytes → Bytes → Result Bytes Bytes
unfolding authorization
render_post_request client path body = do
  token_line ← authorization client.security.auth_token
  ok (
      text "POST "
      ++ (path
          ++ (text " HTTP/1.1\r\nHost: "
              ++ (client.endpoint.host
                  ++ (58
                      ∷ (decimal client.endpoint.port
                          ++ (text "\r\nContent-Type: application/json\r\nContent-Length: "
                              ++ (decimal (length body)
                                  ++ (text "\r\n"
                                      ++ (token_line ++ text "Connection: close\r\n\r\n"))))))))))

scheme_of : Bytes → Result Bytes (HttpScheme × Bytes)
scheme_of endpoint = elim (strip_prefix (text "https://") endpoint) [
  | some rest ↦ ok (https, rest)
  | none ↦ elim (strip_prefix (text "http://") endpoint) [
    | some rest ↦ ok (http, rest)
    | none ↦ err (text "control endpoint must use http:// or https://")
  ]
]

default_port : HttpScheme → ℕ
default_port http = 80
default_port https = 443

authority : HttpScheme → Bytes → Option (Bytes × Bytes) → Result Bytes (Bytes × ℕ)
authority scheme whole none = ok (whole, default_port scheme)
authority scheme whole (some (host, port)) = do number ← parse_int u16_max port; ok (host, number)

unfoldable pub parse_http_endpoint : Bytes → Result Bytes HttpEndpoint
unfolding scheme_of default_port authority
parse_http_endpoint endpoint = do
  parts ← scheme_of (trim endpoint)
  fail_if (contains 47 parts.1) (text "control endpoint path prefixes are not supported yet")
  host_port ← authority parts.0 parts.1 (rsplit_once 58 parts.1)
  fail_if (is_empty (trim host_port.0)) (text "control endpoint host must not be empty")
  ok (record { scheme = parts.0; host = host_port.0; port = host_port.1 })

unfoldable pub new_with_security :
    Bytes → Bytes → Bytes → Bytes → Bytes → ControlClientSecurity → Result Bytes ControlClient
new_with_security endpoint agent_id tenant_id hostname version security = do
  parsed ← parse_http_endpoint endpoint
  ok (record {
    endpoint = parsed;
    agent_id = agent_id;
    tenant_id = tenant_id;
    hostname = hostname;
    version = version;
    security = security;
  })

-- `signing_key.filter(|value| !value.trim().is_empty())`
unfoldable pub active_key : Option Bytes → Option Bytes
active_key none = none
active_key (some key) = if is_empty (trim key) then none else some key

unfoldable pub signature_digits : Bytes → Bytes
signature_digits signature =
    trim (unwrap_or (strip_prefix (text "hmac-sha256=") signature) signature)

check_signature : ConfigUpdate → Option Bytes → Result Bytes (Unit {0})
check_signature update none = ok tt
check_signature update (some signing_key) = do
  signature ←
      ok_or update.signature
        (text "control config signature is required when a signing key is configured")
  fail_if
      (not (
        constant_time_equal (signature_digits signature)
          (hmac_sha256_hex signing_key update.pipeline_config)))
      (text "control config signature mismatch")

unfoldable pub validate_config_signature : ConfigUpdate → Option Bytes → Result Bytes (Unit {0})
unfolding check_signature
validate_config_signature update signing_key = check_signature update (active_key signing_key)

unfoldable pub validate_config_update :
    (Bytes → Result Bytes FilePipelineConfig)
    → ConfigUpdate
    → Option Bytes
    → Result Bytes PipelineConfig
validate_config_update from_yaml update signing_key = do
  fail_if (not (eq_ignore_ascii_case (sha256_hex update.pipeline_config) update.checksum)) (
      text "control config checksum mismatch: expected="
      ++ (update.checksum ++ (text " actual=" ++ sha256_hex update.pipeline_config)))
  validate_config_signature update signing_key
  parse_pipeline_config from_yaml update.pipeline_config

unfoldable pub parse_command_kind : Bytes → ControlCommandKind
parse_command_kind value =
    if value =text text "reload_config"
    then reload_config
    else if value =text text "drain_and_restart"
    then drain_and_restart
    else if value =text text "pause_exports"
    then pause_exports
    else if value =text text "resume_exports"
    then resume_exports
    else ControlCommandKind.unknown

unfoldable pub parse_command_status : Bytes → ControlCommandStatus
parse_command_status value =
    if value =text text "pending"
    then pending
    else if value =text text "delivered"
    then delivered
    else if value =text text "succeeded"
    then succeeded
    else if value =text text "failed"
    then failed
    else ControlCommandStatus.unknown

-- What the code uses of `serde_yaml::Value`.
pub record Yaml : Type 1 where
  pub Value : Type 0
  pub from_str : Bytes → Result Bytes Value
  -- `as_mapping`, and `get` with a key that is a string.
  pub as_mapping : Value → Option (Bytes → Option Value)
  pub as_str : Value → Option Bytes
  pub as_bool : Value → Option Bool
  pub as_u64 : Value → Option ℕ
  pub as_sequence : Value → Option (List Value)
  pub is_null : Value → Bool

-- What came of writing a request and reading the answer to its end.
pub data Exchanged : Type 0 where
  unconnected : Bytes → Exchanged
  broken : Bytes → Exchanged
  answered : Bytes → Exchanged

module _ (yaml : Yaml) where
  open yaml use {Value, from_str, as_mapping, as_str, as_bool, as_u64, as_sequence, is_null}

  unfoldable pub get_field : Value → Bytes → Result Bytes Value
  get_field value key = do
    mapping ← ok_or (as_mapping value) (text "expected JSON object")
    ok_or (mapping key) (text "missing field in control response: " ++ key)

  unfoldable pub get_string : Value → Bytes → Result Bytes Bytes
  get_string value key = do
    field ← get_field value key
    ok_or (as_str field) (text "field must be a string: " ++ key)

  unfoldable pub get_optional_string : Value → Bytes → Option Bytes
  get_optional_string value key = elim (get_field value key) [
    | ok field ↦ as_str field
    | err e ↦ none
  ]

  unfoldable pub get_bool : Value → Bytes → Result Bytes Bool
  get_bool value key = do
    field ← get_field value key
    ok_or (as_bool field) (text "field must be a boolean: " ++ key)

  unfoldable pub get_u64 : Value → Bytes → Result Bytes ℕ
  get_u64 value key = do
    field ← get_field value key
    ok_or (as_u64 field) (text "field must be an unsigned integer: " ++ key)

  unfoldable pub parse_register_response : Value → Result Bytes RegisterResponse
  parse_register_response value = do
    agent ← get_field value (text "agent")
    accepted ← get_bool agent (text "accepted")
    config_version ← get_u64 agent (text "config_version")
    message ← get_string agent (text "message")
    ok (record { accepted = accepted; config_version = config_version; message = message })

  status_of : Option Bytes → ControlCommandStatus
  status_of none = ControlCommandStatus.unknown
  status_of (some value) = parse_command_status value

  unfoldable pub parse_command : Value → Result Bytes ControlCommand
  unfolding status_of
  parse_command value = do
    command_id ← get_string value (text "command_id")
    kind ← get_string value (text "kind")
    reason ← get_string value (text "reason")
    ok (record {
      command_id = command_id;
      kind = parse_command_kind kind;
      reason = reason;
      status = status_of (get_optional_string value (text "status"));
    })

  unfoldable pub parse_commands : List Value → Result Bytes (List ControlCommand)
  parse_commands [] = ok []
  parse_commands (value ∷ values) = do
    command ← parse_command value
    commands ← parse_commands values
    ok (command ∷ commands)

  unfoldable pub parse_commands_response : Value → Result Bytes (List ControlCommand)
  unfolding parse_commands
  parse_commands_response value = do
    field ← get_field value (text "commands")
    commands ← ok_or (as_sequence field) (text "commands must be an array")
    parse_commands commands

  update_of : Value → Result Bytes (Option ConfigUpdate)
  update_of update = do
    version ← get_u64 update (text "version")
    pipeline_config ← get_string update (text "pipeline_config")
    checksum ← get_string update (text "checksum")
    ok (
        some (record {
          version = version;
          pipeline_config = pipeline_config;
          checksum = checksum;
          signature = get_optional_string update (text "signature");
        }))

  unfoldable pub parse_config_update_response : Value → Result Bytes (Option ConfigUpdate)
  unfolding update_of
  parse_config_update_response value = do
    update ← get_field value (text "update")
    if is_null update then ok none else update_of update

  unfoldable pub parse_http_json_response : Bytes → Result Bytes Value
  parse_http_json_response response = do
    parts ←
        ok_or (split_at_blank_line response)
          (text "control endpoint returned an invalid HTTP response")
    status_line ←
        ok_or (nth 0 (lines parts.0)) (text "control endpoint returned an empty HTTP response")
    word ← ok_or (nth 1 (split_whitespace status_line)) (text "missing HTTP status code")
    status_code ← parse_int u16_max word
    fail_if (ltb status_code 200 || not (ltb status_code 300))
        (text "control endpoint returned HTTP " ++ (decimal status_code ++ (text ": " ++ parts.1)))
    from_str parts.1

  -- On a network `N`.
  module _ {N : Type 0} (exchange : HttpEndpoint → TlsConfig → Bytes → N → Exchanged × N) where
    response_of : HttpEndpoint → Exchanged → Result Bytes Value
    response_of endpoint (unconnected e) = err (
        text "failed to connect to control endpoint "
        ++ (endpoint.host ++ (58 ∷ (decimal endpoint.port ++ (text ": " ++ e)))))
    response_of endpoint (broken e) = err e
    response_of endpoint (answered response) = elim (utf8_error response) [
      | none ↦ parse_http_json_response response
      | some e ↦ err (display_utf8_error e)
    ]

    unfoldable pub post_json : ControlClient → Bytes → Bytes → N → Result Bytes Value × N
    unfolding response_of
    post_json client path body net = elim (render_post_request client path body) [
      | err e ↦ (err e, net)
      | ok request ↦
          let (outcome, net') =
            exchange client.endpoint client.security.tls (request ++ body) net in
          (response_of client.endpoint outcome, net')
    ]

    unfoldable pub register : ControlClient → N → Result Bytes RegisterResponse × N
    register client net =
        let (response, net') =
          post_json client (text "/v1/agents/register") (register_body client) net in
        (response >>= parse_register_response, net')

    unfoldable pub heartbeat :
        ControlClient → HeartbeatStats → N → Result Bytes (List ControlCommand) × N
    heartbeat client stats net =
        let (response, net') =
          post_json client (text "/v1/agents/heartbeat") (heartbeat_body client stats) net in
        (response >>= parse_commands_response, net')

    unfoldable pub config_update : ControlClient → ℕ → N → Result Bytes (Option ConfigUpdate) × N
    config_update client current_version net =
        let (response, net') =
          post_json client (text "/v1/agents/config") (config_body client current_version) net in
        (response >>= parse_config_update_response, net')

    unfoldable pub ack_command :
        ControlClient → Bytes → Bool → Option Bytes → N → Result Bytes (Unit {0}) × N
    ack_command client command_id success error net =
        let (response, net') =
          post_json client (text "/v1/agents/commands/ack")
            (ack_body client command_id success error) net in
        (response >>= λ _. ok tt, net')
