-- ===== src/Agent/ControlClient/Accepts.antt =====
-- What the agent checks before it takes a configuration from the control plane.
use telemetry_fabric.Prelude.{◌≡◌, Bool, true, false, not, Option, none, some}
use telemetry_fabric.Prelude.Result.{Result, ok, >>-eq-ok, >>=-eq-ok, fail_if-eq-ok}
use telemetry_fabric.Std.Bytes.{Bytes}
use telemetry_fabric.Std.Decimal.{ok_or}
use telemetry_fabric.Std.Lines.{eq_ignore_ascii_case}
use telemetry_fabric.Core.Config.{PipelineConfig}
use telemetry_fabric.Core.Config.Valid.{IsValidConfig}
use telemetry_fabric.Agent.ConfigFile.{FilePipelineConfig, parse_pipeline_config}
use telemetry_fabric.Agent.ConfigFile.Accepted.{parse_pipeline_config-IsValidConfig}
use telemetry_fabric.Agent.ControlClient.Sha256.{sha256_hex, hmac_sha256_hex}
use telemetry_fabric.Agent.ControlClient.Compare.{constant_time_equal_iff}
use telemetry_fabric.Agent.ControlClient.{
  ConfigUpdate, active_key, signature_digits, validate_config_signature, validate_config_update,
  check_signature,
}

-- With a key in force, the signature is the code of the content under that key.
abbrev pub IsSigned : ConfigUpdate → Option Bytes → Type 0
IsSigned update none = Unit {0}
IsSigned update (some key) =
    (signature : Bytes) × (update.signature ≡ some signature)
    × (signature_digits signature ≡ hmac_sha256_hex key update.pipeline_config)

-- An update that the agent may apply, and the configuration that it holds.
pub record IsTrusted (from_yaml : Bytes → Result Bytes FilePipelineConfig) (update : ConfigUpdate)
    (key : Option Bytes) (config : PipelineConfig) : Type 0 where
  pub checksum : eq_ignore_ascii_case (sha256_hex update.pipeline_config) update.checksum ≡ true
  pub signed : IsSigned update (active_key key)
  pub parsed : parse_pipeline_config from_yaml update.pipeline_config ≡ ok config
  pub valid : IsValidConfig config

not-eq_false : (b : Bool) → not b ≡ false → b ≡ true
not-eq_false true h = cc
not-eq_false false h = cc

ok_or-eq_ok : (o : Option Bytes) (message : Bytes) {s : Bytes} → ok_or o message ≡ ok s → o ≡ some s
unfolding ok_or
ok_or-eq_ok none message h = cc
ok_or-eq_ok (some t) message h = cc

check_signature-IsSigned :
    (update : ConfigUpdate) (key : Option Bytes)
    → check_signature update key ≡ ok tt
    → IsSigned update key
unfolding check_signature
check_signature-IsSigned update none h = tt
check_signature-IsSigned update (some key) h =
    let (signature, s, e) = >>=-eq-ok _ _ h in
    (
      signature,
      ok_or-eq_ok update.signature _ s,
      (constant_time_equal_iff _ _).0 (not-eq_false _ (fail_if-eq-ok _ _ e)),
    )

-- An update that is accepted has the checksum of its content, in either case of letters; with a
-- signing key that is not blank, it carries the code of the content under that key; and its content
-- parses to the configuration that is returned, which is valid.
pub validate_config_update-IsTrusted :
    (from_yaml : Bytes → Result Bytes FilePipelineConfig) (update : ConfigUpdate)
    (key : Option Bytes) (config : PipelineConfig)
    → validate_config_update from_yaml update key ≡ ok config
    → IsTrusted from_yaml update key config
unfolding validate_config_update validate_config_signature
validate_config_update-IsTrusted from_yaml update key config h =
    let (sum, rest) = >>-eq-ok _ _ h in
    let (sign, parsed) = >>-eq-ok _ _ rest in
    record {
      checksum = not-eq_false _ (fail_if-eq-ok _ _ sum);
      signed = check_signature-IsSigned update (active_key key) sign;
      parsed = parsed;
      valid = parse_pipeline_config-IsValidConfig from_yaml update.pipeline_config config parsed;
    }
