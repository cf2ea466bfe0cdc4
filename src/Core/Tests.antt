-- ===== src/Core/Tests.antt =====
-- Concrete runs of the core, and its theorems at concrete inputs.
use telemetry_fabric.Prelude.{◌≡◌, ◌≢◌, refl, List, [], ◌∷◌, arith, find, some, ◌=text◌}
use telemetry_fabric.Core.Config.{
  ExporterConfig, RouteConfig, default_config, validate_config, require_non_empty, validate_limits,
  validate_retries, validate_unique_names, unique_names_from, validate_routes, validate_targets,
}
use telemetry_fabric.Core.Config.Valid.{IsValidConfig, validate_config-IsValidConfig}
use telemetry_fabric.Core.Routing.{exporters_for}
use telemetry_fabric.Core.Routing.Resolves.{names, exporters_for-names}
use telemetry_fabric.Prelude.Words.{u32_max}
use telemetry_fabric.Prelude.Result.{ok}
use telemetry_fabric.Std.Bytes.{Bytes, le_bytes}
use telemetry_fabric.Std.Text.{utf8_error, is_blank, text}
use telemetry_fabric.Core.Telemetry.{
  TelemetryRecord, trace, log, ◌=signal◌, encode, decode, validate, write_attributes,
}
use telemetry_fabric.Core.Telemetry.Layout.{layout, FitsWire, encode-fits}
use telemetry_fabric.Core.Telemetry.RoundTrip.{IsRecord, decode-encode}

-- A span of the tenant "pay", with the attribute ("k", "é").
abbrev span : TelemetryRecord
span = record {
  tenant_id = 112 ∷ 97 ∷ 121 ∷ [];
  signal = trace;
  timestamp_unix_nanos = 1000;
  attributes = record { key = 107 ∷ []; value = 0xc3 ∷ 0xa9 ∷ [] } ∷ [];
  body = 1 ∷ 2 ∷ [];
}

abbrev span_bytes : Bytes
span_bytes =
    84 ∷ 70 ∷ 66 ∷ 49 ∷ 1 ∷ 232 ∷ 3 ∷ 0 ∷ 0 ∷ 0 ∷ 0 ∷ 0 ∷ 0 ∷ 0 ∷ 0 ∷ 0 ∷ 0 ∷ 0 ∷ 0 ∷ 0 ∷ 0 ∷ 3 ∷ 0
    ∷ 112 ∷ 97 ∷ 121 ∷ 1 ∷ 0 ∷ 1 ∷ 0 ∷ 107 ∷ 2 ∷ 0 ∷ 195 ∷ 169 ∷ 2 ∷ 0 ∷ 0 ∷ 0 ∷ 1 ∷ 2 ∷ []

encode-span : encode span ≡ ok span_bytes
unfolding encode validate is_blank write_attributes le_bytes
encode-span = refl

span-IsRecord : IsRecord span
unfolding utf8_error
span-IsRecord = record { tenant = refl; time = omega arith; texts = ((refl, refl), tt) }

decode-encode_example : decode span_bytes ≡ ok span
decode-encode_example = decode-encode span span_bytes span-IsRecord encode-span (omega arith)

encode-fits_example : (validate span u32_max ≡ ok tt) × FitsWire span × (span_bytes ≡ layout span)
encode-fits_example = encode-fits span span_bytes encode-span

default_config-accepted : validate_config default_config ≡ ok tt
unfolding default_config validate_config text is_blank require_non_empty validate_limits
    validate_retries validate_unique_names unique_names_from validate_routes validate_targets
    ◌=text◌
default_config-accepted = refl

validate_config-IsValidConfig_example : IsValidConfig default_config
validate_config-IsValidConfig_example =
    validate_config-IsValidConfig default_config default_config-accepted

abbrev log_route : RouteConfig
log_route = record { signal = log; exporters = text "stdout" ∷ [] }

log_route-found :
    find (λ (r : RouteConfig). r.signal =signal log) default_config.routes ≡ some log_route
unfolding default_config text ◌=signal◌
log_route-found = refl

exporters_for-names_example :
    (es : List ExporterConfig) × (exporters_for default_config log ≡ ok es)
    × (names es ≡ text "stdout" ∷ [])
    × (es ≢ [])
exporters_for-names_example =
    exporters_for-names default_config log log_route default_config-accepted log_route-found
