-- ===== src/Core/Error.antt =====
-- crates/telemetry-core/src/error.rs: the error types, and the texts that they print.
use telemetry_fabric.Prelude.{ℕ, ◌++◌}
use telemetry_fabric.Std.Bytes.{Bytes}
use telemetry_fabric.Std.Text.{text}
use telemetry_fabric.Std.Decimal.{decimal}

pub data PipelineError : Type 0 where
  invalid_config : Bytes → PipelineError
  missing_route : Bytes → PipelineError
  unknown_exporter : Bytes → PipelineError

pub data TelemetryError : Type 0 where
  invalid_record : Bytes → TelemetryError
  decode_error : Bytes → TelemetryError
  payload_too_large : ℕ → TelemetryError

pub display_pipeline_error : PipelineError → Bytes
display_pipeline_error (invalid_config message) = text "invalid pipeline config: " ++ message
display_pipeline_error (missing_route signal) = text "missing route for signal: " ++ signal
display_pipeline_error (unknown_exporter name) =
    text "unknown exporter referenced by route: " ++ name

pub display_telemetry_error : TelemetryError → Bytes
display_telemetry_error (invalid_record message) = text "invalid telemetry record: " ++ message
display_telemetry_error (decode_error message) =
    text "failed to decode telemetry record: " ++ message
display_telemetry_error (payload_too_large size) =
    text "payload is too large: " ++ (decimal size ++ text " bytes")
