-- ===== src/Processors/Tests.antt =====
-- The processors at concrete inputs.
use telemetry_fabric.Prelude.{◌+◌, ◌≤◌, ◌≡◌, refl, inl, [], ◌∷◌, some, arith, ◌=text◌}
use telemetry_fabric.Std.Text.{text, to_ascii_lowercase, ends_with}
use telemetry_fabric.Core.Telemetry.{TelemetryRecord, log}
use telemetry_fabric.Processors.{
  TenantRateWindow, TenantRateLimitProcessor, ProcessorChain, redactor, RedactProcessor, process,
  process_all, run_processor, redact_record, redact_attributes, is_sensitive, redacted, window_of,
}
use telemetry_fabric.Processors.RateLimit.{emitted_bytes, emitted_bytes-le}
use telemetry_fabric.Processors.Redaction.{SameBut, IsClean}
use telemetry_fabric.Processors.Chain.{process-IsClean}

abbrev login : TelemetryRecord
login = record {
  tenant_id = text "pay";
  signal = log;
  timestamp_unix_nanos = 1;
  attributes = record { key = text "User.Password"; value = text "x" } ∷ [];
  body = 1 ∷ [];
}

abbrev masked : TelemetryRecord
masked = record login {
  attributes = record { key = text "User.Password"; value = text "[REDACTED]" } ∷ [];
}

abbrev window : TenantRateWindow
window = record { started_at = 5; used_bytes = 40 }

abbrev busy : TenantRateLimitProcessor
busy = record {
  name = text "limit";
  max_bytes_per_second = 100;
  windows = (text "pay", window) ∷ [];
}

window_found : window_of (text "pay") busy.windows ≡ some window
unfolding window_of text ◌=text◌
window_found = refl

emitted_bytes-le_example :
    40 + emitted_bytes (text "pay") ((login, 10) ∷ (login, 20) ∷ []) busy ≤ 100
emitted_bytes-le_example =
    emitted_bytes-le (text "pay") ((login, 10) ∷ (login, 20) ∷ []) busy window window_found
      (omega arith) (omega arith) (omega arith)

abbrev hide : RedactProcessor
hide = record { name = text "hide"; sensitive_keys = text "password" ∷ [] }

abbrev hiding : ProcessorChain
hiding = record { processors = redactor hide ∷ []; dropped_records = 0 }

login-masked : (process [] login hiding).0 ≡ some masked
unfolding process process_all run_processor redact_record redact_attributes is_sensitive redacted
    to_ascii_lowercase ends_with text ◌=text◌
login-masked = refl

process-IsClean_example : SameBut login masked × IsClean (text "password" ∷ []) masked.attributes
process-IsClean_example = process-IsClean [] login masked hide hiding (inl refl) login-masked
