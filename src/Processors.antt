-- ===== src/Processors.antt =====
-- crates/telemetry-processors/src/lib.rs: the processors that a record passes before it is exported.
-- An `Instant` is a number of nanoseconds. The `BTreeMap` of the rate limiter is an association list
-- by tenant: the program only looks up and sets entries, so no order shows. No processor of the
-- crate returns a `ProcessingError`, so `process` has none.
pub mod RateLimit
pub mod Redaction
pub mod Chain
mod Tests
use telemetry_fabric.Prelude.{
  ℕ, ◌+◌, ◌-◌, ◌++◌, List, [], ◌∷◌, Option, none, some, Bool, true, ltb, leb, ◌=text◌,
  if◌then◌else◌, length, any,
}
use Prim.Native.Nat.{min}
use telemetry_fabric.Prelude.Words.{saturating_add_u64, add_u64}
use telemetry_fabric.Std.Bytes.{Bytes}
use telemetry_fabric.Std.Text.{text, to_ascii_lowercase, ends_with}
use telemetry_fabric.Std.Decimal.{decimal}
use telemetry_fabric.Core.Telemetry.{Attribute, TelemetryRecord}
use telemetry_fabric.Core.Config.{
  PipelineConfig, ProcessorConfig, ProcessorKind, memory_limiter, batch, redact, tenant_rate_limit,
}

pub data ProcessDecision : Type 0 where
  emit : TelemetryRecord → ProcessDecision
  dropped : Bytes → ProcessDecision

unfoldable pub attribute_bytes : List Attribute → ℕ
attribute_bytes [] = 0
attribute_bytes (a ∷ rest) = length a.key + length a.value + attribute_bytes rest

unfoldable pub estimate_record_bytes : TelemetryRecord → ℕ
unfolding attribute_bytes
estimate_record_bytes r = length r.tenant_id + length r.body + attribute_bytes r.attributes + 32

pub record TenantRateWindow : Type 0 where
  pub started_at : ℕ
  pub used_bytes : ℕ

abbrev pub Windows : Type 0
Windows = List (Bytes × TenantRateWindow)

pub record TenantRateLimitProcessor : Type 0 where
  pub name : Bytes
  pub max_bytes_per_second : ℕ
  pub windows : Windows

unfoldable pub window_of : Bytes → Windows → Option TenantRateWindow
window_of tenant [] = none
window_of tenant ((t, w) ∷ rest) = if t =text tenant then some w else window_of tenant rest

unfoldable pub set_window : Bytes → TenantRateWindow → Windows → Windows
set_window tenant w [] = (tenant, w) ∷ []
set_window tenant w ((t, v) ∷ rest) =
    if t =text tenant then (t, w) ∷ rest else (t, v) ∷ set_window tenant w rest

abbrev pub second : ℕ
second = 1_000_000_000

-- The window to count in at `now`: a new one where there is none, or where it is a second old.
-- `duration_since` is zero where `now` is before the start.
unfoldable pub window_at : ℕ → Option TenantRateWindow → TenantRateWindow
window_at now none = record { started_at = now; used_bytes = 0 }
window_at now (some w) =
    if leb second (now - w.started_at) then record { started_at = now; used_bytes = 0 } else w

-- The decision on a record, and the window after it.
unfoldable pub charge : ℕ → TelemetryRecord → TenantRateWindow → ProcessDecision × TenantRateWindow
charge max r w =
    let estimated = estimate_record_bytes r in
    let used = saturating_add_u64 w.used_bytes estimated in
    if ltb max estimated
    then (
      dropped (
          text "estimated record size "
          ++ (decimal estimated
              ++ (text " exceeds tenant rate limit " ++ (decimal max ++ text " bytes/s")))),
      w,
    )
    else if ltb max used
    then (
      dropped (
          text "tenant rate limit exceeded: used_bytes="
          ++ (decimal w.used_bytes
              ++ (text " record_bytes="
                  ++ (decimal estimated ++ (text " max_bytes_per_second=" ++ decimal max))))),
      w,
    )
    else (emit r, record w { used_bytes = min max used })

unfoldable pub process_at :
    TelemetryRecord → ℕ → TenantRateLimitProcessor → ProcessDecision × TenantRateLimitProcessor
process_at r now limiter =
    let (decision, w) =
      charge limiter.max_bytes_per_second r
        (window_at now (window_of r.tenant_id limiter.windows)) in
    (decision, record limiter { windows = set_window r.tenant_id w limiter.windows })

pub record MemoryLimiterProcessor : Type 0 where
  pub name : Bytes
  pub max_record_bytes : ℕ

unfoldable pub limit_memory : TelemetryRecord → MemoryLimiterProcessor → ProcessDecision
limit_memory r limiter =
    let estimated = estimate_record_bytes r in
    if ltb limiter.max_record_bytes estimated
    then dropped (
        text "estimated record size "
        ++ (decimal estimated ++ (text " exceeds limit " ++ decimal limiter.max_record_bytes)))
    else emit r

pub record RedactProcessor : Type 0 where
  pub name : Bytes
  pub sensitive_keys : List Bytes

unfoldable pub lower_all : List Bytes → List Bytes
lower_all [] = []
lower_all (key ∷ keys) = to_ascii_lowercase key ∷ lower_all keys

unfoldable pub new_redact : Bytes → List Bytes → RedactProcessor
unfolding lower_all
new_redact name sensitive_keys = record { name = name; sensitive_keys = lower_all sensitive_keys }

-- `sensitive` is the list in lower case.
unfoldable pub is_sensitive : List Bytes → Bytes → Bool
is_sensitive sensitive key =
    let lower = to_ascii_lowercase key in
    any (λ s. if lower =text s then true else ends_with lower s) sensitive

unfoldable pub redacted : Bytes
redacted = text "[REDACTED]"

unfoldable pub redact_attributes : List Bytes → List Attribute → List Attribute
redact_attributes sensitive [] = []
redact_attributes sensitive (a ∷ rest) =
    (if is_sensitive sensitive a.key then record a { value = redacted } else a)
    ∷ redact_attributes sensitive rest

unfoldable pub redact_record : TelemetryRecord → RedactProcessor → ProcessDecision
redact_record r redactor =
    emit (record r { attributes = redact_attributes redactor.sensitive_keys r.attributes })

-- `dyn RecordProcessor`
pub data Processor : Type 0 where
  rate_limiter : TenantRateLimitProcessor → Processor
  limiter : MemoryLimiterProcessor → Processor
  redactor : RedactProcessor → Processor

unfoldable pub run_processor : ℕ → TelemetryRecord → Processor → ProcessDecision × Processor
run_processor now r (rate_limiter p) =
    let (decision, p') = process_at r now p in (decision, rate_limiter p')
run_processor now r (limiter p) = (limit_memory r p, limiter p)
run_processor now r (redactor p) = (redact_record r p, redactor p)

pub record ProcessorChain : Type 0 where
  pub processors : List Processor
  pub dropped_records : ℕ

unfoldable pub sensitive_names : List Bytes
sensitive_names =
    text "authorization"
    ∷ text "http.request.header.authorization"
    ∷ text "db.statement"
    ∷ text "password"
    ∷ text "secret"
    ∷ text "token"
    ∷ []

unfoldable pub build_processor : PipelineConfig → Bytes → ProcessorKind → List Processor
build_processor c name memory_limiter =
    limiter (record { name = name; max_record_bytes = c.limits.max_record_bytes }) ∷ []
build_processor c name redact = redactor (new_redact name sensitive_names) ∷ []
build_processor c name tenant_rate_limit =
    rate_limiter (record {
      name = name;
      max_bytes_per_second = c.limits.max_ingest_bytes_per_second;
      windows = [];
    })
    ∷ []
build_processor c name batch = []

unfoldable pub build_processors : PipelineConfig → List ProcessorConfig → List Processor
build_processors c [] = []
build_processors c (p ∷ rest) =
    (if p.enabled then build_processor c p.name p.kind else []) ++ build_processors c rest

unfoldable pub from_config : PipelineConfig → ProcessorChain
unfolding build_processors
from_config c = record { processors = build_processors c c.processors; dropped_records = 0 }

-- One `Instant::now()`; a clock that has run out stands still.
abbrev pub tick : List ℕ → ℕ × List ℕ
tick [] = (0, [])
tick (now ∷ []) = (now, now ∷ [])
tick (now ∷ next ∷ later) = (now, next ∷ later)

-- The loop of `process`: the result, and the processors with the state that they have then. Each
-- processor that is reached is asked at a time of its own; `clock` holds those times.
unfoldable pub process_all :
    List ℕ → TelemetryRecord → List Processor → Option TelemetryRecord × List Processor
process_all clock r [] = (some r, [])
process_all clock r (p ∷ ps) =
    let (now, later) = tick clock in
    let (decision, p') = run_processor now r p in
    elim decision [
      | dropped reason ↦ (none, p' ∷ ps)
      | emit r' ↦ let (out, ps') = process_all later r' ps in (out, p' ∷ ps')
    ]

unfoldable pub process :
    List ℕ → TelemetryRecord → ProcessorChain → Option TelemetryRecord × ProcessorChain
process clock r chain =
    let (out, ps) = process_all clock r chain.processors in
    (
      out,
      record {
        processors = ps;
        dropped_records = elim out [
          | none ↦ add_u64 chain.dropped_records 1
          | some r ↦ chain.dropped_records
        ];
      },
    )
