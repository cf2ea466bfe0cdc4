-- ===== src/Processors/Redaction.antt =====
-- What redaction leaves of a record, alone and in a chain.
use telemetry_fabric.Prelude.{
  ltb, ◌≡◌, refl, ap, inl, inr, List, [], ◌∷◌, true, All, Bool-cases, map, subst, ℕ, sym, ltb,
}
use telemetry_fabric.Prelude.Words.{saturating_add_u64}
use telemetry_fabric.Std.Bytes.{Bytes}
use telemetry_fabric.Core.Telemetry.{Attribute, TelemetryRecord}
use telemetry_fabric.Processors.{
  estimate_record_bytes, TenantRateWindow, MemoryLimiterProcessor, ProcessDecision, emit, dropped,
  redact_attributes, is_sensitive, redacted, charge, limit_memory, run_processor,
  MemoryLimiterProcessor, process_at, TenantRateWindow, redact_record, estimate_record_bytes,
  Processor, rate_limiter, limiter, redactor,
}

-- No attribute with a sensitive key shows its value.
abbrev pub IsClean : List Bytes → List Attribute → Type 0
IsClean sensitive attributes =
    All (λ (a : Attribute). is_sensitive sensitive a.key ≡ true → a.value ≡ redacted) attributes

-- The keys, in order.
abbrev pub keys : List Attribute → List Bytes
keys attributes = map (λ (a : Attribute). a.key) attributes

pub redact_attributes-IsClean :
    (sensitive : List Bytes) (attributes : List Attribute)
    → IsClean sensitive (redact_attributes sensitive attributes)
unfolding redact_attributes
redact_attributes-IsClean sensitive [] = tt
redact_attributes-IsClean sensitive (a ∷ rest) = elim (Bool-cases (is_sensitive sensitive a.key)) [
  | inl hidden ↦ rw hidden ((λ e. refl), redact_attributes-IsClean sensitive rest)
  | inr shown ↦ rw shown ((λ e. cc), redact_attributes-IsClean sensitive rest)
]

-- Another redaction leaves what is clean so.
redact_attributes-keeps :
    (sensitive other : List Bytes) (attributes : List Attribute)
    → IsClean sensitive attributes
    → IsClean sensitive (redact_attributes other attributes)
unfolding redact_attributes
redact_attributes-keeps sensitive other [] h = tt
redact_attributes-keeps sensitive other (a ∷ rest) h =
    elim (Bool-cases (is_sensitive other a.key)) [
      | inl hidden ↦ rw hidden ((λ e. refl), redact_attributes-keeps sensitive other rest h.1)
      | inr shown ↦ rw shown (h.0, redact_attributes-keeps sensitive other rest h.1)
    ]

redact_attributes-keys :
    (sensitive : List Bytes) (attributes : List Attribute)
    → keys (redact_attributes sensitive attributes) ≡ keys attributes
unfolding redact_attributes
redact_attributes-keys sensitive [] = refl
redact_attributes-keys sensitive (a ∷ rest) = elim (Bool-cases (is_sensitive sensitive a.key)) [
  | inl hidden ↦
      rw hidden (ap (λ (t : List Bytes). a.key ∷ t) (redact_attributes-keys sensitive rest))
  | inr shown ↦
      rw shown (ap (λ (t : List Bytes). a.key ∷ t) (redact_attributes-keys sensitive rest))
]

-- The record is the other but for the values of its attributes.
pub record SameBut (r out : TelemetryRecord) : Type 0 where
  pub tenant : out.tenant_id ≡ r.tenant_id
  pub signal : out.signal ≡ r.signal
  pub time : out.timestamp_unix_nanos ≡ r.timestamp_unix_nanos
  pub body : out.body ≡ r.body
  pub same_keys : keys out.attributes ≡ keys r.attributes

SameBut-self : (r : TelemetryRecord) → SameBut r r
SameBut-self r = record { tenant = refl; signal = refl; time = refl; body = refl; same_keys = refl }

-- What one processor does to a record that it emits.
abbrev pub Emits : TelemetryRecord → ProcessDecision → (TelemetryRecord → Type 0) → Type 0
Emits r (emit out) P = P out
Emits r (dropped reason) P = Unit {0}

charge-emits :
    (max : ℕ) (r : TelemetryRecord) (w : TenantRateWindow)
    → Emits r (charge max r w).0 (λ out. out ≡ r)
unfolding charge
charge-emits max r w = elim (Bool-cases (ltb max (estimate_record_bytes r))) [
  | inl large ↦ rw large tt
  | inr small ↦
      elim (Bool-cases (ltb max (saturating_add_u64 w.used_bytes (estimate_record_bytes r)))) [
        | inl full ↦ rw (small, full) tt
        | inr room ↦ rw (small, room) refl
      ]
]

limit_memory-emits :
    (r : TelemetryRecord) (p : MemoryLimiterProcessor) → Emits r (limit_memory r p) (λ out. out ≡ r)
unfolding limit_memory
limit_memory-emits r p = elim (Bool-cases (ltb p.max_record_bytes (estimate_record_bytes r))) [
  | inl large ↦ rw large tt
  | inr small ↦ rw small refl
]

Emits-map :
    (r : TelemetryRecord) (d : ProcessDecision) (P Q : TelemetryRecord → Type 0)
    → ((out : TelemetryRecord) → P out → Q out)
    → Emits r d P
    → Emits r d Q
Emits-map r (emit out) P Q f h = f out h
Emits-map r (dropped reason) P Q f h = tt

-- What every processor keeps, clean attributes included.
abbrev pub Keeps : TelemetryRecord → TelemetryRecord → Type 0
Keeps r out =
    SameBut r out
    × ((sensitive : List Bytes) → IsClean sensitive r.attributes → IsClean sensitive out.attributes)

pub Keeps-self : (r out : TelemetryRecord) → out ≡ r → Keeps r out
Keeps-self r out e = subst (Keeps r) (sym e) (SameBut-self r, λ sensitive h. h)

pub run_processor-Keeps :
    (now : ℕ) (r : TelemetryRecord) (p : Processor) → Emits r (run_processor now r p).0 (Keeps r)
unfolding run_processor process_at redact_record
run_processor-Keeps now r (rate_limiter p) =
    Emits-map r _ (λ out. out ≡ r) (Keeps r) (Keeps-self r)
      (charge-emits p.max_bytes_per_second r _)
run_processor-Keeps now r (limiter p) =
    Emits-map r (limit_memory r p) (λ out. out ≡ r) (Keeps r) (Keeps-self r)
      (limit_memory-emits r p)
run_processor-Keeps now r (redactor p) = (
  record {
    tenant = refl;
    signal = refl;
    time = refl;
    body = refl;
    same_keys = redact_attributes-keys p.sensitive_keys r.attributes;
  },
  λ sensitive h. redact_attributes-keeps sensitive p.sensitive_keys r.attributes h,
)
