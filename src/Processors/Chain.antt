-- ===== src/Processors/Chain.antt =====
-- What a chain of processors lets through.
use telemetry_fabric.Prelude.{
  ℕ, ◌≡◌, refl, sym, ◌∙◌, ◌⊎◌, inl, inr, List, [], ◌∷◌, none, some, subst,
}
use telemetry_fabric.Std.Bytes.{Bytes}
use telemetry_fabric.Core.Telemetry.{TelemetryRecord}
use telemetry_fabric.Processors.{
  ProcessDecision, emit, dropped, Processor, redactor, RedactProcessor, ProcessorChain,
  run_processor, process_all, process, tick, redact_record, redact_attributes,
}
use telemetry_fabric.Processors.Redaction.{
  IsClean, SameBut, Emits, Keeps, Keeps-self, run_processor-Keeps, redact_attributes-IsClean,
}

decision-cases :
    (d : ProcessDecision)
    → ((out : TelemetryRecord) × (d ≡ emit out)) ⊎ ((reason : Bytes) × (d ≡ dropped reason))
decision-cases (emit out) = inl (out, refl)
decision-cases (dropped reason) = inr (reason, refl)

Keeps-trans : (r s t : TelemetryRecord) → Keeps r s → Keeps s t → Keeps r t
Keeps-trans r s t (b, c) (b', c') = (
  record {
    tenant = b'.tenant ∙ b.tenant;
    signal = b'.signal ∙ b.signal;
    time = b'.time ∙ b.time;
    body = b'.body ∙ b.body;
    same_keys = b'.same_keys ∙ b.same_keys;
  },
  λ sensitive h. c' sensitive (c sensitive h),
)

module _ (clock : List ℕ) (r : TelemetryRecord) (p : Processor) (ps : List Processor) where
  process_all-emit :
      (out : TelemetryRecord)
      → (run_processor (tick clock).0 r p).0 ≡ emit out
      → (process_all clock r (p ∷ ps)).0 ≡ (process_all (tick clock).1 out ps).0
  unfolding process_all
  process_all-emit out e = rw (e, process_all) refl

  process_all-drop :
      (reason : Bytes)
      → (run_processor (tick clock).0 r p).0 ≡ dropped reason
      → (process_all clock r (p ∷ ps)).0 ≡ none
  unfolding process_all
  process_all-drop reason e = rw (e, process_all) refl

  -- A record that passes the chain has passed its first processor.
  first_passes :
      (out : TelemetryRecord)
      → (process_all clock r (p ∷ ps)).0 ≡ some out
      → (mid : TelemetryRecord) × ((run_processor (tick clock).0 r p).0 ≡ emit mid)
        × ((process_all (tick clock).1 mid ps).0 ≡ some out)
  first_passes out h = elim (decision-cases (run_processor (tick clock).0 r p).0) [
    | inl (mid, e) ↦ (mid, e, sym (process_all-emit mid e) ∙ h)
    | inr (reason, e) ↦ cc (process_all-drop reason e)
  ]

emitted :
    (r mid : TelemetryRecord) (d : ProcessDecision) (P : TelemetryRecord → Type 0)
    → d ≡ emit mid
    → Emits r d P
    → P mid
emitted r mid d P e h = rw e at h

-- The chain has this redactor.
abbrev pub Has : RedactProcessor → List Processor → Type 0
Has q [] = ⊥
Has q (p ∷ ps) = (p ≡ redactor q) ⊎ Has q ps

process_all-Keeps :
    (clock : List ℕ) (r out : TelemetryRecord) (ps : List Processor)
    → (process_all clock r ps).0 ≡ some out
    → Keeps r out
unfolding process_all
process_all-Keeps clock r out [] h = Keeps-self r out (cc)
process_all-Keeps clock r out (p ∷ ps) h =
    let (mid, e, more) = first_passes clock r p ps out h in
    Keeps-trans r mid out (emitted r mid _ (Keeps r) e (run_processor-Keeps (tick clock).0 r p))
      (process_all-Keeps (tick clock).1 mid out ps more)

redactor-IsClean :
    (now : ℕ) (r mid : TelemetryRecord) (q : RedactProcessor) (p : Processor)
    → p ≡ redactor q
    → (run_processor now r p).0 ≡ emit mid
    → IsClean q.sensitive_keys mid.attributes
unfolding run_processor redact_record
redactor-IsClean now r mid q p same e =
    let e' : emit (record r { attributes = redact_attributes q.sensitive_keys r.attributes })
        ≡ emit mid =
      subst (λ (p : Processor). (run_processor now r p).0 ≡ emit mid) same e in
    let m : record r { attributes = redact_attributes q.sensitive_keys r.attributes } ≡ mid = cc in
    subst (λ (t : TelemetryRecord). IsClean q.sensitive_keys t.attributes) m
      (redact_attributes-IsClean q.sensitive_keys r.attributes)

process_all-IsClean :
    (clock : List ℕ) (r out : TelemetryRecord) (q : RedactProcessor) (ps : List Processor)
    → Has q ps
    → (process_all clock r ps).0 ≡ some out
    → IsClean q.sensitive_keys out.attributes
process_all-IsClean clock r out q [] has h = absurd has
process_all-IsClean clock r out q (p ∷ ps) has h =
    let (mid, e, more) = first_passes clock r p ps out h in
    elim has [
      | inl same ↦
          (process_all-Keeps (tick clock).1 mid out ps more).1 q.sensitive_keys
            (redactor-IsClean (tick clock).0 r mid q p same e)
      | inr later ↦ process_all-IsClean (tick clock).1 mid out q ps later more
    ]

-- A record that a chain with a redactor lets through is the one that went in but for the values of
-- its attributes, and none of them that the redactor calls sensitive shows its value, wherever the
-- redactor stands in the chain.
pub process-IsClean :
    (clock : List ℕ) (r out : TelemetryRecord) (q : RedactProcessor) (chain : ProcessorChain)
    → Has q chain.processors
    → (process clock r chain).0 ≡ some out
    → SameBut r out × IsClean q.sensitive_keys out.attributes
unfolding process
process-IsClean clock r out q chain has h = (
  (process_all-Keeps clock r out chain.processors h).0,
  process_all-IsClean clock r out q chain.processors has h,
)
