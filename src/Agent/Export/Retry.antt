-- ===== src/Agent/Export/Retry.antt =====
-- How often `export_with_retry` tries, and when it gives up.
use telemetry_fabric.Prelude.{
  ℕ, zero, suc, ◌+◌, ◌-◌, ◌≤◌, ◌≡◌, refl, ◌⊎◌, inl, inr, ap, List, [], ◌∷◌, none, some, arith,
}
use telemetry_fabric.Prelude.Result.{ok, err}
use telemetry_fabric.Std.Bytes.{Bytes}
use telemetry_fabric.Core.Telemetry.{RecordBatch}
use telemetry_fabric.Core.Config.{ExporterRetryConfig}
use telemetry_fabric.Buffer.Error.{DiskQueueError, sink_failed}
use telemetry_fabric.Exporters.Error.{ExporterError}
use telemetry_fabric.Agent.Export.{
  Export, ExportReport, Outcome, Attempts, attempts_from, export_with_retry, backoff, failed_text,
  timed_out_text,
}

-- An outcome that is not a success.
abbrev pub IsFailure : Outcome → Type 0
IsFailure (some (ok report)) = ⊥
IsFailure (some (err e)) = Unit {0}
IsFailure none = Unit {0}

Outcome-cases : (o : Outcome) → ((report : ExportReport) × (o ≡ some (ok report))) ⊎ IsFailure o
Outcome-cases (some (ok report)) = inl (report, refl)
Outcome-cases (some (err e)) = inr tt
Outcome-cases none = inr tt

Failure-cases :
    (o : Outcome) → IsFailure o → ((e : ExporterError) × (o ≡ some (err e))) ⊎ (o ≡ none)
Failure-cases (some (ok report)) f = absurd f
Failure-cases (some (err e)) f = inl (e, refl)
Failure-cases none f = inr refl

-- The waits from an attempt on.
abbrev pub backoffs : ExporterRetryConfig → ℕ → ℕ → List ℕ
backoffs retry attempt zero = []
backoffs retry attempt (suc n) = backoff attempt retry ∷ backoffs retry (attempt + 1) n

module _ {X : Type 0} (export : Export X) (ms : ℕ) (batch : RecordBatch) where
  -- `n` attempts in a row that fail lead from one exporter to the other.
  pub data Fails : ℕ → X → X → Type 0 where
    stop : {x : X} → Fails zero x x
    try :
        {n : ℕ} {x y : X}
        → IsFailure (export ms x batch).0
        → Fails n (export ms x batch).1 y
        → Fails (suc n) x y

module _ {X : Type 0} (export : Export X) (name : Bytes) (retry : ExporterRetryConfig)
    (batch : RecordBatch) where
  -- What `left + 1` attempts come to: some fail; then one succeeds, or it is the last and fails too.
  pub record Tried (left attempt : ℕ) (x : X) (result : Attempts export) : Type 0 where
    pub failures : ℕ
    pub last : X
    pub fails : Fails export retry.timeout_ms batch failures x last
    pub within : failures ≤ left
    pub state : result.1 ≡ (export retry.timeout_ms last batch).1
    pub waits : result.2 ≡ backoffs retry attempt failures
    pub outcome :
        ((report : ExportReport) × (result.0 ≡ ok report)
          × ((export retry.timeout_ms last batch).0 ≡ some (ok report)))
        ⊎ ((e : DiskQueueError) × (result.0 ≡ err e)
            × IsFailure (export retry.timeout_ms last batch).0
            × (failures ≡ left))

  attempts-success :
      (left attempt : ℕ) (x : X) (report : ExportReport)
      → (export retry.timeout_ms x batch).0 ≡ some (ok report)
      → attempts_from export name retry batch left attempt x
        ≡ (ok report, (export retry.timeout_ms x batch).1, [])
  unfolding attempts_from
  attempts-success zero attempt x report e = rw (e, attempts_from) refl
  attempts-success (suc left) attempt x report e = rw (e, attempts_from) refl

  attempts-last :
      (attempt : ℕ) (x : X)
      → IsFailure (export retry.timeout_ms x batch).0
      → (e : DiskQueueError) × (attempts_from export name retry batch zero attempt x
          ≡ (err e, (export retry.timeout_ms x batch).1, []))
  unfolding attempts_from
  attempts-last attempt x f = elim (Failure-cases (export retry.timeout_ms x batch).0 f) [
    | inl (e, h) ↦ (sink_failed (failed_text name attempt e), rw (h, attempts_from) refl)
    | inr h ↦ (sink_failed (timed_out_text name attempt), rw (h, attempts_from) refl)
  ]

  again : ℕ → Attempts export → Attempts export
  again attempt r = (r.0, r.1, backoff attempt retry ∷ r.2)

  attempts-again :
      (left attempt : ℕ) (x : X)
      → IsFailure (export retry.timeout_ms x batch).0
      → attempts_from export name retry batch (suc left) attempt x
        ≡ again attempt (
            attempts_from export name retry batch left
              (attempt + 1)
              (export retry.timeout_ms x batch).1)
  unfolding attempts_from again
  attempts-again left attempt x f = elim (Failure-cases (export retry.timeout_ms x batch).0 f) [
    | inl (e, h) ↦ rw (h, attempts_from) refl
    | inr h ↦ rw (h, attempts_from) refl
  ]

  Tried-at_once :
      (left attempt : ℕ) (x : X) (report : ExportReport)
      → (export retry.timeout_ms x batch).0 ≡ some (ok report)
      → Tried left attempt x (attempts_from export name retry batch left attempt x)
  Tried-at_once left attempt x report e = rw (attempts-success left attempt x report e) (record {
    failures = 0;
    last = x;
    fails = Fails.stop;
    within = omega arith;
    state = refl;
    waits = refl;
    outcome = inl (report, refl, e);
  })

  Tried-last :
      (attempt : ℕ) (x : X)
      → IsFailure (export retry.timeout_ms x batch).0
      → Tried zero attempt x (attempts_from export name retry batch zero attempt x)
  Tried-last attempt x f =
      let (e, h) = attempts-last attempt x f in
      rw h (record {
        failures = 0;
        last = x;
        fails = Fails.stop;
        within = omega arith;
        state = refl;
        waits = refl;
        outcome = inr (e, refl, f, refl);
      })

  Tried-again :
      (left attempt : ℕ) (x : X) (result : Attempts export)
      → IsFailure (export retry.timeout_ms x batch).0
      → Tried left (attempt + 1) (export retry.timeout_ms x batch).1 result
      → Tried (suc left) attempt x (again attempt result)
  unfolding again
  Tried-again left attempt x result f t = record {
    failures = suc t.failures;
    last = t.last;
    fails = Fails.try f t.fails;
    within = omega (arith, t.within);
    state = t.state;
    waits = ap (λ (w : List ℕ). backoff attempt retry ∷ w) t.waits;
    outcome = elim t.outcome [
      | inl done ↦ inl done
      | inr (e, h, g, all) ↦ inr (e, h, g, omega (arith, all))
    ];
  }

  attempts_from-Tried :
      (left attempt : ℕ) (x : X)
      → Tried left attempt x (attempts_from export name retry batch left attempt x)
  attempts_from-Tried zero attempt x = elim (Outcome-cases (export retry.timeout_ms x batch).0) [
    | inl (report, e) ↦ Tried-at_once zero attempt x report e
    | inr f ↦ Tried-last attempt x f
  ]
  attempts_from-Tried (suc left) attempt x =
      elim (Outcome-cases (export retry.timeout_ms x batch).0) [
        | inl (report, e) ↦ Tried-at_once (suc left) attempt x report e
        | inr f ↦ rw (attempts-again left attempt x f) (
            Tried-again left attempt x _ f
              (attempts_from-Tried left (attempt + 1) (export retry.timeout_ms x batch).1))
      ]

  -- `export_with_retry` makes at least one attempt, at most `max_attempts` when that is not zero,
  -- stops at the first that succeeds, waits as `backoff` says in between, and gives up with an
  -- error only when the last attempt has failed too.
  pub export_with_retry-Tried :
      (x : X) → Tried (retry.max_attempts - 1) 1 x (export_with_retry export name x batch retry)
  unfolding export_with_retry
  export_with_retry-Tried x = attempts_from-Tried (retry.max_attempts - 1) 1 x
