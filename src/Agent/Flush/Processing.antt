-- ===== src/Agent/Flush/Processing.antt =====
-- crates/telemetry-agent/src/runtime.rs: the loop of a flush over the payloads of a batch, told without
-- its accumulators.
use mathlib.Core.List.{append_assoc, append-nil}
use telemetry_fabric.Prelude.{
  ℕ, suc, ◌+◌, ◌%◌, ◌^◌, ◌≡◌, refl, sym, ap, ◌∙◌, ◌⊎◌, inl, inr, List, [], ◌∷◌, ◌++◌, none, some,
  length, arith, Option-cases, ◌<◌,
}
use telemetry_fabric.Prelude.Words.{add_u64}
use telemetry_fabric.Prelude.Result.{ok, err, Result-cases}
use telemetry_fabric.Std.Bytes.{Bytes}
use telemetry_fabric.Core.Error.{TelemetryError, display_telemetry_error}
use telemetry_fabric.Core.Telemetry.{TelemetryRecord, decode}
use telemetry_fabric.Buffer.Error.{DiskQueueError, sink_failed}
use telemetry_fabric.Processors.{ProcessorChain, process}
use telemetry_fabric.Agent.Flush.{
  Processed, Looped, first_clock, later_clocks, keep_or_drop, process_decoded, process_payloads,
}

-- All payloads decode, and the chain lets `kept` through and drops `drops` of them: from the chain
-- before them to the chain behind them.
pub data Processes
    : List (List ℕ)
      → List Bytes
      → ProcessorChain
      → List TelemetryRecord
      → ℕ
      → ProcessorChain
      → Type 0 where
  ends : {clocks : List (List ℕ)} {chain : ProcessorChain} → Processes clocks [] chain [] 0 chain
  keeps :
      {clocks : List (List ℕ)} {payload : Bytes} {payloads : List Bytes}
      {chain behind : ProcessorChain} {kept : List TelemetryRecord} {drops : ℕ}
      (r out : TelemetryRecord)
      → decode payload ≡ ok r
      → (process (first_clock clocks) r chain).0 ≡ some out
      → Processes
          (later_clocks clocks)
          payloads
          (process (first_clock clocks) r chain).1
          kept
          drops
          behind
      → Processes clocks (payload ∷ payloads) chain (out ∷ kept) drops behind
  drops_one :
      {clocks : List (List ℕ)} {payload : Bytes} {payloads : List Bytes}
      {chain behind : ProcessorChain} {kept : List TelemetryRecord} {drops : ℕ}
      (r : TelemetryRecord)
      → decode payload ≡ ok r
      → (process (first_clock clocks) r chain).0 ≡ none
      → Processes
          (later_clocks clocks)
          payloads
          (process (first_clock clocks) r chain).1
          kept
          drops
          behind
      → Processes clocks (payload ∷ payloads) chain kept (suc drops) behind

-- A payload that does not decode, behind others that do.
pub record Undecodable (clocks : List (List ℕ)) (payloads : List Bytes) (chain : ProcessorChain)
    (e : DiskQueueError) (behind : ProcessorChain) : Type 0 where
  pub before : List Bytes
  pub bad : Bytes
  pub later : List Bytes
  pub cut : payloads ≡ before ++ (bad ∷ later)
  pub kept : List TelemetryRecord
  pub drops : ℕ
  pub processes : Processes clocks before chain kept drops behind
  pub failure : TelemetryError
  pub undecoded : decode bad ≡ err failure
  pub error : e ≡ sink_failed (display_telemetry_error failure)

-- What the loop returns where it comes to its end, from what was done before it.
pub record Finished (clocks : List (List ℕ)) (payloads : List Bytes) (done : Processed)
    (chain : ProcessorChain) (result : Looped) : Type 0 where
  pub kept : List TelemetryRecord
  pub drops : ℕ
  pub behind : ProcessorChain
  pub processes : Processes clocks payloads chain kept drops behind
  pub counts : length kept + drops ≡ length payloads
  pub out : Processed
  pub result_is : result ≡ (ok out, behind)
  pub records : out.records ≡ done.records ++ kept
  pub dropped : out.dropped ≡ (done.dropped + drops) % 2 ^ 64

abbrev pub Run : List (List ℕ) → List Bytes → Processed → ProcessorChain → Looped → Type 0
Run clocks payloads done chain result =
    Finished clocks payloads done chain result
    ⊎ ((e : DiskQueueError) × (behind : ProcessorChain) × (result ≡ (err e, behind))
        × Undecodable clocks payloads chain e behind)

module _ (clocks : List (List ℕ)) (payload : Bytes) (payloads : List Bytes) (done : Processed)
    (chain : ProcessorChain) where
  undecodable-Run :
      (e : TelemetryError)
      → decode payload ≡ err e
      → Run clocks
          (payload ∷ payloads)
          done
          chain
          (err (sink_failed (display_telemetry_error e)), chain)
  undecodable-Run e h = inr (
    _,
    chain,
    refl,
    record {
      before = [];
      bad = payload;
      later = payloads;
      cut = refl;
      kept = [];
      drops = 0;
      processes = ends;
      failure = e;
      undecoded = h;
      error = refl;
    },
  )

  module _ (r : TelemetryRecord) (decodes : decode payload ≡ ok r) where
    kept-Run :
        (out : TelemetryRecord) (result : Looped)
        → (process (first_clock clocks) r chain).0 ≡ some out
        → Run
            (later_clocks clocks)
            payloads
            (record done { records = done.records ++ (out ∷ []) })
            (process (first_clock clocks) r chain).1
            result
        → Run clocks (payload ∷ payloads) done chain result
    kept-Run out result p (inl f) = inl (record {
      kept = out ∷ f.kept;
      drops = f.drops;
      behind = f.behind;
      processes = keeps r out decodes p f.processes;
      counts = omega (arith, f.counts);
      out = f.out;
      result_is = f.result_is;
      records = f.records ∙ append_assoc done.records (out ∷ []) f.kept;
      dropped = f.dropped;
    })
    kept-Run out result p (inr (e, behind, h, u)) = inr (
      e,
      behind,
      h,
      record {
        before = payload ∷ u.before;
        bad = u.bad;
        later = u.later;
        cut = ap (λ (l : List Bytes). payload ∷ l) u.cut;
        kept = out ∷ u.kept;
        drops = u.drops;
        processes = keeps r out decodes p u.processes;
        failure = u.failure;
        undecoded = u.undecoded;
        error = u.error;
      },
    )

    dropped-Run :
        (result : Looped)
        → (process (first_clock clocks) r chain).0 ≡ none
        → Run
            (later_clocks clocks)
            payloads
            (record done { dropped = add_u64 done.dropped 1 })
            (process (first_clock clocks) r chain).1
            result
        → Run clocks (payload ∷ payloads) done chain result
    dropped-Run result p (inl f) = inl (record {
      kept = f.kept;
      drops = suc f.drops;
      behind = f.behind;
      processes = drops_one r decodes p f.processes;
      counts = omega (arith, f.counts);
      out = f.out;
      result_is = f.result_is;
      records = f.records;
      dropped = omega (arith, f.dropped);
    })
    dropped-Run result p (inr (e, behind, h, u)) = inr (
      e,
      behind,
      h,
      record {
        before = payload ∷ u.before;
        bad = u.bad;
        later = u.later;
        cut = ap (λ (l : List Bytes). payload ∷ l) u.cut;
        kept = u.kept;
        drops = suc u.drops;
        processes = drops_one r decodes p u.processes;
        failure = u.failure;
        undecoded = u.undecoded;
        error = u.error;
      },
    )

-- The loop comes to its end, or stops at a payload that does not decode.
pub process_payloads-Run :
    (clocks : List (List ℕ)) (payloads : List Bytes) (done : Processed) (chain : ProcessorChain)
    → done.dropped < 2 ^ 64
    → Run clocks payloads done chain (process_payloads clocks payloads done chain)
unfolding process_payloads process_decoded keep_or_drop
process_payloads-Run clocks [] done chain small = inl (record {
  kept = [];
  drops = 0;
  behind = chain;
  processes = ends;
  counts = refl;
  out = done;
  result_is = refl;
  records = sym (append-nil done.records);
  dropped = omega arith;
})
process_payloads-Run clocks (payload ∷ payloads) done chain small =
    elim (Result-cases (decode payload)) [
      | inr (e, h) ↦ rw h (undecodable-Run clocks payload payloads done chain e h)
      | inl (r, h) ↦ elim (Option-cases (process (first_clock clocks) r chain).0) [
        | inl dropped ↦
            rw (h, dropped)
              (dropped-Run clocks payload payloads done chain r h _ dropped (
                process_payloads-Run (later_clocks clocks) payloads
                  (record done { dropped = add_u64 done.dropped 1 })
                  (process (first_clock clocks) r chain).1 (omega arith)))
        | inr (out, kept) ↦
            rw (h, kept)
              (kept-Run clocks payload payloads done chain r h out _ kept (
                process_payloads-Run (later_clocks clocks) payloads
                  (record done { records = done.records ++ (out ∷ []) })
                  (process (first_clock clocks) r chain).1 small))
      ]
    ]
