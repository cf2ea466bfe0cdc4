-- ===== src/Processors/RateLimit.antt =====
-- The tenant rate limiter over a run of records.
use telemetry_fabric.Prelude.{
  ◌∙◌, ℕ, ◌+◌, ◌-◌, ◌<◌, ◌≤◌, ◌≡◌, refl, ◌⊎◌, inl, inr, List, [], ◌∷◌, some, false, ltb, ◌=text◌,
  =text_refl, =text_iff, if◌then◌else◌, All, Bool-cases, arith, =text_eq,
}
use telemetry_fabric.Prelude.Words.{u64_max, saturating_add_u64}
use telemetry_fabric.Std.Bytes.{Bytes}
use telemetry_fabric.Core.Telemetry.{TelemetryRecord}
use telemetry_fabric.Processors.{
  ProcessDecision, emit, dropped, TenantRateWindow, TenantRateLimitProcessor, Windows, window_of,
  set_window, window_at, charge, process_at, estimate_record_bytes, second,
}

window_of-set_window :
    (tenant other : Bytes) (w : TenantRateWindow) (ws : Windows)
    → window_of other (set_window tenant w ws)
      ≡ (if tenant =text other then some w else window_of other ws)
unfolding window_of set_window
window_of-set_window tenant other w [] = refl
window_of-set_window tenant other w ((t, v) ∷ rest) = ground (
  arith,
  =text_iff t tenant,
  =text_iff t other,
  =text_iff tenant other,
  window_of-set_window tenant other w rest,
)

-- The bytes of a record of that tenant that was let through.
abbrev pub emitted_size : Bytes → TelemetryRecord → ProcessDecision → ℕ
emitted_size tenant r (dropped reason) = 0
emitted_size tenant r (emit out) = if r.tenant_id =text tenant then estimate_record_bytes out else 0

-- A record is let through and counted, within the limit, or it is dropped and nothing is counted.
charge-cases :
    (max : ℕ) (r : TelemetryRecord) (w : TenantRateWindow)
    → max < u64_max
    → ((charge max r w ≡ (emit r, record w { used_bytes = w.used_bytes + estimate_record_bytes r }))
        × (w.used_bytes + estimate_record_bytes r ≤ max))
      ⊎ (((charge max r w).1 ≡ w)
          × ((tenant : Bytes) → emitted_size tenant r (charge max r w).0 ≡ 0))
unfolding charge
charge-cases max r w limit = elim (Bool-cases (ltb max (estimate_record_bytes r))) [
  | inl large ↦ inr (rw large (refl, λ tenant. refl))
  | inr small ↦
      elim (Bool-cases (ltb max (saturating_add_u64 w.used_bytes (estimate_record_bytes r)))) [
        | inl full ↦ inr (rw (small, full) (refl, λ tenant. refl))
        | inr room ↦ inl (ground arith, ground arith)
      ]
]

-- The same over a run of records, each with the time at which it is processed.
unfoldable pub emitted_bytes : Bytes → List (TelemetryRecord × ℕ) → TenantRateLimitProcessor → ℕ
emitted_bytes tenant [] limiter = 0
emitted_bytes tenant ((r, now) ∷ records) limiter =
    let (decision, limiter') = process_at r now limiter in
    emitted_size tenant r decision + emitted_bytes tenant records limiter'

abbrev pub IsWithin : TenantRateWindow → List (TelemetryRecord × ℕ) → Type 0
IsWithin w records = All (λ (e : TelemetryRecord × ℕ). e.1 - w.started_at < second) records

not_counted :
    (tenant : Bytes) (r : TelemetryRecord) (d : ProcessDecision)
    → (r.tenant_id =text tenant) ≡ false
    → emitted_size tenant r d ≡ 0
not_counted tenant r (dropped reason) other = refl
not_counted tenant r (emit out) other = rw other refl

window_at-same :
    (now : ℕ) (w : TenantRateWindow) → now - w.started_at < second → window_at now (some w) ≡ w
unfolding window_at
window_at-same now w h = ground arith

module _ (tenant : Bytes) (r : TelemetryRecord) (now : ℕ) (limiter : TenantRateLimitProcessor) where
  -- Another tenant's record does not touch the window.
  process_at-other :
      (r.tenant_id =text tenant) ≡ false
      → (window_of tenant (process_at r now limiter).1.windows ≡ window_of tenant limiter.windows)
        × (emitted_size tenant r (process_at r now limiter).0 ≡ 0)
  unfolding process_at
  process_at-other other = (
    rw (window_of-set_window r.tenant_id tenant _ limiter.windows, other) refl,
    not_counted tenant r _ other,
  )

  module _ (w : TenantRateWindow) (own : r.tenant_id ≡ tenant)
      (found : window_of tenant limiter.windows ≡ some w)
      (recent : now - w.started_at < second) where
    charged : process_at r now limiter ≡ (
      (charge limiter.max_bytes_per_second r w).0,
      record limiter {
        windows = set_window tenant (charge limiter.max_bytes_per_second r w).1 limiter.windows;
      },
    )
    unfolding process_at
    charged = rw (own, found, window_at-same now w recent) refl

    -- Its own record counts in the window as far as it is let through.
    process_at-own :
        limiter.max_bytes_per_second < u64_max
        → w.used_bytes ≤ limiter.max_bytes_per_second
        → (v : TenantRateWindow) × (window_of tenant (process_at r now limiter).1.windows ≡ some v)
          × (v.started_at ≡ w.started_at)
          × (v.used_bytes ≡ w.used_bytes + emitted_size tenant r (process_at r now limiter).0)
          × (v.used_bytes ≤ limiter.max_bytes_per_second)
    process_at-own limit within = elim (charge-cases limiter.max_bytes_per_second r w limit) [
      | inl (e, room) ↦ (
        record w { used_bytes = w.used_bytes + estimate_record_bytes r },
        rw
            (
              charged,
              e,
              window_of-set_window tenant tenant
                  (record w { used_bytes = w.used_bytes + estimate_record_bytes r })
                  limiter.windows,
              =text_refl tenant,
            )
            refl,
        refl,
        rw (charged, e, own, =text_refl tenant) refl,
        room,
      )
      | inr (e, nothing) ↦ (
        w,
        rw (charged, e, window_of-set_window tenant tenant w limiter.windows, =text_refl tenant)
            refl,
        refl,
        rw charged (omega (arith, nothing tenant)),
        within,
      )
    ]

process_at-max :
    (r : TelemetryRecord) (now : ℕ) (limiter : TenantRateLimitProcessor)
    → (process_at r now limiter).1.max_bytes_per_second ≡ limiter.max_bytes_per_second
unfolding process_at
process_at-max r now limiter = refl

later :
    (v w : TenantRateWindow) (records : List (TelemetryRecord × ℕ))
    → v.started_at ≡ w.started_at
    → IsWithin w records
    → IsWithin v records
later v w [] e h = tt
later v w ((r, now) ∷ records) e h = (rw e h.0, later v w records e h.1)

-- However the records of tenants are mixed: within a second of the start of a tenant's window, the
-- bytes of its records that are let through, with those counted before, are at most the limit,
-- where that is below the largest number.
pub emitted_bytes-le :
    (tenant : Bytes) (records : List (TelemetryRecord × ℕ)) (limiter : TenantRateLimitProcessor)
    (w : TenantRateWindow)
    → window_of tenant limiter.windows ≡ some w
    → limiter.max_bytes_per_second < u64_max
    → w.used_bytes ≤ limiter.max_bytes_per_second
    → IsWithin w records
    → w.used_bytes + emitted_bytes tenant records limiter ≤ limiter.max_bytes_per_second
unfolding emitted_bytes
emitted_bytes-le tenant [] limiter w found limit within recent = omega arith
emitted_bytes-le tenant ((r, now) ∷ records) limiter w found limit within recent =
    let same_max = process_at-max r now limiter in
    elim (Bool-cases (r.tenant_id =text tenant)) [
      | inl own ↦
          let (v, found', start, used, within') =
            process_at-own tenant r now limiter w (=text_eq r.tenant_id tenant own) found recent.0
              limit within in
          omega (
            arith,
            same_max,
            used,
            emitted_bytes-le tenant records (process_at r now limiter).1 v found'
                (omega (arith, same_max)) (omega (arith, same_max))
                (later v w records start recent.1),
          )
      | inr other ↦
          let (found', none_counted) = process_at-other tenant r now limiter other in
          omega (
            arith,
            same_max,
            none_counted,
            emitted_bytes-le tenant records (process_at r now limiter).1 w (found' ∙ found)
                (omega (arith, same_max)) (omega (arith, same_max)) recent.1,
          )
    ]
