-- ===== src/Exporters/Prometheus/Cumulative.antt =====
-- The running count of the buckets.
use telemetry_fabric.Prelude.{ℕ, ◌+◌, ◌≤◌, ◌≡◌, refl, List, [], ◌∷◌, arith}
use telemetry_fabric.Prelude.Words.{u64_max, saturating_add_u64}
use telemetry_fabric.Std.Bytes.{Bytes}
use telemetry_fabric.Exporters.Prometheus.Buckets.{cumulative}
use telemetry_fabric.Exporters.Prometheus.Series.{last_count}

unfoldable pub total : List (Bytes × ℕ) → ℕ
total [] = 0
total (b ∷ rest) = b.1 + total rest

-- No count is below the one before it, and the bounds are those of `buckets` in order.
abbrev pub NeverFalls : ℕ → List (Bytes × ℕ) → List (Bytes × ℕ) → Type 0
NeverFalls count [] [] = Unit
NeverFalls count [] (c ∷ counts) = ⊥
NeverFalls count (b ∷ buckets) [] = ⊥
NeverFalls count (b ∷ buckets) (c ∷ counts) =
    (c.0 ≡ b.0) × (count ≤ c.1) × (c.1 ≤ u64_max) × NeverFalls c.1 buckets counts

cumulative-NeverFalls_from :
    (count : ℕ) (buckets : List (Bytes × ℕ))
    → count ≤ u64_max
    → NeverFalls count buckets (cumulative count buckets)
unfolding cumulative
cumulative-NeverFalls_from count [] h = tt
cumulative-NeverFalls_from count (b ∷ buckets) h = (
  refl,
  ground arith,
  ground arith,
  cumulative-NeverFalls_from (saturating_add_u64 count b.1) buckets (ground arith),
)

last_count-cumulative_from :
    (count : ℕ) (buckets : List (Bytes × ℕ))
    → count ≤ u64_max
    → last_count count (cumulative count buckets) ≡ saturating_add_u64 count (total buckets)
unfolding cumulative last_count total
last_count-cumulative_from count [] h = ground arith
last_count-cumulative_from count (b ∷ buckets) h =
    ground (arith, last_count-cumulative_from (saturating_add_u64 count b.1) buckets (ground arith))

-- The count under each bound of a histogram is never below the one before it, never above the
-- greatest `u64`, and the last one is the sum of all buckets, cut there.
pub cumulative-NeverFalls :
    (buckets : List (Bytes × ℕ))
    → NeverFalls 0 buckets (cumulative 0 buckets)
      × (last_count 0 (cumulative 0 buckets) ≡ saturating_add_u64 0 (total buckets))
cumulative-NeverFalls buckets = (
  cumulative-NeverFalls_from 0 buckets (omega arith),
  last_count-cumulative_from 0 buckets (omega arith),
)
