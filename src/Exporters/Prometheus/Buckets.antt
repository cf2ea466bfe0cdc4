-- ===== src/Exporters/Prometheus/Buckets.antt =====
-- `exponential_histogram_prometheus_buckets` and the running count of the buckets.
use telemetry_fabric.Prelude.{
  ℕ, zero, suc, ◌+◌, ◌-◌, ◌%◌, ◌^◌, List, [], ◌∷◌, ◌++◌, map, Option, none, some, ltb, leb,
  unwrap_or, if◌then◌else◌,
}
use telemetry_fabric.Prelude.Words.{saturating_add_u64}
use telemetry_fabric.Std.Bytes.{Bytes}
use telemetry_fabric.Std.Text.{text}
use telemetry_fabric.Std.Signed.{ℤ, pos, negsuc, i32_max}
use telemetry_fabric.Core.Telemetry.{TelemetryRecord}
use telemetry_fabric.Otlp.Messages.{Floats}
use telemetry_fabric.Exporters.Attributes.{
  parse_u64_attribute, parse_i32_attribute, parse_u64_list_attribute,
}
use telemetry_fabric.Exporters.Metrics.{parse_f64_attribute}

-- `index as i32`
unfoldable pub as_i32 : ℕ → ℤ
as_i32 index =
    let low = index % 2 ^ 32 in if leb low i32_max then pos low else negsuc (2 ^ 32 - low - 1)

-- `i32::saturating_add`
unfoldable pub saturating_add_i32 : ℤ → ℤ → ℤ
saturating_add_i32 (pos m) (pos n) = if leb (m + n) i32_max then pos (m + n) else pos i32_max
saturating_add_i32 (pos m) (negsuc n) = if ltb n m then pos (m - n - 1) else negsuc (n - m)
saturating_add_i32 (negsuc m) (pos n) = if ltb m n then pos (n - m - 1) else negsuc (m - n)
saturating_add_i32 (negsuc m) (negsuc n) =
    if leb (m + n + 1) i32_max then negsuc (m + n + 1) else negsuc i32_max

-- `-scale`, which wraps at the least number where overflow is not checked.
unfoldable pub negate_i32 : ℤ → ℤ
negate_i32 (pos zero) = pos zero
negate_i32 (pos (suc n)) = negsuc n
negate_i32 (negsuc n) = if leb (suc n) i32_max then pos (suc n) else negsuc n

module _ (fl : Floats) where
  -- The bounds that are finite, with their counts, from an index on; `bound` is the bound at an index.
  unfoldable pub finite_bounds : (ℕ → fl.F) → ℕ → List ℕ → List (fl.F × ℕ)
  finite_bounds bound index [] = []
  finite_bounds bound index (count ∷ counts) =
      let rest = finite_bounds bound (suc index) counts in
      if fl.is_finite (bound index) then (bound index, count) ∷ rest else rest

  insert_sorted : fl.F × ℕ → List (fl.F × ℕ) → List (fl.F × ℕ)
  insert_sorted b [] = b ∷ []
  insert_sorted b (c ∷ rest) =
      let later = insert_sorted b rest in if fl.total_le b.0 c.0 then b ∷ c ∷ rest else c ∷ later

  -- A sort that keeps the order of equal bounds.
  unfoldable pub sort_buckets : List (fl.F × ℕ) → List (fl.F × ℕ)
  unfolding insert_sorted
  sort_buckets [] = []
  sort_buckets (b ∷ rest) = insert_sorted b (sort_buckets rest)

  zero_bucket : TelemetryRecord → Option ℕ → List (fl.F × ℕ)
  zero_bucket r none = []
  zero_bucket r (some zero) = []
  zero_bucket r (some (suc n)) =
      (
        unwrap_or (parse_f64_attribute fl r (text "otel.metric.zero_threshold")) (fl.of_unsigned 0),
        suc n,
      )
      ∷ []

  unsorted_buckets : TelemetryRecord → fl.F → List (fl.F × ℕ)
  unfolding finite_bounds zero_bucket as_i32 saturating_add_i32
  unsorted_buckets r base =
      let negative_offset =
        unwrap_or (parse_i32_attribute r (text "otel.metric.negative_offset")) (pos 0) in
      let positive_offset =
        unwrap_or (parse_i32_attribute r (text "otel.metric.positive_offset")) (pos 0) in
      finite_bounds
        (λ index. fl.negate (fl.powi base (saturating_add_i32 negative_offset (as_i32 index)))) 0
        (parse_u64_list_attribute r (text "otel.metric.negative_bucket_counts"))
      ++ (zero_bucket r (parse_u64_attribute r (text "otel.metric.zero_count"))
          ++ finite_bounds
              (λ index.
                fl.powi base
                  (saturating_add_i32 (saturating_add_i32 positive_offset (as_i32 index)) (pos 1)))
              0 (parse_u64_list_attribute r (text "otel.metric.positive_bucket_counts")))

  unfoldable pub exponential_histogram_prometheus_buckets : TelemetryRecord → List (Bytes × ℕ)
  unfolding negate_i32 unsorted_buckets sort_buckets
  exponential_histogram_prometheus_buckets r =
      let scale = unwrap_or (parse_i32_attribute r (text "otel.metric.scale")) (pos 0) in
      map (λ b. (fl.to_text b.0, b.1))
        (sort_buckets (unsorted_buckets r (fl.base_of (negate_i32 scale))))

-- `cumulative_count` after each bucket, under the bucket's bound.
unfoldable pub cumulative : ℕ → List (Bytes × ℕ) → List (Bytes × ℕ)
cumulative count [] = []
cumulative count (b ∷ rest) =
    let total = saturating_add_u64 count b.1 in (b.0, total) ∷ cumulative total rest
