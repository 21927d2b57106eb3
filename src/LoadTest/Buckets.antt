-- ===== src/LoadTest/Buckets.antt =====
-- computeBucket and percentile of cmd/loadtest/collector.go. The source computes in
-- float64. Here the measurements are whole numbers, which the throughputs of the source are not, and a percentile, which
-- the source interpolates between two of them, is in hundredths, so that it is exact: the rounding of the source is not modelled. `none` is an index out of range.
use mathlib.Core.List.{foldr}
use trace_runtime.Prelude.{
  ℕ, ◌+◌, ◌-◌, ◌*◌, ◌/◌, ◌%◌, Option, none, some, List, [], ◌∷◌, length, get_elem?, leb, ltb,
  if◌then◌else◌,
}

pub record LatencyBucket : Type 0 where
  pub p50 : ℕ
  pub p95 : ℕ
  pub p99 : ℕ
  pub min : ℕ
  pub max : ℕ

abbrev pub no_latency : LatencyBucket
no_latency = record { p50 = 0; p95 = 0; p99 = 0; min = 0; max = 0 }

unfoldable pub insert : ℕ → List ℕ → List ℕ
insert x [] = x ∷ []
insert x (y ∷ ys) = if leb x y then x ∷ y ∷ ys else y ∷ insert x ys

-- sort.Float64s
unfoldable pub sort : List ℕ → List ℕ
unfolding insert
sort = foldr insert []

-- Between two neighbours, in hundredths.
abbrev pub interpolate : ℕ → Option ℕ → Option ℕ → Option ℕ
interpolate frac (some a) (some b) = some (a * (100 - frac) + b * frac)
interpolate frac _ _ = none

abbrev pub whole : Option ℕ → Option ℕ
whole none = none
whole (some a) = some (100 * a)

-- `rank` is in hundredths: floor and ceiling are the same exactly if nothing is left of it.
unfoldable pub at_rank : List ℕ → ℕ → Option ℕ
at_rank sorted rank =
    let lower = rank / 100 in
    let frac = rank % 100 in
    if ltb 0 frac
    then interpolate frac (get_elem? sorted lower) (get_elem? sorted (lower + 1))
    else whole (get_elem? sorted lower)

unfoldable pub percentile : List ℕ → ℕ → Option ℕ
unfolding at_rank
percentile [] pct = some 0
percentile (x ∷ xs) pct = at_rank (x ∷ xs) (pct * length xs)

abbrev bucket_of : Option ℕ → Option ℕ → Option ℕ → Option ℕ → Option ℕ → Option LatencyBucket
bucket_of (some a) (some b) (some c) (some d) (some e) =
    some (record { p50 = a; p95 = b; p99 = c; min = d; max = e })
bucket_of _ _ _ _ _ = none

unfoldable pub bucket_sorted : List ℕ → Option LatencyBucket
unfolding percentile
bucket_sorted values =
    bucket_of (percentile values 50) (percentile values 95) (percentile values 99)
      (get_elem? values 0) (get_elem? values (length values - 1))

unfoldable pub compute_bucket : List ℕ → Option LatencyBucket
unfolding bucket_sorted sort
compute_bucket [] = some no_latency
compute_bucket (x ∷ xs) = bucket_sorted (sort (x ∷ xs))
