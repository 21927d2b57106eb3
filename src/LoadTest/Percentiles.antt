-- ===== src/LoadTest/Percentiles.antt =====
-- The numbers of a bucket are in order, if no rounding comes in.
use native.Mathlib.Nat.{mul-le-mul_right, mul-add}
use trace_runtime.Prelude.{
  ℕ, zero, suc, ◌+◌, ◌-◌, ◌*◌, ◌/◌, ◌%◌, ◌≤◌, ◌<◌, ◌≡◌, refl, sym, ap, ◌∙◌, subst, false, Option,
  some, List, [], ◌∷◌, length, get_elem?, arith, ltb, ltb→lt, Bool-cases, inl, inr,
}
use mathlib.Core.List.{Perm}
use trace_runtime.LoadTest.Buckets.{
  no_latency, LatencyBucket, sort, at_rank, percentile, bucket_sorted, compute_bucket,
}
use trace_runtime.LoadTest.Sorting.{Above, Ascending, sort-Ascending, sort-perm, length-sort}

at : List ℕ → ℕ → ℕ
at [] i = 0
at (x ∷ xs) zero = x
at (x ∷ xs) (suc i) = at xs i

get-at : (xs : List ℕ) (i : ℕ) → i < length xs → get_elem? xs i ≡ some (at xs i)
unfolding at
get-at [] i h = absurd (omega (arith, h))
get-at (x ∷ xs) zero h = refl
get-at (x ∷ xs) (suc i) h = get-at xs i (omega (arith, h))

Above-at : (x : ℕ) (xs : List ℕ) (i : ℕ) → Above x xs → i < length xs → x ≤ at xs i
unfolding at
Above-at x [] i a h = absurd (omega (arith, h))
Above-at x (y ∷ ys) zero a h = a.0
Above-at x (y ∷ ys) (suc i) a h = Above-at x ys i a.1 (omega (arith, h))

at_mono : (xs : List ℕ) (i j : ℕ) → Ascending xs → i ≤ j → j < length xs → at xs i ≤ at xs j
unfolding at
at_mono [] i j a h k = absurd (omega (arith, k))
at_mono (x ∷ xs) zero zero a h k = omega arith
at_mono (x ∷ xs) zero (suc j) a h k = Above-at x xs j a.0 (omega (arith, k))
at_mono (x ∷ xs) (suc i) zero a h k = absurd (omega (arith, h))
at_mono (x ∷ xs) (suc i) (suc j) a h k = at_mono xs i j a.1 (omega (arith, h)) (omega (arith, k))

-- A mixture of a and b lies between them, and grows with the share of b.
mix-low : (a b c f : ℕ) → c + f ≡ 100 → a * f ≤ b * f → 100 * a ≤ a * c + b * f
mix-low a b c f e h = omega (arith, h, ap (λ x. a * x) e, mul-add a c f)

mix-high : (a b c f : ℕ) → c + f ≡ 100 → a * c ≤ b * c → a * c + b * f ≤ 100 * b
mix-high a b c f e h = omega (arith, h, ap (λ x. b * x) e, mul-add b c f)

mix_mono : (a b c f d : ℕ) → a * d ≤ b * d → a * (c + d) + b * f ≤ a * c + b * (f + d)
mix_mono a b c f d h = omega (arith, h, mul-add a c d, mul-add b f d)

module _ (xs : List ℕ) where
  value : ℕ → ℕ
  value r = at xs (r / 100) * (100 - r % 100) + at xs (r / 100 + 1) * (r % 100)

  at_rank-value : (r : ℕ) → r + 100 ≤ 100 * length xs → at_rank xs r ≡ some (value r)
  unfolding at_rank value
  at_rank-value r h = elim (Bool-cases (ltb 0 (r % 100))) [
    | inl e ↦
        rw
          (
            e,
            get-at xs (r / 100) (omega (arith, h)),
            get-at xs (r / 100 + 1) (omega (arith, h, ltb→lt 0 (r % 100) e)),
          )
          refl
    | inr e ↦ rw (e, get-at xs (r / 100) (omega (arith, h))) (ap some (exact e))
  ]
    where
      exact :
          ltb 0 (r % 100) ≡ false
          → 100 * at xs (r / 100)
            ≡ at xs (r / 100) * (100 - r % 100) + at xs (r / 100 + 1) * (r % 100)
      exact e = let none_left : r % 100 ≡ 0 = ground arith in rw none_left (omega arith)

  module _ (a : Ascending xs) where
    next-le :
        (r : ℕ)
        → r + 100 ≤ 100 * length xs
        → at xs (r / 100) * (r % 100) ≤ at xs (r / 100 + 1) * (r % 100)
    next-le r h = elim (Bool-cases (ltb 0 (r % 100))) [
      | inl e ↦ mul-le-mul_right (r % 100) (
          at_mono xs (r / 100) (r / 100 + 1) a (omega arith)
            (omega (arith, h, ltb→lt 0 (r % 100) e)))
      | inr e ↦ let none_left : r % 100 ≡ 0 = ground arith in rw none_left (omega arith)
    ]

    value-low : (r : ℕ) → r + 100 ≤ 100 * length xs → 100 * at xs (r / 100) ≤ value r
    unfolding value
    value-low r h =
        mix-low (at xs (r / 100)) (at xs (r / 100 + 1)) (100 - r % 100) (r % 100) (omega arith)
          (next-le r h)

    value-high : (r q : ℕ) → r / 100 < q → q < length xs → value r ≤ 100 * at xs q
    unfolding value
    value-high r q h k =
        let up = at_mono xs (r / 100) (r / 100 + 1) a (omega arith) (omega (arith, h, k)) in
        let on = at_mono xs (r / 100 + 1) q a (omega (arith, h)) k in
        omega (
          arith,
          on,
          mix-high (at xs (r / 100)) (at xs (r / 100 + 1)) (100 - r % 100) (r % 100) (omega arith)
              (mul-le-mul_right (100 - r % 100) up),
        )

    -- A rank in the same cell.
    up :
        (r d : ℕ)
        → r % 100 + d ≤ 99
        → r + d + 100 ≤ 100 * length xs
        → at xs (r / 100) * d ≤ at xs (r / 100 + 1) * d
    up r zero h k = omega arith
    up r (suc d) h k =
        mul-le-mul_right (suc d)
          (at_mono xs (r / 100) (r / 100 + 1) a (omega arith) (omega (arith, h, k)))

    value-cell :
        (r d : ℕ) → r % 100 + d ≤ 99 → r + d + 100 ≤ 100 * length xs → value r ≤ value (r + d)
    unfolding value
    value-cell r d h k =
        let cell : (r + d) / 100 ≡ r / 100 = omega (arith, h) in
        let left : (r + d) % 100 ≡ r % 100 + d = omega (arith, h) in
        let back : 100 - r % 100 ≡ 100 - (r % 100 + d) + d = omega (arith, h) in
        rw (cell, left, back)
          (mix_mono (at xs (r / 100)) (at xs (r / 100 + 1)) (100 - (r % 100 + d)) (r % 100) d
            (up r d h k))

    value_mono : (r s : ℕ) → r ≤ s → s + 100 ≤ 100 * length xs → value r ≤ value s
    value_mono r s h k = elim (Bool-cases (ltb (r / 100) (s / 100))) [
      | inl e ↦ omega (
        arith,
        value-high r (s / 100) (ltb→lt (r / 100) (s / 100) e) (omega (arith, k)),
        value-low s k,
      )
      | inr e ↦ ap-le (omega (arith, h)) (value-cell r (s - r) (same_cell e) (omega (arith, h, k)))
    ]
      where
        ap-le : r + (s - r) ≡ s → value r ≤ value (r + (s - r)) → value r ≤ value s
        ap-le e l = subst (λ t. value r ≤ value t) e l

        same_cell : ltb (r / 100) (s / 100) ≡ false → r % 100 + (s - r) ≤ 99
        same_cell e = let cell : s / 100 ≤ r / 100 = ground arith in omega (arith, h, cell)

abbrev pub InOrder : LatencyBucket → Type 0
InOrder b = (100 * b.min ≤ b.p50) × (b.p50 ≤ b.p95) × (b.p95 ≤ b.p99) × (b.p99 ≤ 100 * b.max)

percentile-value :
    (v : ℕ) (vs : List ℕ) (pct : ℕ)
    → pct ≤ 99
    → percentile (v ∷ vs) pct ≡ some (value (v ∷ vs) (pct * length vs))
unfolding percentile
percentile-value v vs pct h =
    at_rank-value (v ∷ vs) (pct * length vs) (omega (arith, mul-le-mul_right (length vs) h))

module _ (v : ℕ) (vs : List ℕ) where
  found : LatencyBucket
  found = record {
    p50 = value (v ∷ vs) (50 * length vs);
    p95 = value (v ∷ vs) (95 * length vs);
    p99 = value (v ∷ vs) (99 * length vs);
    min = v;
    max = at (v ∷ vs) (length vs);
  }

  bucket_sorted-found : bucket_sorted (v ∷ vs) ≡ some found
  unfolding bucket_sorted found
  bucket_sorted-found =
      rw
        (
          percentile-value v vs 50 (omega arith),
          percentile-value v vs 95 (omega arith),
          percentile-value v vs 99 (omega arith),
          last,
        )
        refl
    where
      before : (n : ℕ) → n ≡ suc n - 1
      before n = omega arith

      last : get_elem? (v ∷ vs) (length (v ∷ vs) - 1) ≡ some (at (v ∷ vs) (length vs))
      last =
          subst (λ i. get_elem? (v ∷ vs) i ≡ some (at (v ∷ vs) (length vs))) (before (length vs))
            (get-at (v ∷ vs) (length vs) (omega arith))

  top : (n : ℕ) → length vs ≡ n → Ascending (v ∷ vs) → value (v ∷ vs) (99 * n) ≤ 100 * at (v ∷ vs) n
  unfolding value
  top zero e a = omega arith
  top (suc n) e a = value-high (v ∷ vs) a (99 * suc n) (suc n) (omega arith) (omega (arith, e))

  found-InOrder : Ascending (v ∷ vs) → InOrder found
  unfolding found at
  found-InOrder a =
      let n = length vs in
      let xs = v ∷ vs in
      let first : v ≤ at xs (50 * n / 100) =
        at_mono xs 0 (50 * n / 100) a (omega arith) (omega arith) in
      (
        omega (arith, first, value-low xs a (50 * n) (omega arith)),
        value_mono xs a (50 * n) (95 * n) (omega arith) (omega arith),
        value_mono xs a (95 * n) (99 * n) (omega arith) (omega arith),
        top n refl a,
      )

sorted-InOrder :
    (xs : List ℕ)
    → 0 < length xs
    → Ascending xs
    → (b : LatencyBucket) × (bucket_sorted xs ≡ some b) × InOrder b
sorted-InOrder [] h a = absurd (omega (arith, h))
sorted-InOrder (v ∷ vs) h a = (found v vs, bucket_sorted-found v vs, found-InOrder v vs a)

compute_bucket-InOrder :
    (values : List ℕ) → (b : LatencyBucket) × (compute_bucket values ≡ some b) × InOrder b
unfolding compute_bucket
compute_bucket-InOrder [] = (no_latency, refl, (omega arith, omega arith, omega arith, omega arith))
compute_bucket-InOrder (x ∷ xs) =
    sorted-InOrder (sort (x ∷ xs)) (omega (arith, length-sort (x ∷ xs))) (sort-Ascending (x ∷ xs))

of_sorted : List ℕ → Option LatencyBucket
of_sorted [] = some no_latency
of_sorted (x ∷ xs) = bucket_sorted (x ∷ xs)

of_sorted-cons : (xs : List ℕ) → 0 < length xs → bucket_sorted xs ≡ of_sorted xs
unfolding of_sorted
of_sorted-cons [] h = absurd (omega (arith, h))
of_sorted-cons (x ∷ xs) h = refl

via_sorted : (xs : List ℕ) → compute_bucket xs ≡ of_sorted (sort xs)
unfolding compute_bucket of_sorted sort
via_sorted [] = refl
via_sorted (x ∷ xs) = of_sorted-cons (sort (x ∷ xs)) (omega (arith, length-sort (x ∷ xs)))

bucket-perm :
    {values others : List ℕ} → Perm values others → compute_bucket values ≡ compute_bucket others
bucket-perm {values} {others} p =
    via_sorted values ∙ ap of_sorted (sort-perm p) ∙ sym (via_sorted others)

-- In the exact arithmetic of Buckets: for any measurements, computeBucket reads no index out of range, the numbers it reports are in order (min ≤ p50 ≤ p95 ≤ p99 ≤ max), and the same measurements in another order give the same numbers.
pub bucket-InOrder :
    (values others : List ℕ)
    → Perm values others
    → (b : LatencyBucket) × (compute_bucket values ≡ some b)
      × (compute_bucket others ≡ some b)
      × InOrder b
bucket-InOrder values others p =
    let (b, computed, ordered) = compute_bucket-InOrder values in
    (b, computed, sym (bucket-perm p) ∙ computed, ordered)
