-- ===== src/Alerts/Sorted.antt =====
-- The rows of alerts in the order of the query.
use trace_runtime.Prelude.{
  ℕ, ◌≤◌, ◌<◌, ◌≡◌, ◌≢◌, refl, Bool, true, [], ◌∷◌, arith, leb, leb→le, if◌then◌else◌, select, All,
  Bool-cases, inl, inr,
}
use trace_runtime.Healing.{HealingEvent, Table}
use trace_runtime.Alerts.{insert, newest_first}

-- No two rows have the same time.
abbrev pub Apart : Table → Type 0
Apart [] = Unit
Apart (e ∷ t) = All (λ f. e.created_at ≢ f.created_at) t × Apart t

abbrev pub Descending : Table → Type 0
Descending [] = Unit
Descending (e ∷ t) = All (λ f. f.created_at < e.created_at) t × Descending t

module _ (P : HealingEvent → Type 0) where
  All-insert : (e : HealingEvent) (t : Table) → P e → All P t → All P (insert e t)
  unfolding insert
  All-insert e [] h k = (h, tt)
  All-insert e (f ∷ t) h k = elim (Bool-cases (leb f.created_at e.created_at)) [
    | inl c ↦ rw c (h, k)
    | inr c ↦ rw c (k.0, All-insert e t h k.1)
  ]

  All-newest_first : (t : Table) → All P t → All P (newest_first t)
  unfolding newest_first
  All-newest_first [] k = tt
  All-newest_first (e ∷ t) k = All-insert e (newest_first t) k.0 (All-newest_first t k.1)

  pub All-select : (p : HealingEvent → Bool) (t : Table) → All P t → All P (select p t)
  All-select p [] k = tt
  All-select p (e ∷ t) k = elim (Bool-cases (p e)) [
    | inl c ↦ rw c (k.0, All-select p t k.1)
    | inr c ↦ rw c (All-select p t k.1)
  ]

pub Apart-select : (p : HealingEvent → Bool) (t : Table) → Apart t → Apart (select p t)
Apart-select p [] a = tt
Apart-select p (e ∷ t) a = elim (Bool-cases (p e)) [
  | inl c ↦ rw c (All-select (λ f. e.created_at ≢ f.created_at) p t a.0, Apart-select p t a.1)
  | inr c ↦ rw c (Apart-select p t a.1)
]

All-map :
    (P Q : HealingEvent → Type 0) (t : Table) → ((e : HealingEvent) → P e → Q e) → All P t → All Q t
All-map P Q [] f k = tt
All-map P Q (e ∷ t) f k = (f e k.0, All-map P Q t f k.1)

strict : (a b : ℕ) → leb a b ≡ true → b ≢ a → a < b
strict a b h n = ground (arith, h, n)

insert-Descending :
    (e : HealingEvent) (t : Table)
    → All (λ f. e.created_at ≢ f.created_at) t
    → Descending t
    → Descending (insert e t)
unfolding insert
insert-Descending e [] a d = (tt, tt)
insert-Descending e (f ∷ t) a d = elim (Bool-cases (leb f.created_at e.created_at)) [
  | inl c ↦
      let lt : f.created_at < e.created_at = strict f.created_at e.created_at c a.0 in
      rw c (
        (
          lt,
          All-map (λ g. g.created_at < f.created_at) (λ g. g.created_at < e.created_at) t
              (λ g h. omega (arith, h, lt)) d.0,
        ),
        d,
      )
  | inr c ↦ rw c (
    All-insert (λ g. g.created_at < f.created_at) e t (ground arith) d.0,
    insert-Descending e t a.1 d.1,
  )
]

pub newest_first-Descending : (t : Table) → Apart t → Descending (newest_first t)
unfolding newest_first
newest_first-Descending [] a = tt
newest_first-Descending (e ∷ t) a =
    insert-Descending e (newest_first t) (All-newest_first (λ f. e.created_at ≢ f.created_at) t a.0)
      (newest_first-Descending t a.1)

insert-top :
    (e : HealingEvent) (t : Table) → All (λ g. g.created_at ≤ e.created_at) t → insert e t ≡ e ∷ t
unfolding insert
insert-top e [] k = refl
insert-top e (f ∷ t) k = ground (arith, k.0)

-- To select before or after the rows are sorted is the same.
select-insert :
    (q : HealingEvent → Bool) (e : HealingEvent) (t : Table)
    → Descending t
    → select q (insert e t) ≡ (if q e then insert e (select q t) else select q t)
unfolding insert
select-insert q e [] d = ground arith
select-insert q e (f ∷ t) d = elim (Bool-cases (leb f.created_at e.created_at)) [
  | inl c ↦ rw c (ground (arith, insert-top e (select q t) (below c)))
  | inr c ↦ rw c (ground (arith, c, select-insert q e t d.1))
]
  where
    below :
        leb f.created_at e.created_at ≡ true → All (λ g. g.created_at ≤ e.created_at) (select q t)
    below c =
        All-select (λ g. g.created_at ≤ e.created_at) q t
          (All-map (λ g. g.created_at < f.created_at) (λ g. g.created_at ≤ e.created_at) t
            (λ g h. omega (arith, h, leb→le f.created_at e.created_at c)) d.0)

pub select-newest_first :
    (q : HealingEvent → Bool) (t : Table)
    → Apart t
    → select q (newest_first t) ≡ newest_first (select q t)
unfolding newest_first
select-newest_first q [] a = refl
select-newest_first q (e ∷ t) a = ground (
  arith,
  select-insert q e (newest_first t) (newest_first-Descending t a.1),
  select-newest_first q t a.1,
)
