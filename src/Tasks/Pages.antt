-- ===== src/Tasks/Pages.antt =====
-- What the pages of Listing show, given that no two rows have one time of creation: the order of ties, which PostgreSQL
-- leaves open, plays no part.
use trace_runtime.Prelude.{
  ℕ, ◌*◌, ◌≤◌, ◌<◌, ◌≡◌, ◌≢◌, ◌↔◌, ◌⊎◌, inl, inr, sym, subst, String, Bool, true, ◌==◌, eq_iff,
  none, [], ◌∷◌, arith, leb, select, All, Bool-cases,
}
use trace_runtime.Tasks.{TaskRow, Table}
use trace_runtime.Tasks.Listing.{
  insert, newest_first, status_text, listed, page_length, list_tasks, pages, pages_whole,
}

abbrev pub In : TaskRow → Table → Type 0
In r [] = ⊥
In r (q ∷ t) = (r ≡ q) ⊎ In r t

-- No two rows have the same time.
abbrev pub Apart : Table → Type 0
Apart [] = Unit
Apart (q ∷ t) = All (λ r. q.created_at ≢ r.created_at) t × Apart t

abbrev pub Descending : Table → Type 0
Descending [] = Unit
Descending (q ∷ t) = All (λ r. r.created_at < q.created_at) t × Descending t

-- A row that the filter asks for, if there is a filter, and that is of no chaos run.
abbrev pub Asked : String → TaskRow → Type 0
Asked filter r = (r.chaos_run_id ≡ none) × ((filter ≡ "") ⊎ (status_text r.status ≡ filter))

insert-In : (r q : TaskRow) (t : Table) → In r (insert q t) → (r ≡ q) ⊎ In r t
insert-In r q [] m = m
insert-In r q (p ∷ t) m = elim (Bool-cases (leb p.created_at q.created_at)) [
  | inl c ↦ rw c at m
  | inr c ↦ deeper (rw c at m) (insert-In r q t)
]
  where
    deeper :
        (r ≡ p) ⊎ In r (insert q t)
        → (In r (insert q t) → (r ≡ q) ⊎ In r t)
        → (r ≡ q) ⊎ ((r ≡ p) ⊎ In r t)
    deeper (inl e) rest = inr (inl e)
    deeper (inr m) rest = elim (rest m) [ inl e ↦ inl e | inr n ↦ inr (inr n) ]

In-insert : (r q : TaskRow) (t : Table) → (r ≡ q) ⊎ In r t → In r (insert q t)
In-insert r q [] m = m
In-insert r q (p ∷ t) m = elim (Bool-cases (leb p.created_at q.created_at)) [
  | inl c ↦ rw c m
  | inr c ↦ rw c (deeper m (In-insert r q t))
]
  where
    deeper :
        (r ≡ q) ⊎ ((r ≡ p) ⊎ In r t)
        → ((r ≡ q) ⊎ In r t → In r (insert q t))
        → (r ≡ p) ⊎ In r (insert q t)
    deeper (inl e) rest = inr (rest (inl e))
    deeper (inr (inl e)) rest = inl e
    deeper (inr (inr m)) rest = inr (rest (inr m))

newest_first-In : (r : TaskRow) (t : Table) → In r (newest_first t) → In r t
unfolding newest_first
newest_first-In r [] m = m
newest_first-In r (q ∷ t) m = elim (insert-In r q (newest_first t) m) [
  | inl e ↦ inl e
  | inr n ↦ inr (newest_first-In r t n)
]

In-newest_first : (r : TaskRow) (t : Table) → In r t → In r (newest_first t)
unfolding newest_first
In-newest_first r [] m = absurd m
In-newest_first r (q ∷ t) (inl e) = In-insert r q (newest_first t) (inl e)
In-newest_first r (q ∷ t) (inr m) = In-insert r q (newest_first t) (inr (In-newest_first r t m))

select-In :
    (p : TaskRow → Bool) (r : TaskRow) (t : Table) → In r (select p t) → In r t × (p r ≡ true)
select-In p r [] m = absurd m
select-In p r (q ∷ t) m = elim (Bool-cases (p q)) [
  | inl c ↦ here c (rw c at m) (select-In p r t)
  | inr c ↦ let (n, h) = select-In p r t (rw c at m) in (inr n, h)
]
  where
    here :
        p q ≡ true
        → (r ≡ q) ⊎ In r (select p t)
        → (In r (select p t) → In r t × (p r ≡ true))
        → In r (q ∷ t) × (p r ≡ true)
    here c (inl e) rest = (inl e, subst (λ x. p x ≡ true) (sym e) c)
    here c (inr m) rest = let (n, h) = rest m in (inr n, h)

In-select : (p : TaskRow → Bool) (r : TaskRow) (t : Table) → In r t → p r ≡ true → In r (select p t)
In-select p r [] m h = absurd m
In-select p r (q ∷ t) (inl e) h = rw (subst (λ x. p x ≡ true) e h) (inl e)
In-select p r (q ∷ t) (inr m) h = elim (Bool-cases (p q)) [
  | inl c ↦ rw c (inr (In-select p r t m h))
  | inr c ↦ rw c (In-select p r t m h)
]

listed-Asked : (filter : String) (r : TaskRow) → listed filter r ≡ true → Asked filter r
unfolding listed
listed-Asked filter r h = (
  ground (arith, h),
  elim (Bool-cases (filter == "")) [
    | inl y ↦ inl ((eq_iff filter "").0 y)
    | inr n ↦ inr ((eq_iff (status_text r.status) filter).0 (ground (arith, n, h)))
  ],
)

Asked-listed : (filter : String) (r : TaskRow) → Asked filter r → listed filter r ≡ true
unfolding listed
Asked-listed filter r (user, inl e) = ground (arith, user, (eq_iff filter "").1 e)
Asked-listed filter r (user, inr e) =
    ground (arith, user, (eq_iff (status_text r.status) filter).1 e)

module _ (P : TaskRow → Type 0) where
  All-insert : (q : TaskRow) (t : Table) → P q → All P t → All P (insert q t)
  All-insert q [] h k = (h, tt)
  All-insert q (p ∷ t) h k = elim (Bool-cases (leb p.created_at q.created_at)) [
    | inl c ↦ rw c (h, k)
    | inr c ↦ rw c (k.0, All-insert q t h k.1)
  ]

  All-newest_first : (t : Table) → All P t → All P (newest_first t)
  unfolding newest_first
  All-newest_first [] k = tt
  All-newest_first (q ∷ t) k = All-insert q (newest_first t) k.0 (All-newest_first t k.1)

  All-select : (p : TaskRow → Bool) (t : Table) → All P t → All P (select p t)
  All-select p [] k = tt
  All-select p (q ∷ t) k = elim (Bool-cases (p q)) [
    | inl c ↦ rw c (k.0, All-select p t k.1)
    | inr c ↦ rw c (All-select p t k.1)
  ]

Apart-select : (p : TaskRow → Bool) (t : Table) → Apart t → Apart (select p t)
Apart-select p [] a = tt
Apart-select p (q ∷ t) a = elim (Bool-cases (p q)) [
  | inl c ↦ rw c (All-select (λ r. q.created_at ≢ r.created_at) p t a.0, Apart-select p t a.1)
  | inr c ↦ rw c (Apart-select p t a.1)
]

All-below :
    (a b : ℕ) (t : Table) → a < b → All (λ r. r.created_at < a) t → All (λ r. r.created_at < b) t
All-below a b [] lt k = tt
All-below a b (r ∷ t) lt k = (omega (arith, lt, k.0), All-below a b t lt k.1)

strict : (a b : ℕ) → leb a b ≡ true → b ≢ a → a < b
strict a b h n = ground (arith, h, n)

insert-Descending :
    (q : TaskRow) (t : Table)
    → All (λ r. q.created_at ≢ r.created_at) t
    → Descending t
    → Descending (insert q t)
insert-Descending q [] a d = (tt, tt)
insert-Descending q (p ∷ t) a d = elim (Bool-cases (leb p.created_at q.created_at)) [
  | inl c ↦
      let lt = strict p.created_at q.created_at c a.0 in
      rw c ((lt, All-below p.created_at q.created_at t lt d.0), d)
  | inr c ↦ rw c (
    All-insert (λ r. r.created_at < p.created_at) q t (ground (arith, c)) d.0,
    insert-Descending q t a.1 d.1,
  )
]

newest_first-Descending : (t : Table) → Apart t → Descending (newest_first t)
unfolding newest_first
newest_first-Descending [] a = tt
newest_first-Descending (q ∷ t) a =
    insert-Descending q (newest_first t) (All-newest_first (λ r. q.created_at ≢ r.created_at) t a.0)
      (newest_first-Descending t a.1)

-- Given that no two tasks have the same time of creation and that there are enough pages, of any size, for the total that the first one reports: the pages, one after the other, are strictly descending in the time of creation, and a task is on them exactly if it is in the table, belongs to no chaos run and has the status asked for, if one is; the table stands still meanwhile.
pub pages_complete :
    (n size : ℕ) (filter : String) (t : Table)
    → Apart t
    → (list_tasks 1 size filter t).total ≤ n * page_length size
    → Descending (pages n size filter t)
      × ((r : TaskRow) → In r (pages n size filter t) ↔ (In r t × Asked filter r))
pages_complete n size filter t apart enough =
    let rows = select (listed filter) t in
    let same = sym (pages_whole n size filter t enough) in
    (
      subst Descending same (newest_first-Descending rows (Apart-select (listed filter) t apart)),
      λ r. (
        λ m.
            let (there, h) =
              select-In (listed filter) r t (newest_first-In r rows (subst (In r) (sym same) m)) in
            (there, listed-Asked filter r h),
        λ k. subst (In r) same (
            In-newest_first r rows (In-select (listed filter) r t k.0 (Asked-listed filter r k.1))),
      ),
    )
