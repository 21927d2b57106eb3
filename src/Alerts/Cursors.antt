-- ===== src/Alerts/Cursors.antt =====
-- What the cursor of a page leaves: the rows before it are those that the page has not shown.
use trace_runtime.Prelude.{
  take, drop, ℕ, zero, suc, ◌+◌, ◌≤◌, ◌<◌, ◌≡◌, refl, ap, subst, Bool, true, false, ◌&&◌, Option,
  none, some, [], ◌∷◌, length, arith, ltb, leb, ltb→lt, leb→le, select, All, Bool-cases, inl, inr,
}
use trace_runtime.Healing.{HealingEvent, Table}
use trace_runtime.Alerts.{before, last_created}
use trace_runtime.Alerts.Sorted.{Descending, All-select}

pub length-drop : (n : ℕ) (t : Table) → n ≤ length t → length (drop n t) + n ≡ length t
length-drop zero t h = omega arith
length-drop (suc n) [] h = absurd (omega (arith, h))
length-drop (suc n) (e ∷ t) h = omega (arith, length-drop n t (omega (arith, h)))

length-take : (n : ℕ) (t : Table) → length (take n t) ≤ n
length-take zero t = omega arith
length-take (suc n) [] = omega arith
length-take (suc n) (e ∷ t) = omega (arith, length-take n t)

-- The cursor is the time of a row.
last-All :
    (Q : ℕ → Type 0) (n : ℕ) (t : Table) (c : ℕ)
    → All (λ e. Q e.created_at) t
    → last_created (take n t) ≡ some c
    → Q c
last-All Q zero t c k h = absurd (ground (arith, h))
last-All Q (suc n) [] c k h = absurd (ground (arith, h))
last-All Q (suc zero) (e ∷ t) c k h =
    let same : e.created_at ≡ c = ground (arith, h) in subst Q same k.0
last-All Q (suc (suc n)) (e ∷ []) c k h =
    let same : e.created_at ≡ c = ground (arith, h) in subst Q same k.0
last-All Q (suc (suc n)) (e ∷ f ∷ t) c k h = last-All Q (suc n) (f ∷ t) c k.1 h

select-All : (c : ℕ) (t : Table) → All (λ f. f.created_at < c) t → select (before (some c)) t ≡ t
select-All c [] k = refl
select-All c (e ∷ t) k = ground (arith, k.0, select-All c t k.1)

-- The rows before the cursor are those that the page has left.
rest-drop :
    (n : ℕ) (t : Table) (c : ℕ)
    → Descending t
    → last_created (take (suc n) t) ≡ some c
    → select (before (some c)) t ≡ drop (suc n) t
rest-drop n [] c d h = refl
rest-drop zero (e ∷ t) c d h =
    let same : e.created_at ≡ c = ground (arith, h) in
    ground (arith, same, select-All c t (subst (λ x. All (λ f. f.created_at < x) t) same d.0))
rest-drop (suc n) (e ∷ []) c d h = ground (arith, h)
rest-drop (suc n) (e ∷ f ∷ t) c d h =
    let lower : c < e.created_at = last-All (λ x. x < e.created_at) (suc n) (f ∷ t) c d.0 h in
    ground (arith, lower, rest-drop n (f ∷ t) c d.1 h)

pub select-select :
    (p q : HealingEvent → Bool) (t : Table)
    → ((e : HealingEvent) → p e ≡ true → q e ≡ true)
    → select p t ≡ select p (select q t)
select-select p q [] f = refl
select-select p q (e ∷ t) f = ground (arith, f e, select-select p q t f)

pub select-both :
    (p q : HealingEvent → Bool) (t : Table) → select (λ e. p e && q e) t ≡ select q (select p t)
select-both p q [] = refl
select-both p q (e ∷ t) = ground (arith, select-both p q t)

pub rest-drop_pos :
    (k : ℕ) (t : Table) (c : ℕ)
    → 0 < k
    → Descending t
    → last_created (take k t) ≡ some c
    → select (before (some c)) t ≡ drop k t
rest-drop_pos zero t c h d e = absurd (omega (arith, h))
rest-drop_pos (suc n) t c h d e = rest-drop n t c d e

pub Descending-select :
    (p : HealingEvent → Bool) (t : Table) → Descending t → Descending (select p t)
Descending-select p [] d = tt
Descending-select p (e ∷ t) d = elim (Bool-cases (p e)) [
  | inl c ↦ rw c (All-select (λ f. f.created_at < e.created_at) p t d.0, Descending-select p t d.1)
  | inr c ↦ rw c (Descending-select p t d.1)
]

select-before : (c : ℕ) (t : Table) → All (λ e. e.created_at < c) (select (before (some c)) t)
select-before c [] = tt
select-before c (e ∷ t) = elim (Bool-cases (ltb e.created_at c)) [
  | inl h ↦ rw h (ltb→lt e.created_at c h, select-before c t)
  | inr h ↦ rw h (select-before c t)
]

pub before-earlier :
    (cursor : Option ℕ) (k : ℕ) (t : Table) (c : ℕ)
    → last_created (take k (select (before cursor) t)) ≡ some c
    → (e : HealingEvent) → before (some c) e ≡ true
    → before cursor e ≡ true
before-earlier none k t c h e b = refl
before-earlier (some d) k t c h e b =
    let lower : c < d =
      last-All (λ x. x < d) k (select (before (some d)) t) c (select-before d t) h in
    ground (arith, b, lower)

pub select-true : (t : Table) → select (λ _. true) t ≡ t
select-true [] = refl
select-true (e ∷ t) = ap (λ s. e ∷ s) (select-true t)

take-le : (k : ℕ) (t : Table) → length (take k t) ≤ length t
take-le zero t = omega arith
take-le (suc k) [] = omega arith
take-le (suc k) (e ∷ t) = omega (arith, take-le k t)

pub full-le : (k : ℕ) (t : Table) → leb k (length (take k t)) ≡ true → k ≤ length t
full-le k t f = omega (arith, take-le k t, leb→le k (length (take k t)) f)

pub take-short : (k : ℕ) (t : Table) → leb k (length (take k t)) ≡ false → take k t ≡ t
take-short zero t h = absurd (ground (arith, h))
take-short (suc k) [] h = refl
take-short (suc k) (e ∷ t) h = ap (λ s. e ∷ s) (take-short k t (ground (arith, h)))

pub last_created-full :
    (k : ℕ) (t : Table)
    → 0 < k
    → leb k (length (take k t)) ≡ true
    → (c : ℕ) × (last_created (take k t) ≡ some c)
last_created-full zero t h f = absurd (omega (arith, h))
last_created-full (suc k) [] h f = absurd (ground (arith, f))
last_created-full (suc zero) (e ∷ t) h f = (e.created_at, refl)
last_created-full (suc (suc k)) (e ∷ []) h f = (e.created_at, refl)
last_created-full (suc (suc k)) (e ∷ g ∷ t) h f =
    last_created-full (suc k) (g ∷ t) (omega arith) (ground (arith, f))
