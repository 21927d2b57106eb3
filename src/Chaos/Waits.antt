-- ===== src/Chaos/Waits.antt =====
-- WaitFor of cmd/chaos/internal/chaos/checker/checker.go. A wait is over when its condition is met at a tick,
-- when its time is up, or when its context ends; how many ticks come before the one or the other, and
-- which of them it is, is given.
use trace_runtime.Prelude.{
  ℕ, zero, suc, ◌+◌, ◌-◌, ◌<◌, ◌&&◌, not, ◌≡◌, refl, sym, ap, subst, String, Bool, true, false, ◌⊎◌,
  inl, inr, if◌then◌else◌, if_ind, arith,
}

pub record Ticks : Type 0 where
  pub count : ℕ
  pub context_ends : Bool

pub record WaitResult : Type 0 where
  pub elapsed : ℕ
  pub attempts : ℕ
  pub met : Bool

-- After an attempt; an error of the check is only logged.
abbrev proceed :
    {S : Type 0}
    → (S → WaitResult × S)
    → (S → WaitResult × S)
    → (String ⊎ Bool) × S
    → WaitResult × S
proceed stop rest (inr true, s) = stop s
proceed stop rest (inr false, s) = rest s
proceed stop rest (inl e, s) = rest s

module _ {S : Type 0} (now : S → ℕ) (check : S → (String ⊎ Bool) × S) (start : ℕ) where
  abbrev outcome : ℕ → Bool → S → WaitResult × S
  outcome attempts met s = (record { elapsed = now s - start; attempts = attempts; met = met }, s)

  -- The loop, with the attempts so far.
  unfoldable pub loop : ℕ → ℕ → S → WaitResult × S
  loop zero attempts s = outcome attempts false s
  loop (suc n) attempts s =
      let rest = loop n (attempts + 1) in proceed (outcome (attempts + 1) true) rest (check s)

-- With the error of the context, if this has ended it.
abbrev ended : {S : Type 0} → Bool → WaitResult × S → (String ⊎ WaitResult) × S
ended context_ends (result, s) =
    if not result.met && context_ends then (inl "context ended", s) else (inr result, s)

unfoldable pub wait_for :
    {S : Type 0} → (S → ℕ) → (S → (String ⊎ Bool) × S) → Ticks → S → (String ⊎ WaitResult) × S
unfolding loop
wait_for now check ticks s = ended ticks.context_ends (loop now check (now s) ticks.count 0 s)

-- The state of the tick after so many others.
pub ticked : {S : Type 0} → (S → (String ⊎ Bool) × S) → ℕ → S → S
ticked check zero s = s
ticked check (suc k) s = ticked check k (check s).1

-- A wait that has met its condition has seen the check say so, at one of its ticks.
module _ {S : Type 0} (now : S → ℕ) (check : S → (String ⊎ Bool) × S) (start : ℕ) where
  abbrev Seen : ℕ → S → WaitResult × S → Type 0
  Seen n origin (result, s) =
      result.met ≡ true → (k : ℕ) × (k < n) × (check (ticked check k origin) ≡ (inr true, s))

  Seen-later :
      (n : ℕ) (t s : S) (r : WaitResult × S) → (check t).1 ≡ s → Seen n s r → Seen (suc n) t r
  unfolding ticked
  Seen-later n t s r e seen h =
      let (k, in_time, met) = seen h in
      (
        suc k,
        omega (arith, in_time),
        subst (λ u. check (ticked check k u) ≡ (inr true, r.1)) (sym e) met,
      )

  proceed-Seen :
      (n attempts : ℕ) (rest : S → WaitResult × S) (t : S) (o : (String ⊎ Bool) × S)
      → check t ≡ o
      → ((s : S) → Seen n s (rest s))
      → Seen (suc n) t (proceed (outcome now check start attempts true) rest o)
  unfolding ticked
  proceed-Seen n attempts rest t (inr true, s) e f = λ h. (0, omega arith, e)
  proceed-Seen n attempts rest t (inr false, s) e f =
      Seen-later n t s (rest s) (ap (λ q. q.1) e) (f s)
  proceed-Seen n attempts rest t (inl m, s) e f = Seen-later n t s (rest s) (ap (λ q. q.1) e) (f s)

  loop-Seen : (n attempts : ℕ) (s : S) → Seen n s (loop now check start n attempts s)
  unfolding loop
  loop-Seen zero attempts s = λ h. absurd (ground (arith, h))
  loop-Seen (suc n) attempts s =
      proceed-Seen n (attempts + 1) (loop now check start n (attempts + 1)) s (check s) refl
        (loop-Seen n (attempts + 1))

  abbrev pub Told : ℕ → S → (String ⊎ WaitResult) × S → Type 0
  Told n origin (inl e, s) = Unit
  Told n origin (inr result, s) = Seen n origin (result, s)

  ended-Told :
      (over : Bool) (n : ℕ) (origin : S) (r : WaitResult × S)
      → Seen n origin r
      → Told n origin (ended over r)
  ended-Told over n origin r k = if_ind (Told n origin) (not r.0.met && over) tt k

pub wait_for-Told :
    {S : Type 0} (now : S → ℕ) (check : S → (String ⊎ Bool) × S) (ticks : Ticks) (s : S)
    → Told now check (now s) ticks.count s (wait_for now check ticks s)
unfolding wait_for
wait_for-Told now check ticks s =
    ended-Told now check (now s) ticks.context_ends ticks.count s
      (loop now check (now s) ticks.count 0 s) (loop-Seen now check (now s) ticks.count 0 s)

-- What the check keeps, a wait keeps.
module _ {S : Type 0} (P : S → Type 0) (now : S → ℕ) (check : S → (String ⊎ Bool) × S)
    (keep : (s : S) → P s → P (check s).1) where
  proceed-keeps :
      (stop rest : S → WaitResult × S) (o : (String ⊎ Bool) × S)
      → ((s : S) → P s → P (stop s).1)
      → ((s : S) → P s → P (rest s).1)
      → P o.1
      → P (proceed stop rest o).1
  proceed-keeps stop rest (inr true, s) f g h = f s h
  proceed-keeps stop rest (inr false, s) f g h = g s h
  proceed-keeps stop rest (inl e, s) f g h = g s h

  loop-keeps : (start n attempts : ℕ) (s : S) → P s → P (loop now check start n attempts s).1
  unfolding loop
  loop-keeps start zero attempts s h = h
  loop-keeps start (suc n) attempts s h =
      proceed-keeps (outcome now check start (attempts + 1) true)
        (loop now check start n (attempts + 1)) (check s) (λ t k. k)
        (loop-keeps start n (attempts + 1)) (keep s h)

  pub wait_for-keeps : (ticks : Ticks) (s : S) → P s → P (wait_for now check ticks s).1
  unfolding wait_for
  wait_for-keeps ticks s h =
      if_ind (λ (r : (String ⊎ WaitResult) × S). P r.1) _ (loop-keeps (now s) ticks.count 0 s h)
        (loop-keeps (now s) ticks.count 0 s h)
