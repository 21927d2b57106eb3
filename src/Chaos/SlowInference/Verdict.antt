-- ===== src/Chaos/SlowInference/Verdict.antt =====
-- What it takes for the slow-inference scenario not to fail.
use trace_runtime.Prelude.{
  ℕ, ◌+◌, ◌≤◌, String, ◌≡◌, ◌≢◌, refl, sym, subst, ap, ◌∙◌, true, ◌⊎◌, inl, inr, some, List, [],
  ◌∷◌, length, arith, All, string_eq,
}
use trace_runtime.Prelude.Int.{pos, is_nat}
use trace_runtime.Prelude.Assoc.{get}
use trace_runtime.Tasks.{Status}
use trace_runtime.Chaos.Reports.{fail, ScenarioReport}
use trace_runtime.Chaos.Runner.{Observed}
use trace_runtime.Chaos.Waits.{WaitResult}
use trace_runtime.Chaos.Ops.{Ops, seconds, answer_or, with_label}
use trace_runtime.Chaos.Helpers.{wait, int_or_minus_one, answered_200}
use trace_runtime.Chaos.Objectives.{Holds, not-fail-Holds}
use trace_runtime.Chaos.Chains.{
  Completed, seen-inr, chain-inr, truth-Holds, amount-Holds, answered, given_report,
}
use trace_runtime.Chaos.SlowInference.{
  Slow, Counts, objectives, all_settled, count, count_all, observation, look, observe, validate,
}

-- A count that has grown by one for every status has only seen completed tasks.
abbrev is_count : String ⊎ Status → ℕ
is_count (inr Status.completed) = 1
is_count _ = 0

count-completed :
    (r : String ⊎ Status) (c : Counts) → (count r c).completed ≡ c.completed + is_count r
count-completed (inl e) c = omega arith
count-completed (inr Status.pending) c = omega arith
count-completed (inr Status.processing) c = omega arith
count-completed (inr Status.completed) c = refl
count-completed (inr Status.failed) c = omega arith

is_count-le : (r : String ⊎ Status) → is_count r ≤ 1
is_count-le (inl e) = omega arith
is_count-le (inr Status.pending) = omega arith
is_count-le (inr Status.processing) = omega arith
is_count-le (inr Status.completed) = omega arith
is_count-le (inr Status.failed) = omega arith

is_count-one : (r : String ⊎ Status) → is_count r ≡ 1 → r ≡ inr Status.completed
is_count-one (inl e) h = absurd (omega (arith, h))
is_count-one (inr Status.pending) h = absurd (omega (arith, h))
is_count-one (inr Status.processing) h = absurd (omega (arith, h))
is_count-one (inr Status.completed) h = refl
is_count-one (inr Status.failed) h = absurd (omega (arith, h))

is_nat-pos : (n m : ℕ) → is_nat n (pos m) ≡ true → m ≡ n
is_nat-pos n m h = ground (arith, h)

is_zero-of : (r : String ⊎ ℕ) → is_nat 0 (int_or_minus_one r) ≡ true → r ≡ inr 0
is_zero-of (inl e) h = absurd (ground (arith, h))
is_zero-of (inr n) h = let same : n ≡ 0 = ground (arith, h) in ap inr same

module _ {S : Type 0} (ops : Ops S) where
  abbrev grown : List String → Counts → S → ℕ
  grown ids c s = (count_all ops ids c s).0.completed

  count_all-le : (ids : List String) (c : Counts) (s : S) → grown ids c s ≤ c.completed + length ids
  unfolding count_all
  count_all-le [] c s = omega arith
  count_all-le (id ∷ ids) c s =
      let (status, t) = ops.task_status id s in
      omega
        (arith, count_all-le ids (count status c) t, count-completed status c, is_count-le status)

  count_all-Completed :
      (ids : List String) (c : Counts) (s : S)
      → grown ids c s ≡ c.completed + length ids
      → All (Completed ops) ids
  unfolding count_all
  count_all-Completed [] c s h = tt
  count_all-Completed (id ∷ ids) c s h =
      let status = (ops.task_status id s).0 in
      let t = (ops.task_status id s).1 in
      let most = count_all-le ids (count status c) t in
      let one : is_count status ≡ 1 =
        omega (arith, most, count-completed status c, is_count-le status, h) in
      (
        (s, is_count-one status one),
        count_all-Completed ids (count status c) t
            (omega (arith, h, count-completed status c, one)),
      )

  abbrev pub Sound : List String → Type 0
  Sound ids =
      All (Completed ops) ids
      × ((t : S) × ((ops.dlq_depth t).0 ≡ inr 0))
      × ((t : S) × ((ops.worker_health t).0 ≡ inr 200))

  observation-Sound :
      (ids : List String) (start : ℕ) (result : WaitResult) (t : S) (o : Observed)
      → (observation ops ids start result t).0 ≡ inr o
      → All Holds (objectives o)
      → length ids ≡ 2
      → Sound ids
  unfolding get
  observation-Sound ids start result t o e h two =
      let (both, (dlq, (_, (up, _)))) =
        subst (λ r. All Holds (objectives (answer_or o r))) (sym e) h in
      let none_yet : Counts = record { completed = 0; failed = 0 } in
      let done =
        is_nat-pos 2 (grown ids none_yet t) (amount-Holds 2 (pos (grown ids none_yet t)) both) in
      let sum : 0 + length ids ≡ length ids = omega arith in
      let u = (count_all ops ids none_yet t).1 in
      let v = (ops.dlq_depth u).1 in
      let depth = (ops.dlq_depth u).0 in
      (
        count_all-Completed ids none_yet t (omega (arith, two, done, sum)),
        (u, is_zero-of depth (amount-Holds 0 (int_or_minus_one depth) dlq)),
        (
          v,
          answered (ops.worker_health v).0 (truth-Holds (answered_200 (ops.worker_health v).0) up),
        ),
      )

  found :
      (ids : List String) (start : ℕ) (s : S) (o : Observed)
      → (look ops ids start s).0 ≡ inr o
      → All Holds (objectives o)
      → length ids ≡ 2
      → Sound ids
  found ids start s o e h two =
      let (result, t, _, seen) =
        chain-inr
          (with_label "waiting for tasks to settle: "
            (wait ops (all_settled ops ids) (seconds 480) (seconds 5) s))
          _ e in
      observation-Sound ids start result t o seen h two

-- Where two tasks have been submitted, the verdict of Validate on what Observe has found is not FAIL only if each of them was answered to be completed, the dead-letter queue was answered to be empty, and the worker's health endpoint answered 200.
pub verdict-Sound :
    {S : Type 0} (ops later : Ops S) (w x : Slow S) (o : Observed) (v : ScenarioReport)
    → length w.task_ids ≡ 2
    → (observe ops w).0 ≡ inr (some o)
    → (validate later o x).0 ≡ inr (some v)
    → v.status ≢ fail
    → Sound ops w.task_ids
unfolding observe validate
verdict-Sound ops later w x o v two seen judged ok =
    found ops w.task_ids (ops.now w.world) w.world o (seen-inr _ _ o seen)
      (not-fail-Holds (objectives o) (λ e. ok (ap (λ r. r.status) (sym (given_report judged)) ∙ e)))
      two
