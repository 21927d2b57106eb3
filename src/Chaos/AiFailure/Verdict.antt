-- ===== src/Chaos/AiFailure/Verdict.antt =====
-- What a verdict on the ai-failure scenario says.
use trace_runtime.Prelude.{
  ℕ, ◌-◌, String, ◌≡◌, refl, ap, ◌∙◌, Bool, true, false, ◌&&◌, ◌⊎◌, inl, inr, some, List, [], ◌∷◌,
  arith, All, string_eq,
}
use trace_runtime.Tasks.{Status, completed}
use trace_runtime.Chaos.Reports.{pass, ScenarioReport}
use trace_runtime.Chaos.Runner.{Observed}
use trace_runtime.Chaos.Waits.{WaitResult, ticked, Told, wait_for-Told}
use trace_runtime.Chaos.Ops.{Ops, Done, seconds}
use trace_runtime.Chaos.Helpers.{is_met, is_completed, task_is}
use trace_runtime.Chaos.Objectives.{pass-Reached}
use trace_runtime.Chaos.Chains.{Completed, mapped-true, given_report, truth-Reached}
use trace_runtime.Chaos.AiFailure.{
  Failure, until_completed, retry_all, after_submit, after_healthy, after_start, validate,
}

and-true : (a b : Bool) → (a && b) ≡ true → (a ≡ true) × (b ≡ true)
and-true true b h = (refl, h)
and-true false b h = absurd (ground (arith, h))

module _ {S : Type 0} (ops : Ops S) where
  completed_at :
      {id : String} (t : S)
      → (status : Status) × ((ops.task_status id t).0 ≡ inr status) × (is_completed status ≡ true)
      → Completed ops id
  completed_at t (status, e, h) =
      let same : status ≡ completed = ground (arith, h) in (t, e ∙ ap inr same)

  met-Completed :
      (id : String) (start n : ℕ) (origin : S) (r : (String ⊎ WaitResult) × S)
      → Told ops.now (task_is ops is_completed id) start n origin r
      → is_met r.0 ≡ true
      → Completed ops id
  met-Completed id start n origin (inl e, s) told h = absurd (ground (arith, h))
  met-Completed id start n origin (inr result, s) told h =
      let (k, _, seen) = told h in
      let t = ticked (task_is ops is_completed id) k origin in
      completed_at {id = id} t (mapped-true is_completed (ops.task_status id t) seen)

  until_completed-Completed :
      (id : String) (s : S) → (until_completed ops id s).0 ≡ true → Completed ops id
  until_completed-Completed id s h =
      met-Completed id (ops.now s) (ops.ticks (seconds 300) ops.poll_interval s).count s _
        (wait_for-Told ops.now (task_is ops is_completed id)
          (ops.ticks (seconds 300) ops.poll_interval s) s)
        h

  retry_all-Completed :
      (ids : List String) (before : Bool) (s : S)
      → (retry_all ops ids before s).0 ≡ true
      → (before ≡ true) × All (Completed ops) ids
  unfolding retry_all
  retry_all-Completed [] before s h = (h, tt)
  retry_all-Completed (id ∷ ids) before s h =
      let result = until_completed ops id s in
      let (both, rest) = retry_all-Completed ids (before && result.0) result.1 h in
      let (so_far, now) = and-true before result.0 both in
      (so_far, (until_completed-Completed id s now, rest))

  abbrev pub Recovered : List String → Type 0
  Recovered ids =
      All (Completed ops) ids
      × (id : String) × (t : S) × ((ops.submit_task "chaos-ai-failure-recovery" t).0 ≡ inr id)
      × Completed ops id

  after_submit-Recovered :
      (ids : List String) (o : Observed) (elapsed : ℕ) (s t : S) (r : (String ⊎ String) × S)
      → ops.submit_task "chaos-ai-failure-recovery" t ≡ r
      → (after_submit ops o elapsed (retry_all ops ids true s).0 r).0.status ≡ pass
      → Recovered ids
  after_submit-Recovered ids o elapsed s t (inl e, u) same h =
      let (_, (_, (_, (_, (missed, _))))) = pass-Reached _ h in absurd (ground (arith, missed))
  after_submit-Recovered ids o elapsed s t (inr id, u) same h =
      let retried = (retry_all ops ids true s).0 in
      let (_, (_, (_, (all, (last, _))))) = pass-Reached _ h in
      let (_, completed_all) = retry_all-Completed ids true s (truth-Reached retried all) in
      (
        completed_all,
        id,
        t,
        ap (λ x. x.0) same,
        until_completed-Completed id u (truth-Reached (until_completed ops id u).0 last),
      )

  after_healthy-Recovered :
      (ids : List String) (o : Observed) (restarted : ℕ) (r : (String ⊎ Done) × S)
      → (after_healthy ops ids o restarted r).0.status ≡ pass
      → Recovered ids
  after_healthy-Recovered ids o restarted (inl e, s) h =
      let (_, (_, (missed, _))) = pass-Reached _ h in absurd (ground (arith, missed))
  after_healthy-Recovered ids o restarted (inr d, s) h =
      after_submit-Recovered ids o (ops.now s - restarted) s (retry_all ops ids true s).1 _ refl h

  after_start-Recovered :
      (ids : List String) (o : Observed) (restarted : ℕ) (r : (String ⊎ Done) × S)
      → (after_start ops ids o restarted r).0.status ≡ pass
      → Recovered ids
  after_start-Recovered ids o restarted (inl e, s) h =
      let (_, (_, (missed, _))) = pass-Reached _ h in absurd (ground (arith, missed))
  after_start-Recovered ids o restarted (inr d, s) h = after_healthy-Recovered ids o restarted _ h

  -- The verdict of Validate is PASS only if each injected task was answered to be completed at some query of its status, and so was the task that Validate submits itself.
  pub verdict-Recovered :
      (o : Observed) (f : Failure S) (v : ScenarioReport)
      → (validate ops o f).0 ≡ inr (some v)
      → v.status ≡ pass
      → Recovered f.inject_task_ids
  unfolding validate
  verdict-Recovered o f v judged h =
      after_start-Recovered f.inject_task_ids o (ops.now f.world) _
        (ap (λ r. r.status) (given_report judged) ∙ h)
