-- ===== src/Chaos/RuntimeHang/Verdict.antt =====
-- What it takes for the runtime-hang scenario not to fail.
use trace_runtime.Prelude.{
  ℕ, String, ◌≡◌, ◌≢◌, sym, subst, ap, ◌∙◌, true, ◌⊎◌, inl, inr, some, List, arith, All, string_eq,
}
use trace_runtime.Prelude.Assoc.{get}
use trace_runtime.Healing.{HealingEvent}
use trace_runtime.Chaos.Reports.{fail, ScenarioReport}
use trace_runtime.Chaos.Runner.{Observed}
use trace_runtime.Chaos.Waits.{WaitResult, ticked, Told, wait_for-Told}
use trace_runtime.Chaos.Ops.{Ops, HealthStatus, healthy, seconds, answer_or, with_label}
use trace_runtime.Chaos.Helpers.{any_of, wait, is_healthy}
use trace_runtime.Chaos.Objectives.{Holds, not-fail-Holds}
use trace_runtime.Chaos.Chains.{
  seen-inr, chain-inr, with_label-inr, truth-Holds, given_report, mapped-true,
}
use trace_runtime.Chaos.RuntimeHang.{
  Hang, objectives, stuck_event, observation, look, observe, validate,
}

module _ {S : Type 0} (ops : Ops S) where
  -- A query answers with a task.stuck event since the pause.
  abbrev pub StuckSince : ℕ → Type 0
  StuckSince paused_at =
      (t : S) × (events : List HealingEvent) × ((ops.healing_events_since paused_at t).0
        ≡ inr events)
      × (any_of "task.stuck" events ≡ true)

  abbrev pub Alive : Type 0
  Alive = (t : S) × ((ops.container_health "worker" t).0 ≡ inr healthy)

  health-healthy :
      (r : String ⊎ HealthStatus)
      → is_healthy (answer_or HealthStatus.exited r) ≡ true
      → r ≡ inr healthy
  health-healthy (inl e) h = absurd (ground (arith, h))
  health-healthy (inr status) h = ground (arith, h)

  observation-met :
      (start : ℕ) (result : WaitResult) (t : S) (o : Observed)
      → (observation ops start result t).0 ≡ inr o
      → All Holds (objectives o)
      → (result.met ≡ true) × Alive
  unfolding get
  observation-met start result t o e h =
      let (seen, (up, _)) = subst (λ r. All Holds (objectives (answer_or o r))) (sym e) h in
      let worker = (ops.container_health "worker" t).0 in
      (
        truth-Holds result.met seen,
        (
          t,
          health-healthy worker
              (truth-Holds (is_healthy (answer_or HealthStatus.exited worker)) up),
        ),
      )

  found :
      (paused_at start : ℕ) (s : S) (o : Observed)
      → (look ops paused_at start s).0 ≡ inr o
      → All Holds (objectives o)
      → StuckSince paused_at × Alive
  found paused_at start s o e h =
      let (result, t, waited, seen) =
        chain-inr
          (with_label "wait for task.stuck: "
            (wait ops (stuck_event ops paused_at) (seconds 360) (seconds 5) s))
          _ e in
      let (met, alive) = observation-met start result t o seen h in
      let (k, _, told) =
        subst
          (Told ops.now (stuck_event ops paused_at) (ops.now s)
            (ops.ticks (seconds 360) (seconds 5) s).count s)
          (with_label-inr "wait for task.stuck: " _ waited)
          (wait_for-Told ops.now (stuck_event ops paused_at) (ops.ticks (seconds 360) (seconds 5) s)
            s)
          met in
      let u = ticked (stuck_event ops paused_at) k s in
      let (events, answered, hit) =
        mapped-true (any_of "task.stuck") (ops.healing_events_since paused_at u) told in
      ((u, events, answered, hit), alive)

-- The verdict of Validate on what Observe has found is not FAIL only if, at one tick of the wait, the healing events since the pause had one of type task.stuck, and the worker's container was healthy when it was asked.
pub verdict-Stuck :
    {S : Type 0} (ops later : Ops S) (w x : Hang S) (o : Observed) (v : ScenarioReport)
    → (observe ops w).0 ≡ inr (some o)
    → (validate later o x).0 ≡ inr (some v)
    → v.status ≢ fail
    → StuckSince ops w.paused_at × Alive ops
unfolding observe validate
verdict-Stuck ops later w x o v seen judged ok =
    found ops w.paused_at (ops.now w.world) w.world o (seen-inr _ _ o seen)
      (not-fail-Holds (objectives o) (λ e. ok (ap (λ r. r.status) (sym (given_report judged)) ∙ e)))
