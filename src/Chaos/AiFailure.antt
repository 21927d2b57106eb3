-- ===== src/Chaos/AiFailure.antt =====
-- The scenario of cmd/chaos/internal/chaos/scenarios/ai_failure.go. Its field injectTime is only written, and not
-- modelled.
pub mod Verdict
pub mod Unrecovered
use Prim.Native.String.{◌++◌ as text_append}
use trace_runtime.Prelude.{
  ℕ, ◌-◌, ◌*◌, String, Bool, true, false, ◌&&◌, ◌⊎◌, inl, inr, Option, none, some, List, [], ◌∷◌,
  ◌++◌, leb, if◌then◌else◌, string_eq,
}
use trace_runtime.Prelude.Int.{pos, is_nat}
use trace_runtime.Prelude.Assoc.{get, put}
use trace_runtime.Tasks.{pending, failed}
use trace_runtime.Chaos.Reports.{
  SloResult, fail, functional, timing, Value, flag, number, text, int, ScenarioReport,
  compute_status,
}
use trace_runtime.Chaos.Runner.{Context, Observed, Scenario}
use trace_runtime.Chaos.Waits.{wait_for}
use trace_runtime.Chaos.Ops.{
  M, Done, done, Ops, healthy, seconds, skip, ◌>>=◌, ◌>>◌, give, labelled, tried, with_default,
  mapped, require, read,
}
use trace_runtime.Chaos.Helpers.{
  seen, settled, flag_of, int_of, judge, truth, amount, within, report_of, is_met, is_healthy,
  answered_200, pause_for, is_completed, is_settled, task_is, wait, queue_empty, require_recovered,
  submit_each, stabilize_system,
}

-- The world with the scenario's own field.
pub record Failure (S : Type 0) : Type 0 where
  pub world : S
  pub inject_task_ids : List String

abbrev pub base : Observed → List SloResult
base o =
    truth "worker remains healthy during AI failure" (flag_of (get o.metrics "worker_healthy"))
    ∷ amount "no spurious worker.stale/worker.down events" 0
        (int_of (get o.metrics "spurious_worker_events"))
    ∷ []

abbrev reported : List SloResult → List (String × Value) → ScenarioReport
reported slos metrics = report_of "ai-failure" slos metrics

abbrev not_done : String → String → String → SloResult
not_done name expected e =
    judge name functional (text expected) (text (text_append "error: " e)) fail

abbrev no_recovery : ℕ → SloResult
no_recovery elapsed =
    judge "ai-runtime recovery < 60s" timing (number (seconds 60)) (number elapsed) fail

abbrev pub recovered_slos : ℕ → Bool → List SloResult
recovered_slos elapsed retried =
    within "ai-runtime recovery < 60s" (seconds 60) elapsed
    ∷ truth "injected tasks complete via SQS retry after recovery" retried
    ∷ []

module _ {S : Type 0} (ops : Ops S) where
  unfoldable pub set_up : M S Done
  unfolding wait_for
  set_up = do
    require_recovered ops ("api" ∷ "worker" ∷ "watchdog" ∷ "ai-runtime" ∷ [])
    id ← labelled "smoke test submit: " (ops.submit_task "chaos-ai-failure-smoke")
    result ←
        labelled "smoke test wait: "
          (wait ops (task_is ops is_settled id) (seconds 300) ops.poll_interval)
    require result.met
        (text_append "smoke test task " (text_append id " did not settle within 5m0s"))
    tried (wait ops (queue_empty ops) (seconds 15) ops.poll_interval)
    labelled "resolve active events: " ops.resolve_all_active_events

  abbrev setup : Failure S → Option String × Failure S
  setup f = settled (λ t. record f { world = t }) (set_up f.world)

  abbrev kept : Failure S → (Option String × List String) × S → Option String × Failure S
  kept f ((e, ids), s) = (e, record f { world = s; inject_task_ids = ids })

  abbrev after_stop : Failure S → (String ⊎ Done) × S → Option String × Failure S
  after_stop f (inl e, s) = (some (text_append "stop ai-runtime: " e), record f { world = s })
  after_stop f (inr _, s) = kept f (submit_each ops "chaos-ai-failure-task-" (1 ∷ 2 ∷ []) [] s)

  unfoldable pub inject : Failure S → Option String × Failure S
  unfolding submit_each
  inject f = after_stop f (ops.stop "ai-runtime" f.world)

  -- A count that is not answered counts as 0. The spurious events are not counted: the code writes 0.
  abbrev pub look : M S Observed
  look = do
    pause_for ops (seconds 15)
    worker ← tried ops.worker_health
    waiting ← with_default 0 (ops.tasks_in_status_since pending ops.start_time)
    lost ← with_default 0 (ops.tasks_in_status_since failed ops.start_time)
    give (record {
      metrics =
          ("worker_healthy", flag (answered_200 worker))
          ∷ ("pending_count", int (pos waiting))
          ∷ ("failed_count", int (pos lost))
          ∷ ("spurious_worker_events", int (pos 0))
          ∷ [];
    })

  unfoldable pub observe : Failure S → (String ⊎ Option Observed) × Failure S
  observe f = seen (λ t. record f { world = t }) (look f.world)

  abbrev pub until_completed : String → S → Bool × S
  until_completed id s =
      let result = wait ops (task_is ops is_completed id) (seconds 300) ops.poll_interval s in
      (is_met result.0, result.1)

  -- Each injected task is waited for, also after one that did not complete.
  unfoldable pub retry_all : List String → Bool → S → Bool × S
  unfolding wait_for
  retry_all [] all_retried s = (all_retried, s)
  retry_all (id ∷ ids) all_retried s =
      let result = until_completed id s in retry_all ids (all_retried && result.0) result.1

  abbrev pub final : Observed → ℕ → Bool → String → Bool × S → ScenarioReport × S
  final o elapsed retried id (passed, s) = (
    reported
        (base o
          ++ (recovered_slos elapsed retried ++ truth "post-recovery task completes" passed ∷ []))
        (put
          (put
            (put (put o.metrics "recovery_seconds" (number elapsed)) "recovery_task_id" (text id))
            "recovery_task_passed" (flag passed))
          "inject_tasks_retried" (flag retried)),
    s,
  )

  abbrev pub after_submit : Observed → ℕ → Bool → (String ⊎ String) × S → ScenarioReport × S
  after_submit o elapsed retried (inl e, s) = (
    reported
        (base o
          ++ (recovered_slos elapsed retried
              ++ not_done "post-recovery task submission" "submitted" e ∷ []))
        o.metrics,
    s,
  )
  after_submit o elapsed retried (inr id, s) = final o elapsed retried id (until_completed id s)

  abbrev pub after_healthy : List String → Observed → ℕ → (String ⊎ Done) × S → ScenarioReport × S
  after_healthy ids o restarted (inl e, s) =
      (reported (base o ++ no_recovery (ops.now s - restarted) ∷ []) o.metrics, s)
  after_healthy ids o restarted (inr _, s) =
      let retried = retry_all ids true s in
      after_submit o (ops.now s - restarted) retried.0
        (ops.submit_task "chaos-ai-failure-recovery" retried.1)

  abbrev pub after_start : List String → Observed → ℕ → (String ⊎ Done) × S → ScenarioReport × S
  after_start ids o restarted (inl e, s) =
      (reported (base o ++ not_done "ai-runtime restart" "started" e ∷ []) o.metrics, s)
  after_start ids o restarted (inr _, s) =
      after_healthy ids o restarted (ops.wait_for_healthy "ai-runtime" (seconds 120) s)

  abbrev pub validated : Observed → Failure S → ScenarioReport × S
  validated o f = after_start f.inject_task_ids o (ops.now f.world) (ops.start "ai-runtime" f.world)

  unfoldable pub validate : Observed → Failure S → (String ⊎ Option ScenarioReport) × Failure S
  unfolding wait_for compute_status retry_all get put
  validate o f = let out = validated o f in (inr (some out.0), record f { world = out.1 })

  abbrev restored : (String ⊎ Bool) × S → S
  restored (inr true, s) = s
  restored (_, s) =
      skip (ops.wait_for_healthy "ai-runtime" (seconds 120) (skip (ops.start "ai-runtime" s)))

  unfoldable pub cleanup : Failure S → Option String × Failure S
  unfolding wait_for stabilize_system
  cleanup f =
      let s = restored (mapped is_healthy (ops.container_health "ai-runtime" f.world)) in
      let drained = wait ops (queue_empty ops) (seconds 30) ops.poll_interval s in
      (none, record f { world = stabilize_system ops "ai-failure" drained.1 })

unfoldable pub ai_failure : {S : Type 0} → (Context → Ops S) → Scenario (Failure S)
unfolding set_up inject observe validate cleanup
ai_failure ops = record {
  name = "ai-failure";
  timeout = seconds 900;
  setup = λ ctx f. setup (ops ctx) f;
  inject = λ ctx f. inject (ops ctx) f;
  observe = λ ctx f. observe (ops ctx) f;
  validate = λ ctx o f. validate (ops ctx) o f;
  cleanup = λ ctx f. cleanup (ops ctx) f;
}
