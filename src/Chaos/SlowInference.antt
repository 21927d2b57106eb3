-- ===== src/Chaos/SlowInference.antt =====
-- The scenario of cmd/chaos/internal/chaos/scenarios/slow_inference.go. In the objective on the delay the
-- number of seconds stands as a number, which the code formats as a text.
pub mod Verdict
use trace_runtime.Prelude.{
  ℕ, ◌+◌, ◌-◌, ◌*◌, String, Bool, true, false, ◌⊎◌, inl, inr, Option, none, some, List, [], ◌∷◌,
  ltb, leb, if◌then◌else◌, string_eq, suc,
}
use trace_runtime.Prelude.Int.{pos, is_nat}
use trace_runtime.Prelude.Assoc.{get}
use trace_runtime.Tasks.{Status, failed}
use trace_runtime.Chaos.Reports.{
  SloResult, timing, Value, flag, number, text, int, ScenarioReport, compute_status,
}
use trace_runtime.Chaos.Runner.{Context, Observed, Scenario}
use trace_runtime.Chaos.Waits.{WaitResult, wait_for}
use trace_runtime.Chaos.Ops.{
  M, Done, done, Ops, seconds, skip, ◌>>=◌, ◌>>◌, give, labelled, tried, read, chain,
}
use trace_runtime.Chaos.Helpers.{
  seen, settled, flag_of, number_of, int_of, bool_slo, judge, truth, amount, report_of,
  answered_200, int_or_minus_one, is_completed, is_settled, task_is, wait, queue_empty,
  require_recovered, submit_each, stabilize_system,
}

-- The world with the scenario's own field.
pub record Slow (S : Type 0) : Type 0 where
  pub world : S
  pub task_ids : List String

abbrev metric : Observed → String → Option Value
metric o key = get o.metrics key

abbrev delay_slo : ℕ → SloResult
delay_slo settle =
    judge "processing duration > 30s (delay applied)" timing (text ">30s") (number settle)
      (bool_slo (ltb (seconds 30) settle))

abbrev pub objectives : Observed → List SloResult
objectives o =
    amount "tasks completed successfully" 2 (int_of (metric o "completed_count"))
    ∷ amount "zero DLQ messages" 0 (int_of (metric o "dlq_depth"))
    ∷ truth "tasks settled within timeout" (flag_of (metric o "tasks_settled"))
    ∷ truth "worker healthy throughout" (flag_of (metric o "worker_healthy"))
    ∷ delay_slo (number_of (metric o "settle_seconds"))
    ∷ []

abbrev is_failed : Status → Bool
is_failed status = elim status [ failed ↦ true | _ ↦ false ]

pub record Counts : Type 0 where
  pub completed : ℕ
  pub failed : ℕ

-- A status that is not answered is passed over.
abbrev pub count : String ⊎ Status → Counts → Counts
count (inl e) c = c
count (inr Status.completed) c = record c { completed = c.completed + 1 }
count (inr Status.failed) c = record c { failed = c.failed + 1 }
count (inr _) c = c

module _ {S : Type 0} (ops : Ops S) where
  unfoldable pub set_up : M S Done
  set_up = do
    require_recovered ops ("api" ∷ "worker" ∷ "watchdog" ∷ "ai-runtime" ∷ [])
    tried ops.reset_chaos_config
    give done

  abbrev setup : Slow S → Option String × Slow S
  setup w = settled (λ t. record w { world = t }) (set_up w.world)

  abbrev kept : Slow S → (Option String × List String) × S → Option String × Slow S
  kept w ((e, ids), s) = (e, record w { world = s; task_ids = ids })

  abbrev after_delay : Slow S → (String ⊎ Done) × S → Option String × Slow S
  after_delay w (inl e, s) = (some e, record w { world = s })
  after_delay w (inr _, s) = kept w (submit_each ops "chaos-slow-inference-task-" (1 ∷ 2 ∷ []) [] s)

  unfoldable pub inject : Slow S → Option String × Slow S
  unfolding submit_each
  inject w = after_delay w (labelled "set chaos delay: " (ops.set_chaos_config 30) w.world)

  -- The statuses are asked for up to the first task that is not settled.
  abbrev pub all_settled : List String → M S Bool
  all_settled [] = give true
  all_settled (id ∷ ids) =
      let rest = all_settled ids in
      (λ s. chain (task_is ops is_settled id s) (λ settled. if settled then rest else give false))

  unfoldable pub count_all : List String → Counts → S → Counts × S
  count_all [] c s = (c, s)
  count_all (id ∷ ids) c s =
      let status = ops.task_status id s in count_all ids (count status.0 c) status.1

  abbrev pub counted : List String → M S Counts
  counted ids s =
      let out = count_all ids (record { completed = 0; failed = 0 }) s in (inr out.0, out.1)

  abbrev pub observation : List String → ℕ → WaitResult → M S Observed
  observation ids start result = do
    at ← read ops.now
    counts ← counted ids
    dlq ← tried ops.dlq_depth
    worker ← tried ops.worker_health
    give (record {
      metrics =
          ("tasks_settled", flag result.met)
          ∷ ("settle_seconds", number (at - start))
          ∷ ("completed_count", int (pos counts.completed))
          ∷ ("failed_count", int (pos counts.failed))
          ∷ ("dlq_depth", int (int_or_minus_one dlq))
          ∷ ("worker_healthy", flag (answered_200 worker))
          ∷ [];
    })

  abbrev pub look : List String → ℕ → M S Observed
  look ids start = do
    result ←
        labelled "waiting for tasks to settle: "
          (wait ops (all_settled ids) (seconds 480) (seconds 5))
    observation ids start result

  unfoldable pub observe : Slow S → (String ⊎ Option Observed) × Slow S
  unfolding wait_for count_all
  observe w = seen (λ t. record w { world = t }) (look w.task_ids (ops.now w.world) w.world)

  abbrev pub verdict : Observed → ScenarioReport
  verdict o = report_of "slow-inference" (objectives o) o.metrics

  unfoldable pub validate : Observed → Slow S → (String ⊎ Option ScenarioReport) × Slow S
  unfolding compute_status get
  validate o w = (inr (some (verdict o)), w)

  unfoldable pub cleanup : Slow S → Option String × Slow S
  unfolding wait_for stabilize_system
  cleanup w =
      let s = skip (ops.reset_chaos_config w.world) in
      let drained = wait ops (queue_empty ops) (seconds 30) ops.poll_interval s in
      (none, record w { world = stabilize_system ops "slow-inference" drained.1 })

unfoldable pub slow_inference : {S : Type 0} → (Context → Ops S) → Scenario (Slow S)
unfolding set_up inject observe validate cleanup
slow_inference ops = record {
  name = "slow-inference";
  timeout = seconds 600;
  setup = λ ctx w. setup (ops ctx) w;
  inject = λ ctx w. inject (ops ctx) w;
  observe = λ ctx w. observe (ops ctx) w;
  validate = λ ctx o w. validate (ops ctx) o w;
  cleanup = λ ctx w. cleanup (ops ctx) w;
}
