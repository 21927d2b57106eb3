-- ===== src/Examples/Scenarios.antt =====
-- Runs of the other chaos scenarios.
use trace_runtime.Prelude.{
  ℕ, ◌<◌, String, ◌≡◌, ◌≢◌, refl, Option, some, ◌++◌, ◌⊎◌, inl, inr, [], ◌∷◌, arith, All, map,
}
use Prim.Native.String.{◌++◌ as text_append}
use trace_runtime.Prelude.Assoc.{get, put}
use trace_runtime.Tasks.{up, TaskRow, processing}
use trace_runtime.Chaos.Reports.{
  fail, warn, pass, ScenarioReport, new_scenario_report, compute_status,
}
use trace_runtime.Chaos.Runner.{Observed}
use trace_runtime.Chaos.Waits.{loop, ticked}
use trace_runtime.Chaos.Ops.{Ops, done}
use trace_runtime.Chaos.Helpers.{stabilize_system}
use trace_runtime.Chaos.QueueFlood
use trace_runtime.Chaos.Chains.{Steady}
use trace_runtime.Chaos.QueueFlood.{core}
use trace_runtime.Chaos.QueueFlood.Verdict.{LagAt, verdict-Flooded}
use trace_runtime.Chaos.AiFailure
use trace_runtime.Chaos.AiFailure.Verdict.{Recovered, verdict-Recovered}
use trace_runtime.Chaos.AiFailure.Unrecovered.{unrecovered-warns}
use trace_runtime.Chaos.PostgresFailure
use trace_runtime.Chaos.PostgresFailure.{services}
use trace_runtime.Chaos.PostgresFailure.Verdict.{Structured, Accepted, verdict-Survived}
use trace_runtime.Chaos.Checker.{Db, with_checker}
use trace_runtime.Chaos.Checker.Stabilized.{Each, Treated, Inactive, stabilize_system-Stable}
use trace_runtime.Examples.Crashes.{ops, stale, works}
use trace_runtime.Examples.Tables.{waiting_table}

abbrev lagging : Ops ℕ
lagging = record ops {
  healing_events_since = λ _. works (record stale { event_type = "queue.lag" } ∷ []);
}

abbrev flood : QueueFlood.Flood ℕ
flood = record { world = 5; restart_baseline = ("api", 2) ∷ ("worker", 2) ∷ ("watchdog", 2) ∷ [] }

abbrev observed_in : String ⊎ Option Observed → Observed
observed_in (inr (some o)) = o
observed_in _ = record { metrics = [] }

abbrev report_in : String ⊎ Option ScenarioReport → ScenarioReport
report_in (inr (some v)) = v
report_in _ = new_scenario_report ""

pass-ne-fail : pass ≢ fail
pass-ne-fail h = absurd (ground (arith, h))

abbrev flooded : Observed
unfolding QueueFlood.observe
flooded = observed_in (QueueFlood.observe lagging flood).0

abbrev flood_report : ScenarioReport
unfolding QueueFlood.observe QueueFlood.validate
flood_report = report_in (QueueFlood.validate lagging flooded flood).0

verdict-Flooded_example :
    ((k : ℕ) × (k < (lagging.ticks 120000000 lagging.poll_interval 5).count)
      × LagAt lagging (ticked (QueueFlood.lag_event lagging) k 5))
    × All (Steady lagging flood.restart_baseline) core
    × (u : ℕ) × ((lagging.worker_health u).0 ≡ inr 200)
verdict-Flooded_example =
    verdict-Flooded lagging lagging flood flood flooded flood_report
      (unfold flooded QueueFlood.observe loop in refl)
      (unfold flood_report QueueFlood.validate in refl)
      (unfold flood_report flooded QueueFlood.observe QueueFlood.validate compute_status loop get in
        pass-ne-fail)

abbrev failure : AiFailure.Failure ℕ
failure = record { world = 5; inject_task_ids = "t1" ∷ "t2" ∷ [] }

abbrev calm : Observed
unfolding AiFailure.observe
calm = observed_in (AiFailure.observe ops failure).0

abbrev failure_report : ScenarioReport
unfolding AiFailure.observe AiFailure.validate
failure_report = report_in (AiFailure.validate ops calm failure).0

-- The delay of each call is a second, so the recovery is in time.
verdict-Recovered_example : Recovered ops ("t1" ∷ "t2" ∷ [])
verdict-Recovered_example =
    verdict-Recovered ops calm failure failure_report
      (unfold failure_report AiFailure.validate in refl)
      (unfold failure_report calm AiFailure.observe AiFailure.validate compute_status loop get
          AiFailure.retry_all put in
        refl)

-- The AI runtime does not come back.
abbrev gone : Ops ℕ
gone = record ops { wait_for_healthy = λ _ _ s. (inl "timeout", s) }

unrecovered-warns_example : (report_in (AiFailure.validate gone calm failure).0).status ≡ warn
unrecovered-warns_example =
    unrecovered-warns ops gone failure failure calm
      (report_in (AiFailure.validate gone calm failure).0) done "timeout"
      (unfold calm AiFailure.observe in refl) (unfold calm AiFailure.observe get in refl) refl refl
      (unfold AiFailure.validate in refl)

abbrev outage : PostgresFailure.Outage ℕ
outage = record { world = 5; restart_baseline = ("api", 2) ∷ ("worker", 2) ∷ ("watchdog", 2) ∷ [] }

abbrev weathered : Observed
unfolding PostgresFailure.observe
weathered = observed_in (PostgresFailure.observe ops outage).0

abbrev outage_report : ScenarioReport
unfolding PostgresFailure.observe PostgresFailure.validate
outage_report = report_in (PostgresFailure.validate ops weathered outage).0

verdict-Survived_example :
    Structured (ops.api_health (ops.sleep 10000000 5)).0
    × All (Steady ops outage.restart_baseline) services
    × Accepted ops
verdict-Survived_example =
    verdict-Survived ops ops outage outage weathered outage_report
      (unfold weathered PostgresFailure.observe in refl)
      (unfold outage_report PostgresFailure.validate in refl)
      (unfold outage_report weathered PostgresFailure.observe PostgresFailure.validate
          compute_status loop get put in
        pass-ne-fail)

-- One task that a scenario has left in processing, and one of a user.
abbrev tables : Db
tables = record {
  tasks =
      map
        (λ (r : TaskRow). record r {
          status = processing;
          input_payload = "chaos-ai-failure-task-1";
        })
        waiting_table
      ++ waiting_table;
  events = stale ∷ [];
  heartbeats = [];
}

stabilize_system-Stable_example :
    Each
      (Treated 5 (text_append "ai-failure" "-cleanup"))
      tables.tasks
      (stabilize_system (with_checker ops (λ _. up)) "ai-failure" (tables, 5)).0.tasks
    × All Inactive (stabilize_system (with_checker ops (λ _. up)) "ai-failure" (tables, 5)).0.events
stabilize_system-Stable_example =
    stabilize_system-Stable ops (λ _. up) (λ _. refl) "ai-failure" tables 5
