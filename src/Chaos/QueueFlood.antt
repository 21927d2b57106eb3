-- ===== src/Chaos/QueueFlood.antt =====
-- The scenario of cmd/chaos/internal/chaos/scenarios/queue_flood.go. Its tasks are submitted concurrently:
-- the order in which the requests reach the API, a permutation of 1 to 60, is given.
pub mod Verdict
use Prim.Native.String.{◌++◌ as text_append}
use trace_runtime.Prelude.{
  ℕ, ◌-◌, ◌*◌, String, Bool, true, false, ◌&&◌, ◌⊎◌, inl, inr, Option, none, some, List, [], ◌∷◌,
  ◌++◌, length, leb, if◌then◌else◌, string_eq,
}
use trace_runtime.Prelude.Int.{ℤ, pos, minus_one, is_nat}
use trace_runtime.Prelude.Decimal.{decimal}
use trace_runtime.Prelude.Assoc.{get, put}
use trace_runtime.Healing.{HealingEvent}
use trace_runtime.Chaos.Reports.{
  SloResult, Value, flag, number, int, ScenarioReport, compute_status,
}
use trace_runtime.Chaos.Runner.{Context, Observed, Scenario}
use trace_runtime.Chaos.Waits.{WaitResult, wait_for}
use trace_runtime.Chaos.Ops.{
  M, Done, done, Ops, seconds, skip, answer_or, error_of, ◌>>=◌, ◌>>◌, give, labelled, tried,
  require,
}
use trace_runtime.Chaos.Helpers.{
  seen, settled, answered_200, int_or_minus_one, flag_of, number_of, int_of, truth, amount, within,
  report_of, none_active, any_of, wait, require_healthy, stabilize_system, capture_restart_baseline,
  delta,
}

-- The world with the scenario's own field.
pub record Flood (S : Type 0) : Type 0 where
  pub world : S
  pub restart_baseline : List (String × ℕ)

abbrev pub core : List String
core = "api" ∷ "worker" ∷ "watchdog" ∷ []

abbrev crash_key : String → String
crash_key name = text_append name "_restart_count"

abbrev metric : Observed → String → Option Value
metric o key = get o.metrics key

abbrev no_crash : Observed → String → SloResult
no_crash o name =
    amount (text_append "no crashes (" (text_append name ")")) 0
      (int_of (metric o (crash_key name)))

abbrev pub objectives : Observed → List SloResult
objectives o =
    truth "watchdog emits queue.lag event" (flag_of (metric o "queue_lag_detected"))
    ∷ no_crash o "api"
    ∷ no_crash o "worker"
    ∷ no_crash o "watchdog"
    ∷ truth "worker remains healthy" (flag_of (metric o "worker_healthy"))
    ∷ within "queue.lag detection < 90s" (seconds 90) (number_of (metric o "detection_seconds"))
    ∷ []

module _ {S : Type 0} (ops : Ops S) where
  unfoldable pub set_up : M S (List (String × ℕ))
  unfolding decimal capture_restart_baseline
  set_up = do
    require_healthy ops core
    depth ← labelled "queue depth: " ops.queue_depth
    require (leb depth 0)
        (text_append "queue not empty (depth=" (text_append (decimal depth) "), cannot start"))
    events ← labelled "active healing events: " ops.active_healing_events
    require (none_active events)
        (text_append (decimal (length events)) " active healing events — resolve before running")
    labelled "restart baseline: " (capture_restart_baseline ops core [])

  abbrev with_baseline : Flood S → (String ⊎ List (String × ℕ)) × S → Option String × Flood S
  with_baseline f (inl e, s) = (some e, record f { world = s })
  with_baseline f (inr counts, s) = (none, record f { world = s; restart_baseline = counts })

  abbrev setup : Flood S → Option String × Flood S
  setup f = with_baseline f (set_up f.world)

  -- firstErr.CompareAndSwap(nil, err): every task is submitted, whatever becomes of the others.
  abbrev first_error : Option String → String ⊎ String → Option String
  first_error none (inl e) = some e
  first_error before _ = before

  unfoldable pub submit_all : List ℕ → Option String → S → Option String × S
  unfolding decimal
  submit_all [] error s = (error, s)
  submit_all (i ∷ order) error s =
      let answer = ops.submit_task (text_append "chaos-queue-flood-task-" (decimal i)) s in
      submit_all order (first_error error answer.0) answer.1

  abbrev labelled_error : Option String → Option String
  labelled_error none = none
  labelled_error (some e) = some (text_append "submit tasks: " e)

  abbrev inject : (S → List ℕ) → Flood S → Option String × Flood S
  inject order f =
      let out = submit_all (order f.world) none f.world in
      (labelled_error out.0, record f { world = out.1 })

  -- An active queue.lag event, or one since 30 seconds before the start of the scenario.
  abbrev recent_lag : Bool → M S Bool
  recent_lag true = give true
  recent_lag false = do
    recent ← ops.healing_events_since (ops.start_time - seconds 30)
    give (any_of "queue.lag" recent)

  unfoldable pub lag_event : M S Bool
  lag_event = do events ← ops.active_healing_events; recent_lag (any_of "queue.lag" events)

  abbrev pub count_restarts : List (String × ℕ) → List String → M S (List (String × Value))
  count_restarts counts [] = give []
  count_restarts counts (name ∷ names) = do
    change ← tried (delta ops counts name)
    rest ← count_restarts counts names
    give ((crash_key name, int (answer_or minus_one change)) ∷ rest)

  abbrev pub observation : List (String × ℕ) → WaitResult → M S Observed
  observation counts result = do
    peak ← tried ops.queue_depth
    restarts ← count_restarts counts core
    worker ← tried ops.worker_health
    give (record {
      metrics =
          ("queue_lag_detected", flag result.met)
          ∷ ("detection_seconds", number result.elapsed)
          ∷ ("peak_queue_depth", int (int_or_minus_one peak))
          ∷ (restarts ++ ("worker_healthy", flag (answered_200 worker)) ∷ []);
    })

  abbrev pub observe_lag : List (String × ℕ) → M S Observed
  observe_lag counts = do
    result ←
        labelled "waiting for queue.lag event: "
          (wait ops lag_event (seconds 120) ops.poll_interval)
    observation counts result

  unfoldable pub observe : Flood S → (String ⊎ Option Observed) × Flood S
  unfolding wait_for delta lag_event
  observe f = seen (λ t. record f { world = t }) (observe_lag f.restart_baseline f.world)

  abbrev pub verdict : Observed → ScenarioReport
  verdict o = report_of "queue-flood" (objectives o) o.metrics

  unfoldable pub validate : Observed → Flood S → (String ⊎ Option ScenarioReport) × Flood S
  unfolding compute_status get
  validate o f = (inr (some (verdict o)), f)

  unfoldable pub cleanup : Flood S → Option String × Flood S
  unfolding stabilize_system
  cleanup f = (
    none,
    record f { world = stabilize_system ops "queue-flood" (skip (ops.purge_queue f.world)) },
  )

unfoldable pub queue_flood :
    {S : Type 0} → (Context → Ops S) → (Context → S → List ℕ) → Scenario (Flood S)
unfolding observe validate cleanup submit_all set_up
queue_flood ops order = record {
  name = "queue-flood";
  timeout = seconds 240;
  setup = λ ctx f. setup (ops ctx) f;
  inject = λ ctx f. inject (ops ctx) (order ctx) f;
  observe = λ ctx f. observe (ops ctx) f;
  validate = λ ctx o f. validate (ops ctx) o f;
  cleanup = λ ctx f. cleanup (ops ctx) f;
}
