-- ===== src/Chaos/RuntimeHang.antt =====
-- The scenario of cmd/chaos/internal/chaos/scenarios/runtime_hang.go.
pub mod Verdict
use Prim.Native.String.{◌++◌ as text_append}
use trace_runtime.Prelude.{
  ℕ, ◌-◌, ◌*◌, String, Bool, true, false, ◌⊎◌, inl, inr, Option, none, some, List, [], ◌∷◌, leb,
  if◌then◌else◌, string_eq,
}
use trace_runtime.Prelude.Assoc.{get}
use trace_runtime.Tasks.{Status, processing}
use trace_runtime.Chaos.Reports.{SloResult, Value, flag, number, ScenarioReport, compute_status}
use trace_runtime.Chaos.Runner.{Context, Observed, Scenario}
use trace_runtime.Chaos.Waits.{WaitResult, wait_for}
use trace_runtime.Chaos.Ops.{
  M, Done, done, Ops, HealthStatus, seconds, ◌>>=◌, ◌>>◌, give, throw, labelled, tried,
  with_default, require, read, sleeping, answer_or, mapped,
}
use trace_runtime.Chaos.Helpers.{
  seen, settled, flag_of, number_of, truth, within, report_of, is_healthy, any_of,
  all_containers_healthy, task_is, wait, queue_empty, stabilize_system,
}

-- The world with the scenario's own fields.
pub record Hang (S : Type 0) : Type 0 where
  pub world : S
  pub task_id : String
  pub paused_at : ℕ

abbrev is_processing : Status → Bool
is_processing status = elim status [ processing ↦ true | _ ↦ false ]

abbrev stuck : Observed → Bool
stuck o = flag_of (get o.metrics "stuck_detected")

abbrev alive : Observed → Bool
alive o = flag_of (get o.metrics "worker_healthy")

abbrev detection : Observed → ℕ
detection o = number_of (get o.metrics "stuck_detection_time_s")

abbrev pub objectives : Observed → List SloResult
objectives o =
    truth "watchdog_emits_task_stuck" (stuck o)
    ∷ truth "worker_survives_hang" (alive o)
    ∷ within "stuck_detection_time" (seconds 360) (detection o)
    ∷ []

module _ {S : Type 0} (ops : Ops S) where
  abbrev required : List String
  required = "api" ∷ "worker" ∷ "watchdog" ∷ "postgres" ∷ "localstack" ∷ "ai-runtime" ∷ []

  abbrev recovered : Bool → M S Done
  recovered true = give done
  recovered false = do
    tried (ops.stop "ai-runtime")
    sleeping (ops.sleep (seconds 2))
    tried (ops.start "ai-runtime")
    labelled "ai-runtime recovery failed: " (ops.wait_for_healthy "ai-runtime" (seconds 240))
    healthy ← with_default false (all_containers_healthy ops required)
    require healthy "not all containers healthy after ai-runtime recovery"

  unfoldable pub set_up : M S Done
  unfolding wait_for
  set_up = do
    healthy ← labelled "health check: " (all_containers_healthy ops required)
    recovered healthy
    tried (wait ops (queue_empty ops) (seconds 60) (seconds 3))
    give done

  abbrev setup : Hang S → Option String × Hang S
  setup h = settled (λ t. record h { world = t }) (set_up h.world)

  -- The time at which the AI runtime is paused.
  abbrev freeze : String → M S ℕ
  freeze id = do
    result ←
        labelled "wait for processing: "
          (wait ops (task_is ops is_processing id) (seconds 90) (seconds 2))
    require result.met (text_append "task " (text_append id " did not reach processing within 90s"))
    labelled "pause ai-runtime: " (ops.pause "ai-runtime")
    read ops.now

  abbrev frozen : Hang S → (String ⊎ ℕ) × S → Option String × Hang S
  frozen h (inl e, s) = (some e, record h { world = s })
  frozen h (inr at, s) = (none, record h { world = s; paused_at = at })

  abbrev after_submit : Hang S → (String ⊎ String) × S → Option String × Hang S
  after_submit h (inl e, s) = (some (text_append "submit task: " e), record h { world = s })
  after_submit h (inr id, s) = frozen (record h { task_id = id }) (freeze id s)

  unfoldable pub inject : Hang S → Option String × Hang S
  unfolding wait_for
  inject h = after_submit h (ops.submit_task "chaos-runtime-hang-test" h.world)

  -- A task.stuck event of any task.
  abbrev pub stuck_event : ℕ → M S Bool
  stuck_event paused_at s = mapped (any_of "task.stuck") (ops.healing_events_since paused_at s)

  abbrev pub observation : ℕ → WaitResult → M S Observed
  observation start result = do
    at ← read ops.now
    worker ← tried (ops.container_health "worker")
    give (record {
      metrics =
          ("stuck_detected", flag result.met)
          ∷ ("stuck_detection_time_s", number (at - start))
          ∷ ("worker_healthy", flag (is_healthy (answer_or HealthStatus.exited worker)))
          ∷ [];
    })

  abbrev pub look : ℕ → ℕ → M S Observed
  look paused_at start = do
    result ←
        labelled "wait for task.stuck: "
          (wait ops (stuck_event paused_at) (seconds 360) (seconds 5))
    observation start result

  unfoldable pub observe : Hang S → (String ⊎ Option Observed) × Hang S
  unfolding wait_for
  observe h = seen (λ t. record h { world = t }) (look h.paused_at (ops.now h.world) h.world)

  abbrev pub verdict : Observed → ScenarioReport
  verdict o = report_of "runtime-hang" (objectives o) (
      ("stuck_detected", flag (stuck o))
      ∷ ("worker_healthy", flag (alive o))
      ∷ ("stuck_detection_time_s", number (detection o))
      ∷ [])

  unfoldable pub validate : Observed → Hang S → (String ⊎ Option ScenarioReport) × Hang S
  unfolding compute_status get
  validate o h = (inr (some (verdict o)), h)

  abbrev start_instead : String → String ⊎ Done → M S Done
  start_instead e (inl f) =
      throw (text_append "unpause: " (text_append e (text_append ", start: " f)))
  start_instead e (inr _) = give done

  abbrev unpaused : String ⊎ Done → M S Done
  unpaused (inl e) = do started ← tried (ops.start "ai-runtime"); start_instead e started
  unpaused (inr _) = give done

  abbrev unfreeze : Bool → M S Done
  unfreeze true = do answer ← tried (ops.unpause "ai-runtime"); unpaused answer
  unfreeze false = do
    healthy ← with_default false (λ s. mapped is_healthy (ops.container_health "ai-runtime" s))
    if healthy then give done else (do tried (ops.start "ai-runtime"); give done)

  abbrev once_more : String ⊎ Done → M S Done
  once_more (inr _) = give done
  once_more (inl e) = do
    tried (ops.stop "ai-runtime")
    sleeping (ops.sleep (seconds 3))
    tried (ops.start "ai-runtime")
    labelled "ai-runtime did not become healthy after stop+start: "
        (ops.wait_for_healthy "ai-runtime" (seconds 120))

  -- An error ends the cleanup before the system is stabilized.
  unfoldable pub restore : M S Done
  unfolding wait_for stabilize_system
  restore = do
    paused ← with_default false (ops.is_paused "ai-runtime")
    unfreeze paused
    back ← tried (ops.wait_for_healthy "ai-runtime" (seconds 120))
    once_more back
    tried (wait ops (queue_empty ops) (seconds 120) (seconds 5))
    sleeping (stabilize_system ops "runtime-hang")

  abbrev cleanup : Hang S → Option String × Hang S
  cleanup h = settled (λ t. record h { world = t }) (restore h.world)

unfoldable pub runtime_hang : {S : Type 0} → (Context → Ops S) → Scenario (Hang S)
unfolding set_up inject observe validate restore
runtime_hang ops = record {
  name = "runtime-hang";
  timeout = seconds 480;
  setup = λ ctx h. setup (ops ctx) h;
  inject = λ ctx h. inject (ops ctx) h;
  observe = λ ctx h. observe (ops ctx) h;
  validate = λ ctx o h. validate (ops ctx) o h;
  cleanup = λ ctx h. cleanup (ops ctx) h;
}
