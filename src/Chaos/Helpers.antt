-- ===== src/Chaos/Helpers.antt =====
-- cmd/chaos/internal/chaos/scenarios/helpers.go but for the requests themselves, and AllContainersHealthy of
-- cmd/chaos/internal/chaos/checker/checker.go: what the scenarios share. A type assertion `v, _ := x.(T)` on a
-- metric is a function that gives the zero value on any other value.
use Prim.Native.String.{◌++◌ as text_append}
use trace_runtime.Prelude.{
  ℕ, String, Bool, true, false, ◌&&◌, ◌⊎◌, inl, inr, Option, none, some, List, [], ◌∷◌, ◌++◌, ltb,
  leb, ◌==◌, if◌then◌else◌, string_eq,
}
use trace_runtime.Prelude.Int.{ℤ, pos, minus_one, sub_ℕ, is_nat}
use trace_runtime.Prelude.Assoc.{get, put}
use trace_runtime.Tasks.{Status}
use trace_runtime.Prelude.Decimal.{decimal}
use trace_runtime.Healing.{HealingEvent}
use trace_runtime.Chaos.Reports.{
  SloStatus, pass, fail, SloType, functional, timing, SloResult, Value, flag, number, int,
  ScenarioReport, new_scenario_report, compute_status,
}
use trace_runtime.Chaos.Waits.{WaitResult, wait_for}
use trace_runtime.Chaos.Ops.{
  M, Ops, HealthStatus, healthy, unhealthy, starting, unprobed, exited, Done, done, require, bind,
  skip, answer_or, mapped, ◌>>=◌, ◌>>◌, give, tried, throw, labelled, seconds,
}

abbrev pub bool_slo : Bool → SloStatus
bool_slo true = pass
bool_slo false = fail

abbrev pub int_slo : ℤ → ℕ → SloStatus
int_slo actual expected = if is_nat expected actual then pass else fail

abbrev pub timing_slo : ℕ → ℕ → SloStatus
timing_slo actual most = if leb actual most then pass else fail

abbrev pub flag_of : Option Value → Bool
flag_of (some (flag b)) = b
flag_of _ = false

abbrev pub number_of : Option Value → ℕ
number_of (some (number n)) = n
number_of _ = 0

abbrev pub int_of : Option Value → ℤ
int_of (some (int z)) = z
int_of _ = pos 0

abbrev pub judge : String → SloType → Value → Value → SloStatus → SloResult
judge name kind expected actual status = record {
  name = name;
  kind = kind;
  expected = expected;
  actual = actual;
  status = status;
}

abbrev pub truth : String → Bool → SloResult
truth name actual = judge name functional (flag true) (flag actual) (bool_slo actual)

abbrev pub amount : String → ℕ → ℤ → SloResult
amount name expected actual =
    judge name functional (int (pos expected)) (int actual) (int_slo actual expected)

abbrev pub within : String → ℕ → ℕ → SloResult
within name most actual = judge name timing (number most) (number actual) (timing_slo actual most)

abbrev pub report_of : String → List SloResult → List (String × Value) → ScenarioReport
report_of name slos metrics = record (new_scenario_report name) {
  slo_results = slos;
  metrics = metrics;
  status = compute_status slos;
}

abbrev pub is_met : String ⊎ WaitResult → Bool
is_met (inl e) = false
is_met (inr result) = result.met

abbrev pub is_healthy : HealthStatus → Bool
is_healthy s = elim s [ healthy ↦ true | _ ↦ false ]

abbrev pub none_active : List HealingEvent → Bool
none_active [] = true
none_active (_ ∷ _) = false

abbrev pub of_type : String → HealingEvent → Bool
of_type name e = e.event_type == name

abbrev pub any_of : String → List HealingEvent → Bool
any_of name [] = false
any_of name (e ∷ es) = if of_type name e then true else any_of name es

abbrev health_text : HealthStatus → String
health_text healthy = "healthy"
health_text unhealthy = "unhealthy"
health_text starting = "starting"
health_text unprobed = "none"
health_text exited = "exited"

-- select { case <-ctx.Done(): return ctx.Err(); case <-time.After(d): }
abbrev pub pause_for : {S : Type 0} → Ops S → ℕ → M S Done
pause_for ops d s =
    if ops.ends_within d s then (inl "context ended", s) else (inr done, ops.sleep d s)

abbrev pub is_completed : Status → Bool
is_completed status = elim status [ Status.completed ↦ true | _ ↦ false ]

abbrev pub is_settled : Status → Bool
is_settled status = elim status [ Status.completed ↦ true | Status.failed ↦ true | _ ↦ false ]

abbrev pub not_healthy : String → HealthStatus → String
not_healthy name status =
    text_append "container " (
      text_append name (text_append " is " (text_append (health_text status) ", expected healthy")))

-- resp.StatusCode == 200 of a health endpoint.
abbrev pub answered_200 : String ⊎ ℕ → Bool
answered_200 (inl e) = false
answered_200 (inr code) = leb code 200 && leb 200 code

abbrev pub int_or_minus_one : String ⊎ ℕ → ℤ
int_or_minus_one (inl e) = minus_one
int_or_minus_one (inr n) = pos n

-- How a stage ends; `back` puts the world back beside the scenario's own fields.
abbrev pub settled : {S W A : Type 0} → (S → W) → (String ⊎ A) × S → Option String × W
settled back (inl e, s) = (some e, back s)
settled back (inr _, s) = (none, back s)

abbrev pub seen : {S W A : Type 0} → (S → W) → (String ⊎ A) × S → (String ⊎ Option A) × W
seen back (inl e, s) = (inl e, back s)
seen back (inr o, s) = (inr (some o), back s)

module _ {S : Type 0} (ops : Ops S) where
  abbrev pub require_healthy : List String → M S Done
  require_healthy [] = give done
  require_healthy (name ∷ names) = do
    status ←
        labelled (text_append "container health " (text_append name ": "))
          (ops.container_health name)
    require (is_healthy status) (not_healthy name status)
    require_healthy names

  abbrev pub all_containers_healthy : List String → M S Bool
  all_containers_healthy [] s = (inr true, s)
  all_containers_healthy (name ∷ names) s =
      let rest = all_containers_healthy names in
      bind "" (ops.container_health name s)
        (λ status t. if is_healthy status then rest t else (inr false, t))

  abbrev pub wait : M S Bool → ℕ → ℕ → M S WaitResult
  wait check timeout interval s = wait_for ops.now check (ops.ticks timeout interval s) s

  abbrev pub zero_active_events : M S Bool
  zero_active_events s = mapped none_active (ops.active_healing_events s)

  abbrev pub queue_empty : M S Bool
  queue_empty s = mapped (λ depth. leb depth 0) (ops.queue_depth s)

  unfoldable pub stabilize_system : String → S → S
  unfolding wait_for
  stabilize_system name s =
      let stuck = skip (ops.fail_stuck_tasks (text_append name "-cleanup") s) in
      let abandoned = skip (ops.fail_abandoned_tasks (text_append name "-cleanup") stuck) in
      let depth = ops.dlq_depth abandoned in
      let purged = if ltb 0 (answer_or 0 depth.0) then skip (ops.purge_dlq depth.1) else depth.1 in
      let beats = skip (ops.delete_stale_heartbeats (seconds 30) purged) in
      let resolved = skip (ops.resolve_all_active_events beats) in
      skip (wait zero_active_events (seconds 30) (seconds 3) resolved)

  -- RestartBaseline
  unfoldable pub capture_restart_baseline :
      List String → List (String × ℕ) → M S (List (String × ℕ))
  unfolding put
  capture_restart_baseline [] counts = give counts
  capture_restart_baseline (name ∷ names) counts = do
    count ←
        labelled (text_append "baseline restart count for " (text_append name ": "))
          (ops.restart_count name)
    capture_restart_baseline names (put counts name count)

  abbrev pub since_baseline : List (String × ℕ) → String → ℕ → ℤ
  since_baseline counts name current = elim (get counts name) [
    | none ↦ pos current
    | some baseline ↦ sub_ℕ current baseline
  ]

  -- Delta
  unfoldable pub delta : List (String × ℕ) → String → M S ℤ
  unfolding get
  delta counts name = do current ← ops.restart_count name; give (since_baseline counts name current)

  -- The setup of the scenarios that need the AI runtime: it is started if a scenario before left it down.
  abbrev recover : String → HealthStatus → M S Done
  recover name status =
      if is_healthy status
      then give done
      else if name == "ai-runtime"
      then (do
        tried (ops.start "ai-runtime")
        labelled "ai-runtime recovery failed: " (ops.wait_for_healthy "ai-runtime" (seconds 120)))
      else throw (not_healthy name status)

  abbrev pub require_recovered : List String → M S Done
  require_recovered [] = give done
  require_recovered (name ∷ names) = do
    status ←
        labelled (text_append "container health " (text_append name ": "))
          (ops.container_health name)
    recover name status
    require_recovered names

  -- A query of the status of a task, and a test of it.
  abbrev pub task_is : (Status → Bool) → String → M S Bool
  task_is test id s = mapped test (ops.task_status id s)

  abbrev submitted :
      ℕ
      → List String
      → (List String → S → (Option String × List String) × S)
      → (String ⊎ String) × S
      → (Option String × List String) × S
  submitted i ids rest (inl e, s) =
      ((some (text_append "submit task " (text_append (decimal i) (text_append ": " e))), ids), s)
  submitted i ids rest (inr id, s) = rest (ids ++ id ∷ []) s

  -- The numbered tasks are submitted up to the first error; the identifiers of those submitted.
  unfoldable pub submit_each : String → List ℕ → List String → S → (Option String × List String) × S
  unfolding decimal
  submit_each prefix [] ids s = ((none, ids), s)
  submit_each prefix (i ∷ numbers) ids s =
      let rest = submit_each prefix numbers in
      submitted i ids rest (ops.submit_task (text_append prefix (decimal i)) s)
