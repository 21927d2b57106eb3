-- ===== src/Chaos/WorkerCrash.antt =====
-- The scenario of cmd/chaos/internal/chaos/scenarios/worker_crash.go.
pub mod Verdict
use Prim.Native.String.{◌++◌ as text_append}
use trace_runtime.Prelude.{
  ℕ, ◌+◌, ◌-◌, ◌*◌, String, Bool, true, false, not, ◌&&◌, ◌||◌, ◌⊎◌, inl, inr, Option, none, some,
  List, [], ◌∷◌, ◌++◌, map, length, ◌==◌, ltb, leb, if◌then◌else◌, string_eq,
}
use trace_runtime.Prelude.Assoc.{get}
use trace_runtime.Healing.{HealingEvent}
use trace_runtime.Chaos.Reports.{
  SloStatus, pass, fail, SloType, functional, timing, SloResult, Value, flag, number, texts,
  ScenarioReport, new_scenario_report, compute_status,
}
use trace_runtime.Chaos.Runner.{Context, Observed, Scenario}
use trace_runtime.Chaos.Waits.{Ticks, WaitResult, wait_for}
use trace_runtime.Chaos.Ops.{
  Done, done, Ops, seconds, bind, skip, answer_or, mapped, error_of, is_done, HealthStatus,
}
use trace_runtime.Chaos.Helpers.{
  flag_of, number_of, judge, truth, within, report_of, is_met, is_healthy, all_containers_healthy,
  wait, zero_active_events, queue_empty, stabilize_system,
}

-- The world with the scenario's own fields.
pub record Crash (S : Type 0) : Type 0 where
  pub world : S
  pub task_id : String
  pub killed_at : ℕ

-- An error of the query counts as an old heartbeat.
abbrev fresh : {S : Type 0} → ℕ → (String ⊎ ℕ) × S → (String ⊎ Bool) × S
fresh limit (inl e, s) = (inr false, s)
fresh limit (inr age, s) = (inr (ltb age limit), s)

abbrev pub is_critical : HealingEvent → Bool
is_critical e = (e.event_type == "worker.stale") || (e.event_type == "worker.down")

abbrev pub first_critical : List HealingEvent → Option HealingEvent
first_critical [] = none
first_critical (e ∷ es) = if is_critical e then some e else first_critical es

-- The condition of Observe, with the variables that it fills: the event that it has found.
abbrev pub found_in :
    {S : Type 0}
    → Option HealingEvent
    → (String ⊎ List HealingEvent) × S
    → (String ⊎ Bool) × (S × Option HealingEvent)
found_in first (inl e, s) = (inl e, (s, first))
found_in first (inr events, s) = elim (first_critical events) [
  | none ↦ (inr false, (s, first))
  | some e ↦ (inr true, (s, some e))
]

abbrev type_of : Option HealingEvent → List String
type_of none = []
type_of (some e) = e.event_type ∷ []

abbrev first_at : Option HealingEvent → List (String × Value)
first_at none = []
first_at (some e) = ("first_event_at", number e.created_at) ∷ []

abbrev pub minute : String → ℕ → SloResult
minute name actual = within name (seconds 60) actual

abbrev pub reported : List SloResult → List (String × Value) → ScenarioReport
reported slos metrics = report_of "worker-crash" slos metrics

module _ {S : Type 0} (ops : Ops S) where
  abbrev container_healthy : String → S → (String ⊎ Bool) × S
  container_healthy name s = mapped is_healthy (ops.container_health name s)

  -- What the code reads only to log it.
  abbrev look_around : S → S
  look_around s = skip (ops.active_healing_events (skip (ops.heartbeat_age s)))

  abbrev required : List String
  required = "api" ∷ "worker" ∷ "watchdog" ∷ "postgres" ∷ "localstack" ∷ []

  abbrev submitted : S → (String ⊎ String) × S
  submitted s = ops.submit_task "chaos-worker-crash-test" (look_around s)

  -- The two waits go on whether or not they are met.
  abbrev settle : S → (String ⊎ String) × S
  settle s = bind "resolve active events: " (ops.resolve_all_active_events s) (λ _ t.
      bind "wait for zero active events: "
        (wait ops (zero_active_events ops) (seconds 30) (seconds 3) t)
        (λ _ u.
          bind "wait for fresh heartbeat: "
            (wait ops (λ v. fresh (seconds 15) (ops.heartbeat_age v)) (seconds 20) (seconds 3) u)
            (λ _ v.
              bind "submit task: " (submitted v)
                (λ id x. (inr id, look_around (ops.sleep (seconds 5) x))))))

  abbrev set_up : S → (String ⊎ String) × S
  set_up s =
      bind "health check: " (all_containers_healthy ops required s)
        (λ healthy t. if healthy then settle t else (inl "not all containers healthy", t))

  abbrev with_task : Crash S → (String ⊎ String) × S → Option String × Crash S
  with_task c (inl e, s) = (some e, record c { world = s })
  with_task c (inr id, s) = (none, record c { world = s; task_id = id })

  abbrev setup : Crash S → Option String × Crash S
  setup c = with_task c (set_up c.world)

  abbrev in_world : Crash S → Option String × S → Option String × Crash S
  in_world c (e, s) = (e, record c { world = s })

  abbrev killed : Crash S → Option String × Crash S
  killed c =
      in_world c
        (error_of (bind "kill worker: " (ops.kill "worker" c.world) (λ _ t. (inr done, t))))

  abbrev with_killed_at : Crash S → (String ⊎ Done) × S → Option String × Crash S
  with_killed_at c (inl e, s) = (some (text_append "disable restart: " e), record c { world = s })
  with_killed_at c (inr _, s) = killed (record c { world = s; killed_at = ops.now s })

  abbrev inject : Crash S → Option String × Crash S
  inject c = with_killed_at c (ops.disable_restart "worker" c.world)

  abbrev pub critical_event :
      ℕ → S × Option HealingEvent → (String ⊎ Bool) × (S × Option HealingEvent)
  critical_event killed_at p = found_in p.1 (ops.healing_events_since killed_at p.0)

  abbrev pub observation :
      Crash S
      → ℕ
      → (String ⊎ WaitResult) × (S × Option HealingEvent)
      → (String ⊎ Option Observed) × Crash S
  observation c start (inl e, (s, first)) =
      (inl (text_append "wait for healing event: " e), record c { world = s })
  observation c start (inr result, (s, first)) = (
    inr (
        some (record {
          metrics =
              ("critical_event_detected", flag result.met)
              ∷ ("detection_time_s", number (ops.now s - start))
              ∷ ("event_types", texts (type_of first))
              ∷ first_at first;
        })),
    record c { world = s },
  )

  unfoldable pub observe : Crash S → (String ⊎ Option Observed) × Crash S
  unfolding wait_for
  observe c = observation c (ops.now c.world) (
      wait_for (λ p. ops.now p.0) (critical_event c.killed_at)
        (ops.ticks (seconds 90) (seconds 3) c.world) (c.world, none))

  -- Validate, after the worker has been started again.
  abbrev recover : Bool → ℕ → List SloResult → ℕ → S → ScenarioReport × S
  recover critical detection slos restarted s =
      let healthy = ops.wait_for_healthy "worker" (seconds 60) s in
      let recovered = is_done healthy.0 in
      let recovery = ops.now healthy.1 - restarted in
      let resumed =
        wait ops (λ v. fresh (seconds 30) (ops.heartbeat_age v)) (seconds 30) (seconds 3)
          healthy.1 in
      let api = container_healthy "api" resumed.1 in
      let watchdog = container_healthy "watchdog" api.1 in
      let api_up = answer_or false api.0 in
      let watchdog_up = answer_or false watchdog.0 in
      (
        reported
            (slos
              ++ truth "worker_recovers_healthy" recovered
                ∷ minute "worker_recovery_time" recovery
                ∷ truth "heartbeat_resumes" (is_met resumed.0)
                ∷ truth "no_collateral_crashes" (api_up && watchdog_up)
                ∷ [])
            (("critical_event_detected", flag critical)
              ∷ ("detection_time_s", number detection)
              ∷ ("worker_recovered", flag recovered)
              ∷ ("recovery_time_s", number recovery)
              ∷ ("heartbeat_resumed", flag (is_met resumed.0))
              ∷ ("api_healthy", flag api_up)
              ∷ ("watchdog_healthy", flag watchdog_up)
              ∷ []),
        watchdog.1,
      )

  abbrev pub after_start : Bool → ℕ → List SloResult → ℕ → (String ⊎ Done) × S → ScenarioReport × S
  after_start critical detection slos restarted (inl e, s) = (
    reported (slos ++ judge "worker_restart" functional (flag true) (flag false) fail ∷ []) [],
    s,
  )
  after_start critical detection slos restarted (inr _, s) =
      recover critical detection slos restarted s

  abbrev pub validated : Observed → S → ScenarioReport × S
  validated observed s =
      let critical = flag_of (get observed.metrics "critical_event_detected") in
      let detection = number_of (get observed.metrics "detection_time_s") in
      after_start critical detection
        (truth "watchdog_detects_worker_failure" critical
          ∷ minute "failure_detection_time" detection
          ∷ [])
        (ops.now s) (ops.start "worker" s)

  unfoldable pub validate : Observed → Crash S → (String ⊎ Option ScenarioReport) × Crash S
  unfolding wait_for compute_status
  validate observed c =
      let out = validated observed c.world in (inr (some out.0), record c { world = out.1 })

  abbrev restored : (String ⊎ Bool) × S → S
  restored (inr true, s) = s
  restored (_, s) = skip (ops.wait_for_healthy "worker" (seconds 30) (skip (ops.start "worker" s)))

  unfoldable pub cleanup : Crash S → Option String × Crash S
  unfolding wait_for stabilize_system
  cleanup c =
      let s = restored (container_healthy "worker" (skip (ops.enable_restart "worker" c.world))) in
      let drained = wait ops (queue_empty ops) (seconds 60) (seconds 5) s in
      (none, record c { world = stabilize_system ops "worker-crash" drained.1 })

-- How the operations fare depends on the context.
unfoldable pub worker_crash : {S : Type 0} → (Context → Ops S) → Scenario (Crash S)
unfolding observe validate cleanup wait_for
worker_crash ops = record {
  name = "worker-crash";
  timeout = seconds 180;
  setup = λ ctx c. setup (ops ctx) c;
  inject = λ ctx c. inject (ops ctx) c;
  observe = λ ctx c. observe (ops ctx) c;
  validate = λ ctx o c. validate (ops ctx) o c;
  cleanup = λ ctx c. cleanup (ops ctx) c;
}
