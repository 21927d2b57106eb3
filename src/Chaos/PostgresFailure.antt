-- ===== src/Chaos/PostgresFailure.antt =====
-- The scenario of cmd/chaos/internal/chaos/scenarios/postgres_failure.go.
pub mod Verdict
use Prim.Native.String.{◌++◌ as text_append}
use trace_runtime.Prelude.{
  ℕ, ◌-◌, ◌*◌, String, Bool, true, false, ◌&&◌, ◌||◌, ◌⊎◌, inl, inr, Option, none, some, List, [],
  ◌∷◌, ◌++◌, map, leb, if◌then◌else◌, string_eq,
}
use trace_runtime.Prelude.Int.{ℤ, pos, minus_one, is_nat}
use trace_runtime.Prelude.Assoc.{get, put}
use trace_runtime.Chaos.Reports.{
  SloResult, fail, functional, Value, flag, number, int, ints, flags, ScenarioReport,
  compute_status,
}
use trace_runtime.Chaos.Runner.{Context, Observed, Scenario}
use trace_runtime.Chaos.Waits.{WaitResult, wait_for}
use trace_runtime.Chaos.Ops.{
  M, Done, done, Ops, HealthStatus, exited, seconds, skip, ◌>>=◌, ◌>>◌, give, labelled, tried,
  require, sleeping, answer_or, mapped,
}
use trace_runtime.Chaos.Helpers.{
  seen, settled, flag_of, judge, truth, amount, within, report_of, is_met, is_healthy,
  all_containers_healthy, wait, queue_empty, capture_restart_baseline, delta, stabilize_system,
}

-- The world with the scenario's own field.
pub record Outage (S : Type 0) : Type 0 where
  pub world : S
  pub restart_baseline : List (String × ℕ)

abbrev pub services : List String
services = "api" ∷ "worker" ∷ "watchdog" ∷ []

abbrev pub is_structured : ℕ → Bool
is_structured code = (leb code 200 && leb 200 code) || (leb code 503 && leb 503 code)

-- What the answer to GET /health gives.
abbrev pub api_metrics : String ⊎ ℕ → List (String × Value)
api_metrics (inl e) = ("api_responds", flag false) ∷ ("api_structured_status", flag false) ∷ []
api_metrics (inr code) =
    ("api_health_status_code", int (pos code))
    ∷ ("api_responds", flag true)
    ∷ ("api_structured_status", flag (is_structured code))
    ∷ []

abbrev is_alive : HealthStatus → Bool
is_alive status = elim status [ exited ↦ false | _ ↦ true ]

-- The maps of a metric, and a missing key in them.
abbrev counts_of : Option Value → List (String × ℤ)
counts_of (some (ints m)) = m
counts_of _ = []

abbrev flags_of : Option Value → List (String × Bool)
flags_of (some (flags m)) = m
flags_of _ = []

abbrev count_at : List (String × ℤ) → String → ℤ
count_at m name = elim (get m name) [ none ↦ pos 0 | some z ↦ z ]

abbrev flag_at : List (String × Bool) → String → Bool
flag_at m name = elim (get m name) [ none ↦ false | some b ↦ b ]

abbrev responds : Observed → Bool
responds o = flag_of (get o.metrics "api_responds")

abbrev structured : Observed → Bool
structured o = flag_of (get o.metrics "api_structured_status")

abbrev restart_counts : Observed → List (String × ℤ)
restart_counts o = counts_of (get o.metrics "restart_counts")

abbrev containers_alive : Observed → List (String × Bool)
containers_alive o = flags_of (get o.metrics "containers_alive")

abbrev no_crash_loop : Observed → String → SloResult
no_crash_loop o name =
    amount (text_append name "_no_crash_loop") 0 (count_at (restart_counts o) name)

abbrev still_alive : Observed → String → SloResult
still_alive o name = truth (text_append name "_still_alive") (flag_at (containers_alive o) name)

abbrev pub base : Observed → List SloResult
base o =
    truth "api_responds_during_failure" (responds o)
    ∷ truth "api_structured_status" (structured o)
    ∷ (map (no_crash_loop o) services ++ map (still_alive o) services)

abbrev reported : List SloResult → List (String × Value) → ScenarioReport
reported slos metrics = report_of "postgres-failure" slos metrics

module _ {S : Type 0} (ops : Ops S) where
  unfoldable pub set_up : M S (List (String × ℕ))
  unfolding capture_restart_baseline
  set_up = do
    healthy ← labelled "health check: " (
        all_containers_healthy ops ("api" ∷ "worker" ∷ "watchdog" ∷ "postgres" ∷ "localstack" ∷ []))
    require healthy "not all containers healthy"
    labelled "restart baseline: " (capture_restart_baseline ops services [])

  abbrev with_baseline : Outage S → (String ⊎ List (String × ℕ)) × S → Option String × Outage S
  with_baseline w (inl e, s) = (some e, record w { world = s })
  with_baseline w (inr counts, s) = (none, record w { world = s; restart_baseline = counts })

  abbrev setup : Outage S → Option String × Outage S
  setup w = with_baseline w (set_up w.world)

  unfoldable pub inject : Outage S → Option String × Outage S
  inject w =
      settled (λ t. record w { world = t })
        (labelled "stop postgres: " (ops.stop "postgres") w.world)

  abbrev pub check_services :
      List (String × ℕ)
      → List String
      → List (String × ℤ)
      → List (String × Bool)
      → M S (List (String × Value))
  check_services counts [] deltas alive =
      give (("restart_counts", ints deltas) ∷ ("containers_alive", flags alive) ∷ [])
  check_services counts (name ∷ names) deltas alive = do
    health ← tried (ops.container_health name)
    change ← tried (delta ops counts name)
    check_services counts names (put deltas name (answer_or minus_one change))
        (put alive name (is_alive (answer_or exited health)))

  abbrev pub look : List (String × ℕ) → M S Observed
  look counts = do
    sleeping (ops.sleep (seconds 10))
    api ← tried ops.api_health
    rest ← check_services counts services [] []
    give (record { metrics = api_metrics api ++ rest })

  unfoldable pub observe : Outage S → (String ⊎ Option Observed) × Outage S
  unfolding delta put
  observe w = seen (λ t. record w { world = t }) (look w.restart_baseline w.world)

  -- A task that is accepted shows that the pool has reconnected; an error is not one of the check.
  abbrev accepted : String ⊎ String → Bool
  accepted (inl e) = false
  accepted (inr id) = true

  abbrev pub accepts : M S Bool
  accepts s =
      let answer = ops.submit_task "chaos-postgres-reconnect-test" s in
      (inr (accepted answer.0), answer.1)

  abbrev pub reconnect : Observed → S → ScenarioReport × S
  reconnect o s =
      let result = wait ops accepts (seconds 30) (seconds 3) s in
      let reconnected = is_met result.0 in
      let elapsed = ops.now result.1 - ops.now s in
      (
        reported
            (base o
              ++ truth "pgx_pool_reconnects" reconnected
                ∷ within "reconnection_time" (seconds 30) elapsed
                ∷ [])
            (("api_responds", flag (responds o))
              ∷ ("api_structured_status", flag (structured o))
              ∷ ("restart_counts", ints (restart_counts o))
              ∷ ("pool_reconnected", flag reconnected)
              ∷ ("reconnect_time_s", number elapsed)
              ∷ []),
        result.1,
      )

  abbrev pub after_start : Observed → (String ⊎ Done) × S → ScenarioReport × S
  after_start o (inl e, s) = (
    reported (base o ++ judge "postgres_restart" functional (flag true) (flag false) fail ∷ []) [],
    s,
  )
  after_start o (inr _, s) = reconnect o (skip (ops.wait_for_healthy "postgres" (seconds 30) s))

  abbrev pub validated : Observed → S → ScenarioReport × S
  validated o s = after_start o (ops.start "postgres" s)

  unfoldable pub validate : Observed → Outage S → (String ⊎ Option ScenarioReport) × Outage S
  unfolding wait_for compute_status get
  validate o w = let out = validated o w.world in (inr (some out.0), record w { world = out.1 })

  abbrev restored : (String ⊎ Bool) × S → S
  restored (inr true, s) = s
  restored (_, s) =
      skip (ops.wait_for_healthy "postgres" (seconds 30) (skip (ops.start "postgres" s)))

  unfoldable pub cleanup : Outage S → Option String × Outage S
  unfolding wait_for stabilize_system
  cleanup w =
      let s = restored (mapped is_healthy (ops.container_health "postgres" w.world)) in
      let up =
        wait ops (all_containers_healthy ops ("api" ∷ "worker" ∷ "watchdog" ∷ "postgres" ∷ []))
          (seconds 60) (seconds 5) s in
      let drained = wait ops (queue_empty ops) (seconds 60) (seconds 5) up.1 in
      (none, record w { world = stabilize_system ops "postgres-failure" drained.1 })

unfoldable pub postgres_failure : {S : Type 0} → (Context → Ops S) → Scenario (Outage S)
unfolding set_up inject observe validate cleanup
postgres_failure ops = record {
  name = "postgres-failure";
  timeout = seconds 180;
  setup = λ ctx w. setup (ops ctx) w;
  inject = λ ctx w. inject (ops ctx) w;
  observe = λ ctx w. observe (ops ctx) w;
  validate = λ ctx o w. validate (ops ctx) o w;
  cleanup = λ ctx w. cleanup (ops ctx) w;
}
