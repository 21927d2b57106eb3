-- ===== src/Examples/Crashes.antt =====
-- A run of the worker-crash scenario.
use trace_runtime.Prelude.{
  ◌<◌, ℕ, ◌+◌, String, ◌≡◌, ◌≢◌, refl, true, false, none, some, ◌⊎◌, inr, List, [], ◌∷◌, arith,
}
use trace_runtime.Prelude.Assoc.{get}
use trace_runtime.Healing.{HealingEvent, active}
use trace_runtime.Chaos.Reports.{Value, fail, compute_status}
use trace_runtime.Chaos.Runner.{Observed}
use trace_runtime.Chaos.Waits.{wait_for, loop, ticked}
use trace_runtime.Tasks.{completed}
use trace_runtime.Chaos.Ops.{Ops, done, healthy}
use trace_runtime.Chaos.WorkerCrash.{Crash, critical_event, observe, validate, validated}
use trace_runtime.Chaos.WorkerCrash.Verdict.{Failing, verdict-Detected}

abbrev pub works : {A : Type 0} → A → ℕ → (String ⊎ A) × ℕ
works a s = (inr a, s + 1000000)

abbrev pub stale : HealingEvent
stale = record {
  id = "e";
  event_type = "worker.stale";
  severity = "critical";
  source = "watchdog";
  status = active;
  worker_id = "w";
  details = record { worker_id = some "w"; task_id = none };
  created_at = 7;
  resolved_at = none;
  chaos_run_id = none;
}

abbrev pub ops : Ops ℕ
ops = record {
  now = λ s. s;
  ticks = λ _ _ _. record { count = 2; context_ends = false };
  start_time = 0;
  poll_interval = 3000000;
  sleep = λ n s. s + n;
  ends_within = λ _ _. false;
  container_health = λ _. works healthy;
  restart_count = λ _. works 2;
  worker_health = works 200;
  api_health = works 503;
  resolve_all_active_events = works done;
  active_healing_events = works [];
  healing_events_since = λ _. works (stale ∷ []);
  heartbeat_age = works 5;
  task_status = λ _. works completed;
  tasks_in_status_since = λ _ _. works 0;
  queue_depth = works 0;
  dlq_depth = works 0;
  purge_queue = works done;
  purge_dlq = works done;
  fail_stuck_tasks = λ _. works 0;
  fail_abandoned_tasks = λ _. works 0;
  delete_stale_heartbeats = λ _. works 0;
  submit_task = λ _. works "t";
  set_chaos_config = λ _. works done;
  reset_chaos_config = works done;
  disable_restart = λ _. works done;
  enable_restart = λ _. works done;
  kill = λ _. works done;
  stop = λ _. works done;
  start = λ _. works done;
  pause = λ _. works done;
  unpause = λ _. works done;
  is_paused = λ _. works false;
  wait_for_healthy = λ _ _. works done;
}

abbrev crash : Crash ℕ
crash = record { world = 5; task_id = "t"; killed_at = 5 }

abbrev seen : Observed
seen = record {
  metrics =
      ("critical_event_detected", Value.flag true)
      ∷ ("detection_time_s", Value.number 1000000)
      ∷ ("event_types", Value.texts ("worker.stale" ∷ []))
      ∷ ("first_event_at", Value.number 7)
      ∷ [];
}

not-fail : (validated ops seen 5).0.status ≢ fail
unfolding compute_status wait_for loop get
not-fail h = absurd (ground (arith, h))

verdict-Detected_example :
    (k : ℕ) × (es : List HealingEvent) × (k < (ops.ticks 90000000 3000000 5).count)
    × ((ops.healing_events_since 5 (ticked (critical_event ops 5) k (5, none)).0).0 ≡ inr es)
    × Failing es
verdict-Detected_example =
    verdict-Detected ops ops crash crash seen (validated ops seen 5).0
      (unfold observe wait_for loop in refl) (unfold validate in refl) not-fail
