-- ===== src/Views/Operations.antt =====
-- The handler of services/api/internal/http/operations.go, with services/api/internal/db/operations.go. Times are
-- microseconds; the list of workers is sorted by their ids, in an order of texts that is given.
use mathlib.Core.List.{foldr}
use trace_runtime.Prelude.{
  ℕ, ◌+◌, ◌*◌, String, Bool, not, ◌&&◌, ◌||◌, List, [], ◌∷◌, map, leb, ltb, is_some, if◌then◌else◌,
  select, take,
}
use trace_runtime.Healing.{HealingEvent, is_active}
use trace_runtime.Healing
use trace_runtime.Chaos.{Runs}
use trace_runtime.Alerts.{any_covers, newest_first}
use trace_runtime.Processor.Polling.{Heartbeat}

pub record WorkerStatus : Type 0 where
  pub worker_id : String
  pub last_seen_at : ℕ
  pub tasks_processed : ℕ
  pub tasks_failed : ℕ
  pub goroutines : ℕ
  pub uptime_seconds : ℕ
  pub status : String

abbrev worker_status : ℕ → ℕ → String × Heartbeat → WorkerStatus
worker_status now threshold (id, hb) = record {
  worker_id = id;
  last_seen_at = hb.last_seen_at;
  tasks_processed = hb.tasks_processed;
  tasks_failed = hb.tasks_failed;
  goroutines = hb.goroutines;
  uptime_seconds = hb.uptime_seconds;
  status = if ltb (hb.last_seen_at + threshold * 1000000) now then "stale" else "healthy";
}

module _ (before : String → String → Bool) where
  abbrev insert : WorkerStatus → List WorkerStatus → List WorkerStatus
  insert w [] = w ∷ []
  insert w (v ∷ ws) = if before w.worker_id v.worker_id then w ∷ v ∷ ws else v ∷ insert w ws

  -- ORDER BY worker_id
  unfoldable pub list_worker_statuses : ℕ → ℕ → List (String × Heartbeat) → List WorkerStatus
  list_worker_statuses now threshold beats =
      foldr insert [] (map (worker_status now threshold) beats)

-- Outside of chaos runs.
abbrev pub of_users : Runs → ℕ → HealingEvent → Bool
of_users runs now e = not (is_some e.chaos_run_id) && not (any_covers now e.created_at runs)

abbrev pub event_limit : ℕ → ℕ
event_limit limit = if leb limit 0 || ltb 200 limit then 200 else limit

unfoldable pub list_active_healing_events : ℕ → Runs → ℕ → Healing.Table → List HealingEvent
unfolding newest_first
list_active_healing_events limit runs now t =
    take (event_limit limit) (newest_first (select (λ e. is_active e && of_users runs now e) t))

unfoldable pub list_recent_healing_events : ℕ → Runs → ℕ → Healing.Table → List HealingEvent
unfolding newest_first
list_recent_healing_events limit runs now t =
    take limit (newest_first (select (of_users runs now) t))

pub record OperationsSummary : Type 0 where
  pub workers : List WorkerStatus
  pub active_events : List HealingEvent
  pub recent_events : List HealingEvent
  pub timestamp : ℕ

pub data Summary : Type 0 where
  summary : OperationsSummary → Summary
  error : ℕ → Summary

-- The three queries, of which each is answered or not.
unfoldable pub operations_summary :
    (before : String → String → Bool) (has_db workers_answer active_answer recent_answer : Bool)
    (now : ℕ)
    → List (String × Heartbeat)
    → Runs
    → Healing.Table
    → Summary
unfolding list_worker_statuses list_active_healing_events list_recent_healing_events
operations_summary before has_db workers_answer active_answer recent_answer now beats runs t =
    if not has_db
    then error 503
    else if not (workers_answer && active_answer && recent_answer)
    then error 500
    else summary (record {
      workers = list_worker_statuses before now 60 beats;
      active_events = list_active_healing_events 100 runs now t;
      recent_events = list_recent_healing_events 50 runs now t;
      timestamp = now;
    })
