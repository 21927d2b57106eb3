-- ===== src/Views/Metrics.antt =====
-- The handler of services/api/internal/http/runtime_metrics.go, with the query of services/api/internal/db/metrics.go. A
-- latency is in microseconds; the quantile and the mean of PostgreSQL are given. A rate is the fraction of which the query
-- makes per cent.
use trace_runtime.Prelude.{
  ℕ, ◌+◌, ◌*◌, Bool, true, false, not, ◌&&◌, ◌||◌, Option, none, some, List, [], ◌∷◌, ◌++◌, leb,
  ltb, length, is_some, if◌then◌else◌, select,
}
use trace_runtime.Prelude.Int.{ℤ, pos, sub_ℕ}
use trace_runtime.Tasks.{Status, completed, failed, TaskRow}
use trace_runtime.Tasks
use trace_runtime.Queue.{Queue, depth}

abbrev is_completed : TaskRow → Bool
is_completed r = elim r.status [ completed ↦ true | _ ↦ false ]

abbrev is_failed : TaskRow → Bool
is_failed r = elim r.status [ failed ↦ true | _ ↦ false ]

abbrev of_users : TaskRow → Bool
of_users r = not (is_some r.chaos_run_id)

-- window_tasks
abbrev in_window : ℕ → ℕ → TaskRow → Bool
in_window now window r =
    of_users r
    && leb now (r.updated_at + window * 1000000)
    && (is_some r.completed_at || is_failed r)

abbrev latency : TaskRow → List ℤ
latency r = elim r.processing_started_at [
  | none ↦ []
  | some start ↦ elim r.completed_at [ none ↦ [] | some end ↦ sub_ℕ end start ∷ [] ]
]

abbrev latencies : Tasks.Table → List ℤ
latencies [] = []
latencies (r ∷ t) = if is_completed r then latency r ++ latencies t else latencies t

-- COUNT(*) FILTER (WHERE …)
abbrev count : (TaskRow → Bool) → Tasks.Table → ℕ
count test t = length (select test t)

pub record Rate : Type 0 where
  pub part : ℕ
  pub whole : ℕ

-- 0 of 1 where there is nothing.
abbrev rate : ℕ → ℕ → Rate
rate part whole =
    if ltb 0 whole then record { part = part; whole = whole } else record { part = 0; whole = 1 }

pub record RuntimeMetrics : Type 0 where
  pub window_seconds : ℕ
  pub p95_latency : ℤ
  pub avg_latency : ℤ
  pub success_rate : Rate
  pub error_rate : Rate
  pub completed : ℕ
  pub failed : ℕ
  pub total_completed : ℕ
  pub total_failed : ℕ

-- COALESCE(…, 0): an aggregate of no rows is NULL.
abbrev coalesce : (List ℤ → ℤ) → List ℤ → ℤ
coalesce aggregate [] = pos 0
coalesce aggregate (x ∷ xs) = aggregate (x ∷ xs)

module _ (percentile_cont average : List ℤ → ℤ) where
  unfoldable pub runtime_metrics : (window now : ℕ) → Tasks.Table → RuntimeMetrics
  runtime_metrics window now t =
      let tasks = select (in_window now window) t in
      let done = count is_completed tasks in
      let lost = count is_failed tasks in
      record {
        window_seconds = window;
        p95_latency = coalesce percentile_cont (latencies tasks);
        avg_latency = coalesce average (latencies tasks);
        success_rate = rate done (done + lost);
        error_rate = rate lost (done + lost);
        completed = done;
        failed = lost;
        total_completed = count is_completed (select of_users t);
        total_failed = count is_failed (select of_users t);
      }

-- Where the depth comes from: SQS, with the number that it answers if it does, the queue in memory, or nothing.
pub data DepthSource : Type 0 where
  sqs : Option ℕ → DepthSource
  in_memory : Queue → DepthSource
  no_queue : DepthSource

unfoldable pub queue_depth : DepthSource → ℕ
unfolding depth
queue_depth (sqs none) = 0
queue_depth (sqs (some n)) = n
queue_depth (in_memory q) = depth q
queue_depth no_queue = 0

abbrev no_metrics : RuntimeMetrics
no_metrics = record {
  window_seconds = 300;
  p95_latency = pos 0;
  avg_latency = pos 0;
  success_rate = record { part = 0; whole = 1 };
  error_rate = record { part = 0; whole = 1 };
  completed = 0;
  failed = 0;
  total_completed = 0;
  total_failed = 0;
}

-- The handler's answer, with the depth; `none` is an internal error.
unfoldable pub serve_metrics :
    (percentile_cont average : List ℤ → ℤ) (has_db answers : Bool) (now : ℕ)
    → Tasks.Table
    → DepthSource
    → Option (RuntimeMetrics × ℕ)
unfolding runtime_metrics queue_depth
serve_metrics percentile_cont average false answers now t source = some (no_metrics, 0)
serve_metrics percentile_cont average true false now t source = none
serve_metrics percentile_cont average true true now t source =
    some (runtime_metrics percentile_cont average 300 now t, queue_depth source)
