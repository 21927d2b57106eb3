-- ===== src/LoadTest/Report.antt =====
-- cmd/loadtest/report.go, and the parts of queue.go and main.go that meet in it: the depths of the queue
-- while the run lasts, the report and its verdict. The texts with numbers are constructors with these.
use trace_runtime.Prelude.{
  ℕ, ◌+◌, ◌*◌, ◌/◌, String, Bool, false, not, ◌&&◌, ◌||◌, ◌⊎◌, inl, inr, Option, none, some, List,
  [], ◌∷◌, length, ltb, leb, is_some, if◌then◌else◌, select,
}
use trace_runtime.LoadTest.Buckets.{LatencyBucket}
use trace_runtime.LoadTest.Collector.{
  TaskResult, Fraction, CollectedResults, CollectError, Round, collect_results,
}

pub record QueueMetrics : Type 0 where
  pub max_visible : ℕ
  pub max_inflight : ℕ

abbrev max : ℕ → ℕ → ℕ
max a b = if ltb b a then a else b

unfoldable pub update : QueueMetrics → ℕ → ℕ → QueueMetrics
update qm visible inflight = record {
  max_visible = max visible qm.max_visible;
  max_inflight = max inflight qm.max_inflight;
}

-- GetQueueAttributes: an error, or the attributes that are there.
pub data Depths : Type 0 where
  unread : Depths
  attributes : Option ℕ → Option ℕ → Depths

abbrev or_zero : Option ℕ → ℕ
or_zero none = 0
or_zero (some n) = n

-- trackQueueMetrics: one element for each tick until the context is cancelled.
unfoldable pub track_queue_metrics : List Depths → QueueMetrics → QueueMetrics
track_queue_metrics [] qm = qm
track_queue_metrics (unread ∷ ticks) qm = track_queue_metrics ticks qm
track_queue_metrics (attributes visible inflight ∷ ticks) qm =
    track_queue_metrics ticks (update qm (or_zero visible) (or_zero inflight))

unfoldable pub check_backlog_converged : Depths → Bool
check_backlog_converged unread = false
check_backlog_converged (attributes visible _) = leb (or_zero visible) 0

pub data RunStatus : Type 0 where
  fail warning pass : RunStatus

-- errorRate > n for a rate in percent.
abbrev above : Fraction → ℕ → Bool
above rate n = ltb (n * rate.den) rate.num

unfoldable pub determine_status : Fraction → ℕ → ℕ → Bool → RunStatus
determine_status error_rate timeouts negative_durations converged =
    if above error_rate 15 || not converged
    then fail
    else if above error_rate 5 || (ltb 0 timeouts || ltb 0 negative_durations)
    then warning
    else pass

-- In percent.
unfoldable pub error_rate : ℕ → ℕ → Fraction
error_rate failed total =
    if ltb 0 total then record { num = failed * 100; den = total } else record { num = 0; den = 1 }

-- In tasks per microsecond.
abbrev throughput : ℕ → ℕ → Fraction
throughput completed duration =
    if ltb 0 duration
    then record { num = completed; den = duration }
    else record { num = 0; den = 1 }

pub data QueueDepthReason : Type 0 where
  no_saturation : QueueDepthReason
  peak_backlog : ℕ → QueueDepthReason

pub data ConcurrencyObservation : Type 0 where
  no_contention : ConcurrencyObservation
  failures_observed : ℕ → ConcurrencyObservation

pub record Recommendations : Type 0 where
  pub current : ℕ
  pub recommended : ℕ
  pub review_depth : Bool
  pub reason : QueueDepthReason
  pub observation : ConcurrencyObservation

pub record StatusCriteria : Type 0 where
  pub error_rate_pct : Fraction
  pub timeouts : ℕ
  pub negative_durations : ℕ
  pub converged : Bool
  pub dlq_triggered : Bool

pub record Report : Type 0 where
  pub duration : ℕ
  pub tasks_submitted : ℕ
  pub collected : CollectedResults
  pub throughput_rps : Fraction
  pub queue_mets : QueueMetrics
  pub recs : Recommendations
  pub status : RunStatus
  pub criteria : StatusCriteria

abbrev pub p95_seconds : Option LatencyBucket → ℕ
p95_seconds none = 0
p95_seconds (some b) = b.p95 / 100000

abbrev recommend : CollectedResults → QueueMetrics → Recommendations
recommend collected qm = record {
  current = 360;
  recommended = max (p95_seconds collected.processing + 30) 360;
  review_depth = ltb 40 qm.max_visible;
  reason = if ltb 40 qm.max_visible then peak_backlog qm.max_visible else no_saturation;
  observation =
      if ltb 0 collected.tasks_failed
      then failures_observed collected.tasks_failed
      else no_contention;
}

abbrev pub submit_errors : List TaskResult → ℕ
submit_errors submissions = length (select (λ s. is_some s.error) submissions)

abbrev pub successes : List TaskResult → ℕ
successes submissions = length (select (λ s. not (is_some s.error)) submissions)

unfoldable pub build_report : ℕ → List TaskResult → CollectedResults → QueueMetrics → Bool → Report
build_report duration submissions collected qm converged =
    let rate =
      error_rate collected.tasks_failed (collected.tasks_completed + collected.tasks_failed) in
    record {
      duration = duration;
      tasks_submitted = successes submissions;
      collected = collected;
      throughput_rps = throughput collected.tasks_completed duration;
      queue_mets = qm;
      recs = recommend collected qm;
      status =
          determine_status rate (submit_errors submissions) collected.negative_durations converged;
      criteria = record {
        error_rate_pct = rate;
        timeouts = submit_errors submissions;
        negative_durations = collected.negative_durations;
        converged = converged;
        dlq_triggered = false;
      };
    }

-- What the run meets outside of the tool: `interrupted`, the context is cancelled while it sends;
-- `send_failed`, sendTasks returns an error.
pub record Env : Type 0 where
  pub interrupted : Bool
  pub send_failed : Bool
  pub submissions : List TaskResult
  pub pool : Bool
  pub rounds : List Round
  pub ticks : List Depths
  pub at_end : Depths
  pub duration : ℕ
  pub range : List (String × ℕ) → List (String × ℕ)

pub data RunError : Type 0 where
  send_tasks none_submitted : RunError
  collect : CollectError → RunError

abbrev then_report : Env → CollectError ⊎ CollectedResults → RunError ⊎ Report
then_report env (inl e) = inl (collect e)
then_report env (inr collected) = inr (
    build_report env.duration env.submissions collected
      (track_queue_metrics env.ticks (record { max_visible = 0; max_inflight = 0 }))
      (check_backlog_converged env.at_end))

unfoldable pub run : Env → RunError ⊎ Report
run env =
    if env.send_failed && not env.interrupted
    then inl send_tasks
    else if leb (successes env.submissions) 0
    then inl none_submitted
    else then_report env (collect_results env.range env.pool env.submissions env.rounds)
