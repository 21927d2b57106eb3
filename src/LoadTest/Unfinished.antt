-- ===== src/LoadTest/Unfinished.antt =====
-- What the verdict of the load test says of the tasks, and what it does not.
use trace_runtime.Prelude.{
  ℕ, ◌+◌, ◌*◌, ◌≤◌, ◌<◌, String, ◌≡◌, refl, sym, ap, ◌∙◌, Bool, true, false, Option, none, some,
  ◌⊎◌, inr, List, [], ◌∷◌, length, arith, select, All, All-append,
}
use trace_runtime.LoadTest.Collector.{
  TaskResult, TaskTimestamps, CollectError, all_done, wait, count, is_completed, is_failed,
  queue_wait, processing_time, end_to_end_time, between, gather, negatives, measure,
  collect_results, submitted,
}
use trace_runtime.LoadTest.Report.{
  track_queue_metrics, Report, RunStatus, Env, determine_status, error_rate, build_report, run,
  submit_errors, successes, check_backlog_converged,
}

all_done-counts :
    (rows : List TaskTimestamps)
    → all_done rows ≡ true
    → count is_completed rows + count is_failed rows ≡ length rows
unfolding all_done count
all_done-counts [] h = omega arith
all_done-counts (t ∷ ts) h = ground (arith, all_done-counts ts)

pass-share :
    (failed completed timeouts negative : ℕ) (converged : Bool)
    → determine_status (error_rate failed (completed + failed)) timeouts negative converged
      ≡ RunStatus.pass
    → 20 * failed ≤ completed + failed
unfolding determine_status error_rate
pass-share failed completed timeouts negative converged h = ground arith

abbrev env_rows : Env → CollectError ⊎ List TaskTimestamps
env_rows env = wait env.rounds []

run-report :
    (env : Env) (rows : List TaskTimestamps) (r : Report)
    → env_rows env ≡ inr rows
    → run env ≡ inr r
    → (r.collected ≡ measure env.range env.submissions rows)
      × (r.status
          ≡ determine_status
              (error_rate (count is_failed rows) (count is_completed rows + count is_failed rows))
              (submit_errors env.submissions)
              r.collected.negative_durations
              (check_backlog_converged env.at_end))
unfolding run collect_results build_report measure
run-report env rows r seen h = ground (arith, seen)

-- If the wait has ended because no task was open any more, a verdict PASS means that the completed and the failed tasks are together all the tasks that the database knows of, and that at most one in twenty of them failed.
pub pass-Finished :
    (env : Env) (rows : List TaskTimestamps) (r : Report)
    → wait env.rounds [] ≡ inr rows
    → all_done rows ≡ true
    → run env ≡ inr r
    → r.status ≡ RunStatus.pass
    → (r.collected.tasks_completed + r.collected.tasks_failed ≡ length rows)
      × (20 * r.collected.tasks_failed ≤ length rows)
unfolding measure
pass-Finished env rows r seen done h p =
    let (measured, judged) = run-report env rows r seen h in
    let share =
      pass-share (count is_failed rows) (count is_completed rows) (submit_errors env.submissions)
        r.collected.negative_durations (check_backlog_converged env.at_end) (sym judged ∙ p) in
    rw measured (all_done-counts rows done, omega (arith, share, all_done-counts rows done))

abbrev NotBefore : Option ℕ → Option ℕ → Type 0
NotBefore (some a) (some b) = a ≤ b
NotBefore _ _ = Unit

-- A task that has not failed and whose times are in order.
abbrev Calm : TaskTimestamps → Type 0
Calm t =
    (is_failed t ≡ false)
    × NotBefore (some t.created_at) t.processing_started_at
    × NotBefore t.processing_started_at t.completed_at
    × NotBefore (some t.created_at) t.completed_at

Calm-failed : (rows : List TaskTimestamps) → All Calm rows → count is_failed rows ≡ 0
unfolding count
Calm-failed [] c = refl
Calm-failed (t ∷ ts) c = rw c.0.0 (Calm-failed ts c.1)

determine_status-calm :
    (completed : ℕ) → determine_status (error_rate 0 (completed + 0)) 0 0 true ≡ RunStatus.pass
unfolding determine_status error_rate
determine_status-calm completed = ground arith

abbrev Forward : List (Bool × ℕ) → Type 0
Forward = All (λ d. d.0 ≡ false)

between-Forward : (a b : Option ℕ) → NotBefore a b → Forward (between a b)
between-Forward none b h = tt
between-Forward (some a) none h = tt
between-Forward (some a) (some b) h = (ground arith, tt)

select-Forward : (ds : List (Bool × ℕ)) → Forward ds → select (λ d. d.0) ds ≡ []
select-Forward [] h = refl
select-Forward (d ∷ ds) h = rw h.0 (select-Forward ds h.1)

module _ (f : TaskTimestamps → List (Bool × ℕ))
    (ordered : (t : TaskTimestamps) → Calm t → Forward (f t)) where
  gather-Forward : (rows : List TaskTimestamps) → All Calm rows → Forward (gather f rows)
  gather-Forward [] c = tt
  gather-Forward (t ∷ ts) c =
      All-append (λ d. d.0 ≡ false) (f t) (gather f ts) (ordered t c.0) (gather-Forward ts c.1)

  negatives-none : (rows : List TaskTimestamps) → All Calm rows → negatives f rows ≡ 0
  unfolding negatives
  negatives-none rows c = rw (select-Forward (gather f rows) (gather-Forward rows c)) refl

submitted-successes : (ss : List TaskResult) → length (submitted ss) ≤ successes ss
submitted-successes [] = omega arith
submitted-successes (s ∷ ss) = ground (arith, submitted-successes ss)

measure-Calm :
    (range : List (String × ℕ) → List (String × ℕ)) (ss : List TaskResult)
    (rows : List TaskTimestamps)
    → All Calm rows
    → (measure range ss rows).negative_durations ≡ 0
unfolding measure
measure-Calm range ss rows c =
    rw
      (
        negatives-none queue_wait
            (λ t k. between-Forward (some t.created_at) t.processing_started_at k.1) rows c,
        negatives-none processing_time
            (λ t k. between-Forward t.processing_started_at t.completed_at k.2) rows c,
        negatives-none end_to_end_time
            (λ t k. between-Forward (some t.created_at) t.completed_at k.3) rows c,
      )
      refl

abbrev pub reported : Env → List TaskTimestamps → Report
reported env rows =
    build_report env.duration env.submissions (measure env.range env.submissions rows)
      (track_queue_metrics env.ticks (record { max_visible = 0; max_inflight = 0 }))
      (check_backlog_converged env.at_end)

pub run-reported :
    (env : Env) (s : TaskResult) (ss : List TaskResult) (rows : List TaskTimestamps)
    → env.send_failed ≡ false
    → env.pool ≡ true
    → submitted env.submissions ≡ s ∷ ss
    → 0 < successes env.submissions
    → wait env.rounds [] ≡ inr rows
    → run env ≡ inr (reported env rows)
unfolding run collect_results
run-reported env s ss rows sent pool some_sent ok seen =
    ground (arith, sent, pool, some_sent, ok, seen)

-- A run whose submissions all succeeded and whose queue is empty at the end is judged PASS if no task has failed and no times are out of order when the deadline passes, however many of the tasks are still pending or processing then. The report counts only the completed ones.
pub unfinished-passes :
    (env : Env) (s : TaskResult) (ss : List TaskResult) (rows : List TaskTimestamps)
    → env.send_failed ≡ false
    → env.pool ≡ true
    → submitted env.submissions ≡ s ∷ ss
    → submit_errors env.submissions ≡ 0
    → check_backlog_converged env.at_end ≡ true
    → wait env.rounds [] ≡ inr rows
    → All Calm rows
    → (r : Report) × (run env ≡ inr r)
      × (r.status ≡ RunStatus.pass)
      × (r.collected.tasks_completed ≡ count is_completed rows)
      × (r.collected.tasks_failed ≡ 0)
unfolding measure determine_status error_rate count check_backlog_converged build_report
unfinished-passes env s ss rows sent pool some_sent no_errors empty seen calm =
    let ok : 0 < successes env.submissions =
      omega (arith, submitted-successes env.submissions, ap length some_sent) in
    let runs = run-reported env s ss rows sent pool some_sent ok seen in
    let (measured, judged) = run-report env rows (reported env rows) seen runs in
    let calm_times : (reported env rows).collected.negative_durations ≡ 0 =
      ap (λ c. c.negative_durations) measured ∙ measure-Calm env.range env.submissions rows calm in
    (
      reported env rows,
      runs,
      judged
          ∙ rw (Calm-failed rows calm, no_errors, calm_times, empty)
              (determine_status-calm (count is_completed rows)),
      ap (λ c. c.tasks_completed) measured,
      ap (λ c. c.tasks_failed) measured ∙ Calm-failed rows calm,
    )
