-- ===== src/Chaos.antt =====
-- The chaos tool, cmd/chaos: its table of runs (cmd/chaos/internal/chaos/chaos_run.go) here, the runner
-- and the reports in the children. A statement of one id changes the rows with that id. Times are
-- microseconds of one clock.
pub mod Reports
pub mod Runner
pub mod Course
pub mod Suites
pub mod Recorded
pub mod Artifacts
pub mod Preflight
pub mod Waits
pub mod Ops
pub mod Objectives
pub mod Helpers
pub mod Chains
pub mod AiFailure
pub mod RuntimeHang
pub mod SlowInference
pub mod PostgresFailure
pub mod Docker
pub mod Checker
pub mod QueueFlood
pub mod WorkerCrash
use trace_runtime.Prelude.{
  ℕ, ◌+◌, String, Bool, true, false, not, ◌&&◌, ◌||◌, Option, none, some, List, [], ◌∷◌, ◌++◌, map,
  length, ◌==◌, ltb, if◌then◌else◌, select,
}
use trace_runtime.Tasks.{Link, up, down, cut}

pub data RunStatus : Type 0 where
  queued running completed failed cancelled purged deleted : RunStatus

pub record ChaosRun : Type 0 where
  pub id : String
  pub run_id : String
  pub scenario : String
  pub status : RunStatus
  pub git_commit : String
  pub environment : String
  pub total_scenarios : ℕ
  pub passed_scenarios : ℕ
  pub warned_scenarios : ℕ
  pub failed_scenarios : ℕ
  pub duration : ℕ
  pub queued_at : ℕ
  pub started_at : Option ℕ
  pub completed_at : Option ℕ
  pub purged_at : Option ℕ
  pub deleted_at : Option ℕ

abbrev pub Runs : Type 0
Runs = List ChaosRun

abbrev on_row : String → (ChaosRun → ChaosRun) → ChaosRun → ChaosRun
on_row id change r = if r.id == id then change r else r

-- An UPDATE of the rows with an id, and whether the caller gets an error.
unfoldable pub exec : Link → String → (ChaosRun → ChaosRun) → Runs → Bool × Runs
exec up id change runs = (true, map (on_row id change) runs)
exec cut id change runs = (false, map (on_row id change) runs)
exec down id change runs = (false, runs)

abbrev new_run : String → String → String → String → String → ℕ → ChaosRun
new_run id run_id scenario git_commit environment now = record {
  id = id;
  run_id = run_id;
  scenario = scenario;
  status = queued;
  git_commit = git_commit;
  environment = environment;
  total_scenarios = 0;
  passed_scenarios = 0;
  warned_scenarios = 0;
  failed_scenarios = 0;
  duration = 0;
  queued_at = now;
  started_at = none;
  completed_at = none;
  purged_at = none;
  deleted_at = none;
}

-- Insert; `id` is the one that the database makes.
unfoldable pub insert :
    Link → String → String → String → String → String → ℕ → Runs → Option String × Runs
insert up id run_id scenario git_commit environment now runs =
    (some id, runs ++ new_run id run_id scenario git_commit environment now ∷ [])
insert cut id run_id scenario git_commit environment now runs =
    (none, runs ++ new_run id run_id scenario git_commit environment now ∷ [])
insert down id run_id scenario git_commit environment now runs = (none, runs)

abbrev pub to_running : ℕ → ChaosRun → ChaosRun
to_running now r = record r { status = running; started_at = some now }

unfoldable pub set_running : Link → String → ℕ → Runs → Bool × Runs
set_running link id now = exec link id (to_running now)

pub record Tally : Type 0 where
  pub total : ℕ
  pub passed : ℕ
  pub warned : ℕ
  pub failed : ℕ

abbrev pub to_completed : Tally → ℕ → ℕ → ChaosRun → ChaosRun
to_completed tally duration now r = record r {
  status = if ltb 0 tally.failed then failed else completed;
  completed_at = some now;
  total_scenarios = tally.total;
  passed_scenarios = tally.passed;
  warned_scenarios = tally.warned;
  failed_scenarios = tally.failed;
  duration = duration;
}

unfoldable pub set_completed : Link → String → Tally → ℕ → ℕ → Runs → Bool × Runs
set_completed link id tally duration now = exec link id (to_completed tally duration now)

unfoldable pub set_cancelled : Link → String → ℕ → Runs → Bool × Runs
set_cancelled link id now =
    exec link id (λ r. record r { status = cancelled; completed_at = some now })

unfoldable pub mark_purged : Link → String → ℕ → Runs → Bool × Runs
mark_purged link id now = exec link id (λ r. record r { status = purged; purged_at = some now })

abbrev pub is_gone : RunStatus → Bool
is_gone purged = true
is_gone deleted = true
is_gone _ = false

unfoldable pub soft_delete : Link → String → ℕ → Runs → Bool × Runs
soft_delete link id now =
    exec link id
      (λ r. if is_gone r.status then r else record r { status = deleted; deleted_at = some now })
