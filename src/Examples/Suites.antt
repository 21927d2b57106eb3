-- ===== src/Examples/Suites.antt =====
-- Runs of the chaos tool and of the endpoints that queue its runs.
use trace_runtime.Prelude.{ℕ, ◌+◌, false, none, some, inr, []}
use trace_runtime.Tasks.{up}
use trace_runtime.Chaos.{ChaosRun, RunStatus}
use trace_runtime.Chaos.Runner.{Context, Scenario, World, run_scenario}
use trace_runtime.Chaos.Course.{Course, traced, watched, run_scenario-Course}
use trace_runtime.Chaos.Suites.{Config, Outside}

-- A world that is its clock; each stage takes a second.
abbrev second : ℕ → ℕ
second s = s + 1000000

abbrev pub clock : World ℕ
clock = record { now = λ s. s; interrupted = λ _. false; write_report = λ _ s. s }

abbrev pub probe : Scenario ℕ
probe = record {
  name = "queue-flood";
  timeout = 60000000;
  setup = λ _ s. (none, second s);
  inject = λ _ s. (some "docker", second s);
  observe = λ _ s. (inr none, second s);
  validate = λ _ _ s. (inr none, second s);
  cleanup = λ _ s. (none, second s);
}

abbrev limits : Context
limits = record { deadline = 900000000 }

run_scenario-Course_example :
    Course probe
      (record { deadline = 60000005 })
      5
      (run_scenario (watched clock) limits (traced probe) (5, [])).1.1
      (run_scenario clock limits probe 5).0.status
run_scenario-Course_example = run_scenario-Course clock limits probe 5

abbrev pub config : Config
config = record {
  scenario = "";
  global_timeout = 900000000;
  run_id = "chaos-all";
  git_commit = "abc";
}

abbrev pub queued_run : ChaosRun
queued_run = record {
  id = "7";
  run_id = "chaos-all";
  scenario = "all";
  status = RunStatus.queued;
  git_commit = "abc";
  environment = "local-docker";
  total_scenarios = 0;
  passed_scenarios = 0;
  warned_scenarios = 0;
  failed_scenarios = 0;
  duration = 0;
  queued_at = 1;
  started_at = none;
  completed_at = none;
  purged_at = none;
  deleted_at = none;
}

abbrev pub steady : Outside ℕ
steady = record { db = λ _. up; write_suite = λ _ s. s; trim = λ x. x }
