-- ===== src/Chaos/Suites.antt =====
-- Run of cmd/chaos/internal/chaos/runner.go with the statements that it makes on its row, and run of
-- cmd/chaos/main.go. A statement that is made after SIGINT fails: its context is cancelled.
use trace_runtime.Prelude.{
  ℕ, ◌+◌, ◌-◌, String, ◌==◌, Bool, Option, none, some, List, [], ◌∷◌, ltb, if◌then◌else◌, select,
}
use trace_runtime.Tasks.{Link, down}
use trace_runtime.Chaos.{Runs, Tally, insert, set_running, set_completed}
use trace_runtime.Chaos.Reports.{ScenarioReport, compute_summary}
use trace_runtime.Chaos.Runner.{Context, Scenario, World, expired, run_scenario}

pub record SuiteReport : Type 0 where
  pub version : String
  pub run_id : String
  pub git_commit : String
  pub environment : String
  pub timestamp : ℕ
  pub duration : ℕ
  pub summary : Tally
  pub scenarios : List ScenarioReport

pub record Config : Type 0 where
  pub scenario : String
  pub global_timeout : ℕ
  pub run_id : String
  pub git_commit : String

abbrev pub unbounded : ℕ → ℕ → Context
unbounded now timeout = record { deadline = now + timeout }

-- How the database fares, the file of the suite's report, and strings.TrimSpace.
pub record Outside (S : Type 0) : Type 0 where
  pub db : S → Link
  pub write_suite : SuiteReport → S → S
  pub trim : String → String

module _ {S : Type 0} (w : World S) (out : Outside S) where
  -- How a statement fares.
  unfoldable pub link : S → Link
  link s = if w.interrupted s then down else out.db s

  -- ScenarioFilter and filterScenarios.
  unfoldable pub filter_scenarios : String → List (Scenario S) → List (Scenario S)
  filter_scenarios scenario scenarios =
      if scenario == "" then scenarios else select (λ sc. sc.name == out.trim scenario) scenarios

  -- The loop: reports in their order, and the world after it.
  unfoldable pub run_all : Context → List (Scenario S) → S → List ScenarioReport × S
  run_all ctx [] s = ([], s)
  run_all ctx (sc ∷ scs) s =
      let (report, s') = run_scenario w ctx sc s in
      let rest = run_all ctx scs s' in
      if expired w ctx s then ([], s) else (report ∷ rest.0, rest.1)

  abbrev pub suite_of : Config → ℕ → List ScenarioReport → S → SuiteReport
  suite_of cfg began reports s = record {
    version = "1.0";
    run_id = cfg.run_id;
    git_commit = cfg.git_commit;
    environment = "local-docker";
    timestamp = began;
    duration = w.now s - began;
    summary = compute_summary reports;
    scenarios = reports;
  }

  abbrev conclude : Config → String → ℕ → Runs → List ScenarioReport × S → SuiteReport × (Runs × S)
  conclude cfg db_id began runs done =
      let s = done.1 in
      let suite = suite_of cfg began done.0 s in
      (
        suite,
        (
          (set_completed (link s) db_id suite.summary suite.duration (w.now s) runs).1,
          out.write_suite suite s,
        ),
      )

  abbrev go : Config → String → List (Scenario S) → Runs → S → Option SuiteReport × (Runs × S)
  go cfg db_id [] runs s = (none, (runs, s))
  go cfg db_id (sc ∷ scs) runs s =
      let began = w.now s in
      let started = (set_running (link s) db_id began runs).1 in
      let ended =
        conclude cfg db_id began started
          (run_all (unbounded began cfg.global_timeout) (sc ∷ scs) s) in
      (some ended.0, ended.1)

  -- Runner.Run; `none` is the error that no scenario fits the filter.
  unfoldable pub run_suite :
      Config → String → List (Scenario S) → Runs → S → Option SuiteReport × (Runs × S)
  unfolding set_running set_completed run_all filter_scenarios
  run_suite cfg db_id scenarios runs s =
      go cfg db_id (filter_scenarios cfg.scenario scenarios) runs s

  pub data Exit : Type 0 where
    preflight_failed not_registered no_scenarios : Exit
    scenarios_failed : ℕ → Exit
    success : Exit

  abbrev exit_of : Option SuiteReport → Exit
  exit_of none = no_scenarios
  exit_of (some suite) =
      if ltb 0 suite.summary.failed then scenarios_failed suite.summary.failed else success

  abbrev label : String → String
  label scenario = if scenario == "" then "all" else scenario

  abbrev registered : Config → List (Scenario S) → Option String × Runs → S → Exit × (Runs × S)
  registered cfg scenarios (none, runs) s = (not_registered, (runs, s))
  registered cfg scenarios (some db_id, runs) s =
      let ran = run_suite cfg db_id scenarios runs s in (exit_of ran.0, ran.1)

  -- main.go from the preflight on; `id` is the one that the database makes.
  unfoldable pub run : Bool → Config → String → List (Scenario S) → Runs → S → Exit × (Runs × S)
  unfolding insert
  run preflight cfg id scenarios runs s =
      if preflight
      then registered cfg scenarios
          (insert (link s) id cfg.run_id (label cfg.scenario) cfg.git_commit "local-docker"
            (w.now s) runs)
          s
      else (preflight_failed, (runs, s))
