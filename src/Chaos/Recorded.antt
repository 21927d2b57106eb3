-- ===== src/Chaos/Recorded.antt =====
-- What a suite leaves in the table of runs.
use trace_runtime.Prelude.{
  ℕ, ◌+◌, String, ◌==◌, ◌≡◌, refl, ap, Bool, true, false, Option, none, some, List, [], ◌∷◌, length,
  arith, ltb, if◌then◌else◌, select,
}
use trace_runtime.Tasks.{up, down}
use trace_runtime.Chaos.{
  RunStatus, ChaosRun, Runs, Tally, exec, to_running, to_completed, set_running, set_completed,
}
use trace_runtime.Chaos.Reports.{ScenarioReport, SloStatus, tally_one, tally_all, compute_summary}
use trace_runtime.Chaos.Runner.{Scenario, World}
use trace_runtime.Chaos.Suites.{
  Config, Outside, SuiteReport, link, filter_scenarios, run_all, run_suite, unbounded, suite_of,
}

-- The row of a run.
unfoldable pub find_run : String → Runs → Option ChaosRun
find_run id [] = none
find_run id (r ∷ rs) = if r.id == id then some r else find_run id rs

find_run-exec :
    (id : String) (change : ChaosRun → ChaosRun) (same : (r : ChaosRun) → (change r).id ≡ r.id)
    (runs : Runs) (row : ChaosRun)
    → find_run id runs ≡ some row
    → find_run id (exec up id change runs).1 ≡ some (change row)
unfolding find_run exec
find_run-exec id change same [] row h = absurd (ground (arith, h))
find_run-exec id change same (r ∷ rs) row h =
    ground (arith, h, same r, ap change, find_run-exec id change same rs row)

abbrev pub is_fail : ScenarioReport → Bool
is_fail r = elim (r.status) [ SloStatus.fail ↦ true | _ ↦ false ]

abbrev pub failures : List ScenarioReport → ℕ
failures rs = length (select is_fail rs)

tally_all-sum :
    (rs : List ScenarioReport) (t : Tally)
    → (tally_all rs t).passed + (tally_all rs t).warned + (tally_all rs t).failed
      ≡ t.passed + t.warned + t.failed + length rs
tally_all-sum [] t = omega arith
tally_all-sum (r ∷ rs) t = ground (arith, tally_all-sum rs (tally_one r.status t))

tally_all-failed :
    (rs : List ScenarioReport) (t : Tally) → (tally_all rs t).failed ≡ t.failed + failures rs
tally_all-failed [] t = omega arith
tally_all-failed (r ∷ rs) t = ground (arith, tally_all-failed rs (tally_one r.status t))

tally_all-total : (rs : List ScenarioReport) (t : Tally) → (tally_all rs t).total ≡ t.total
tally_all-total [] t = refl
tally_all-total (r ∷ rs) t = ground (arith, tally_all-total rs (tally_one r.status t))

module _ (rs : List ScenarioReport) where
  summary-sum :
      (compute_summary rs).passed + (compute_summary rs).warned + (compute_summary rs).failed
      ≡ length rs
  unfolding compute_summary
  summary-sum =
      omega
        (arith, tally_all-sum rs (record { total = length rs; passed = 0; warned = 0; failed = 0 }))

  summary-failed : (compute_summary rs).failed ≡ failures rs
  unfolding compute_summary
  summary-failed = omega (
    arith,
    tally_all-failed rs (record { total = length rs; passed = 0; warned = 0; failed = 0 }),
  )

  summary-total : (compute_summary rs).total ≡ length rs
  unfolding compute_summary
  summary-total = tally_all-total rs _

-- The suite, once it has scenarios to run.
module _ {S : Type 0} (w : World S) (out : Outside S) (cfg : Config) (id : String)
    (scenarios : List (Scenario S)) (runs : Runs) (s : S) (sc : Scenario S)
    (scs : List (Scenario S))
    (chosen : filter_scenarios w out cfg.scenario scenarios ≡ sc ∷ scs) where
  abbrev done : List ScenarioReport × S
  done = run_all w out (unbounded (w.now s) cfg.global_timeout) (sc ∷ scs) s

  abbrev suite : SuiteReport
  suite = suite_of w out cfg (w.now s) done.0 done.1

  run_suite-reports : (run_suite w out cfg id scenarios runs s).0 ≡ some suite
  unfolding run_suite
  run_suite-reports = rw chosen refl

  run_suite-runs :
      (run_suite w out cfg id scenarios runs s).1.0
      ≡ (set_completed
          (link w out done.1)
          id
          suite.summary
          suite.duration
          (w.now done.1)
          (set_running (link w out s) id (w.now s) runs).1).1
  unfolding run_suite
  run_suite-runs = rw chosen refl

  module _ (row : ChaosRun) (there : find_run id runs ≡ some row) (begun : link w out s ≡ up) where
    started-row :
        find_run id (set_running (link w out s) id (w.now s) runs).1
        ≡ some (to_running (w.now s) row)
    unfolding set_running
    started-row = rw begun (find_run-exec id (to_running (w.now s)) (λ r. refl) runs row there)

    abbrev ended_row : ChaosRun
    ended_row = to_completed suite.summary suite.duration (w.now done.1) (to_running (w.now s) row)

    recorded :
        link w out done.1 ≡ up
        → find_run id (run_suite w out cfg id scenarios runs s).1.0 ≡ some ended_row
    unfolding set_completed
    recorded ended =
        rw (run_suite-runs, ended)
          (find_run-exec id (to_completed suite.summary suite.duration (w.now done.1)) (λ r. refl)
            (set_running (link w out s) id (w.now s) runs).1 (to_running (w.now s) row) started-row)

    -- A suite whose two statements are answered leaves its run with the numbers of the reports that it made, passed, warned and failed ones together as many as there are reports, and with the status failed exactly if a scenario failed, else completed, also if the global timeout has cut it off.
    pub run_suite-Recorded :
        link w out done.1 ≡ up
        → (suite : SuiteReport) × (after : ChaosRun) × ((run_suite w out cfg id scenarios runs s).0
            ≡ some suite)
          × (find_run id (run_suite w out cfg id scenarios runs s).1.0 ≡ some after)
          × (after.passed_scenarios + after.warned_scenarios + after.failed_scenarios
              ≡ length suite.scenarios)
          × (after.total_scenarios ≡ length suite.scenarios)
          × (after.status ≡ (
              if ltb 0 (failures suite.scenarios) then RunStatus.failed else RunStatus.completed))
    run_suite-Recorded ended = (
      suite,
      ended_row,
      run_suite-reports,
      recorded ended,
      summary-sum done.0,
      summary-total done.0,
      ap (λ n. if ltb 0 n then RunStatus.failed else RunStatus.completed) (summary-failed done.0),
    )

    -- SIGINT before the end: the second statement does not run.
    pub run_suite-Interrupted :
        link w out done.1 ≡ down
        → find_run id (run_suite w out cfg id scenarios runs s).1.0
          ≡ some (to_running (w.now s) row)
    unfolding set_completed exec
    run_suite-Interrupted ended = rw (run_suite-runs, ended) started-row
