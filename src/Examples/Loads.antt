-- ===== src/Examples/Loads.antt =====
-- Runs of the load test.
use trace_runtime.Prelude.{
  ℕ, ◌+◌, ◌*◌, ◌≤◌, ◌≡◌, refl, true, false, Option, none, some, inr, List, [], ◌∷◌, arith,
}
use trace_runtime.Tasks.{Status}
use trace_runtime.LoadTest.Collector.{
  TaskResult, TaskTimestamps, Round, answered, wait, all_done, count, is_completed, negatives,
  measure,
}
use trace_runtime.LoadTest.Report.{
  Report, RunStatus, Env, attributes, determine_status, error_rate, check_backlog_converged,
  build_report, run,
}
use trace_runtime.LoadTest.Unfinished.{pass-Finished, reported, run-reported, unfinished-passes}

abbrev sent : TaskResult
sent = record { task_id = "a"; trace_id = "b"; submit_at = 5; latency = 7000; error = none }

abbrev row : Status → Option ℕ → TaskTimestamps
row status completed_at = record {
  task_id = "a";
  status = status;
  created_at = 1000;
  processing_started_at = some 3000;
  completed_at = completed_at;
  prompt_tokens = 3;
  completion_tokens = 4;
  tokens_per_second = 2;
  model = "m";
}

abbrev finished : List TaskTimestamps
finished = row Status.completed (some 9000) ∷ []

abbrev hanging : List TaskTimestamps
hanging = row Status.processing none ∷ []

abbrev env : List Round → Env
env rounds = record {
  interrupted = false;
  send_failed = false;
  submissions = sent ∷ [];
  pool = true;
  rounds = rounds;
  ticks = attributes (some 3) none ∷ [];
  at_end = attributes (some 0) none;
  duration = 60000000;
  range = λ m. m;
}

abbrev finished_run : Env
finished_run = env (answered finished ∷ [])

finished-seen : wait finished_run.rounds [] ≡ inr finished
unfolding wait all_done
finished-seen = refl

finished-passed : (reported finished_run finished).status ≡ RunStatus.pass
unfolding determine_status error_rate check_backlog_converged build_report measure count negatives
finished-passed = refl

pass-Finished_example :
    ((reported finished_run finished).collected.tasks_completed
        + (reported finished_run finished).collected.tasks_failed
      ≡ 1)
    × (20 * (reported finished_run finished).collected.tasks_failed ≤ 1)
pass-Finished_example =
    pass-Finished finished_run finished (reported finished_run finished) finished-seen
      (unfold all_done in refl)
      (run-reported finished_run sent [] finished refl refl refl (omega arith) finished-seen)
      finished-passed

unfinished-passes_example :
    (r : Report) × (run (env (answered hanging ∷ [])) ≡ inr r)
    × (r.status ≡ RunStatus.pass)
    × (r.collected.tasks_completed ≡ count is_completed hanging)
    × (r.collected.tasks_failed ≡ 0)
unfinished-passes_example =
    unfinished-passes (env (answered hanging ∷ [])) sent [] hanging refl refl refl refl
      (unfold check_backlog_converged in refl) (unfold wait all_done in refl)
      ((refl, omega arith, tt, tt), tt)
