-- ===== src/Examples/Tables.antt =====
-- Runs of the table of tasks.
use trace_runtime.Prelude.{
  ◌↔◌, ℕ, ◌≡◌, ◌≢◌, refl, true, false, none, some, List, [], ◌∷◌, arith, is_some,
}
use trace_runtime.Tasks.{
  pending, failed, TaskRow, Table, up, CreateTaskParams, find, claim, fail, change, set_processing,
  revert_to_pending_for_retry, ok, insert_task, new_row, stored, checked, affects, update,
}
use trace_runtime.Tasks.History.{Statement, insert, on, Request, run, run_one}
use trace_runtime.Tasks.Claims.{claim_exclusive}
use trace_runtime.Tasks.Queries.{stuck_tasks, retry_keeps_start, is_abandoned}
use trace_runtime.Tasks.Listing.{listed, newest_first, list_tasks, pages}
use trace_runtime.Tasks.Pages.{Descending, In, Asked, pages_complete}
use trace_runtime.Tasks.Rows.{Fits, run-Fits, Later, run-Later}

abbrev pub task_params : CreateTaskParams
task_params = record {
  id = "t1";
  trace_id = "abc";
  input_payload = "hello";
  replay_of = none;
  chaos_run_id = none;
}

abbrev ask : ℕ → Statement → Request
ask now st = record { link = up; now = now; statement = st }

-- A task is created, claimed and failed.
abbrev pub failed_row : TaskRow
failed_row = record (new_row task_params 1) {
  status = failed;
  processing_started_at = some 2;
  completed_at = some 3;
  error_message = some "s3_write_error";
  updated_at = 3;
}

abbrev pub waiting_table : Table
waiting_table = new_row task_params 1 ∷ []

abbrev story : List Request
story =
    ask 1 (insert task_params)
    ∷ ask 2 (on "t1" claim)
    ∷ ask 3 (on "t1" (fail "s3_write_error"))
    ∷ []

run-Fits_example : Fits failed failed_row
run-Fits_example =
    run-Fits story "t1" failed_row
      (unfold run run_one insert_task set_processing stored update change find in refl)

run-Later_example :
    (s : TaskRow) × (find "t1" (run story waiting_table) ≡ some s) × Later (new_row task_params 1) s
run-Later_example = run-Later story "t1" waiting_table (new_row task_params 1) (unfold find in refl)

claim_exclusive_example :
    (set_processing up 9 "t1"
      (run (ask 5 (on "t1" (fail "x")) ∷ []) (set_processing up 2 "t1" waiting_table).1)).0
    ≢ ok
claim_exclusive_example =
    claim_exclusive up 2 "t1" waiting_table (ask 5 (on "t1" (fail "x")) ∷ []) up 9
      (unfold set_processing checked affects find change in refl) (refl, tt)

retry_keeps_start_example :
    ((s : TaskRow) × (find "t1" (revert_to_pending_for_retry up 5 "t1" (failed_row ∷ [])).1
        ≡ some s)
      × (s.status ≡ pending)
      × (is_abandoned 60 100000000 s ≡ false))
    × (is_some (
          find "t1" (
            stuck_tasks 60 100000000
              (set_processing up 100000000 "t1"
                (revert_to_pending_for_retry up 5 "t1" (failed_row ∷ [])).1).1))
        ≡ true)
retry_keeps_start_example =
    retry_keeps_start 60 5 100000000 "t1" (failed_row ∷ []) failed_row 2 (unfold find in refl) refl
      refl (omega arith)

pages_complete_example :
    Descending (pages 1 20 "pending" waiting_table)
    × ((r : TaskRow)
        → In r (pages 1 20 "pending" waiting_table) ↔ (In r waiting_table × Asked "pending" r))
pages_complete_example =
    pages_complete 1 20 "pending" waiting_table (tt, tt)
      (unfold list_tasks listed newest_first in omega arith)
