-- ===== src/Tasks/Lifecycle.antt =====
-- The life of a task: which changes of status the statements of Tasks make, over any sequence of
-- them that the services send.
use trace_runtime.Prelude.{ℕ, ◌≡◌, some, arith}
use trace_runtime.Tasks.{Status, pending, processing, completed, failed, TaskRow, Update, change}

-- The diagram of the statuses.
infix 40 ◌⟶◌
pub data ◌⟶◌ : Status → Status → Type 0 where
  claim : pending ⟶ processing
  complete : processing ⟶ completed
  revert : processing ⟶ pending
  fail : processing ⟶ failed
  reject : pending ⟶ failed
  retry : failed ⟶ pending

ruleset edges = (claim, complete, revert, fail, reject, retry)

pub change-⟶ :
    (u : Update) (now : ℕ) (r : TaskRow) {s : TaskRow}
    → change u now r ≡ some s
    → r.status ⟶ s.status
unfolding change
change-⟶ u now r h = grind (arith, edges)

-- What no statement writes after the insert.
pub record Same (r s : TaskRow) : Type 0 where
  pub id : r.id ≡ s.id
  pub trace_id : r.trace_id ≡ s.trace_id
  pub created_at : r.created_at ≡ s.created_at
  pub input_payload : r.input_payload ≡ s.input_payload
  pub replay_of : r.replay_of ≡ s.replay_of
  pub chaos_run_id : r.chaos_run_id ≡ s.chaos_run_id

pub change-Same :
    (u : Update) (now : ℕ) (r : TaskRow) {s : TaskRow} → change u now r ≡ some s → Same r s
unfolding change
change-Same u now r h = ground arith
