-- ===== src/Tasks.antt =====
-- The `tasks` table of PostgreSQL, and every statement that the three services run on it:
-- services/api/internal/db/tasks.go, services/api/internal/db/dlq.go (the retry),
-- services/worker/internal/db/tasks.go, services/watchdog/internal/db/healing.go (the two queries).
-- A row is a record, a table a list of rows. `id` is the primary key, so a statement on one id
-- reads the first row with it, and an insert of a known id is refused. Times are microseconds.
pub mod Find
pub mod History
pub mod Claims
pub mod Lifecycle
pub mod Queries
pub mod Rows
pub mod Listing
pub mod Pages
use trace_runtime.Prelude.{
  ℕ, ◌+◌, ◌*◌, String, Bool, true, false, ◌&&◌, Option, none, some, List, [], ◌∷◌, ◌++◌, ◌==◌, ltb,
  leb, is_some, if◌then◌else◌, select,
}

-- The values that the CHECK on `status` admits.
pub data Status : Type 0 where
  pending processing completed failed : Status

-- `tokens_per_second` is a float that is only carried: it stands as its bits.
pub record TokenMetrics : Type 0 where
  pub prompt_tokens : ℕ
  pub completion_tokens : ℕ
  pub tokens_per_second : ℕ
  pub model : String

pub record TaskRow : Type 0 where
  pub id : String
  pub trace_id : String
  pub status : Status
  pub created_at : ℕ
  pub updated_at : ℕ
  pub processing_started_at : Option ℕ
  pub completed_at : Option ℕ
  pub artifact_key : Option String
  pub error_message : Option String
  pub tokens : TokenMetrics
  pub input_payload : String
  pub replay_of : Option String
  pub chaos_run_id : Option String

pub record CreateTaskParams : Type 0 where
  pub id : String
  pub trace_id : String
  pub input_payload : String
  pub replay_of : Option String
  pub chaos_run_id : Option String

abbrev pub Table : Type 0
Table = List TaskRow

-- How a statement fares: `up`, it runs and is answered; `down`, it does not run and an error comes
-- back; `cut`, it runs, and an error comes back since the answer is lost.
pub data Link : Type 0 where
  up down cut : Link

abbrev pub no_tokens : TokenMetrics
no_tokens = record { prompt_tokens = 0; completion_tokens = 0; tokens_per_second = 0; model = "" }

-- SELECT … WHERE id = $1
unfoldable pub find : String → Table → Option TaskRow
find k [] = none
find k (r ∷ t) = if r.id == k then some r else find k t

-- UPDATE … WHERE id = $1 AND …: `f` is `none` on a row that the rest of the condition excludes.
unfoldable pub update : String → (TaskRow → Option TaskRow) → Table → Table
update k f [] = []
update k f (r ∷ t) =
    if r.id == k then elim (f r) [ none ↦ r ∷ t | some s ↦ s ∷ t ] else r ∷ update k f t

-- tag.RowsAffected() != 0
unfoldable pub affects : String → (TaskRow → Option TaskRow) → Table → Bool
unfolding find
affects k f t = elim (find k t) [ none ↦ false | some r ↦ is_some (f r) ]

-- The UPDATE statements.
pub data Update : Type 0 where
  -- worker SetProcessing
  claim : Update
  -- worker SetCompleted
  complete : (artifact_key : String) (tm : TokenMetrics) → Update
  -- worker RevertToPending
  revert : Update
  -- worker SetFailed
  fail : (reason : String) → Update
  -- api SetFailed
  reject : (reason : String) → Update
  -- api RevertToPendingForRetry
  retry : Update

-- COALESCE(o, now)
abbrev pub coalesce : Option ℕ → ℕ → ℕ
coalesce none now = now
coalesce (some at) now = at

-- The condition on the status, then the assignments.
dispatch : Status → Update → ℕ → TaskRow → Option TaskRow
dispatch pending claim now r = some (record r {
  status = processing;
  processing_started_at = some (coalesce r.processing_started_at now);
  updated_at = now;
})
dispatch processing (complete artifact_key tm) now r = some (record r {
  status = completed;
  completed_at = some now;
  artifact_key = some artifact_key;
  updated_at = now;
  tokens = tm;
})
dispatch processing revert now r =
    some (record r { status = pending; processing_started_at = none; updated_at = now })
dispatch processing (fail reason) now r = some (record r {
  status = failed;
  completed_at = some now;
  error_message = some reason;
  updated_at = now;
})
dispatch pending (reject reason) now r = some (record r {
  status = failed;
  completed_at = some now;
  error_message = some reason;
  updated_at = now;
})
dispatch failed retry now r =
    some (record r { status = pending; error_message = none; updated_at = now })
dispatch _ _ now r = none

unfoldable pub change : Update → ℕ → TaskRow → Option TaskRow
unfolding dispatch
change u now r = dispatch r.status u now r

-- What a caller is told: `conflict` is ErrStateConflict.
pub data Outcome : Type 0 where
  ok db_error conflict : Outcome

unfoldable pub stored : Link → Update → ℕ → String → Table → Table
stored up u now k t = update k (change u now) t
stored down u now k t = t
stored cut u now k t = update k (change u now) t

-- The worker's functions: no affected row is a conflict.
unfoldable pub checked : Link → Update → ℕ → String → Table → Outcome
checked up u now k t = if affects k (change u now) t then ok else conflict
checked down u now k t = db_error
checked cut u now k t = db_error

-- The API's functions do not look at the count.
unfoldable pub unchecked : Link → Outcome
unchecked up = ok
unchecked down = db_error
unchecked cut = db_error

unfoldable pub set_processing : Link → ℕ → String → Table → Outcome × Table
unfolding stored checked
set_processing link now k t = (checked link claim now k t, stored link claim now k t)

unfoldable pub set_completed : Link → ℕ → String → String → TokenMetrics → Table → Outcome × Table
unfolding stored checked
set_completed link now k key tm t =
    (checked link (complete key tm) now k t, stored link (complete key tm) now k t)

unfoldable pub revert_to_pending : Link → ℕ → String → Table → Outcome × Table
unfolding stored checked
revert_to_pending link now k t = (checked link revert now k t, stored link revert now k t)

unfoldable pub set_failed : Link → ℕ → String → String → Table → Outcome × Table
unfolding stored checked
set_failed link now k reason t =
    (checked link (fail reason) now k t, stored link (fail reason) now k t)

unfoldable pub api_set_failed : Link → ℕ → String → String → Table → Outcome × Table
unfolding stored unchecked
api_set_failed link now k reason t = (unchecked link, stored link (reject reason) now k t)

unfoldable pub revert_to_pending_for_retry : Link → ℕ → String → Table → Outcome × Table
unfolding stored unchecked
revert_to_pending_for_retry link now k t = (unchecked link, stored link retry now k t)

abbrev pub new_row : CreateTaskParams → ℕ → TaskRow
new_row p now = record {
  id = p.id;
  trace_id = p.trace_id;
  status = pending;
  created_at = now;
  updated_at = now;
  processing_started_at = none;
  completed_at = none;
  artifact_key = none;
  error_message = none;
  tokens = no_tokens;
  input_payload = p.input_payload;
  replay_of = p.replay_of;
  chaos_run_id = p.chaos_run_id;
}

-- An id or a chaos run that PostgreSQL does not take, being no UUID or no run of the table, is a connection that is down.
unfoldable pub insert_task : Link → ℕ → CreateTaskParams → Table → Outcome × Table
unfolding find
insert_task down now p t = (db_error, t)
insert_task up now p t =
    if is_some (find p.id t) then (db_error, t) else (ok, t ++ new_row p now ∷ [])
insert_task cut now p t = (db_error, if is_some (find p.id t) then t else t ++ new_row p now ∷ [])
