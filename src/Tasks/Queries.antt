-- ===== src/Tasks/Queries.antt =====
-- The watchdog's two queries on the `tasks` table, StuckTasks and AbandonedTasks of
-- services/watchdog/internal/db/healing.go, and what a retry from the dead-letter queue
-- (services/api/internal/db/dlq.go) means for them.
use trace_runtime.Prelude.{
  ℕ, ◌+◌, ◌*◌, ◌<◌, String, ◌≡◌, refl, Bool, true, false, ◌&&◌, not, Option, none, some, List, [],
  ◌∷◌, eq_refl, arith, ltb, is_some, select,
}
use trace_runtime.Tasks.{
  Status, pending, processing, failed, TaskRow, Table, up, find, claim, retry, change, stored,
  set_processing, revert_to_pending_for_retry,
}
use trace_runtime.Tasks.Find.{find-stored}

-- make_interval(secs => n)
abbrev pub interval : ℕ → ℕ
interval seconds = seconds * 1000000

-- `at < NOW() - interval`; a NULL is never before.
abbrev before : Option ℕ → ℕ → ℕ → Bool
before none seconds now = false
before (some at) seconds now = ltb (at + interval seconds) now

abbrev is_processing : Status → Bool
is_processing processing = true
is_processing _ = false

abbrev is_pending : Status → Bool
is_pending pending = true
is_pending _ = false

pub is_stuck : ℕ → ℕ → TaskRow → Bool
is_stuck seconds now r = is_processing r.status && before r.processing_started_at seconds now

pub is_abandoned : ℕ → ℕ → TaskRow → Bool
is_abandoned seconds now r =
    is_pending r.status
    && (not (is_some r.processing_started_at) && before (some r.created_at) seconds now)

unfoldable pub stuck_tasks : ℕ → ℕ → Table → List TaskRow
unfolding is_stuck
stuck_tasks seconds now t = select (is_stuck seconds now) t

unfoldable pub abandoned_tasks : ℕ → ℕ → Table → List TaskRow
unfolding is_abandoned
abandoned_tasks seconds now t = select (is_abandoned seconds now) t

find-select :
    (p : TaskRow → Bool) (k : String) (t : Table) (r : TaskRow)
    → find k t ≡ some r
    → p r ≡ true
    → find k (select p t) ≡ some r
unfolding find
find-select p k [] r h e = h
find-select p k (s ∷ t) r h e = ground (arith, find-select p k t r)

-- The row after a retry at `now` and a claim at `later`.
retried : ℕ → ℕ → TaskRow → TaskRow
retried now later r = record r { status = processing; error_message = none; updated_at = later }

find-retry-claim :
    (now later : ℕ) (k : String) (t : Table) (r : TaskRow) (at : ℕ)
    → find k t ≡ some r
    → r.status ≡ failed
    → r.processing_started_at ≡ some at
    → find k (stored up claim later k (stored up retry now k t)) ≡ some (retried now later r)
unfolding retried change
find-retry-claim now later k t r at h f e = rw (find-stored, find-stored, eq_refl, h) (ground arith)

-- A retry keeps the start of the first attempt. A task that a worker failed, once retried from the
-- dead-letter queue and claimed again, is therefore reported stuck as soon as the first attempt's
-- start is older than the threshold, however recent the new claim is.
retry_reported_stuck :
    (seconds now later : ℕ) (k : String) (t : Table) (r : TaskRow) (at : ℕ)
    → find k t ≡ some r
    → r.status ≡ failed
    → r.processing_started_at ≡ some at
    → at + interval seconds < later
    → let retried_table = (revert_to_pending_for_retry up now k t).1 in
      is_some (find k (stuck_tasks seconds later (set_processing up later k retried_table).1))
      ≡ true
unfolding stuck_tasks set_processing revert_to_pending_for_retry retried
retry_reported_stuck seconds now later k t r at h f e old =
    rw
      (find-select (is_stuck seconds later) k _ (retried now later r)
        (find-retry-claim now later k t r at h f e) (ground arith))
      refl

-- A task that a worker failed, once retried from the dead-letter queue, is pending again, and its
-- row does not meet the condition of AbandonedTasks, however long it then waits for a worker.
retry_not_abandoned :
    (seconds now later : ℕ) (k : String) (t : Table) (r : TaskRow) (at : ℕ)
    → find k t ≡ some r
    → r.status ≡ failed
    → r.processing_started_at ≡ some at
    → (s : TaskRow) × (find k (revert_to_pending_for_retry up now k t).1 ≡ some s)
      × (s.status ≡ pending)
      × (is_abandoned seconds later s ≡ false)
unfolding revert_to_pending_for_retry abandoned_tasks
retry_not_abandoned seconds now later k t r at h f e = (
  record r { status = pending; error_message = none; updated_at = now },
  rw (find-stored, eq_refl, h) (unfold change in ground arith),
  refl,
  ground arith,
)

-- A task that a worker failed keeps the start of its first attempt through a retry from the dead-letter queue: it is pending again, and its row does not meet the condition of AbandonedTasks, however long it then waits for a worker; and once it is claimed again, it is reported stuck as soon as the first attempt's start is older than the threshold, however recent the new claim is.
pub retry_keeps_start :
    (seconds now later : ℕ) (k : String) (t : Table) (r : TaskRow) (at : ℕ)
    → find k t ≡ some r
    → r.status ≡ failed
    → r.processing_started_at ≡ some at
    → at + interval seconds < later
    → let retried_table = (revert_to_pending_for_retry up now k t).1 in
      ((s : TaskRow) × (find k retried_table ≡ some s)
        × (s.status ≡ pending)
        × (is_abandoned seconds later s ≡ false))
      × (is_some (find k (stuck_tasks seconds later (set_processing up later k retried_table).1))
          ≡ true)
retry_keeps_start seconds now later k t r at h f e old = (
  retry_not_abandoned seconds now later k t r at h f e,
  retry_reported_stuck seconds now later k t r at h f e old,
)
