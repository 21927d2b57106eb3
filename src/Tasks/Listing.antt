-- ===== src/Tasks/Listing.antt =====
-- The queries that list tasks: ListTasks, RecentTaskEvents, GetTaskByTraceID and IsChaosTask of
-- services/api/internal/db/tasks.go, and the handler of services/api/internal/http/task_list.go. A page or a
-- size below 0 is one of 0, which the code treats alike. Among rows of one time, which PostgreSQL may put
-- in any order, the later row stands first.
use mathlib.Core.List.{foldr}
use trace_runtime.Prelude.{
  ℕ, zero, suc, ◌+◌, ◌-◌, ◌*◌, ◌/◌, ◌≤◌, ◌≡◌, refl, sym, ap, ◌∙◌, String, Bool, false, not, ◌&&◌,
  ◌||◌, Option, none, some, List, [], ◌∷◌, ◌++◌, map, length, ◌==◌, ltb, leb, is_some,
  if◌then◌else◌, select, take, drop, arith,
}
use trace_runtime.Tasks.{Status, TaskRow, Table, find}

abbrev pub insert : TaskRow → Table → Table
insert r [] = r ∷ []
insert r (q ∷ t) = if leb q.created_at r.created_at then r ∷ q ∷ t else q ∷ insert r t

-- ORDER BY created_at DESC
unfoldable pub newest_first : Table → Table
newest_first = foldr insert []

abbrev pub status_text : Status → String
status_text Status.pending = "pending"
status_text Status.processing = "processing"
status_text Status.completed = "completed"
status_text Status.failed = "failed"

-- WHERE chaos_run_id IS NULL, and the status if there is a filter.
unfoldable pub listed : String → TaskRow → Bool
listed filter r = not (is_some r.chaos_run_id) && (filter == "" || status_text r.status == filter)

pub record TaskListResult : Type 0 where
  pub tasks : Table
  pub total : ℕ

abbrev pub page_number : ℕ → ℕ
page_number page = if ltb page 1 then 1 else page

abbrev pub page_length : ℕ → ℕ
page_length size = if ltb size 1 || ltb 100 size then 50 else size

unfoldable pub list_tasks : ℕ → ℕ → String → Table → TaskListResult
unfolding newest_first listed
list_tasks page size filter t =
    let rows = select (listed filter) t in
    record {
      tasks =
          take (page_length size)
            (drop ((page_number page - 1) * page_length size) (newest_first rows));
      total = length rows;
    }

unfoldable pub recent_task_events : ℕ → Table → Table
unfolding newest_first listed
recent_task_events limit t =
    take (if leb limit 0 || ltb 100 limit then 50 else limit) (newest_first (select (listed "") t))

abbrev first : Table → Option TaskRow
first [] = none
first (r ∷ _) = some r

unfoldable pub get_task_by_trace_id : String → Table → Option TaskRow
unfolding newest_first
get_task_by_trace_id trace_id t = first (newest_first (select (λ r. r.trace_id == trace_id) t))

abbrev of_chaos : Option TaskRow → Bool
of_chaos none = false
of_chaos (some r) = is_some r.chaos_run_id

-- `answers` is false if the query fails.
unfoldable pub is_chaos_task : Bool → String → Table → Bool
unfolding find
is_chaos_task answers id t = answers && of_chaos (find id t)

-- What the handler makes of page and page_size: a text that is no number is `none`.
abbrev or_first : Option ℕ → ℕ
or_first none = 1
or_first (some n) = if ltb 0 n then n else 1

abbrev or_fifty : Option ℕ → ℕ
or_fifty none = 50
or_fifty (some n) = if ltb 0 n && leb n 100 then n else 50

-- The times stand as they are; a negative duration is 0.
pub record TaskListItem : Type 0 where
  pub task : TaskRow
  pub duration_ms : Option ℕ

abbrev duration : Option ℕ → Option ℕ → Option ℕ
duration (some start) (some end) = some ((end - start) / 1000)
duration _ _ = none

pub record TaskListResponse : Type 0 where
  pub tasks : List TaskListItem
  pub total : ℕ
  pub page : ℕ
  pub page_size : ℕ

unfoldable pub task_list : Option ℕ → Option ℕ → String → Table → TaskListResponse
unfolding list_tasks
task_list page size filter t =
    let result = list_tasks (or_first page) (or_fifty size) filter t in
    record {
      tasks =
          map
            (λ r. record {
              task = r;
              duration_ms = duration r.processing_started_at r.completed_at;
            })
            result.tasks;
      total = result.total;
      page = or_first page;
      page_size = or_fifty size;
    }

take-none : (n : ℕ) → take {A = TaskRow} n [] ≡ []
take-none zero = refl
take-none (suc n) = refl

take-add : (m n : ℕ) (t : Table) → take (m + n) t ≡ take m t ++ take n (drop m t)
take-add zero n t = let same : 0 + n ≡ n = omega arith in ap (λ k. take k t) same
take-add (suc m) n [] = take-none (suc m + n) ∙ sym (take-none n)
take-add (suc m) n (r ∷ t) =
    let same : suc m + n ≡ suc (m + n) = omega arith in
    ap (λ k. take k (r ∷ t)) same ∙ ap (λ s. r ∷ s) (take-add m n t)

take-all : (n : ℕ) (t : Table) → length t ≤ n → take n t ≡ t
take-all zero [] h = refl
take-all zero (r ∷ t) h = absurd (omega (arith, h))
take-all (suc n) [] h = refl
take-all (suc n) (r ∷ t) h = ap (λ s. r ∷ s) (take-all n t (omega (arith, h)))

length-insert : (r : TaskRow) (t : Table) → length (insert r t) ≡ suc (length t)
length-insert r [] = refl
length-insert r (q ∷ t) = ground (arith, length-insert r t)

length-newest_first : (t : Table) → length (newest_first t) ≡ length t
unfolding newest_first
length-newest_first [] = refl
length-newest_first (r ∷ t) = length-insert r (newest_first t) ∙ ap suc (length-newest_first t)

list_tasks-page :
    (n size : ℕ) (filter : String) (t : Table)
    → (list_tasks (suc n) size filter t).tasks
      ≡ take
          (page_length size)
          (drop (n * page_length size) (newest_first (select (listed filter) t)))
unfolding list_tasks
list_tasks-page n size filter t =
    let before : page_number (suc n) - 1 ≡ n = ground arith in
    ap
      (λ m.
        take (page_length size)
          (drop (m * page_length size) (newest_first (select (listed filter) t))))
      before

-- The rows of the first so many pages.
abbrev pub pages : ℕ → ℕ → String → Table → Table
pages zero size filter t = []
pages (suc n) size filter t = pages n size filter t ++ (list_tasks (suc n) size filter t).tasks

pages-take :
    (n size : ℕ) (filter : String) (t : Table)
    → pages n size filter t ≡ take (n * page_length size) (newest_first (select (listed filter) t))
pages-take zero size filter t =
    let none_yet : 0 * page_length size ≡ 0 = omega arith in
    sym (ap (λ m. take m (newest_first (select (listed filter) t))) none_yet)
pages-take (suc n) size filter t =
    let more : suc n * page_length size ≡ n * page_length size + page_length size = omega arith in
    rw (pages-take n size filter t, list_tasks-page n size filter t, more)
      (sym (
        take-add (n * page_length size) (page_length size)
          (newest_first (select (listed filter) t))))

-- The pages of any size, one after the other, are together the whole listing, as soon as there are enough of them for the total that each page reports.
pub pages_whole :
    (n size : ℕ) (filter : String) (t : Table)
    → (list_tasks 1 size filter t).total ≤ n * page_length size
    → pages n size filter t ≡ newest_first (select (listed filter) t)
unfolding list_tasks
pages_whole n size filter t h =
    pages-take n size filter t
    ∙ take-all (n * page_length size) (newest_first (select (listed filter) t))
        (omega (arith, h, length-newest_first (select (listed filter) t)))
