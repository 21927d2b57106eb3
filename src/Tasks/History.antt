-- ===== src/Tasks/History.antt =====
-- Sequences of statements on the table, as the connections of the API and of the worker interleave them. What the chaos
-- tool does to the table besides, deletion and failing in bulk, is in Chaos/Artifacts and Chaos/Checker.
use trace_runtime.Prelude.{
  ℕ, String, ◌≡◌, refl, ap, ◌∙◌, Option, none, some, List, [], ◌∷◌, ◌==◌, eq_iff, arith, is_some,
  if◌then◌else◌, if_ind,
}
use trace_runtime.Tasks.{
  TaskRow, Table, Link, up, down, cut, find, Update, change, stored, CreateTaskParams, new_row,
  insert_task,
}
use trace_runtime.Tasks.Find.{after, changed, find-stored, find-append}

pub data Statement : Type 0 where
  insert : CreateTaskParams → Statement
  on : String → Update → Statement

-- One statement, the time at which it runs, and how its connection fares.
pub record Request : Type 0 where
  pub link : Link
  pub now : ℕ
  pub statement : Statement

apply : Link → ℕ → Statement → Table → Table
apply link now (insert p) t = (insert_task link now p t).1
apply link now (on k u) t = stored link u now k t

unfoldable pub run_one : Request → Table → Table
unfolding apply
run_one q t = apply q.link q.now q.statement t

unfoldable pub run : List Request → Table → Table
run [] t = t
run (q ∷ qs) t = run qs (run_one q t)

-- The same request, seen by one task alone: `o` is its row, if it has one.
unfoldable pub effect : Link → ℕ → Statement → String → Option TaskRow → Option TaskRow
effect down now st k o = o
effect _ now (insert p) k o =
    if is_some o then o else if p.id == k then some (new_row p now) else none
effect _ now (on j u) k o = if j == k then changed (change u now) o else o

unfoldable pub follow : String → List Request → Option TaskRow → Option TaskRow
unfolding effect
follow k [] o = o
follow k (q ∷ qs) o = follow k qs (effect q.link q.now q.statement k o)

find-apply :
    (link : Link) (now : ℕ) (st : Statement) (k : String) (t : Table)
    → find k (apply link now st t) ≡ effect link now st k (find k t)
unfolding apply effect insert_task stored
find-apply down now (insert p) k t = refl
find-apply down now (on j u) k t = refl
find-apply up now (insert p) k t = ground (arith, find-append k t (new_row p now), eq_iff p.id k)
find-apply cut now (insert p) k t = ground (arith, find-append k t (new_row p now), eq_iff p.id k)
find-apply up now (on j u) k t = unfold stored in find-stored u now j k t
find-apply cut now (on j u) k t = unfold stored in find-stored u now j k t

-- The table is a store of independent tasks: what is found at a key after a sequence of requests is
-- what that task alone comes to.
pub find-run :
    (qs : List Request) (k : String) (t : Table) → find k (run qs t) ≡ follow k qs (find k t)
unfolding run run_one follow
find-run [] k t = refl
find-run (q ∷ qs) k t =
    find-run qs k (apply q.link q.now q.statement t)
    ∙ ap (follow k qs) (find-apply q.link q.now q.statement k t)

-- What each statement keeps of a row, every sequence of them keeps.
module _ (P : Option TaskRow → Type 0)
    (new : P none → (p : CreateTaskParams) (now : ℕ) → P (some (new_row p now)))
    (step : (u : Update) (now : ℕ) (r s : TaskRow)
      → change u now r ≡ some s
      → P (some r)
      → P (some s)) where
  after-keeps :
      (u : Update) (now : ℕ) (r : TaskRow) (c : Option TaskRow)
      → change u now r ≡ c
      → P (some r)
      → P (some (after c r))
  after-keeps u now r none e h = h
  after-keeps u now r (some s) e h = step u now r s e h

  changed-keeps : (u : Update) (now : ℕ) (o : Option TaskRow) → P o → P (changed (change u now) o)
  changed-keeps u now none h = h
  changed-keeps u now (some r) h = after-keeps u now r (change u now r) refl h

  effect-keeps :
      (link : Link) (now : ℕ) (st : Statement) (k : String) (o : Option TaskRow)
      → P o
      → P (effect link now st k o)
  unfolding effect
  effect-keeps down now st k o h = h
  effect-keeps up now (insert p) k (some r) h = h
  effect-keeps cut now (insert p) k (some r) h = h
  effect-keeps up now (insert p) k none h = if_ind P (p.id == k) (new h p now) h
  effect-keeps cut now (insert p) k none h = if_ind P (p.id == k) (new h p now) h
  effect-keeps up now (on j u) k o h = if_ind P (j == k) (changed-keeps u now o h) h
  effect-keeps cut now (on j u) k o h = if_ind P (j == k) (changed-keeps u now o h) h

  pub follow-keeps : (k : String) (qs : List Request) (o : Option TaskRow) → P o → P (follow k qs o)
  unfolding follow
  follow-keeps k [] o h = h
  follow-keeps k (q ∷ qs) o h = follow-keeps k qs _ (effect-keeps q.link q.now q.statement k o h)
