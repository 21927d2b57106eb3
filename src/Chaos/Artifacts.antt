-- ===== src/Chaos/Artifacts.antt =====
-- What a chaos run leaves in the other tables, and its removal: TaskIDsByRun, ArtifactKeysByRun,
-- DeleteArtifacts, GetDBIDByRunID and List of cmd/chaos/internal/chaos/chaos_run.go. A link says how a
-- statement fares, as in Tasks.
use mathlib.Core.List.{foldr}
use trace_runtime.Prelude.{
  ℕ, ◌≡◌, refl, ap, String, Bool, true, false, not, ◌||◌, Option, none, some, List, [], ◌∷◌, ◌++◌,
  map, length, ◌==◌, ltb, leb, if◌then◌else◌, select, take, arith,
}
use trace_runtime.Tasks.{Link, up, down, cut, TaskRow}
use trace_runtime.Tasks
use trace_runtime.Healing.{HealingEvent}
use trace_runtime.Healing
use trace_runtime.Chaos.{ChaosRun, Runs, is_gone}

abbrev is_run : String → Option String → Bool
is_run id none = false
is_run id (some run) = run == id

abbrev pub task_of_run : String → TaskRow → Bool
task_of_run id t = is_run id t.chaos_run_id

abbrev pub event_of_run : String → HealingEvent → Bool
event_of_run id e = is_run id e.chaos_run_id

unfoldable pub task_ids_by_run : String → Tasks.Table → List String
task_ids_by_run id tasks = map (λ t. t.id) (select (task_of_run id) tasks)

abbrev key_of : Option String → List String
key_of none = []
key_of (some key) = if key == "" then [] else key ∷ []

unfoldable pub artifact_keys_by_run : String → Tasks.Table → List String
artifact_keys_by_run id tasks =
    foldr (λ t keys. key_of t.artifact_key ++ keys) [] (select (task_of_run id) tasks)

-- DELETE of the rows that pass a test: how many they were, if the answer comes.
unfoldable pub delete : {A : Type 0} → Link → (A → Bool) → List A → Option ℕ × List A
delete up p rows = (some (length (select p rows)), select (λ r. not (p r)) rows)
delete cut p rows = (none, select (λ r. not (p r)) rows)
delete down p rows = (none, rows)

pub record Deleted : Type 0 where
  pub healing_deleted : ℕ
  pub tasks_deleted : ℕ
  pub ok : Bool

abbrev then_tasks :
    Link → String → Option ℕ × Healing.Table → Tasks.Table → Deleted × (Healing.Table × Tasks.Table)
then_tasks link id (none, healing) tasks =
    (record { healing_deleted = 0; tasks_deleted = 0; ok = false }, (healing, tasks))
then_tasks link id (some n, healing) tasks =
    let gone = delete link (task_of_run id) tasks in
    (
      elim (gone.0) [
        | none ↦ record { healing_deleted = n; tasks_deleted = 0; ok = false }
        | some m ↦ record { healing_deleted = n; tasks_deleted = m; ok = true }
      ],
      (healing, gone.1),
    )

-- The two statements, each with its own link.
unfoldable pub delete_artifacts :
    Link → Link → String → Healing.Table → Tasks.Table → Deleted × (Healing.Table × Tasks.Table)
unfolding delete
delete_artifacts link link' id healing tasks =
    then_tasks link' id (delete link (event_of_run id) healing) tasks

abbrev first_id : Runs → Option String
first_id [] = none
first_id (r ∷ _) = some r.id

unfoldable pub get_db_id_by_run_id : String → Runs → Option String
get_db_id_by_run_id run_id runs = first_id (select (λ r. r.run_id == run_id) runs)

abbrev insert : ChaosRun → Runs → Runs
insert r [] = r ∷ []
insert r (q ∷ runs) = if leb q.queued_at r.queued_at then r ∷ q ∷ runs else q ∷ insert r runs

-- List
unfoldable pub list_runs : ℕ → Runs → Runs
list_runs limit runs =
    take (if leb limit 0 || ltb 100 limit then 50 else limit)
      (foldr insert [] (select (λ r. not (is_gone r.status)) runs))

select-none :
    {A : Type 0} (p : A → Bool) (rows : List A) → select p (select (λ r. not (p r)) rows) ≡ []
select-none p [] = refl
select-none p (r ∷ rows) = ground (arith, select-none p rows)

-- After the artifacts of a run have been deleted with success, neither table has a row of the run.
pub delete_artifacts-none :
    (link link' : Link) (id : String) (healing : Healing.Table) (tasks : Tasks.Table)
    → (delete_artifacts link link' id healing tasks).0.ok ≡ true
    → (select (event_of_run id) (delete_artifacts link link' id healing tasks).1.0 ≡ [])
      × (task_ids_by_run id (delete_artifacts link link' id healing tasks).1.1 ≡ [])
unfolding delete_artifacts task_ids_by_run
delete_artifacts-none up up id healing tasks h = (
  select-none (event_of_run id) healing,
  ap (map (λ t. t.id)) (select-none (task_of_run id) tasks),
)
delete_artifacts-none up down id healing tasks h = absurd (ground (arith, h))
delete_artifacts-none up cut id healing tasks h = absurd (ground (arith, h))
delete_artifacts-none down l id healing tasks h = absurd (ground (arith, h))
delete_artifacts-none cut l id healing tasks h = absurd (ground (arith, h))
