-- ===== src/Tasks/Rows.antt =====
-- What holds of every row of the `tasks` table, after any sequence of statements.
use trace_runtime.Prelude.{
  ℕ, String, ◌≡◌, refl, sym, ap, ◌∙◌, ◌≢◌, true, Option, none, some, List, [], arith, is_some,
  subst,
}
use trace_runtime.Tasks.{
  Status, pending, processing, completed, failed, TaskRow, Table, find, Update, change,
}
use trace_runtime.Tasks.Lifecycle.{Same, change-Same, ◌⟶◌, change-⟶}
use trace_runtime.Tasks.History.{Request, run, follow, find-run, follow-keeps}

-- The columns that a status promises.
abbrev pub Fits : Status → TaskRow → Type 0
Fits pending r = (r.error_message ≡ none) × (r.artifact_key ≡ none)
Fits processing r =
    (is_some r.processing_started_at ≡ true) × (r.error_message ≡ none) × (r.artifact_key ≡ none)
Fits completed r =
    (is_some r.processing_started_at ≡ true)
    × (is_some r.completed_at ≡ true)
    × (is_some r.artifact_key ≡ true)
    × (r.error_message ≡ none)
Fits failed r =
    (is_some r.completed_at ≡ true) × (is_some r.error_message ≡ true) × (r.artifact_key ≡ none)

abbrev FitsIf : Option TaskRow → Type 0
FitsIf none = Unit
FitsIf (some r) = Fits r.status r

change-Fits :
    (u : Update) (now : ℕ) (r s : TaskRow)
    → change u now r ≡ some s
    → Fits r.status r
    → Fits s.status s
unfolding change
change-Fits u now r s h f = ground arith

follow-Fits : (k : String) (qs : List Request) → FitsIf (follow k qs none)
follow-Fits k qs = follow-keeps FitsIf (λ _ p now. (refl, refl)) change-Fits k qs none tt

-- After any sequence of statements on an empty table, whatever happened to their connections, every
-- row has the columns that its status promises: a processing one a start; a completed one a start, an end
-- and an artifact key, and no error; a failed one an end and an error, and no artifact key; a
-- pending one neither an error nor an artifact key.
pub run-Fits :
    (qs : List Request) (k : String) (r : TaskRow) → find k (run qs []) ≡ some r → Fits r.status r
unfolding find
run-Fits qs k r h = subst FitsIf (sym (find-run qs k []) ∙ h) (follow-Fits k qs)

infix 40 ◌⟶*◌
pub data ◌⟶*◌ : Status → Status → Type 0 where
  here : {s : Status} → s ⟶* s
  next : {s t u : Status} → s ⟶* t → t ⟶ u → s ⟶* u

-- `s` is a later state of the task of `r`.
pub record Later (r s : TaskRow) : Type 0 where
  pub same : Same r s
  pub path : r.status ⟶* s.status
  pub final : r.status ≡ completed → s ≡ r

abbrev LaterIf : TaskRow → Option TaskRow → Type 0
LaterIf r none = ⊥
LaterIf r (some s) = Later r s

Same-trans : {q r s : TaskRow} → Same q r → Same r s → Same q s
Same-trans a b = ground arith

completed_fixed :
    (u : Update) (now : ℕ) (r : TaskRow) {s : TaskRow}
    → r.status ≡ completed
    → change u now r ≢ some s
unfolding change
completed_fixed u now r h = ground arith

change-Later :
    (q : TaskRow) (u : Update) (now : ℕ) (r s : TaskRow)
    → change u now r ≡ some s
    → Later q r
    → Later q s
change-Later q u now r s h l = record {
  same = Same-trans l.same (change-Same u now r h);
  path = next l.path (change-⟶ u now r h);
  final = λ c. absurd (completed_fixed u now r (ap (λ (x : TaskRow). x.status) (l.final c) ∙ c) h);
}

reach : (r : TaskRow) (o : Option TaskRow) → LaterIf r o → (s : TaskRow) × (o ≡ some s) × Later r s
reach r none h = absurd h
reach r (some s) h = (s, refl, h)

-- A task that is in the table stays in it through any sequence of InsertTask, SetProcessing, SetCompleted, RevertToPending, both SetFailed and RevertToPendingForRetry, whatever happened to
-- their connections: with the id, trace id, creation time, payload, origin and chaos run that it
-- had, in a status that the diagram reaches from the one it had, and unchanged in every column if it was completed.
pub run-Later :
    (qs : List Request) (k : String) (t : Table) (r : TaskRow)
    → find k t ≡ some r
    → (s : TaskRow) × (find k (run qs t) ≡ some s) × Later r s
run-Later qs k t r h =
    let followed : LaterIf r (follow k qs (find k t)) =
      follow-keeps (LaterIf r) (λ b. absurd b) (change-Later r) k qs (find k t)
        (subst (LaterIf r) (sym h) (record {
          same = record {
            id = refl;
            trace_id = refl;
            created_at = refl;
            input_payload = refl;
            replay_of = refl;
            chaos_run_id = refl;
          };
          path = here;
          final = λ _. refl;
        })) in
    subst (λ o. (s : TaskRow) × (o ≡ some s) × Later r s) (sym (find-run qs k t))
      (reach r _ followed)
