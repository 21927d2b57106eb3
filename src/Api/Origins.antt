-- ===== src/Api/Origins.antt =====
-- What a replay makes of a finished task.
use trace_runtime.Prelude.{
  String, ◌≡◌, refl, sym, true, false, none, some, [], ◌∷◌, ◌++◌, arith, eq_refl, Option-cases, inl,
  inr, subst,
}
use trace_runtime.Tasks.{TaskRow, pending, find, new_row, insert_task}
use trace_runtime.Tasks.Find.{find-append}
use trace_runtime.Api.{World, Reply, is_created, Env, send, task_of}
use trace_runtime.Api.Replays.{
  Asked, is_final, payload_of, replay_params, resend, replay_row, replay,
}

-- The row of the replay, and the one that it replays.
pub record Replayed (env : Env) (override original : String) (before after : World) : Type 0 where
  pub task : TaskRow
  pub row : TaskRow
  pub source : find original before.tasks ≡ some task
  pub final : is_final task.status ≡ true
  pub kept : find original after.tasks ≡ some task
  pub found : find env.task_id after.tasks ≡ some row
  pub status : row.status ≡ pending
  pub payload : row.input_payload ≡ payload_of override task.input_payload
  pub origin : row.replay_of ≡ some original
  pub sent : after.main ≡ before.main ++ task_of env (payload_of override task.input_payload) ∷ []

module _ (env : Env) (asked : Asked) (override original : String) where
  made : TaskRow → TaskRow
  made task =
      new_row (replay_params env original (payload_of override task.input_payload)) env.insert_at

  replay_row-created :
      (task : TaskRow) (w : World)
      → is_created (replay_row env asked override original task w).0 ≡ true
      → (is_final task.status ≡ true)
        × (find env.task_id w.tasks ≡ none)
        × ((replay_row env asked override original task w).1.tasks ≡ w.tasks ++ made task ∷ [])
        × ((replay_row env asked override original task w).1.main
            ≡ w.main ++ task_of env (payload_of override task.input_payload) ∷ [])
  unfolding replay_row resend send insert_task made
  replay_row-created task w h = ground arith

  replay_row-Replayed :
      (task : TaskRow) (w : World)
      → find original w.tasks ≡ some task
      → is_created (replay_row env asked override original task w).0 ≡ true
      → Replayed env override original w (replay_row env asked override original task w).1
  unfolding made
  replay_row-Replayed task w found h =
      let (final, fresh, tasks, main) = replay_row-created task w h in
      record {
        task = task;
        row = made task;
        source = found;
        final = final;
        kept = rw (tasks, find-append original w.tasks (made task), found) refl;
        found = rw (tasks, find-append env.task_id w.tasks (made task), fresh, eq_refl) refl;
        status = refl;
        payload = refl;
        origin = refl;
        sent = main;
      }

  replay-missing :
      (w : World)
      → find original w.tasks ≡ none
      → is_created (replay env asked original override w).0 ≡ false
  unfolding replay
  replay-missing w e = ground arith

  replay-present :
      (w : World) (task : TaskRow)
      → find original w.tasks ≡ some task
      → is_created (replay env asked original override w).0 ≡ true
      → replay env asked original override w ≡ replay_row env asked override original task w
  unfolding replay
  replay-present w task e h = ground arith

  -- Whatever the services answer: if a replay is answered with 201, then the task to replay was
  -- completed or failed, its row is as it was, and the table has a new pending row that names it as its origin,
  -- with the overriding payload or else the original one, and the main queue has got one message,
  -- for the new task with this payload.
  pub replay-Replayed :
      (w : World)
      → is_created (replay env asked original override w).0 ≡ true
      → Replayed env override original w (replay env asked original override w).1
  replay-Replayed w h = elim (Option-cases (find original w.tasks)) [
    | inl e ↦ absurd (ground (arith, replay-missing w e))
    | inr (task, e) ↦
        let runs = replay-present w task e h in
        subst (λ (x : Reply × World). Replayed env override original w x.1) (sym runs)
          (replay_row-Replayed task w e
            (subst (λ (x : Reply × World). is_created x.0 ≡ true) runs h))
  ]
