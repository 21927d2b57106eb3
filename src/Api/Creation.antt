-- ===== src/Api/Creation.antt =====
-- What a POST of a task leaves behind, in the table and in the queue.
use Prim.Native.String.{len}
use trace_runtime.Prelude.{
  ◌≤◌, String, ◌≡◌, ◌≢◌, refl, sym, ap, ◌∙◌, Bool, true, false, Option, none, some, List, [], ◌∷◌,
  ◌++◌, ◌==◌, if◌then◌else◌, arith, eq_refl, subst,
}
use trace_runtime.Prelude.Channel.{try_send}
use mathlib.Core.List.{append-nil}
use trace_runtime.Tasks.{
  Table, pending, failed, TaskRow, up, down, cut, new_row, find, reject, change, insert_task,
  api_set_failed,
}
use trace_runtime.Tasks.Find.{find-append, find-stored}
use trace_runtime.Queue.{Task, Queue, enqueue}
use trace_runtime.Api.{
  World, Reply, is_created, Publisher, sqs, in_memory, send, publish_task, chaos_run, Env, give_up,
  task_of, announce, conclude, hand_over, params_of, register, create_task,
}

-- What the publisher has been handed and not yet given away.
abbrev pub handed : Publisher → World → List Task
handed (sqs link) w = w.main
handed in_memory w = w.queue.ch

-- The row of a new task and the queue agree with the reply.
pub record Settled (env : Env) (input : String) (before after : World) (reply : Reply)
    : Type 0 where
  pub row : TaskRow
  pub found : find env.task_id after.tasks ≡ some row
  pub status : row.status ≡ (if is_created reply then pending else failed)
  pub payload : row.input_payload ≡ input
  pub queued :
      handed env.publisher after
      ≡ handed env.publisher before ++ (if is_created reply then task_of env input ∷ [] else [])

module _ (env : Env) (input header : String) (has_db : env.has_db ≡ true)
    (fail_up : env.fail_link ≡ up) where
  abbrev fresh_row : TaskRow
  fresh_row = new_row (params_of env input header) env.insert_at

  abbrev given_up : String → TaskRow
  given_up reason = record fresh_row {
    status = failed;
    completed_at = some env.fail_at;
    error_message = some reason;
    updated_at = env.fail_at;
  }

  find-give_up :
      (reason : String) (w : World)
      → find env.task_id w.tasks ≡ some fresh_row
      → find env.task_id (give_up env reason w).tasks ≡ some (given_up reason)
  unfolding give_up api_set_failed change
  find-give_up reason w found =
      rw
        (
          has_db,
          fail_up,
          find-stored (reject reason) env.fail_at env.task_id env.task_id w.tasks,
          eq_refl,
          found,
        )
        refl

  announce-tasks : (o : Option String) (w : World) → (announce env o w).tasks ≡ w.tasks
  announce-tasks none w = refl
  announce-tasks (some run) w = refl

  announce-handed :
      (o : Option String) (p : Publisher) (w : World) → handed p (announce env o w) ≡ handed p w
  announce-handed none (sqs link) w = refl
  announce-handed none in_memory w = refl
  announce-handed (some run) (sqs link) w = refl
  announce-handed (some run) in_memory w = refl

  give_up-handed :
      (reason : String) (p : Publisher) (w : World) → handed p (give_up env reason w) ≡ handed p w
  unfolding give_up
  give_up-handed reason (sqs link) w = rw has_db refl
  give_up-handed reason in_memory w = rw has_db refl

  abbrev accepted : Option Bool → Bool
  accepted none = false
  accepted (some b) = b

  enqueue-ch :
      (q : Queue) (t : Task) → (enqueue q t).1.ch ≡ q.ch ++ (if (enqueue q t).0 then t ∷ [] else [])
  unfolding enqueue try_send
  enqueue-ch q t = ground (arith, append-nil q.ch)

  -- A publisher whose answer is not lost has the task exactly if it said so.
  publish-handed :
      (p : Publisher) (t : Task) (w : World)
      → p ≢ sqs cut
      → handed p (publish_task p t w).1
        ≡ handed p w ++ (if accepted (publish_task p t w).0 then t ∷ [] else [])
  unfolding publish_task send
  publish-handed (sqs up) t w n = refl
  publish-handed (sqs down) t w n = sym (append-nil w.main)
  publish-handed (sqs cut) t w n = absurd (n refl)
  publish-handed in_memory t w n = enqueue-ch w.queue t

  publish-tasks : (p : Publisher) (t : Task) (w : World) → (publish_task p t w).1.tasks ≡ w.tasks
  unfolding publish_task
  publish-tasks (sqs link) t w = refl
  publish-tasks in_memory t w = refl

  conclude-Settled :
      (before w : World) (sent : Option Bool)
      → find env.task_id w.tasks ≡ some fresh_row
      → handed env.publisher w
        ≡ handed env.publisher before ++ (if accepted sent then task_of env input ∷ [] else [])
      → Settled env input before (conclude env header sent w).1 (conclude env header sent w).0
  unfolding conclude
  conclude-Settled before w none found h = record {
    row = given_up "sqs: queue unavailable";
    found = find-give_up _ w found;
    status = refl;
    payload = refl;
    queued = give_up-handed _ env.publisher w ∙ h;
  }
  conclude-Settled before w (some false) found h = record {
    row = given_up "queue full";
    found = find-give_up _ w found;
    status = refl;
    payload = refl;
    queued = give_up-handed _ env.publisher w ∙ h;
  }
  conclude-Settled before w (some true) found h = record {
    row = fresh_row;
    found = ap (find env.task_id) (announce-tasks (chaos_run header) w) ∙ found;
    status = refl;
    payload = refl;
    queued = announce-handed (chaos_run header) env.publisher w ∙ h;
  }

  handed-tasks :
      (p : Publisher) (t : Table) (w : World) → handed p (record w { tasks = t }) ≡ handed p w
  handed-tasks (sqs link) t w = refl
  handed-tasks in_memory t w = refl

  hand_over-Settled :
      (t : Table) (w : World)
      → env.publisher ≢ sqs cut
      → find env.task_id t ≡ some fresh_row
      → let end = hand_over env input header (record w { tasks = t }) in
        Settled env input w end.1 end.0
  unfolding hand_over
  hand_over-Settled t w certain found =
      let p = env.publisher in
      let now = record w { tasks = t } in
      conclude-Settled w (publish_task p (task_of env input) now).1 _
        (ap (find env.task_id) (publish-tasks p (task_of env input) now) ∙ found)
        (publish-handed p (task_of env input) now certain
          ∙ ap
              (λ ts.
                ts
                ++ (if accepted (publish_task p (task_of env input) now).0
                    then task_of env input ∷ []
                    else []))
              (handed-tasks p t w))

  -- Given a valid input (not empty, of at most 10,000 bytes), a database that answers, a fresh id and
  -- a publisher whose answer is not lost: after the handler the table has a row for the task with
  -- that input. If the reply is 201, the row is pending and the task is the last in the queue; on
  -- every other reply the row is failed and the queue is as it was.
  pub create_task-Settled :
      (w : World)
      → env.insert_link ≡ up
      → env.publisher ≢ sqs cut
      → find env.task_id w.tasks ≡ none
      → (input == "") ≡ false
      → len input ≤ 10000
      → Settled env input w
          (create_task env (some input) header w).1
          (create_task env (some input) header w).0
  unfolding create_task register insert_task
  create_task-Settled w insert_up certain fresh nonempty short =
      subst (λ (x : Reply × World). Settled env input w x.1 x.0) (sym runs)
        (hand_over-Settled (w.tasks ++ fresh_row ∷ []) w certain
          (rw (find-append env.task_id w.tasks fresh_row, fresh, eq_refl) refl))
    where
      runs :
          create_task env (some input) header w
          ≡ hand_over env input header (record w { tasks = w.tasks ++ fresh_row ∷ [] })
      runs = ground arith
