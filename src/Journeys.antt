-- ===== src/Journeys.antt =====
-- From one service to the next: a task that the API has created (services/api/internal/http/task.go)
-- or brought back (services/api/internal/handlers/dlq.go), in the hands of a worker
-- (services/worker/internal/processor/processor.go). The two services share the table of tasks.
use Prim.Native.String.{len}
use trace_runtime.Prelude.{
  ℕ, ◌≤◌, String, ◌≡◌, ◌≢◌, refl, ap, ◌∙◌, true, false, some, none, ◌==◌, if◌then◌else◌,
}
use trace_runtime.Tasks.{pending, failed, TaskRow, up, cut, find}
use trace_runtime.Queue.{Task}
use trace_runtime.Api.{done, is_created, sqs, create_task}
use trace_runtime.Api.{World as ApiWorld, Env as ApiEnv}
use trace_runtime.Api.Creation.{create_task-Settled}
use trace_runtime.Api.Operator.{Calls, retry}
use trace_runtime.Api.Audits.{retry_revives}
use trace_runtime.Processor.{process, parent_traceparent, s3_key}
use trace_runtime.Processor.Calls.{Config, Message, Env, World}
use trace_runtime.Processor.Outcomes.{ending, Ended}
use trace_runtime.Processor.Endings.{process_ends}

module _ (cfg : Config) (env : Env) (msg : Message) (attr receipt : String) (n : ℕ) (w : World)
    (claim_up : env.claim_link ≡ up) (settle_up : env.settle_link ≡ up)
    (has_db : cfg.has_db ≡ true) where
  -- The worker's attempt, on the row that it finds.
  abbrev pub Attempted : TaskRow → Type 0
  Attempted r =
      Ended (ending cfg env n) msg.task_id r
        (s3_key (env.start_span (parent_traceparent attr msg)) msg) receipt w
        (process cfg env (some msg) attr receipt n w)

  -- Given that the database answers, on both sides: a task whose creation the API has answered with 201 is
  -- not ignored by the worker that gets its message first. The attempt ends as the AI runtime's
  -- answer, S3 and the count of deliveries decide, on the row with the input that was posted.
  pub created_task_runs :
      (a : ApiEnv) (input header : String) (before : ApiWorld)
      → a.has_db ≡ true
      → a.fail_link ≡ up
      → a.insert_link ≡ up
      → a.publisher ≢ sqs cut
      → find a.task_id before.tasks ≡ none
      → (input == "") ≡ false
      → len input ≤ 10000
      → is_created (create_task a (some input) header before).0 ≡ true
      → msg.task_id ≡ a.task_id
      → w.tasks ≡ (create_task a (some input) header before).1.tasks
      → (r : TaskRow) × (r.input_payload ≡ input) × Attempted r
  created_task_runs a input header before d f i p fresh given short h same shared =
      let s = create_task-Settled a input header d f before i p fresh given short in
      let waits : s.row.status ≡ pending = s.status ∙ ap (λ b. if b then pending else failed) h in
      let found : find msg.task_id w.tasks ≡ some s.row =
        ap (λ k. find k w.tasks) same ∙ ap (find a.task_id) shared ∙ s.found in
      (
        s.row,
        s.payload,
        process_ends cfg env msg attr receipt n w s.row claim_up settle_up has_db found waits,
      )

  -- Given that the database answers, on both sides: a failed task whose retry the API has answered
  -- with success is not ignored by the worker that gets its message next. The attempt ends as the AI runtime's
  -- answer, S3 and the count of deliveries decide, on the row without its old error.
  pub retried_task_runs :
      (c : Calls) (from : String) (body : Task) (before : ApiWorld) (r : TaskRow)
      → c.revert_link ≡ up
      → find body.id before.tasks ≡ some r
      → r.status ≡ failed
      → (retry c from (some body) before).0 ≡ done
      → msg.task_id ≡ body.id
      → w.tasks ≡ (retry c from (some body) before).1.tasks
      → Attempted (record r { status = pending; error_message = none; updated_at = c.now })
  retried_task_runs c from body before r u f is_failed h same shared =
      process_ends cfg env msg attr receipt n w _ claim_up settle_up has_db
        (ap (λ k. find k w.tasks) same
          ∙ ap (find body.id) shared
          ∙ (retry_revives c from body before r u f is_failed h).1)
        refl
