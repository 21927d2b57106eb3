-- ===== src/Processor/Stranded.antt =====
-- A completion that the database does not record.
use trace_runtime.Prelude.{ℕ, String, ◌≡◌, refl, true, some, [], ◌∷◌, ◌++◌, arith}
use trace_runtime.Tasks.{
  pending, processing, TaskRow, up, down, find, set_processing, set_completed,
}
use trace_runtime.Processor.{process, start, execute, after_output}
use trace_runtime.Processor.Calls.{
  Config, Message, InferResult, Env, World, delete_message, publish_sse, call_ai_runtime,
}
use trace_runtime.Processor.Claimed.{claimed, claim-ok, find-claimed}

-- Given that the task waits, that the database answers the claim but not the completion, that the AI
-- runtime gives a result and that S3 stores it: the message is deleted from SQS, and the row stays in
-- processing.
pub completion_lost :
    (cfg : Config) (env : Env) (msg : Message) (attr receipt : String) (n : ℕ) (w : World)
    (r : TaskRow) (ir : InferResult)
    → env.claim_link ≡ up
    → env.settle_link ≡ down
    → cfg.has_db ≡ true
    → cfg.ai_enabled ≡ true
    → call_ai_runtime env.ai ≡ some ir
    → env.s3_stores ≡ true
    → find msg.task_id w.tasks ≡ some r
    → r.status ≡ pending
    → let after = process cfg env (some msg) attr receipt n w in
      (after.queue_calls ≡ w.queue_calls ++ delete_message receipt ∷ [])
      × (row : TaskRow) × (find msg.task_id after.tasks ≡ some row)
      × (row.status ≡ processing)
unfolding process start execute after_output publish_sse set_processing set_completed claimed
completion_lost cfg env msg attr receipt n w r ir up_ down_ db ai result s3 found waits = (
  ground (arith, claim-ok env.claim_at msg.task_id w.tasks r found waits),
  claimed env.claim_at r,
  ground (
    arith,
    claim-ok env.claim_at msg.task_id w.tasks r found waits,
    find-claimed env.claim_at msg.task_id w.tasks r found waits,
  ),
  refl,
)
