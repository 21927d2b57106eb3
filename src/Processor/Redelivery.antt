-- ===== src/Processor/Redelivery.antt =====
-- Messages that SQS delivers again.
use trace_runtime.Prelude.{
  ℕ, ◌≤◌, ◌<◌, String, ◌≡◌, ◌≢◌, true, false, none, some, arith, eq_iff, subst,
}
use trace_runtime.Tasks.{
  pending, TaskRow, Table, Link, up, find, affects, claim, change, checked, set_processing,
}
use trace_runtime.Tasks.Find.{stored-none}
use trace_runtime.Processor.Calls.{Config, Message, AiBody, response, Env, World, call_ai_runtime}
use trace_runtime.Processor.{process, is_ok, s3_key, parent_traceparent}
use trace_runtime.Processor.Outcomes.{Ended, finished}
use trace_runtime.Processor.Endings.{process_ends}

module _ (link : Link) (now : ℕ) (id : String) (t : Table) (r : TaskRow)
    (found : find id t ≡ some r) (busy : r.status ≢ pending) where
  claim-none : change claim now r ≡ none
  unfolding change
  claim-none = ground arith

  refused : is_ok (set_processing link now id t).0 ≡ false
  unfolding set_processing checked affects
  refused = ground (arith, claim-none)

  untouched : (set_processing link now id t).1 ≡ t
  unfolding set_processing
  untouched = stored-none link claim now id t r found claim-none

-- A message for a task that does not wait (another worker has it, or it is completed or failed)
-- changes nothing, whatever the database and the other services answer: no row, no call of SQS, no
-- object, no event and no counter.
pub redelivery_ignored :
    (cfg : Config) (env : Env) (msg : Message) (attr receipt : String) (n : ℕ) (w : World)
    (r : TaskRow)
    → cfg.has_db ≡ true
    → find msg.task_id w.tasks ≡ some r
    → r.status ≢ pending
    → process cfg env (some msg) attr receipt n w ≡ record w { current_task_id = "" }
unfolding process
redelivery_ignored cfg env msg attr receipt n w r d h b = ground (
  arith,
  d,
  refused env.claim_link env.claim_at msg.task_id w.tasks r h b,
  untouched env.claim_link env.claim_at msg.task_id w.tasks r h b,
)

client_error :
    (status : ℕ) (body : AiBody)
    → status < 500
    → body.execution_status ≢ "failed"
    → call_ai_runtime (response status (some body)) ≡ some body.result
unfolding call_ai_runtime
client_error status body h e = ground (arith, eq_iff body.execution_status "failed")

-- An answer of the AI runtime with a client error (a status from 400 to 499) and a body that
-- decodes without saying "failed", such as the error report of a validation, ends the attempt as a
-- finished one: given that the task waits, that the database answers and that S3 stores the object,
-- the row is completed and the message deleted, with whatever output the body decodes to.
pub client_error_completes :
    (cfg : Config) (env : Env) (msg : Message) (attr receipt : String) (n : ℕ) (w : World)
    (r : TaskRow) (status : ℕ) (body : AiBody)
    → env.claim_link ≡ up
    → env.settle_link ≡ up
    → cfg.has_db ≡ true
    → cfg.ai_enabled ≡ true
    → env.s3_stores ≡ true
    → find msg.task_id w.tasks ≡ some r
    → r.status ≡ pending
    → env.ai ≡ response status (some body)
    → 400 ≤ status
    → status < 500
    → body.execution_status ≢ "failed"
    → Ended finished msg.task_id r
        (s3_key (env.start_span (parent_traceparent attr msg)) msg)
        receipt
        w
        (process cfg env (some msg) attr receipt n w)
client_error_completes cfg env msg attr receipt n w r status body c s d a k f p e _ low ne =
    subst
      (λ x.
        Ended x msg.task_id r (s3_key (env.start_span (parent_traceparent attr msg)) msg) receipt w
          (process cfg env (some msg) attr receipt n w))
      (ground (arith, client_error status body low ne))
      (process_ends cfg env msg attr receipt n w r c s d f p)
