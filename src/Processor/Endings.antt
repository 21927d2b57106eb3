-- ===== src/Processor/Endings.antt =====
-- How an attempt at a task ends, when the database answers.
use trace_runtime.Prelude.{
  ℕ, String, ◌≡◌, refl, sym, Bool, true, false, Option, none, some, [], ◌∷◌, ◌++◌, arith,
  if◌then◌else◌, leb, subst, Bool-cases, inl, inr, if_false,
}
use mathlib.Core.List.{append_assoc, append-nil}
use trace_runtime.Tasks.{
  pending, completed, failed, TaskRow, up, find, claim, complete, fail, revert, change, stored,
  set_processing, set_completed, set_failed, revert_to_pending,
}
use trace_runtime.Tasks.Find.{after}
use trace_runtime.Processor.Calls.{
  Config, Message, InferResult, Env, Span, World, SseEvent, change_visibility, publish_sse,
  call_ai_runtime, max_receive_count,
}
use trace_runtime.Processor.{
  fail_task, after_ai_error, after_output, execute, start, process, with_db, s3_key, mock_result,
  parent_traceparent, event, call_queue,
}
use trace_runtime.Processor.Claimed.{claimed, claim-ok, find-settled}
use trace_runtime.Processor.Outcomes.{
  Ending, gave_up, will_retry, lost_output, finished, ending_of, ending, status_of, error_of,
  report_of, calls_of, artifacts_of, types, Ended, types-append,
}

module _ (cfg : Config) (env : Env) (msg : Message) (attr receipt : String) (n : ℕ) (w : World)
    (r : TaskRow) (stored_up : env.claim_link ≡ up) (settled_up : env.settle_link ≡ up)
    (has_db : cfg.has_db ≡ true) (found : find msg.task_id w.tasks ≡ some r)
    (waits : r.status ≡ pending) where
  abbrev world : World
  world = process cfg env (some msg) attr receipt n w

  abbrev span : Span
  span = env.start_span (parent_traceparent attr msg)

  -- What `Process` hands to the part after the claim.
  abbrev announced : World
  announced = publish_sse env.announce (event span msg "task.processing" "") (record w {
    tasks = stored up claim env.claim_at msg.task_id w.tasks;
    current_task_id = msg.task_id;
  })

  runs : world ≡ (
      let after = execute cfg env span msg receipt n announced in
      record after { current_task_id = "" })
  unfolding process start set_processing
  runs = ground (arith, claim-ok env.claim_at msg.task_id w.tasks r found waits)

  -- The part after the claim ended so.
  abbrev EndedWith : Ending → World → Type 0
  EndedWith e after = Ended e msg.task_id r (s3_key span msg) receipt w after

  reports :
      (e f : SseEvent)
      → types ((w.events ++ e ∷ []) ++ f ∷ []) ≡ types w.events ++ e.event_type ∷ f.event_type ∷ []
  reports e f = rw (append_assoc w.events (e ∷ []) (f ∷ [])) (types-append w.events (e ∷ f ∷ []))

  fail_task-Ended :
      (e : Ending) (reason : String)
      → status_of e ≡ failed
      → error_of e r.error_message ≡ some reason
      → report_of e ≡ "task.failed"
      → calls_of e receipt ≡ []
      → artifacts_of e (s3_key span msg) w.artifacts ≡ w.artifacts
      → EndedWith e (fail_task cfg env span msg reason announced)
  unfolding fail_task publish_sse set_failed
  fail_task-Ended e reason st er re ca ar =
      rw (has_db, settled_up)
        (record {
          row = record (claimed env.claim_at r) {
            status = failed;
            completed_at = some env.settle_at;
            error_message = some reason;
            updated_at = env.settle_at;
          };
          found =
              find-settled env.claim_at msg.task_id w.tasks r found waits (fail reason)
                env.settle_at _ (unfold change claimed in refl);
          status = sym st;
          error = sym er;
          queue = rw (ca, append-nil w.queue_calls) refl;
          artifacts = sym ar;
          reported = rw re (reports _ _);
        })

  retry-Ended : EndedWith will_retry (
      publish_sse env.report (event span msg "task.retrying" "ai_runtime_error") (
        call_queue
          (change_visibility receipt 30)
          (with_db cfg (revert_to_pending env.settle_link env.settle_at msg.task_id) announced)))
  unfolding publish_sse revert_to_pending claimed
  retry-Ended =
      rw (has_db, settled_up)
        (record {
          row = record (claimed env.claim_at r) {
            status = pending;
            processing_started_at = none;
            updated_at = env.settle_at;
          };
          found =
              find-settled env.claim_at msg.task_id w.tasks r found waits revert env.settle_at _
                (unfold change claimed in refl);
          status = refl;
          error = refl;
          queue = refl;
          artifacts = refl;
          reported = reports _ _;
        })

  after_ai_error-Ended :
      EndedWith
        (if leb max_receive_count n then Ending.gave_up else will_retry)
        (after_ai_error cfg env span msg receipt n announced)
  unfolding after_ai_error
  after_ai_error-Ended = elim (Bool-cases (leb max_receive_count n)) [
    | inl e ↦ rw e (fail_task-Ended gave_up "ai_runtime_error" refl refl refl refl refl)
    | inr e ↦ rw e retry-Ended
  ]

  finished-Ended :
      (ir : InferResult)
      → env.s3_stores ≡ true
      → EndedWith finished (after_output cfg env span msg receipt ir announced)
  unfolding after_output publish_sse set_completed claimed
  finished-Ended ir e =
      rw (e, has_db, settled_up)
        (record {
          row = record (claimed env.claim_at r) {
            status = completed;
            completed_at = some env.settle_at;
            artifact_key = some (s3_key span msg);
            updated_at = env.settle_at;
            tokens = ir.tokens;
          };
          found =
              find-settled env.claim_at msg.task_id w.tasks r found waits
                (complete (s3_key span msg) ir.tokens) env.settle_at _
                (unfold change claimed in refl);
          status = refl;
          error = refl;
          queue = refl;
          artifacts = refl;
          reported = reports _ _;
        })

  lost :
      (ir : InferResult)
      → env.s3_stores ≡ false
      → after_output cfg env span msg receipt ir announced
        ≡ fail_task cfg env span msg "s3_write_error" announced
  unfolding after_output
  lost ir e = if_false env.s3_stores _ _ e

  after_output-Ended :
      (ir : InferResult)
      → EndedWith
          (if env.s3_stores then finished else lost_output)
          (after_output cfg env span msg receipt ir announced)
  after_output-Ended ir = elim (Bool-cases env.s3_stores) [
    | inl e ↦
        subst
          (λ b.
            EndedWith (if b then finished else lost_output)
              (after_output cfg env span msg receipt ir announced))
          (sym e) (finished-Ended ir e)
    | inr e ↦
        subst
          (λ b.
            EndedWith (if b then finished else lost_output)
              (after_output cfg env span msg receipt ir announced))
          (sym e)
          (subst (EndedWith lost_output) (sym (lost ir e))
            (fail_task-Ended lost_output "s3_write_error" refl refl refl refl refl))
  ]

  execute-Ended_of :
      (b : Bool) (o : Option InferResult)
      → EndedWith (ending_of b o env.s3_stores (leb max_receive_count n)) (
          if b
          then elim o [
            | none ↦ after_ai_error cfg env span msg receipt n announced
            | some ir ↦ after_output cfg env span msg receipt ir announced
          ]
          else after_output cfg env span msg receipt (mock_result msg) announced)
  execute-Ended_of true none = after_ai_error-Ended
  execute-Ended_of true (some ir) = after_output-Ended ir
  execute-Ended_of false none = after_output-Ended (mock_result msg)
  execute-Ended_of false (some ir) = after_output-Ended (mock_result msg)

  reset :
      (e : Ending) (after : World)
      → EndedWith e after
      → EndedWith e (record after { current_task_id = "" })
  reset e after d = record {
    row = d.row;
    found = d.found;
    status = d.status;
    error = d.error;
    queue = d.queue;
    artifacts = d.artifacts;
    reported = d.reported;
  }

  -- Given that the task waits and that the database answers, an attempt ends as the AI runtime's
  -- answer, S3 and the count of deliveries decide. AI error on the third delivery or later: the row is
  -- failed, and SQS is asked nothing. AI error before: the row is pending again, and the message is
  -- visible again after 30 seconds. Output that S3 does not store: the row is failed, and SQS is asked nothing.
  -- Stored output: the row is completed and the message is deleted. The events sent are
  -- task.processing and the one that reports this ending.
  pub process_ends : EndedWith (ending cfg env n) world
  unfolding execute
  process_ends = subst (EndedWith (ending cfg env n)) (sym runs) (
      reset (ending cfg env n) (execute cfg env span msg receipt n announced)
        (execute-Ended_of cfg.ai_enabled (call_ai_runtime env.ai)))
