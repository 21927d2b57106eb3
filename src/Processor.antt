-- ===== src/Processor.antt =====
-- The worker's handling of one SQS message: `Process` of
-- services/worker/internal/processor/processor.go, over the calls of Processor/Calls.
pub mod Calls
pub mod Artifacts
pub mod Claimed
pub mod Endings
pub mod Stranded
pub mod Outcomes
pub mod Redelivery
pub mod Polling
pub mod Gauges
use Prim.Native.String.{◌++◌ as text_append}
use trace_runtime.Prelude.{
  ℕ, ◌+◌, String, Bool, true, false, ◌&&◌, Option, none, some, List, [], ◌∷◌, ◌++◌, ◌==◌, leb,
  if◌then◌else◌,
}
use trace_runtime.Tasks.{
  Table, Outcome, ok, db_error, conflict, no_tokens, set_processing, set_completed, set_failed,
  revert_to_pending,
}
use Calls.{
  Config, Message, InferResult, Span, Env, World, SseEvent, QueueCall, delete_message,
  change_visibility, max_receive_count, publish_sse, call_ai_runtime,
}

-- The fields that every event of `Process` carries.
abbrev pub event : Span → Message → (event_type error_reason : String) → SseEvent
event span msg event_type error_reason = record {
  event_id = "";
  event_type = event_type;
  trace_id = span.trace_id;
  traceparent = span.traceparent;
  task_id = msg.task_id;
  timestamp = 0;
  source = "worker";
  execution_status = "";
  error_reason = error_reason;
  s3_key = "";
  result = none;
}

-- A statement on the table, made only where there is a database.
abbrev pub with_db : Config → (Table → Outcome × Table) → World → World
with_db cfg f w = if cfg.has_db then record w { tasks = (f w.tasks).1 } else w

abbrev pub call_queue : QueueCall → World → World
call_queue c w = record w { queue_calls = w.queue_calls ++ c ∷ [] }

-- SetFailed and the event, on the two paths that fail a task.
unfoldable pub fail_task : Config → Env → Span → Message → String → World → World
unfolding publish_sse
fail_task cfg env span msg reason w = publish_sse env.report (event span msg "task.failed" reason) (
    with_db cfg (set_failed env.settle_link env.settle_at msg.task_id reason)
      (record w { tasks_failed = w.tasks_failed + 1 }))

-- The call of the AI runtime has failed.
unfoldable pub after_ai_error :
    Config → Env → Span → Message → (receipt : String) (receive_count : ℕ) → World → World
unfolding fail_task
after_ai_error cfg env span msg receipt receive_count w =
    if leb max_receive_count receive_count
    then fail_task cfg env span msg "ai_runtime_error" w
    else publish_sse env.report (event span msg "task.retrying" "ai_runtime_error") (
        call_queue (change_visibility receipt 30)
          (with_db cfg (revert_to_pending env.settle_link env.settle_at msg.task_id) w))

-- "%s/%s.json"
abbrev pub s3_key : Span → Message → String
s3_key span msg = text_append span.trace_id (text_append "/" (text_append msg.task_id ".json"))

unfoldable pub after_output :
    Config → Env → Span → Message → (receipt : String) → InferResult → World → World
unfolding fail_task
after_output cfg env span msg receipt ir w =
    if env.s3_stores
    then publish_sse env.report
        (record (event span msg "task.completed" "") {
          execution_status = "completed";
          s3_key = s3_key span msg;
          result = some ir;
        })
        (let done =
            with_db cfg
              (set_completed env.settle_link env.settle_at msg.task_id (s3_key span msg) ir.tokens)
              (call_queue (delete_message receipt)
                (record w { artifacts = s3_key span msg ∷ w.artifacts })) in
          record done { tasks_processed = done.tasks_processed + 1 })
    else fail_task cfg env span msg "s3_write_error" w

abbrev pub mock_result : Message → InferResult
mock_result msg = record {
  output = text_append "mock output for task " msg.task_id;
  duration_ms = 0;
  tokens = record no_tokens { model = "mock" };
}

-- The part after the claim.
unfoldable pub execute :
    Config → Env → Span → Message → (receipt : String) (receive_count : ℕ) → World → World
unfolding after_ai_error after_output call_ai_runtime
execute cfg env span msg receipt receive_count w =
    if cfg.ai_enabled
    then elim (call_ai_runtime env.ai) [
      | none ↦ after_ai_error cfg env span msg receipt receive_count w
      | some ir ↦ after_output cfg env span msg receipt ir w
    ]
    else after_output cfg env span msg receipt (mock_result msg) w

unfoldable pub start :
    Config → Env → Span → Message → (receipt : String) (receive_count : ℕ) → World → World
unfolding execute
start cfg env span msg receipt receive_count w =
    execute cfg env span msg receipt receive_count
      (publish_sse env.announce (event span msg "task.processing" "") w)

abbrev pub is_ok : Outcome → Bool
is_ok ok = true
is_ok db_error = false
is_ok conflict = false

-- The message attribute is authoritative; the body's field is the fallback.
abbrev pub parent_traceparent : String → Message → String
parent_traceparent attr msg = if attr == "" then msg.traceparent else attr

-- Process, from the message that the body decodes to. `w.current_task_id` is set for the
-- heartbeats, and reset when the function returns.
unfoldable pub process :
    Config
    → Env
    → Option Message
    → (traceparent_attr receipt : String) (receive_count : ℕ) → World
    → World
unfolding start
process cfg env none attr receipt receive_count w = w
process cfg env (some msg) attr receipt receive_count w =
    let claimed = set_processing env.claim_link env.claim_at msg.task_id w.tasks in
    let span = env.start_span (parent_traceparent attr msg) in
    let busy = record w { current_task_id = msg.task_id } in
    let after =
      if cfg.has_db
      then (if is_ok claimed.0
          then start cfg env span msg receipt receive_count (record busy { tasks = claimed.1 })
          else record busy { tasks = claimed.1 })
      else start cfg env span msg receipt receive_count busy in
    record after { current_task_id = "" }
