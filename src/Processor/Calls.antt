-- ===== src/Processor/Calls.antt =====
-- What the worker's processor, services/worker/internal/processor/processor.go, asks of the
-- outside. SQS, S3, the AI runtime and the API are called over the network: what they answer is given
-- by an `Env`, one field for each call that `Process` may make, and what is asked of them is recorded
-- in the `World`, beside the table of tasks and the counters. Logs are left out.
use trace_runtime.Prelude.{
  ℕ, ◌+◌, String, Bool, Option, none, some, List, [], ◌∷◌, ◌++◌, ◌==◌, leb, if◌then◌else◌,
}
use trace_runtime.Tasks.{Table, Link, TokenMetrics}

pub record Config : Type 0 where
  pub ai_enabled : Bool
  -- p.db != nil
  pub has_db : Bool

pub record Message : Type 0 where
  pub task_id : String
  pub trace_id : String
  pub traceparent : String
  pub payload : String

pub record InferResult : Type 0 where
  pub output : String
  pub duration_ms : ℕ
  pub tokens : TokenMetrics

-- The body of an answer of the AI runtime that decodes; missing fields decode to "" and 0.
pub record AiBody : Type 0 where
  pub execution_status : String
  pub result : InferResult

pub data AiReply : Type 0 where
  -- client.Do fails: no connection, or a timeout.
  unreachable : AiReply
  -- The body is `none` if it does not decode.
  response : (status : ℕ) (body : Option AiBody) → AiReply

-- callAIRuntime; `none` is an error.
unfoldable pub call_ai_runtime : AiReply → Option InferResult
call_ai_runtime unreachable = none
call_ai_runtime (response status none) = none
call_ai_runtime (response status (some body)) =
    if leb 500 status
    then none
    else if body.execution_status == "failed"
    then none
    else some body.result

pub record SseEvent : Type 0 where
  pub event_id : String
  pub event_type : String
  pub trace_id : String
  pub traceparent : String
  pub task_id : String
  pub timestamp : ℕ
  pub source : String
  pub execution_status : String
  pub error_reason : String
  pub s3_key : String
  pub result : Option InferResult

-- The fresh id and the time of an event, and how its POST to the API fares: `none` if the API is
-- unreachable, else the status.
pub record Post : Type 0 where
  pub event_id : String
  pub timestamp : ℕ
  pub reply : Option ℕ

pub data QueueCall : Type 0 where
  delete_message : (receipt : String) → QueueCall
  change_visibility : (receipt : String) (seconds : ℕ) → QueueCall

-- The context of a span.
pub record Span : Type 0 where
  pub trace_id : String
  pub traceparent : String

pub record Env : Type 0 where
  -- tracer.Start, from the traceparent of the parent.
  pub start_span : String → Span
  pub claim_link : Link
  pub claim_at : ℕ
  pub announce : Post
  pub ai : AiReply
  pub s3_stores : Bool
  -- The statement that ends the attempt, and the event that reports it.
  pub settle_link : Link
  pub settle_at : ℕ
  pub report : Post

pub record World : Type 0 where
  pub tasks : Table
  -- Calls to SQS, in order. Their errors are logged or ignored.
  pub queue_calls : List QueueCall
  -- The keys of the objects in S3.
  pub artifacts : List String
  -- The events sent to the API.
  pub events : List SseEvent
  pub publish_errors : ℕ
  pub tasks_processed : ℕ
  pub tasks_failed : ℕ
  pub current_task_id : String

abbrev pub max_receive_count : ℕ
max_receive_count = 3

abbrev failed_post : Option ℕ → ℕ
failed_post none = 1
failed_post (some status) = if leb 400 status then 1 else 0

unfoldable pub publish_sse : Post → SseEvent → World → World
publish_sse p ev w = record w {
  events = w.events ++ record ev { event_id = p.event_id; timestamp = p.timestamp } ∷ [];
  publish_errors = w.publish_errors + failed_post p.reply;
}
