-- ===== src/InProcess.antt =====
-- The worker that runs inside the API where there is no SQS: services/api/internal/worker/worker.go.
-- It takes tasks from Queue, asks the AI runtime and reports to Broker.
pub mod Drained
pub mod Client
use trace_runtime.Prelude.{
  ℕ, zero, suc, String, Bool, true, false, Option, none, some, List, [], ◌∷◌, ◌++◌, ◌==◌,
  if◌then◌else◌,
}
use trace_runtime.Queue.{Task, Queue, dequeue}
use trace_runtime.Broker.{Broker, publish}

-- The fields of an event but its id and its time.
pub record Event : Type 0 where
  pub event_type : String
  pub trace_id : String
  pub traceparent : String
  pub task_id : String
  pub source : String
  pub output : String
  pub model : String
  pub execution_status : String
  pub validation_status : String
  pub inference_duration_ms : ℕ
  pub error_reason : String

pub record InferResponse : Type 0 where
  pub execution_status : String
  pub validation_status : String
  pub output : String
  pub model : String
  pub inference_duration_ms : ℕ

-- What Infer returns; an error says whether the deadline has passed.
pub data Inference : Type 0 where
  failure : (timed_out : Bool) → Inference
  response : InferResponse → Inference

pub record Span : Type 0 where
  pub trace_id : String
  pub traceparent : String

abbrev event : Span → Task → String → Event
event span t event_type = record {
  event_type = event_type;
  trace_id = span.trace_id;
  traceparent = span.traceparent;
  task_id = t.id;
  source = "worker";
  output = "";
  model = "";
  execution_status = "";
  validation_status = "";
  inference_duration_ms = 0;
  error_reason = "";
}

-- The event that reports how the task ended.
unfoldable pub report : Span → Task → Inference → Event
report span t (failure timed_out) = record (event span t "task.failed") {
  error_reason = if timed_out then "timeout" else "ai_runtime_error";
}
report span t (response r) =
    if r.execution_status == "failed"
    then record (event span t "task.failed") {
      error_reason = "ai_runtime_failed";
      execution_status = r.execution_status;
      validation_status = r.validation_status;
    }
    else record (event span t "task.completed") {
      output = r.output;
      model = r.model;
      execution_status = r.execution_status;
      validation_status = r.validation_status;
      inference_duration_ms = r.inference_duration_ms;
    }

module _ (spans : Task → Span) (infer : Task → Inference) where
  unfoldable pub process : Task → Broker Event → Broker Event
  unfolding report
  process t b =
      publish (publish b (event (spans t) t "task.processing")) (report (spans t) t (infer t))

  -- The loop of Run, for at most `fuel` tasks; it waits on an empty queue.
  unfoldable pub run : (fuel : ℕ) → Queue → Broker Event → Queue × Broker Event
  unfolding process
  run zero q b = (q, b)
  run (suc fuel) q b = elim (dequeue q).0 [
    | none ↦ (q, b)
    | some t ↦ run fuel (dequeue q).1 (process t b)
  ]

  -- The two events of each task.
  unfoldable pub reports : List Task → List Event
  unfolding report
  reports [] = []
  reports (t ∷ ts) = event (spans t) t "task.processing" ∷ report (spans t) t (infer t) ∷ reports ts

unfoldable pub publish_all : List Event → Broker Event → Broker Event
publish_all [] b = b
publish_all (e ∷ es) b = publish_all es (publish b e)
