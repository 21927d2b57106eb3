-- ===== src/InProcess/Client.antt =====
-- services/api/internal/ai/client.go: Infer, as the worker in the API calls it. HTTP is given by its answer.
use trace_runtime.Prelude.{
  ℕ, String, Bool, Option, none, some, List, [], ◌∷◌, ◌==◌, if◌then◌else◌, leb,
}
use trace_runtime.Queue.{Task}
use trace_runtime.InProcess.{InferResponse, Inference, failure, response, Span}

pub record InferRequest : Type 0 where
  pub task_id : String
  pub input : String
  pub deadline_unix_ms : ℕ
  pub traceparent : String

-- The headers of the request.
unfoldable pub headers_of : InferRequest → List (String × String)
headers_of req =
    ("Content-Type", "application/json")
    ∷ (if req.traceparent == "" then [] else ("traceparent", req.traceparent) ∷ [])

-- An error, or a status and what the body decodes to.
pub data Answer : Type 0 where
  no_answer : Answer
  answered : (status : ℕ) (body : Option InferResponse) → Answer

abbrev decoded : Bool → Option InferResponse → Inference
decoded timed_out none = failure timed_out
decoded timed_out (some r) = response r

-- `timed_out` says whether the context's deadline has passed when Infer returns. An answer below 500 is decoded, whatever it is.
unfoldable pub infer : (timed_out : Bool) → Answer → Inference
infer timed_out no_answer = failure timed_out
infer timed_out (answered status body) =
    if leb 500 status then failure timed_out else decoded timed_out body

-- The request for a task.
unfoldable pub request_for : (deadline_ms : ℕ) → Span → Task → InferRequest
request_for deadline_ms span t = record {
  task_id = t.id;
  input = t.payload;
  deadline_unix_ms = deadline_ms;
  traceparent = span.traceparent;
}
