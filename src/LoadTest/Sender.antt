-- ===== src/LoadTest/Sender.antt =====
-- cmd/loadtest/sender.go. The tasks are submitted by several goroutines: the order in which their results are
-- appended is given, with what becomes of each; one that is taken after the context has ended is not submitted.
use Prim.Native.String.{◌++◌ as text_append}
use trace_runtime.Prelude.{
  ℕ, ◌%◌, String, Bool, ◌⊎◌, inl, inr, Option, none, some, List, [], ◌∷◌, get_elem?, leb, ◌&&◌,
  if◌then◌else◌, ◌≤◌, arith, length, suc,
}
use trace_runtime.Prelude.Decimal.{decimal}
use trace_runtime.LoadTest.Collector.{TaskResult}

abbrev sample_inputs : List String
sample_inputs =
    "Analyze the performance characteristics of this distributed system"
    ∷ "Classify the following event: worker heartbeat timeout after 60 seconds"
    ∷ "Summarize the operational status of the runtime platform"
    ∷ "Evaluate the queue backlog and recommend scaling actions"
    ∷ "Generate a report on inference latency trends" ∷ []

abbrev or_empty : Option String → String
or_empty none = ""
or_empty (some s) = s

unfoldable pub input_for : ℕ → String
input_for idx = or_empty (get_elem? sample_inputs (idx % 5))

-- The answer of the API to POST /tasks: an error, or a status and what the body decodes to.
pub data Answer : Type 0 where
  no_answer : String → Answer
  answered : (status : ℕ) (body : String ⊎ (String × String)) → Answer

-- One call, with its times.
pub record Attempt : Type 0 where
  pub submit_at : ℕ
  pub latency : ℕ
  pub answer : Answer

abbrev failed_with : Attempt → String → TaskResult
failed_with a e = record {
  task_id = "";
  trace_id = "";
  submit_at = a.submit_at;
  latency = a.latency;
  error = some e;
}

abbrev accepted : Attempt → String ⊎ (String × String) → TaskResult
accepted a (inl e) = failed_with a e
accepted a (inr (task_id, trace_id)) = record {
  task_id = task_id;
  trace_id = trace_id;
  submit_at = a.submit_at;
  latency = a.latency;
  error = none;
}

abbrev of_answer : Attempt → Answer → TaskResult
of_answer a (no_answer e) = failed_with a e
of_answer a (answered status body) =
    if leb status 201 && leb 201 status
    then accepted a body
    else failed_with a (text_append "unexpected status: " (decimal status))

unfoldable pub submit_task : Attempt → TaskResult
unfolding decimal
submit_task a = of_answer a a.answer

-- A task that a goroutine has taken: `none` is one after the end of the context.
pub record Taken : Type 0 where
  pub idx : ℕ
  pub attempt : String → Option Attempt

abbrev appended : Option Attempt → List TaskResult → List TaskResult
appended none results = results
appended (some a) results = submit_task a ∷ results

unfoldable pub results_of : List Taken → List TaskResult
unfolding submit_task input_for
results_of [] = []
results_of (t ∷ taken) = appended (t.attempt (input_for t.idx)) (results_of taken)

-- sendTasks, with the context's error if it ends before all tasks are handed out.
unfoldable pub send_tasks : (cut_short : Bool) → List Taken → List TaskResult × Option String
unfolding results_of
send_tasks cut_short taken = (results_of taken, if cut_short then some "context ended" else none)

appended-le :
    (o : Option Attempt) (results : List TaskResult)
    → length (appended o results) ≤ suc (length results)
appended-le none results = omega arith
appended-le (some a) results = omega arith

-- There are no more results than tasks taken.
pub results-le :
    (cut_short : Bool) (taken : List Taken) → length (send_tasks cut_short taken).0 ≤ length taken
unfolding send_tasks
results-le cut_short [] = omega arith
results-le cut_short (t ∷ taken) = omega (
  arith,
  appended-le (t.attempt (input_for t.idx)) (results_of taken),
  results-le cut_short taken,
)
