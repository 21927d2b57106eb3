-- ===== src/Processor/Outcomes.antt =====
-- The four ways in which an attempt at a task ends, and what each leaves behind.
use trace_runtime.Prelude.{
  ℕ, String, ◌≡◌, refl, ap, Bool, true, Option, none, some, List, [], ◌∷◌, ◌++◌, if◌then◌else◌, leb,
}
use trace_runtime.Tasks.{Status, pending, completed, failed, TaskRow, find}
use trace_runtime.Processor.Calls.{
  Config, InferResult, Env, World, SseEvent, QueueCall, delete_message, change_visibility,
  call_ai_runtime, max_receive_count,
}

pub data Ending : Type 0 where
  gave_up will_retry lost_output finished : Ending

-- The AI runtime, the count of deliveries and S3 decide.
abbrev pub ending_of : Bool → Option InferResult → (s3_stores last : Bool) → Ending
ending_of true none s3 last = if last then Ending.gave_up else will_retry
ending_of ai_enabled result s3 last = if s3 then finished else lost_output

abbrev pub ending : Config → Env → (receive_count : ℕ) → Ending
ending cfg env n =
    ending_of cfg.ai_enabled (call_ai_runtime env.ai) env.s3_stores (leb max_receive_count n)

-- The status and the error that the row is left with.
abbrev pub status_of : Ending → Status
status_of gave_up = failed
status_of will_retry = pending
status_of lost_output = failed
status_of finished = completed

abbrev pub error_of : Ending → Option String → Option String
error_of gave_up e = some "ai_runtime_error"
error_of will_retry e = e
error_of lost_output e = some "s3_write_error"
error_of finished e = e

abbrev pub report_of : Ending → String
report_of gave_up = "task.failed"
report_of will_retry = "task.retrying"
report_of lost_output = "task.failed"
report_of finished = "task.completed"

abbrev pub calls_of : Ending → (receipt : String) → List QueueCall
calls_of gave_up receipt = []
calls_of will_retry receipt = change_visibility receipt 30 ∷ []
calls_of lost_output receipt = []
calls_of finished receipt = delete_message receipt ∷ []

abbrev pub artifacts_of : Ending → (key : String) → List String → List String
artifacts_of finished key artifacts = key ∷ artifacts
artifacts_of _ key artifacts = artifacts

abbrev pub types : List SseEvent → List String
types [] = []
types (e ∷ es) = e.event_type ∷ types es

-- What the world is after an attempt at the task of the row `r` that ended so.
pub record Ended (e : Ending) (id : String) (r : TaskRow) (key receipt : String) (w w' : World)
    : Type 0 where
  pub row : TaskRow
  pub found : find id w'.tasks ≡ some row
  pub status : row.status ≡ status_of e
  pub error : row.error_message ≡ error_of e r.error_message
  pub queue : w'.queue_calls ≡ w.queue_calls ++ calls_of e receipt
  pub artifacts : w'.artifacts ≡ artifacts_of e key w.artifacts
  pub reported : types w'.events ≡ types w.events ++ "task.processing" ∷ report_of e ∷ []

pub types-append : (es fs : List SseEvent) → types (es ++ fs) ≡ types es ++ types fs
types-append [] fs = refl
types-append (e ∷ es) fs = ap (λ ts. e.event_type ∷ ts) (types-append es fs)
