-- ===== src/Examples/Attempts.antt =====
-- Runs of the worker's processor.
use trace_runtime.Prelude.{
  none, List, String, ◌≡◌, refl, true, some, [], ◌∷◌, arith, eq_iff, contains,
}
use trace_runtime.Tasks.{processing, TaskRow, Table, up, no_tokens, find}
use trace_runtime.Processor.{process}
use trace_runtime.Processor.Calls.{
  Config, Message, AiBody, AiReply, unreachable, response, Post, Env, World,
}
use trace_runtime.Processor.Artifacts.{IsBacked}
use trace_runtime.Processor.Polling.{
  Received, receive_failed, messages, poll_messages, poll_messages-IsBacked,
}
use trace_runtime.Processor.Outcomes.{ending, Ended, finished}
use trace_runtime.Processor.Endings.{process_ends}
use trace_runtime.Processor.Stranded.{completion_lost}
use trace_runtime.Tasks.{down}
use trace_runtime.Processor.Calls.{delete_message, call_ai_runtime}
use trace_runtime.Processor.Redelivery.{redelivery_ignored, client_error_completes}
use trace_runtime.Examples.Tables.{task_params, waiting_table}
use trace_runtime.Tasks.{new_row}

abbrev pub config : Config
config = record { ai_enabled = true; has_db = true }

abbrev pub message : Message
message = record {
  task_id = "t1";
  trace_id = "abc";
  traceparent = "00-abc-1-01";
  payload = "hello";
}

abbrev posted : Post
posted = record { event_id = "e1"; timestamp = 4; reply = some 202 }

abbrev refusal : AiBody
refusal = record {
  execution_status = "";
  result = record { output = ""; duration_ms = 0; tokens = no_tokens };
}

abbrev pub world_env : AiReply → Env
world_env reply = record {
  start_span = λ parent. record { trace_id = "abc"; traceparent = parent };
  claim_link = up;
  claim_at = 2;
  announce = posted;
  ai = reply;
  s3_stores = true;
  settle_link = up;
  settle_at = 3;
  report = posted;
}

abbrev pub world_of : Table → World
world_of t = record {
  tasks = t;
  queue_calls = [];
  artifacts = [];
  events = [];
  publish_errors = 0;
  tasks_processed = 0;
  tasks_failed = 0;
  current_task_id = "";
}

abbrev start_row : TaskRow
start_row = new_row task_params 1

abbrev busy_row : TaskRow
busy_row = record start_row { status = processing; processing_started_at = some 2 }

-- The AI runtime cannot be reached on the third delivery.
process_ends_example :
    Ended
      (ending config (world_env unreachable) 3)
      "t1"
      start_row
      "abc/t1.json"
      "receipt"
      (world_of waiting_table)
      (process config
        (world_env unreachable)
        (some message)
        ""
        "receipt"
        3
        (world_of waiting_table))
process_ends_example =
    process_ends config (world_env unreachable) message "" "receipt" 3 (world_of waiting_table)
      start_row refl refl refl (unfold find in refl) refl

redelivery_ignored_example :
    process config (world_env unreachable) (some message) "" "receipt" 2 (world_of (busy_row ∷ []))
    ≡ world_of (busy_row ∷ [])
redelivery_ignored_example =
    redelivery_ignored config (world_env unreachable) message "" "receipt" 2
      (world_of (busy_row ∷ [])) busy_row refl (unfold find in refl) (ground arith)

client_error_completes_example :
    Ended finished "t1" start_row "abc/t1.json" "receipt" (world_of waiting_table) (
      process config
        (world_env (response 422 (some refusal)))
        (some message)
        ""
        "receipt"
        1
        (world_of waiting_table))
client_error_completes_example =
    client_error_completes config (world_env (response 422 (some refusal))) message "" "receipt" 1
      (world_of waiting_table) start_row 422 refusal refl refl refl refl refl (unfold find in refl)
      refl refl (omega arith) (omega arith) (λ h. absurd (ground (arith, (eq_iff "" "failed").1 h)))

no_keys :
    (k : String) (r : TaskRow) (key : String)
    → find k waiting_table ≡ some r
    → r.artifact_key ≡ some key
    → contains [] key ≡ true
unfolding find
no_keys k r key h e = ground arith

abbrev turns : List Received
turns =
    receive_failed
    ∷ messages (
        record {
          parsed = some message;
          traceparent = none;
          receive_count = some 1;
          receipt = "receipt";
          env = world_env (response 200 (some refusal));
        }
        ∷ [])
    ∷ []

poll_messages-IsBacked_example : IsBacked (poll_messages config turns (world_of waiting_table))
poll_messages-IsBacked_example =
    poll_messages-IsBacked config turns (world_of waiting_table) no_keys

-- The database is down when the result is recorded.
abbrev outage : Env
outage = record (world_env (response 200 (some refusal))) { settle_link = down }

completion_lost_example :
    ((process config outage (some message) "" "receipt" 1 (world_of waiting_table)).queue_calls
      ≡ delete_message "receipt" ∷ [])
    × (row : TaskRow) × (find "t1"
          (process config outage (some message) "" "receipt" 1 (world_of waiting_table)).tasks
        ≡ some row)
    × (row.status ≡ processing)
completion_lost_example =
    completion_lost config outage message "" "receipt" 1 (world_of waiting_table) start_row
      refusal.result refl refl refl refl (unfold call_ai_runtime in refl) refl (unfold find in refl)
      refl
