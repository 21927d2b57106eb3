-- ===== src/Api/Replays.antt =====
-- The replay of a finished task: services/api/internal/handlers/replay.go, and GetTaskForReplay of
-- services/api/internal/db/replay.go. A payload that is NULL stands as "".
use Prim.Native.String.{◌++◌ as text_append}
use trace_runtime.Prelude.{
  ℕ, String, Bool, true, false, Option, none, some, ◌==◌, leb, if◌then◌else◌,
}
use trace_runtime.Tasks.{
  Status, pending, processing, completed, failed, TaskRow, Link, CreateTaskParams, find,
  insert_task, api_set_failed,
}
use trace_runtime.Broker.{publish}
use trace_runtime.Api.{World, Reply, created, error, Event, Env, send, task_of, is_ok}

-- What the handler asks beside what `Env` gives: whether the query for the row is answered, the
-- depth of the queue if that is known, and how SendMessage fares.
pub record Asked : Type 0 where
  pub answered : Bool
  pub depth : Option ℕ
  pub send_link : Link

-- checkQueueDepth: true is the error.
unfoldable pub queue_full : Option ℕ → Bool
queue_full none = false
queue_full (some depth) = leb 100 depth

abbrev pub is_final : Status → Bool
is_final pending = false
is_final processing = false
is_final completed = true
is_final failed = true

abbrev status_name : Status → String
status_name pending = "pending"
status_name processing = "processing"
status_name completed = "completed"
status_name failed = "failed"

abbrev in_progress : Status → String
in_progress s = text_append "task still in progress (status: " (text_append (status_name s) ")")

-- The payload to run; "" is that none is available.
abbrev pub payload_of : (override original : String) → String
payload_of override original = if override == "" then original else override

abbrev pub replay_params : Env → (original payload : String) → CreateTaskParams
replay_params env original payload = record {
  id = env.task_id;
  trace_id = env.trace_id;
  input_payload = payload;
  replay_of = some original;
  chaos_run_id = none;
}

abbrev created_event : Env → Event
created_event env = record {
  event_id = env.event_id;
  event_type = "task.created";
  trace_id = env.trace_id;
  traceparent = "";
  task_id = env.task_id;
  healing_event_id = "";
  source = "api/replay";
}

-- The part after the row is inserted.
unfoldable pub resend : Env → Asked → (payload : String) → World → Reply × World
unfolding send
resend env asked payload w =
    let (sent, main) = send asked.send_link (task_of env payload) w.main in
    if sent
    then (
      created env.task_id env.trace_id,
      record w { main = main; broker = publish w.broker (created_event env) },
    )
    else (
      error 500 "internal error",
      record w {
        main = main;
        tasks =
            (api_set_failed env.fail_link env.fail_at env.task_id "sqs: publish failed on replay"
              w.tasks).1;
      },
    )

unfoldable pub replay_row :
    Env → Asked → (override original : String) → TaskRow → World → Reply × World
unfolding resend queue_full
replay_row env asked override original task w =
    let payload = payload_of override task.input_payload in
    if is_final task.status
    then (if payload == ""
        then (error 422 "original payload not available (task created before replay support)", w)
        else if queue_full asked.depth
        then (error 503 "queue full", w)
        else (let (outcome, tasks) =
              insert_task env.insert_link env.insert_at (replay_params env original payload)
                w.tasks in
            if is_ok outcome
            then resend env asked payload (record w { tasks = tasks })
            else (error 500 "internal error", record w { tasks = tasks })))
    else (error 409 (in_progress task.status), w)

unfoldable pub replay : Env → Asked → (original override : String) → World → Reply × World
unfolding replay_row
replay env asked original override w =
    if asked.answered
    then elim (find original w.tasks) [
      | none ↦ (error 404 "task not found", w)
      | some task ↦ replay_row env asked override original task w
    ]
    else (error 500 "internal error", w)
