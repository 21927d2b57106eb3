-- ===== src/Api.antt =====
-- The API's handlers that change something. This file has their common part: what they share, the
-- publishers and TaskHandler.ServeHTTP of services/api/internal/http/task.go. The other handlers are
-- in Api/Replays and Api/Operator.
pub mod Replays
pub mod Operator
pub mod Router
pub mod DeadLetters
pub mod Creation
pub mod Origins
pub mod Audits
use Prim.Native.String.{len}
use trace_runtime.Prelude.{
  ℕ, ◌+◌, String, Bool, true, false, Option, none, some, List, [], ◌∷◌, ◌++◌, ◌==◌, ltb,
  if◌then◌else◌,
}
use trace_runtime.Tasks.{
  Link, up, down, cut, Outcome, ok, CreateTaskParams, insert_task, api_set_failed,
}
use trace_runtime.Tasks.{Table as TaskTable}
use trace_runtime.Healing.{Table as EventTable}
use trace_runtime.Queue.{Task, Queue, enqueue}
use trace_runtime.Broker.{Broker, publish}

-- An event, with the fields that the handlers set.
pub record Event : Type 0 where
  pub event_id : String
  pub event_type : String
  pub trace_id : String
  pub traceparent : String
  pub task_id : String
  pub healing_event_id : String
  pub source : String

-- The two tables, the queue in memory, the bodies in the main SQS queue, the calls on the
-- dead-letter queue, and the hub.
pub record World : Type 0 where
  pub tasks : TaskTable
  pub healing : EventTable
  pub queue : Queue
  pub main : List Task
  pub deleted : List String
  pub purges : ℕ
  pub broker : Broker Event

pub data Reply : Type 0 where
  created : (task_id trace_id : String) → Reply
  done : Reply
  error : (code : ℕ) (message : String) → Reply

abbrev pub is_created : Reply → Bool
is_created (created _ _) = true
is_created _ = false

-- SQSPublisher, whose call of SendMessage fares as the link says, or QueuePublisher.
pub data Publisher : Type 0 where
  sqs : Link → Publisher
  in_memory : Publisher

-- SendMessage: false is an error.
unfoldable pub send : Link → Task → List Task → Bool × List Task
send up t main = (true, main ++ t ∷ [])
send down t main = (false, main)
send cut t main = (false, main ++ t ∷ [])

-- Publish; `none` is an error.
unfoldable pub publish_task : Publisher → Task → World → Option Bool × World
unfolding send
publish_task (sqs link) t w =
    let (sent, main) = send link t w.main in
    (if sent then some true else none, record w { main = main })
publish_task in_memory t w =
    let (taken, q) = enqueue w.queue t in (some taken, record w { queue = q })

-- The fresh ids of one creation, its span, and how its calls fare.
pub record Env : Type 0 where
  pub has_db : Bool
  pub task_id : String
  pub trace_id : String
  pub traceparent : String
  pub event_id : String
  pub insert_link : Link
  pub insert_at : ℕ
  pub publisher : Publisher
  pub fail_link : Link
  pub fail_at : ℕ

-- SetFailed, whose error is only logged.
unfoldable pub give_up : Env → (reason : String) → World → World
give_up env reason w =
    if env.has_db
    then record w {
      tasks = (api_set_failed env.fail_link env.fail_at env.task_id reason w.tasks).1;
    }
    else w

-- The header X-Chaos-Run-Id.
abbrev pub chaos_run : String → Option String
chaos_run header = if header == "" then none else some header

abbrev pub task_of : Env → (payload : String) → Task
task_of env payload = record {
  id = env.task_id;
  trace_id = env.trace_id;
  traceparent = env.traceparent;
  payload = payload;
}

abbrev announce : Env → Option String → World → World
announce env none w = record w {
  broker = publish w.broker (record {
    event_id = env.event_id;
    event_type = "task.created";
    trace_id = env.trace_id;
    traceparent = env.traceparent;
    task_id = env.task_id;
    healing_event_id = "";
    source = "api";
  });
}
announce env (some run) w = w

-- What ServeHTTP does on the publisher's answer.
unfoldable pub conclude : Env → (header : String) → Option Bool → World → Reply × World
unfolding give_up
conclude env header none w = (error 500 "internal error", give_up env "sqs: queue unavailable" w)
conclude env header (some false) w = (error 503 "queue_full", give_up env "queue full" w)
conclude env header (some true) w =
    (created env.task_id env.trace_id, announce env (chaos_run header) w)

-- The part of ServeHTTP after the row is inserted.
unfoldable pub hand_over : Env → (input header : String) → World → Reply × World
unfolding publish_task conclude
hand_over env input header w =
    let (sent, w') = publish_task env.publisher (task_of env input) w in conclude env header sent w'

abbrev pub params_of : Env → (input header : String) → CreateTaskParams
params_of env input header = record {
  id = env.task_id;
  trace_id = env.trace_id;
  input_payload = input;
  replay_of = none;
  chaos_run_id = chaos_run header;
}

abbrev pub is_ok : Outcome → Bool
is_ok ok = true
is_ok _ = false

unfoldable pub register : Env → (input header : String) → World → Reply × World
unfolding hand_over
register env input header w =
    if env.has_db
    then (let (outcome, tasks) =
          insert_task env.insert_link env.insert_at (params_of env input header) w.tasks in
        if is_ok outcome
        then hand_over env input header (record w { tasks = tasks })
        else (error 500 "internal error", record w { tasks = tasks }))
    else hand_over env input header w

-- TaskHandler.ServeHTTP, from the decoded body: `none` is a body that does not decode, or is over
-- 64 KiB.
unfoldable pub create_task : Env → Option String → (header : String) → World → Reply × World
unfolding register
create_task env none header w = (error 400 "invalid json", w)
create_task env (some input) header w =
    if input == ""
    then (error 400 "input is required", w)
    else if ltb 10000 (len input)
    then (error 400 "input too long", w)
    else register env input header w
