-- ===== src/Processor/Polling.antt =====
-- pollMessages and the heartbeat of services/worker/cmd/worker/main.go, with UpsertHeartbeat of
-- services/worker/internal/db/tasks.go. An element of a list of receives is one turn of the loop; the
-- end of the list is the moment up to which the worker is looked at. Times are microseconds.
use trace_runtime.Prelude.{
  ℕ, ◌-◌, ◌/◌, String, Bool, true, false, Option, none, some, List, [], ◌∷◌, ◌==◌, if◌then◌else◌,
  string_eq,
}
use trace_runtime.Prelude.Assoc.{put}
use trace_runtime.Tasks.{Link, up, down, cut}
use trace_runtime.Processor.Calls.{Config, Message}
use trace_runtime.Processor.{Env, World, process}
use trace_runtime.Processor.Artifacts.{IsBacked, process-IsBacked}

-- A message of SQS. `parsed` is what the body decodes to, `receive_count` the attribute where it is a
-- number; `env` is what the services answer while it is handled.
pub record Incoming : Type 0 where
  pub parsed : Option Message
  pub traceparent : Option String
  pub receive_count : Option ℕ
  pub receipt : String
  pub env : Env

pub data Received : Type 0 where
  stopped receive_failed : Received
  messages : List Incoming → Received

abbrev text_or_empty : Option String → String
text_or_empty none = ""
text_or_empty (some s) = s

abbrev or_one : Option ℕ → ℕ
or_one none = 1
or_one (some n) = n

unfoldable pub handle_all : Config → List Incoming → World → World
handle_all cfg [] w = w
handle_all cfg (m ∷ ms) w =
    handle_all cfg ms (
      process cfg m.env m.parsed (text_or_empty m.traceparent) m.receipt (or_one m.receive_count) w)

-- An error of ReceiveMessage is logged, unless the context has ended.
unfoldable pub poll_messages : Config → List Received → World → World
unfolding handle_all
poll_messages cfg [] w = w
poll_messages cfg (stopped ∷ turns) w = w
poll_messages cfg (receive_failed ∷ turns) w = poll_messages cfg turns w
poll_messages cfg (messages ms ∷ turns) w = poll_messages cfg turns (handle_all cfg ms w)

pub record Heartbeat : Type 0 where
  pub last_seen_at : ℕ
  pub tasks_processed : ℕ
  pub tasks_failed : ℕ
  pub current_task_id : Option String
  pub goroutines : ℕ
  pub uptime_seconds : ℕ

abbrev unless_empty : String → Option String
unless_empty s = if s == "" then none else some s

-- The table worker_heartbeats, by worker; whether the statement is answered.
unfoldable pub upsert_heartbeat :
    Link → String → Heartbeat → List (String × Heartbeat) → Bool × List (String × Heartbeat)
upsert_heartbeat up id hb table = (true, put table id hb)
upsert_heartbeat cut id hb table = (false, put table id hb)
upsert_heartbeat down id hb table = (false, table)

-- sendHeartbeat of a worker that started at `start`; an error is only logged.
unfoldable pub send_heartbeat :
    Link
    → (id : String) (start now goroutines : ℕ) → World
    → List (String × Heartbeat)
    → List (String × Heartbeat)
unfolding upsert_heartbeat
send_heartbeat link id start now goroutines w table =
    (upsert_heartbeat link id
      (record {
        last_seen_at = now;
        tasks_processed = w.tasks_processed;
        tasks_failed = w.tasks_failed;
        current_task_id = unless_empty w.current_task_id;
        goroutines = goroutines;
        uptime_seconds = (now - start) / 1000000;
      })
      table).1

handle_all-IsBacked :
    (cfg : Config) (ms : List Incoming) (w : World) → IsBacked w → IsBacked (handle_all cfg ms w)
unfolding handle_all
handle_all-IsBacked cfg [] w b = b
handle_all-IsBacked cfg (m ∷ ms) w b = handle_all-IsBacked cfg ms _ (
    process-IsBacked cfg m.env m.parsed (text_or_empty m.traceparent) m.receipt
      (or_one m.receive_count) w b)

-- Whatever messages the worker's loop receives, and whatever the database, the AI runtime, S3 and the API answer: if every artifact key in the table of tasks names an object in S3, then this is so after any number of turns.
pub poll_messages-IsBacked :
    (cfg : Config) (turns : List Received) (w : World)
    → IsBacked w
    → IsBacked (poll_messages cfg turns w)
unfolding poll_messages
poll_messages-IsBacked cfg [] w b = b
poll_messages-IsBacked cfg (stopped ∷ turns) w b = b
poll_messages-IsBacked cfg (receive_failed ∷ turns) w b = poll_messages-IsBacked cfg turns w b
poll_messages-IsBacked cfg (messages ms ∷ turns) w b =
    poll_messages-IsBacked cfg turns _ (handle_all-IsBacked cfg ms w b)
