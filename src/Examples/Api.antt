-- ===== src/Examples/Api.antt =====
-- Runs of the API's handlers and of the worker in the API.
use trace_runtime.Prelude.{◌≡◌, refl, true, some, [], ◌∷◌, arith}
use trace_runtime.Tasks.{up, down, find, insert_task, Table}
use trace_runtime.Healing.{HealingEvent, resolved}
use trace_runtime.Healing.{find as find_event}
use trace_runtime.Queue.{Task, Queue, depth}
use trace_runtime.Broker.{Broker}
use trace_runtime.Api.{World, Reply, error, Env, Publisher, sqs, in_memory, create_task}
use trace_runtime.Api.{Event as ApiEvent}
use trace_runtime.Api.Replays.{Asked, replay, replay_row, resend, queue_full}
use trace_runtime.Api.{send}
use trace_runtime.Api.Operator.{Calls, delete, about}
use trace_runtime.Api.Creation.{Settled, create_task-Settled}
use trace_runtime.Api.Origins.{Replayed, replay-Replayed}
use trace_runtime.Api.Audits.{delete_audits_failure}
use trace_runtime.InProcess.{Inference, Span, failure, run, publish_all, Event}
use trace_runtime.InProcess.Drained.{Reported, run-drains}
use trace_runtime.Prelude.{
  inl, inr, true, false, Bool, Bool-cases, List, ◌&&◌, ◌==◌, if◌then◌else◌, String,
}
use trace_runtime.Api.Router.{
  Method, get, post, options, Handler, dlq_purge, Route, Mux, Among, routes, serve, serve_forbidden,
}
use trace_runtime.Examples.Tables.{failed_row}

abbrev hub : Broker ApiEvent
hub = record { subscribers = ("a", []) ∷ []; dropped_total = 0 }

abbrev pub world_of : Table → World
world_of t = record {
  tasks = t;
  healing = [];
  queue = record { ch = []; capacity = 1; rejected = 0 };
  main = [];
  deleted = [];
  purges = 0;
  broker = hub;
}

abbrev pub env : Publisher → Env
env p = record {
  has_db = true;
  task_id = "t9";
  trace_id = "def";
  traceparent = "00-def-1-01";
  event_id = "e9";
  insert_link = up;
  insert_at = 7;
  publisher = p;
  fail_link = up;
  fail_at = 8;
}

create_task-Settled_example :
    Settled
      (env (sqs down))
      "hello"
      (world_of [])
      (create_task (env (sqs down)) (some "hello") "" (world_of [])).1
      (create_task (env (sqs down)) (some "hello") "" (world_of [])).0
create_task-Settled_example =
    create_task-Settled (env (sqs down)) "hello" "" refl refl (world_of []) refl
      (λ h. absurd (ground arith)) (unfold find in refl) refl (omega arith)

abbrev asked : Asked
asked = record { answered = true; depth = some 99; send_link = up }

replay-Replayed_example :
    Replayed
      (env in_memory)
      "again"
      "t1"
      (world_of (failed_row ∷ []))
      (replay (env in_memory) asked "t1" "again" (world_of (failed_row ∷ []))).1
replay-Replayed_example =
    replay-Replayed (env in_memory) asked "again" "t1" (world_of (failed_row ∷ []))
      (unfold replay replay_row queue_full resend send insert_task find in refl)

abbrev pub calls : Calls
calls = record {
  send_link = up;
  delete_link = down;
  revert_link = up;
  audit_link = up;
  audit_id = "a1";
  now = 9;
}

delete_audits_failure_example :
    ((delete calls "receipt" "t1" (world_of [])).0
      ≡ error 410 "receipt handle expired, message may have been redelivered")
    × ((delete calls "receipt" "t1" (world_of [])).1.deleted ≡ [])
    × (e : HealingEvent) × (find_event "a1" (delete calls "receipt" "t1" (world_of [])).1.healing
        ≡ some e)
    × (e.event_type ≡ "dlq.message.deleted")
    × (e.details ≡ about "t1")
    × (e.status ≡ resolved)
delete_audits_failure_example =
    delete_audits_failure calls "receipt" "t1" (world_of []) refl refl refl
      (unfold find_event in refl)

abbrev pub dead_letter : Task
dead_letter = record { id = "t1"; trace_id = "abc"; traceparent = ""; payload = "hello" }

abbrev spans : Task → Span
spans t = record { trace_id = t.trace_id; traceparent = t.traceparent }

abbrev infer : Task → Inference
infer t = failure true

abbrev one_task : Queue
one_task = record { ch = dead_letter ∷ []; capacity = 4; rejected = 0 }

run-drains_example :
    (es : List Event) × Reported spans infer one_task.ch es
    × (run spans infer 5 one_task (record { subscribers = []; dropped_total = 0 }) ≡ (
      record one_task { ch = [] },
      publish_all es (record { subscribers = []; dropped_total = 0 }),
    ))
run-drains_example =
    run-drains spans infer 5 one_task (record { subscribers = []; dropped_total = 0 })
      (unfold depth in omega arith)

-- A mux that picks the first route with this method and pattern.
abbrev same_method : Method → Method → Bool
same_method get get = true
same_method post post = true
same_method Method.delete Method.delete = true
same_method options options = true
same_method _ _ = false

abbrev first_route : Mux
first_route [] m p = inl (error 404 "404 page not found")
first_route (r ∷ rs) m p =
    if same_method r.method m && r.pattern == p then inr r else first_route rs m p

first_route-Among :
    (rs : List Route) (m : Method) (p : String) (q : Route)
    → first_route rs m p ≡ inr q
    → Among q rs
first_route-Among [] m p q h = absurd (ground (arith, h))
first_route-Among (r ∷ rs) m p q h = elim (Bool-cases (same_method r.method m && r.pattern == p)) [
  | inl y ↦ inl (ground (arith, y, h))
  | inr n ↦ inr (first_route-Among rs m p q (ground (arith, n, h)))
]

abbrev purge_route : Route
purge_route = record {
  method = post;
  pattern = "/api/dlq/purge";
  behind_token = true;
  handler = dlq_purge;
}

abbrev handlers : Handler → World → Reply × World
handlers h w = (error 500 "", record w { purges = 1 })

serve_forbidden_example :
    serve handlers "secret" "guess" first_route true post "/api/dlq/purge" (world_of [])
    ≡ (error 403 "forbidden", world_of [])
serve_forbidden_example =
    serve_forbidden handlers "secret" "guess" first_route true post "/api/dlq/purge" purge_route
      (world_of []) first_route-Among (unfold routes in refl) refl refl refl
