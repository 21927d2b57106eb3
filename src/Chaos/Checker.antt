-- ===== src/Chaos/Checker.antt =====
-- The calls of cmd/chaos/internal/chaos/checker/checker.go on PostgreSQL, SQS and HTTP. Of a heartbeat only the
-- worker and the time stand here; `link` is how a statement fares in a state of the rest of the world.
pub mod Stabilized
use mathlib.Core.List.{foldr}
use text.Mathlib.Text.{starts_with}
use Prim.Native.String.{◌++◌ as text_append}
use trace_runtime.Prelude.{
  ℕ, ◌+◌, ◌-◌, String, Bool, true, false, not, ◌&&◌, ◌⊎◌, inl, inr, Option, none, some, List, [],
  ◌∷◌, ◌==◌, map, length, ltb, leb, is_some, if◌then◌else◌, select,
}
use trace_runtime.Tasks.{Status, pending, processing, failed, TaskRow, find, Link, up, down, cut}
use trace_runtime.Tasks
use trace_runtime.Healing.{HealingEvent, is_active, to_resolved}
use trace_runtime.Healing
use trace_runtime.Alerts.{newest_first}
use trace_runtime.Chaos.Ops.{M, Done, done, Ops, labelled}

pub record Db : Type 0 where
  pub tasks : Tasks.Table
  pub events : Healing.Table
  pub heartbeats : List (String × ℕ)

-- A query, and a statement with the number of rows that it has changed.
abbrev query : {A : Type 0} → Link → A → String ⊎ A
query up a = inr a
query down a = inl "connection"
query cut a = inl "connection"

abbrev exec : {A B : Type 0} → Link → A → B → B → (String ⊎ A) × B
exec up n before after = (inr n, after)
exec down n before after = (inl "connection", before)
exec cut n before after = (inl "connection", after)

-- ORDER BY created_at ASC
abbrev insert : HealingEvent → Healing.Table → Healing.Table
insert e [] = e ∷ []
insert e (d ∷ t) = if leb e.created_at d.created_at then e ∷ d ∷ t else d ∷ insert e t

unfoldable pub oldest_first : Healing.Table → Healing.Table
oldest_first = foldr insert []

abbrev has_status : Status → TaskRow → Bool
has_status pending r = elim r.status [ pending ↦ true | _ ↦ false ]
has_status processing r = elim r.status [ processing ↦ true | _ ↦ false ]
has_status Status.completed r = elim r.status [ Status.completed ↦ true | _ ↦ false ]
has_status failed r = elim r.status [ failed ↦ true | _ ↦ false ]

-- input_payload LIKE 'chaos-%', whatever the task's chaos_run_id is.
unfoldable pub of_chaos : TaskRow → Bool
of_chaos r = starts_with r.input_payload "chaos-"

abbrev pub is_stuck : TaskRow → Bool
is_stuck r = has_status processing r && of_chaos r

abbrev pub is_abandoned : TaskRow → Bool
is_abandoned r = has_status pending r && not (is_some r.processing_started_at) && of_chaos r

abbrev pub fail_row : ℕ → String → TaskRow → TaskRow
fail_row now reason r = record r {
  status = failed;
  completed_at = some now;
  error_message = some reason;
  updated_at = now;
}

abbrev pub fail_if : (TaskRow → Bool) → ℕ → String → TaskRow → TaskRow
fail_if test now reason r = if test r then fail_row now reason r else r

abbrev pub resolve_row : ℕ → HealingEvent → HealingEvent
resolve_row now e =
    if is_active e then record e { status = Healing.resolved; resolved_at = some now } else e

abbrev status_in : Option TaskRow → String ⊎ Status
status_in none = inl "no rows"
status_in (some r) = inr r.status

abbrev latest : List (String × ℕ) → Option ℕ → Option ℕ
latest [] at = at
latest ((_, seen) ∷ beats) none = latest beats (some seen)
latest ((_, seen) ∷ beats) (some at) = latest beats (some (if leb at seen then seen else at))

abbrev age_in : ℕ → Option ℕ → String ⊎ ℕ
age_in now none = inl "no rows"
age_in now (some at) = inr (now - at)

abbrev joined : {A B : Type 0} → (A → String ⊎ B) → String ⊎ A → String ⊎ B
joined f (inl e) = inl e
joined f (inr a) = f a

abbrev is_of_run : String → HealingEvent → Bool
is_of_run id e = elim e.chaos_run_id [ none ↦ false | some run ↦ run == id ]

-- What GetQueueAttributes answers: `value` is the attribute, if it is a number.
pub data Attributes : Type 0 where
  attributes_failed : String → Attributes
  missing : Attributes
  value : Option ℕ → Attributes

abbrev pub queue_attribute : Attributes → String ⊎ ℕ
queue_attribute (attributes_failed e) = inl (text_append "sqs get attributes: " e)
queue_attribute missing = inr 0
queue_attribute (value none) = inl "parse queue attribute: invalid syntax"
queue_attribute (value (some n)) = inr n

module _ {S : Type 0} (ops : Ops S) (link : S → Link) where
  abbrev W : Type 0
  W = Db × S

  abbrev ask : {A : Type 0} → String → (Db → A) → M W A
  ask label f = labelled label (λ w. (query (link w.1) (f w.0), w))

  unfoldable pub active_healing_events : M W (List HealingEvent)
  unfolding newest_first
  active_healing_events =
      ask "query active healing events: " (λ d. newest_first (select is_active d.events))

  unfoldable pub healing_events_since : ℕ → M W (List HealingEvent)
  unfolding oldest_first
  healing_events_since since =
      ask "query healing events since: "
        (λ d. oldest_first (select (λ e. leb since e.created_at) d.events))

  abbrev find_status : String → W → (String ⊎ Status) × W
  find_status id w = (joined status_in (query (link w.1) (find id w.0.tasks)), w)

  unfoldable pub healing_events_by_run_id : String → M W (List HealingEvent)
  unfolding oldest_first
  healing_events_by_run_id id =
      ask "query healing events by run id: " (λ d. oldest_first (select (is_of_run id) d.events))

  unfoldable pub tasks_in_status : Status → M W ℕ
  tasks_in_status status =
      ask "query tasks in status: " (λ d. length (select (has_status status) d.tasks))

  unfoldable pub task_status : String → M W Status
  unfolding find
  task_status id = labelled "query task status: " (find_status id)

  unfoldable pub tasks_in_status_since : Status → ℕ → M W ℕ
  tasks_in_status_since status since =
      ask "query tasks in status since: "
        (λ d. length (select (λ r. has_status status r && leb since r.created_at) d.tasks))

  unfoldable pub heartbeat_age : M W ℕ
  heartbeat_age =
      labelled "query heartbeat age: "
        (λ w. (joined (age_in (ops.now w.1)) (query (link w.1) (latest w.0.heartbeats none)), w))

  abbrev on_tasks : (String ⊎ ℕ) × Tasks.Table → W → (String ⊎ ℕ) × W
  on_tasks (answer, rows) (d, s) = (answer, (record d { tasks = rows }, s))

  abbrev fail_where : (TaskRow → Bool) → String → W → (String ⊎ ℕ) × W
  fail_where test reason (d, s) =
      on_tasks
        (exec (link s) (length (select test d.tasks)) d.tasks
          (map (fail_if test (ops.now s) reason) d.tasks))
        (d, s)

  unfoldable pub fail_stuck_tasks : String → M W ℕ
  unfolding of_chaos
  fail_stuck_tasks reason = labelled "fail stuck tasks: " (fail_where is_stuck reason)

  unfoldable pub fail_abandoned_tasks : String → M W ℕ
  unfolding of_chaos
  fail_abandoned_tasks reason = labelled "fail abandoned tasks: " (fail_where is_abandoned reason)

  abbrev on_events : (String ⊎ Done) × Healing.Table → W → (String ⊎ Done) × W
  on_events (answer, rows) (d, s) = (answer, (record d { events = rows }, s))

  unfoldable pub resolve_all_active_events : M W Done
  resolve_all_active_events (d, s) =
      on_events (exec (link s) done d.events (map (resolve_row (ops.now s)) d.events)) (d, s)

  abbrev is_fresh : ℕ → ℕ → String × ℕ → Bool
  is_fresh now max_age (_, seen) = leb now (seen + max_age)

  abbrev on_heartbeats : (String ⊎ ℕ) × List (String × ℕ) → W → (String ⊎ ℕ) × W
  on_heartbeats (answer, rows) (d, s) = (answer, (record d { heartbeats = rows }, s))

  unfoldable pub delete_stale_heartbeats : ℕ → M W ℕ
  delete_stale_heartbeats max_age (d, s) =
      let kept = select (is_fresh (ops.now s) max_age) d.heartbeats in
      labelled "delete stale heartbeats: "
        (on_heartbeats (exec (link s) (length d.heartbeats - length kept) d.heartbeats kept)) (d, s)

  -- A call on the rest of the world.
  abbrev lift : {A : Type 0} → M S A → M W A
  lift m (d, s) = let out = m s in (out.0, (d, out.1))

  -- The world of the scenarios, with the checker's statements on the tables. What the API, the workers and
  -- the watchdog write on them meanwhile is left out.
  unfoldable pub with_checker : Ops W
  unfolding active_healing_events healing_events_since task_status tasks_in_status_since
      heartbeat_age fail_stuck_tasks fail_abandoned_tasks resolve_all_active_events
      delete_stale_heartbeats
  with_checker = record {
    now = λ w. ops.now w.1;
    ticks = λ timeout interval w. ops.ticks timeout interval w.1;
    start_time = ops.start_time;
    poll_interval = ops.poll_interval;
    sleep = λ n w. (w.0, ops.sleep n w.1);
    ends_within = λ n w. ops.ends_within n w.1;
    container_health = λ name. lift (ops.container_health name);
    restart_count = λ name. lift (ops.restart_count name);
    worker_health = lift ops.worker_health;
    api_health = lift ops.api_health;
    resolve_all_active_events = resolve_all_active_events;
    active_healing_events = active_healing_events;
    healing_events_since = healing_events_since;
    heartbeat_age = heartbeat_age;
    task_status = task_status;
    tasks_in_status_since = tasks_in_status_since;
    queue_depth = lift ops.queue_depth;
    dlq_depth = lift ops.dlq_depth;
    purge_queue = lift ops.purge_queue;
    purge_dlq = lift ops.purge_dlq;
    fail_stuck_tasks = fail_stuck_tasks;
    fail_abandoned_tasks = fail_abandoned_tasks;
    delete_stale_heartbeats = delete_stale_heartbeats;
    submit_task = λ input. lift (ops.submit_task input);
    set_chaos_config = λ delay. lift (ops.set_chaos_config delay);
    reset_chaos_config = lift ops.reset_chaos_config;
    disable_restart = λ name. lift (ops.disable_restart name);
    enable_restart = λ name. lift (ops.enable_restart name);
    kill = λ name. lift (ops.kill name);
    stop = λ name. lift (ops.stop name);
    start = λ name. lift (ops.start name);
    pause = λ name. lift (ops.pause name);
    unpause = λ name. lift (ops.unpause name);
    is_paused = λ name. lift (ops.is_paused name);
    wait_for_healthy = λ name timeout. lift (ops.wait_for_healthy name timeout);
  }
