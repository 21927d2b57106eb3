-- ===== src/Detector/Polls.antt =====
-- The detections of the watchdog and its poll, services/watchdog/internal/detector/detector.go, over
-- the answers of their queries: heartbeats and tasks from PostgreSQL (after DeleteStaleHeartbeats has run),
-- queue depths from SQS, and the worker's health check. An answer `none` is an error.
use trace_runtime.Prelude.{
  ℕ, ◌+◌, ◌*◌, String, Bool, false, not, Option, none, some, List, [], ◌∷◌, ltb, leb, contains,
  if◌then◌else◌,
}
use trace_runtime.Prelude.Assoc.{put, retain}
use trace_runtime.Healing.{Details, HealingEvent, list_active}
use trace_runtime.Detector.Keys.{
  Key, worker_stale, worker_down, queue_lag, task_stuck, task_abandoned, dlq_nonempty, key_eq,
  key_for_event,
}
use trace_runtime.Detector.{
  ActiveEntry, Reply, State, Config, exists, emit, resolve, resolve_all, keys_where,
}

pub record Heartbeat : Type 0 where
  pub worker_id : String
  pub last_seen_at : ℕ

-- A row of StuckTasks or of AbandonedTasks.
pub record TaskRef : Type 0 where
  pub task_id : String
  pub chaos_run_id : Option String

-- What GetQueueAttributes answers: the attribute is `none` if it is missing, and its number is `none`
-- if Atoi refuses it.
pub data QueueReply : Type 0 where
  unavailable : QueueReply
  attribute : Option (Option ℕ) → QueueReply

unfoldable pub get_queue_depth : QueueReply → Option ℕ
get_queue_depth unavailable = none
get_queue_depth (attribute none) = some 0
get_queue_depth (attribute (some n)) = n

abbrev pub no_details : Details
no_details = record { worker_id = none; task_id = none }

-- The status of the health check; `none` is a failed request.
abbrev pub healthy : Option ℕ → Bool
healthy none = false
healthy (some status) = not (leb 400 status)

abbrev pub about_task : String → Details
about_task id = record { worker_id = none; task_id = some id }

-- time.Since(last_seen) > threshold, in microseconds.
unfoldable pub is_stale : Config → (now : ℕ) → Heartbeat → Bool
is_stale cfg now hb = ltb (hb.last_seen_at + cfg.heartbeat_stale_seconds * 1000000) now

abbrev pub stale_ids : Config → (now : ℕ) → List Heartbeat → List String
stale_ids cfg now [] = []
stale_ids cfg now (hb ∷ hbs) =
    if is_stale cfg now hb then hb.worker_id ∷ stale_ids cfg now hbs else stale_ids cfg now hbs

abbrev pub task_ids : List TaskRef → List String
task_ids [] = []
task_ids (t ∷ ts) = t.task_id ∷ task_ids ts

-- The keys of one kind whose id is not among those found now.
abbrev pub gone_worker : List String → Key → Bool
gone_worker ids (worker_stale id) = not (contains ids id)
gone_worker ids _ = false

abbrev pub gone_stuck : List String → Key → Bool
gone_stuck ids (task_stuck id) = not (contains ids id)
gone_stuck ids _ = false

abbrev pub gone_abandoned : List String → Key → Bool
gone_abandoned ids (task_abandoned id) = not (contains ids id)
gone_abandoned ids _ = false

module _ (replies : ℕ → Reply) where
  -- `if !exists { emit }`
  unfoldable pub raise_once :
      (key : Key) (event_type severity worker_id : String) (details : Details)
      (chaos_run_id : Option String)
      → State
      → State
  raise_once key event_type severity worker_id details chaos_run_id s =
      if exists key s
      then s
      else emit replies key event_type severity worker_id details chaos_run_id s

  abbrev pub raise_stale : String → State → State
  raise_stale id =
      raise_once (worker_stale id) "worker.stale" "warning" id
        (record { worker_id = some id; task_id = none }) none

  unfoldable pub report_stale : Config → (now : ℕ) → List Heartbeat → State → State
  unfolding raise_once
  report_stale cfg now [] s = s
  report_stale cfg now (hb ∷ hbs) s =
      report_stale cfg now hbs (if is_stale cfg now hb then raise_stale hb.worker_id s else s)

  unfoldable pub detect_stale_workers : Config → (now : ℕ) → Option (List Heartbeat) → State → State
  unfolding report_stale
  detect_stale_workers cfg now none s = s
  detect_stale_workers cfg now (some hbs) s =
      let s' = report_stale cfg now hbs s in
      resolve_all replies (keys_where (gone_worker (stale_ids cfg now hbs)) s'.active) s'

  unfoldable pub evaluate_worker_down : Config → State → State
  evaluate_worker_down cfg s =
      if ltb s.health_failures cfg.healthcheck_failures
      then s
      else raise_once worker_down "worker.down" "critical" "" no_details none s

  unfoldable pub detect_worker_down : Config → Option ℕ → State → State
  unfolding evaluate_worker_down
  detect_worker_down cfg answer s =
      if healthy answer
      then resolve replies worker_down (record s { health_failures = 0 })
      else evaluate_worker_down cfg (record s { health_failures = s.health_failures + 1 })

  -- The two detections on a depth: raise above the bound, else resolve.
  unfoldable pub detect_queue_lag : Config → Option ℕ → State → State
  detect_queue_lag cfg none s = s
  detect_queue_lag cfg (some depth) s =
      if ltb cfg.queue_lag_threshold depth
      then raise_once queue_lag "queue.lag" "warning" "" no_details none s
      else resolve replies queue_lag s

  unfoldable pub detect_dlq : Option ℕ → State → State
  detect_dlq none s = s
  detect_dlq (some depth) s =
      if ltb 0 depth
      then raise_once dlq_nonempty "dlq.nonempty" "critical" "" no_details none s
      else resolve replies dlq_nonempty s

  unfoldable pub report_stuck : List TaskRef → State → State
  report_stuck [] s = s
  report_stuck (t ∷ ts) s = report_stuck ts (
      raise_once (task_stuck t.task_id) "task.stuck" "warning" "" (about_task t.task_id)
        t.chaos_run_id s)

  unfoldable pub detect_stuck_tasks : Option (List TaskRef) → State → State
  unfolding report_stuck
  detect_stuck_tasks none s = s
  detect_stuck_tasks (some stuck) s =
      let s' = report_stuck stuck s in
      resolve_all replies (keys_where (gone_stuck (task_ids stuck)) s'.active) s'

  unfoldable pub report_abandoned : List TaskRef → State → State
  report_abandoned [] s = s
  report_abandoned (t ∷ ts) s = report_abandoned ts (
      raise_once (task_abandoned t.task_id) "task.abandoned" "warning" "" (about_task t.task_id)
        t.chaos_run_id s)

  -- The case of no abandoned task, which the source treats apart, resolves every key of the kind.
  unfoldable pub detect_abandoned_tasks : Option (List TaskRef) → State → State
  unfolding report_abandoned
  detect_abandoned_tasks none s = s
  detect_abandoned_tasks (some abandoned) s =
      let s' = report_abandoned abandoned s in
      resolve_all replies (keys_where (gone_abandoned (task_ids abandoned)) s'.active) s'

abbrev pub ids : List HealingEvent → List String
ids [] = []
ids (e ∷ es) = e.id ∷ ids es

-- reconcileActiveState. The events of the map have each their own id, so the source's inverted map
-- has one entry for each key.
unfoldable pub reconcile : (answered : Bool) → State → State
reconcile answered s = elim (list_active answered s.events) [
  | none ↦ s
  | some es ↦ record s { active = retain (λ _ entry. contains (ids es) entry.event_id) s.active }
]

abbrev pub entry_of : HealingEvent → ActiveEntry
entry_of ev = record {
  event_id = ev.id;
  event_type = ev.event_type;
  severity = ev.severity;
  chaos_run_id = ev.chaos_run_id;
}

-- The loop of reconstructActiveState over the active events.
unfoldable pub reconstruct : List HealingEvent → List (Key × ActiveEntry) → List (Key × ActiveEntry)
unfolding key_for_event
reconstruct [] m = m
reconstruct (ev ∷ evs) m =
    reconstruct evs (elim (key_for_event ev) [ none ↦ m | some key ↦ put m key (entry_of ev) ])

-- What the queries of one poll answer.
pub record Answers : Type 0 where
  pub now : ℕ
  pub listed : Bool
  pub heartbeats : Option (List Heartbeat)
  pub health : Option ℕ
  pub queue : QueueReply
  pub stuck : Option (List TaskRef)
  pub abandoned : Option (List TaskRef)
  pub dlq : QueueReply

unfoldable pub poll : (replies : ℕ → Reply) → Config → Answers → State → State
poll replies cfg a s =
    let s1 = reconcile a.listed s in
    let s2 = detect_stale_workers replies cfg a.now a.heartbeats s1 in
    let s3 = detect_worker_down replies cfg a.health s2 in
    let s4 = detect_queue_lag replies cfg (get_queue_depth a.queue) s3 in
    let s5 = detect_stuck_tasks replies a.stuck s4 in
    let s6 = detect_abandoned_tasks replies a.abandoned s5 in
    detect_dlq replies (get_queue_depth a.dlq) s6
