-- ===== src/Detector/Sync.antt =====
-- After a detection that the database and the queues answered, the dedup map holds a key of its kind
-- exactly if its condition holds now.
use trace_runtime.Prelude.{
  ℕ, String, ◌≡◌, refl, ◌∙◌, ◌&&◌, ◌||◌, Option, none, some, List, [], ◌∷◌, ◌==◌, if◌then◌else◌,
  arith, ltb, contains, if_ind,
}
use trace_runtime.Healing.{Details}
use trace_runtime.Detector.Keys.{
  Key, worker_stale, queue_lag, task_stuck, task_abandoned, dlq_nonempty, key_eq, key_beq,
  key_beq_iff,
}
use trace_runtime.Detector.{Reply, State, Config, exists}
use trace_runtime.Detector.Polls.{
  Heartbeat, TaskRef, stale_ids, is_stale, task_ids, raise_once, raise_stale, report_stale,
  detect_stale_workers, detect_queue_lag, detect_dlq, report_stuck, detect_stuck_tasks,
  report_abandoned, detect_abandoned_tasks, no_details,
}
use trace_runtime.Detector.Writes.{
  Working, Fresh, emit-Fresh, emit-exists, resolve-get, resolve_all-get, listed-keys_where,
}

module _ (replies : ℕ → Reply) (w : Working replies) where
  module _ (key : Key) (event_type severity worker_id : String) (details : Details)
      (run : Option String) (s : State) (fresh : Fresh replies s) where
    abbrev raised : State
    raised = raise_once replies key event_type severity worker_id details run s

    raise_once-Fresh : Fresh replies raised
    unfolding raise_once
    raise_once-Fresh =
        if_ind (Fresh replies) (exists key s) fresh
          (emit-Fresh replies w key event_type severity worker_id details run s fresh)

    raise_once-exists : (k : Key) → exists k raised ≡ (key_beq key k || exists k s)
    unfolding raise_once
    raise_once-exists k = ground (
      arith,
      emit-exists replies w key event_type severity worker_id details run s fresh k,
      key_beq_iff key k,
    )

  -- One round of the loop over the heartbeats.
  stale_round : Config → (now : ℕ) → Heartbeat → State → State
  stale_round cfg now hb s = if is_stale cfg now hb then raise_stale replies hb.worker_id s else s

  stale_round-Fresh :
      (cfg : Config) (now : ℕ) (hb : Heartbeat) (s : State)
      → Fresh replies s
      → Fresh replies (stale_round cfg now hb s)
  unfolding stale_round
  stale_round-Fresh cfg now hb s fresh =
      if_ind (Fresh replies) (is_stale cfg now hb) (raise_once-Fresh _ _ _ _ _ _ s fresh) fresh

  stale_round-exists :
      (cfg : Config) (now : ℕ) (hb : Heartbeat) (s : State) (id : String)
      → Fresh replies s
      → exists (worker_stale id) (stale_round cfg now hb s)
        ≡ ((is_stale cfg now hb && (hb.worker_id == id)) || exists (worker_stale id) s)
  unfolding stale_round
  stale_round-exists cfg now hb s id fresh = ground (
    arith,
    raise_once-exists (worker_stale hb.worker_id) "worker.stale" "warning" hb.worker_id
        (record { worker_id = some hb.worker_id; task_id = none }) none s fresh (worker_stale id),
  )

  report_stale-exists :
      (cfg : Config) (now : ℕ) (hbs : List Heartbeat) (s : State) (id : String)
      → Fresh replies s
      → exists (worker_stale id) (report_stale replies cfg now hbs s)
        ≡ (contains (stale_ids cfg now hbs) id || exists (worker_stale id) s)
  unfolding report_stale stale_round
  report_stale-exists cfg now [] s id fresh = refl
  report_stale-exists cfg now (hb ∷ hbs) s id fresh =
      report_stale-exists cfg now hbs (stale_round cfg now hb s) id
        (stale_round-Fresh cfg now hb s fresh)
      ∙ rw (stale_round-exists cfg now hb s id fresh) (ground arith)

  -- Given that the writes are answered and the new ids are new: after a detection of stale workers
  -- the map has the key of a worker exactly if one of the heartbeats shows that worker stale.
  stale_workers_synced :
      (cfg : Config) (now : ℕ) (hbs : List Heartbeat) (s : State) (id : String)
      → Fresh replies s
      → exists (worker_stale id) (detect_stale_workers replies cfg now (some hbs) s)
        ≡ contains (stale_ids cfg now hbs) id
  unfolding detect_stale_workers
  stale_workers_synced cfg now hbs s id fresh =
      rw (resolve_all-get, listed-keys_where)
        (ground (arith, report_stale-exists cfg now hbs s id fresh))

  report_stuck-exists :
      (ts : List TaskRef) (s : State) (id : String)
      → Fresh replies s
      → exists (task_stuck id) (report_stuck replies ts s)
        ≡ (contains (task_ids ts) id || exists (task_stuck id) s)
  unfolding report_stuck
  report_stuck-exists [] s id fresh = refl
  report_stuck-exists (t ∷ ts) s id fresh =
      report_stuck-exists ts _ id (raise_once-Fresh (task_stuck t.task_id) _ _ _ _ _ s fresh)
      ∙ rw (raise_once-exists (task_stuck t.task_id) _ _ _ _ _ s fresh (task_stuck id))
          (ground arith)

  stuck_tasks_synced :
      (ts : List TaskRef) (s : State) (id : String)
      → Fresh replies s
      → exists (task_stuck id) (detect_stuck_tasks replies (some ts) s) ≡ contains (task_ids ts) id
  unfolding detect_stuck_tasks
  stuck_tasks_synced ts s id fresh =
      rw (resolve_all-get, listed-keys_where) (ground (arith, report_stuck-exists ts s id fresh))

  report_abandoned-exists :
      (ts : List TaskRef) (s : State) (id : String)
      → Fresh replies s
      → exists (task_abandoned id) (report_abandoned replies ts s)
        ≡ (contains (task_ids ts) id || exists (task_abandoned id) s)
  unfolding report_abandoned
  report_abandoned-exists [] s id fresh = refl
  report_abandoned-exists (t ∷ ts) s id fresh =
      report_abandoned-exists ts _ id
        (raise_once-Fresh (task_abandoned t.task_id) _ _ _ _ _ s fresh)
      ∙ rw (raise_once-exists (task_abandoned t.task_id) _ _ _ _ _ s fresh (task_abandoned id))
          (ground arith)

  abandoned_tasks_synced :
      (ts : List TaskRef) (s : State) (id : String)
      → Fresh replies s
      → exists (task_abandoned id) (detect_abandoned_tasks replies (some ts) s)
        ≡ contains (task_ids ts) id
  unfolding detect_abandoned_tasks
  abandoned_tasks_synced ts s id fresh =
      rw (resolve_all-get, listed-keys_where)
        (ground (arith, report_abandoned-exists ts s id fresh))

  -- Given that the writes are answered and the new ids are new: after a detection on a known depth
  -- the map has queue.lag exactly if the main queue is deeper than the threshold, and dlq.nonempty
  -- exactly if the dead-letter queue is not empty.
  depths_synced :
      (cfg : Config) (depth : ℕ) (s : State)
      → Fresh replies s
      → (exists queue_lag (detect_queue_lag replies cfg (some depth) s)
          ≡ ltb cfg.queue_lag_threshold depth)
        × (exists dlq_nonempty (detect_dlq replies (some depth) s) ≡ ltb 0 depth)
  unfolding detect_queue_lag detect_dlq
  depths_synced cfg depth s fresh = (
    ground (
      arith,
      raise_once-exists queue_lag "queue.lag" "warning" "" no_details none s fresh queue_lag,
      resolve-get replies queue_lag queue_lag s,
    ),
    ground (
      arith,
      raise_once-exists dlq_nonempty "dlq.nonempty" "critical" "" no_details none s fresh
          dlq_nonempty,
      resolve-get replies dlq_nonempty dlq_nonempty s,
    ),
  )

  -- Given that the writes are answered and the new ids are new: after a detection of stale workers the map has the key of a worker exactly if one of the heartbeats shows that worker stale; after one of stuck tasks, and after one of abandoned tasks, it has the key of a task for this condition exactly if the query answered with that task; after one of a known depth it has queue.lag exactly if the main queue is deeper than the threshold, and dlq.nonempty exactly if the dead-letter queue is not empty.
  pub detections_synced :
      (cfg : Config) (now : ℕ) (hbs : List Heartbeat) (ts : List TaskRef) (depth : ℕ) (s : State)
      (id : String)
      → Fresh replies s
      → (exists (worker_stale id) (detect_stale_workers replies cfg now (some hbs) s)
          ≡ contains (stale_ids cfg now hbs) id)
        × (exists (task_stuck id) (detect_stuck_tasks replies (some ts) s)
            ≡ contains (task_ids ts) id)
        × (exists (task_abandoned id) (detect_abandoned_tasks replies (some ts) s)
            ≡ contains (task_ids ts) id)
        × (exists queue_lag (detect_queue_lag replies cfg (some depth) s)
            ≡ ltb cfg.queue_lag_threshold depth)
        × (exists dlq_nonempty (detect_dlq replies (some depth) s) ≡ ltb 0 depth)
  detections_synced cfg now hbs ts depth s id fresh =
      let (lag, dlq) = depths_synced cfg depth s fresh in
      (
        stale_workers_synced cfg now hbs s id fresh,
        stuck_tasks_synced ts s id fresh,
        abandoned_tasks_synced ts s id fresh,
        lag,
        dlq,
      )
