-- ===== src/Detector/Soundness.antt =====
-- Every poll of the watchdog keeps its map and its table in step, whatever the queries answer.
use trace_runtime.Prelude.{
  ℕ, String, ◌≡◌, refl, Option, none, some, List, [], ◌∷◌, arith, eq_iff, ltb, Bool-cases, inl, inr,
  if_ind,
}
use trace_runtime.Healing.{active, Details, HealingEvent, find}
use trace_runtime.Detector.Keys.{
  Key, worker_stale, worker_down, queue_lag, task_stuck, task_abandoned, dlq_nonempty,
  key_for_event,
}
use trace_runtime.Detector.{Reply, State, Config, exists}
use trace_runtime.Detector.Polls.{
  Heartbeat, TaskRef, Answers, get_queue_depth, is_stale, raise_once, report_stale,
  detect_stale_workers, detect_queue_lag, detect_dlq, detect_worker_down, healthy, report_stuck,
  detect_stuck_tasks, report_abandoned, detect_abandoned_tasks, about_task, no_details, poll,
}
use trace_runtime.Detector.Writes.{Working}
use trace_runtime.Detector.Duplicates.{
  Sound, emit-Sound, resolve-Sound, resolve_all-Sound, reconcile-Sound,
}

-- The event that is raised for a key is one that is read back as this key.
abbrev Keyed : Key → (event_type worker_id : String) → Details → Type 0
Keyed key event_type worker_id details =
    (row : HealingEvent)
    → row.event_type ≡ event_type
    → row.worker_id ≡ worker_id
    → row.details ≡ details
    → key_for_event row ≡ some key

stale-Keyed :
    (id : String)
    → Keyed (worker_stale id) "worker.stale" id (record { worker_id = some id; task_id = none })
unfolding key_for_event
stale-Keyed id row t w d = rw (t, w, d) (ground (arith, eq_iff id ""))

down-Keyed : Keyed worker_down "worker.down" "" no_details
unfolding key_for_event
down-Keyed row t w d = rw t refl

lag-Keyed : Keyed queue_lag "queue.lag" "" no_details
unfolding key_for_event
lag-Keyed row t w d = rw t refl

dlq-Keyed : Keyed dlq_nonempty "dlq.nonempty" "" no_details
unfolding key_for_event
dlq-Keyed row t w d = rw t refl

stuck-Keyed : (id : String) → Keyed (task_stuck id) "task.stuck" "" (about_task id)
unfolding key_for_event
stuck-Keyed id row t w d = rw (t, d) refl

abandoned-Keyed : (id : String) → Keyed (task_abandoned id) "task.abandoned" "" (about_task id)
unfolding key_for_event
abandoned-Keyed id row t w d = rw (t, d) refl

-- The polls of `Run`, one after another.
unfoldable pub polls : (replies : ℕ → Reply) → Config → List Answers → State → State
polls replies cfg [] s = s
polls replies cfg (a ∷ as') s = polls replies cfg as' (poll replies cfg a s)

module _ (replies : ℕ → Reply) (w : Working replies) where
  raise_once-Sound :
      (key : Key) (event_type severity worker_id : String) (details : Details) (run : Option String)
      (s : State)
      → Keyed key event_type worker_id details
      → Sound replies s
      → Sound replies (raise_once replies key event_type severity worker_id details run s)
  unfolding raise_once
  raise_once-Sound key event_type severity worker_id details run s keyed sound =
      elim (Bool-cases (exists key s)) [
        | inl e ↦ rw e sound
        | inr e ↦
            rw e
              (emit-Sound replies w key event_type severity worker_id details run s keyed e sound)
      ]

  report_stale-Sound :
      (cfg : Config) (now : ℕ) (hbs : List Heartbeat) (s : State)
      → Sound replies s
      → Sound replies (report_stale replies cfg now hbs s)
  unfolding report_stale
  report_stale-Sound cfg now [] s sound = sound
  report_stale-Sound cfg now (hb ∷ hbs) s sound = report_stale-Sound cfg now hbs _ (
      if_ind (Sound replies) (is_stale cfg now hb)
        (raise_once-Sound _ _ _ _ _ _ s (stale-Keyed hb.worker_id) sound) sound)

  stale-Sound :
      (cfg : Config) (now : ℕ) (o : Option (List Heartbeat)) (s : State)
      → Sound replies s
      → Sound replies (detect_stale_workers replies cfg now o s)
  unfolding detect_stale_workers
  stale-Sound cfg now none s sound = sound
  stale-Sound cfg now (some hbs) s sound =
      resolve_all-Sound replies w _ _ (report_stale-Sound cfg now hbs s sound)

  with_failures :
      (n : ℕ) (s : State) → Sound replies s → Sound replies (record s { health_failures = n })
  with_failures n s sound = record {
    tracked = sound.tracked;
    distinct = sound.distinct;
    fresh = sound.fresh;
  }

  pub down-Sound :
      (cfg : Config) (o : Option ℕ) (s : State)
      → Sound replies s
      → Sound replies (detect_worker_down replies cfg o s)
  unfolding detect_worker_down
  down-Sound cfg o s sound =
      if_ind (Sound replies) (healthy o)
        (resolve-Sound replies w worker_down _ (with_failures _ s sound))
        (if_ind (Sound replies) (ltb _ cfg.healthcheck_failures) (with_failures _ s sound) (
          raise_once-Sound worker_down "worker.down" "critical" "" no_details none _ down-Keyed
            (with_failures _ s sound)))

  lag-Sound :
      (cfg : Config) (o : Option ℕ) (s : State)
      → Sound replies s
      → Sound replies (detect_queue_lag replies cfg o s)
  unfolding detect_queue_lag
  lag-Sound cfg none s sound = sound
  lag-Sound cfg (some depth) s sound =
      if_ind (Sound replies) (ltb cfg.queue_lag_threshold depth)
        (raise_once-Sound _ _ _ _ _ _ s lag-Keyed sound) (resolve-Sound replies w queue_lag s sound)

  dlq-Sound : (o : Option ℕ) (s : State) → Sound replies s → Sound replies (detect_dlq replies o s)
  unfolding detect_dlq
  dlq-Sound none s sound = sound
  dlq-Sound (some depth) s sound =
      if_ind (Sound replies) (ltb 0 depth) (raise_once-Sound _ _ _ _ _ _ s dlq-Keyed sound)
        (resolve-Sound replies w dlq_nonempty s sound)

  report_stuck-Sound :
      (ts : List TaskRef) (s : State) → Sound replies s → Sound replies (report_stuck replies ts s)
  unfolding report_stuck
  report_stuck-Sound [] s sound = sound
  report_stuck-Sound (t ∷ ts) s sound =
      report_stuck-Sound ts _ (raise_once-Sound _ _ _ _ _ _ s (stuck-Keyed t.task_id) sound)

  stuck-Sound :
      (o : Option (List TaskRef)) (s : State)
      → Sound replies s
      → Sound replies (detect_stuck_tasks replies o s)
  unfolding detect_stuck_tasks
  stuck-Sound none s sound = sound
  stuck-Sound (some ts) s sound = resolve_all-Sound replies w _ _ (report_stuck-Sound ts s sound)

  report_abandoned-Sound :
      (ts : List TaskRef) (s : State)
      → Sound replies s
      → Sound replies (report_abandoned replies ts s)
  unfolding report_abandoned
  report_abandoned-Sound [] s sound = sound
  report_abandoned-Sound (t ∷ ts) s sound =
      report_abandoned-Sound ts _ (raise_once-Sound _ _ _ _ _ _ s (abandoned-Keyed t.task_id) sound)

  abandoned-Sound :
      (o : Option (List TaskRef)) (s : State)
      → Sound replies s
      → Sound replies (detect_abandoned_tasks replies o s)
  unfolding detect_abandoned_tasks
  abandoned-Sound none s sound = sound
  abandoned-Sound (some ts) s sound =
      resolve_all-Sound replies w _ _ (report_abandoned-Sound ts s sound)

  pub poll-Sound :
      (cfg : Config) (a : Answers) (s : State)
      → Sound replies s
      → Sound replies (poll replies cfg a s)
  unfolding poll
  poll-Sound cfg a s sound = dlq-Sound (get_queue_depth a.dlq) _ (
      abandoned-Sound a.abandoned _ (
        stuck-Sound a.stuck _ (
          lag-Sound cfg (get_queue_depth a.queue) _ (
            down-Sound cfg a.health _ (
              stale-Sound cfg a.now a.heartbeats _ (reconcile-Sound replies w a.listed s sound))))))

  polls-Sound :
      (cfg : Config) (answers : List Answers) (s : State)
      → Sound replies s
      → Sound replies (polls replies cfg answers s)
  unfolding polls
  polls-Sound cfg [] s sound = sound
  polls-Sound cfg (a ∷ rest) s sound = polls-Sound cfg rest _ (poll-Sound cfg a s sound)

  pub same_id :
      (s : State) (i j : String) (d e : HealingEvent) (k : Key)
      → Sound replies s
      → find i s.events ≡ some d
      → find j s.events ≡ some e
      → d.status ≡ active
      → e.status ≡ active
      → key_for_event d ≡ some k
      → key_for_event e ≡ some k
      → i ≡ j
  same_id s i j d e k sound fd fe ad ae kd ke =
      let (x, gx, ix) = sound.tracked i d k fd ad kd in
      let (y, gy, iy) = sound.tracked j e k fe ae ke in cc

  -- Given that the writes are answered, that the new ids are new, and that the map and the table are
  -- in step at the start: after any number of polls, whatever their queries answer, no two active
  -- events in the table stand for one condition.
  pub no_duplicates :
      (cfg : Config) (answers : List Answers) (s : State) (i j : String) (d e : HealingEvent)
      (k : Key)
      → Sound replies s
      → find i (polls replies cfg answers s).events ≡ some d
      → find j (polls replies cfg answers s).events ≡ some e
      → d.status ≡ active
      → e.status ≡ active
      → key_for_event d ≡ some k
      → key_for_event e ≡ some k
      → i ≡ j
  no_duplicates cfg answers s i j d e k sound =
      same_id _ i j d e k (polls-Sound cfg answers s sound)
