-- ===== src/Detector/Reopening.antt =====
-- Two ways in which a condition that lasts gets a second event while the first is open: the operator
-- acknowledges the first, or the database is down when the watchdog resolves it.
use trace_runtime.Prelude.{
  ap, ℕ, ◌≤◌, ◌<◌, String, ◌≡◌, refl, ◌∙◌, true, false, none, some, [], ◌∷◌, ◌==◌, if◌then◌else◌,
  arith, eq_iff, eq_refl, ◌++◌, lt→ltb, contains, Bool-cases, inl, inr, if_same, select, subst,
}
use trace_runtime.Prelude.Assoc.{get, get-retain, Distinct}
use trace_runtime.Tasks.{up}
use trace_runtime.Healing.{
  active, acknowledged, HealingEvent, Table, find, update, to_acknowledged, is_active, list_active,
  acknowledge_alert,
}
use trace_runtime.Healing.Find.{Unique, find-update, changed, to_acknowledged-id}
use trace_runtime.Detector.Keys.{Key, queue_lag, worker_down, key_eq}
use trace_runtime.Detector.{ActiveEntry, Reply, State, Config, exists}
use trace_runtime.Detector.Polls.{
  Answers, attribute, unavailable, get_queue_depth, poll, detect_worker_down, detect_stale_workers,
  detect_stuck_tasks, detect_abandoned_tasks, detect_dlq, ids, reconcile, raise_once,
  detect_queue_lag, no_details,
}
use trace_runtime.Detector.Writes.{resolve-absent, Working, Fresh, raised_row, emit-events}

unlisted :
    (id : String) (t : Table) → find id t ≡ none → contains (ids (select is_active t)) id ≡ false
unfolding find
unlisted id [] h = refl
unlisted id (e ∷ t) h = ground (arith, unlisted id t)

-- An acknowledged event is not in the answer of the query for active ones.
acknowledged_unlisted :
    (id : String) (t : Table) (e : HealingEvent)
    → Unique t
    → find id t ≡ some e
    → contains (ids (select is_active (update id to_acknowledged t))) id ≡ false
unfolding find update
acknowledged_unlisted id [] e u h = ground arith
acknowledged_unlisted id (d ∷ t) e u h = elim (Bool-cases (d.id == id)) [
  | inl same ↦
      let absent : find id t ≡ none = subst (λ k. find k t ≡ none) ((eq_iff d.id id).0 same) u.0 in
      ground (arith, same, eq_iff d.id id, unlisted id t absent)
  | inr other ↦ ground (arith, other, acknowledged_unlisted id t e u.1)
]

-- The dedup map forgets an acknowledged event.
forgotten :
    (s : State) (key : Key) (entry : ActiveEntry) (e : HealingEvent)
    → Unique s.events
    → Distinct s.active
    → get s.active key ≡ some entry
    → find entry.event_id s.events ≡ some e
    → let t = (acknowledge_alert up entry.event_id s.events).1 in
      exists key (reconcile true (record s { events = t })) ≡ false
unfolding acknowledge_alert reconcile list_active
forgotten s key entry e u dist listed found =
    rw (get-retain _ s.active key dist, listed)
      (ground (arith, acknowledged_unlisted entry.event_id s.events e u found))

module _ (replies : ℕ → Reply) (w : Working replies) (cfg : Config) where
  module _ (s : State) (entry : ActiveEntry) (e : HealingEvent) (depth : ℕ)
      (found : find entry.event_id s.events ≡ some e) (open_ : e.status ≡ active) where
    -- The table after the operator's acknowledgement.
    abbrev pub seen : Table
    seen = (acknowledge_alert up entry.event_id s.events).1

    abbrev pub next_poll : State
    next_poll = reconcile true (record s { events = seen })

    reconcile-events : next_poll.events ≡ seen
    unfolding reconcile list_active
    reconcile-events = refl

    reconcile-writes : next_poll.writes ≡ s.writes
    unfolding reconcile list_active
    reconcile-writes = refl

    find-seen :
        (j : String)
        → find j seen ≡ (
            if entry.event_id == j
            then changed to_acknowledged (find j s.events)
            else find j s.events)
    unfolding acknowledge_alert
    find-seen j = find-update entry.event_id j to_acknowledged s.events to_acknowledged-id

    seen-Fresh : Fresh replies s → Fresh replies next_poll
    seen-Fresh fresh n h =
        rw (reconcile-events, find-seen, fresh n (subst (λ m. m ≤ n) reconcile-writes h))
          (if_same _ _)

    detect_queue_lag-raises :
        (t : State) (fresh : Fresh replies t)
        → exists queue_lag t ≡ false
        → cfg.queue_lag_threshold < depth
        → (detect_queue_lag replies cfg (some depth) t).events
          ≡ t.events
            ++ raised_row replies w queue_lag "queue.lag" "warning" "" no_details none t fresh ∷ []
    unfolding detect_queue_lag raise_once
    detect_queue_lag-raises t fresh absent deep =
        rw (lt→ltb cfg.queue_lag_threshold depth deep, absent)
          (emit-events replies w queue_lag "queue.lag" "warning" "" no_details none t fresh)

    -- A poll that learns the queue's depth and that the worker is healthy, and whose other queries fail.
    abbrev pub learned : ℕ → Answers
    learned now = record {
      now = now;
      listed = true;
      heartbeats = none;
      health = some 200;
      queue = attribute (some (some depth));
      stuck = none;
      abandoned = none;
      dlq = unavailable;
    }

    abbrev calm : State
    calm = record next_poll { health_failures = 0 }

    still_healthy :
        Distinct s.active
        → get s.active worker_down ≡ none
        → detect_worker_down replies cfg (some 200) next_poll ≡ calm
    unfolding detect_worker_down reconcile list_active
    still_healthy dist up_ =
        resolve-absent replies worker_down calm
          (rw (get-retain _ s.active worker_down dist, up_) refl)

    poll-detects :
        (now : ℕ)
        → Distinct s.active
        → get s.active worker_down ≡ none
        → poll replies cfg (learned now) (record s { events = seen })
          ≡ detect_queue_lag replies cfg (some depth) calm
    unfolding poll detect_stale_workers detect_stuck_tasks detect_abandoned_tasks detect_dlq
        get_queue_depth
    poll-detects now dist up_ = rw (still_healthy dist up_) refl

    -- Given that the writes are answered, the new ids are new, and that the map has the active event of queue.lag and no worker.down: if the operator acknowledges this event, then the reconciliation with which the next poll starts evicts queue.lag from the map, and this poll, if it learns that the queue is still deeper than the threshold and that the worker is healthy while its other queries fail, inserts a second active event of queue.lag. The acknowledged one stays in the table, with its status acknowledged and all else as it was.
    pub acknowledged_reopens :
        (now : ℕ)
        → Fresh replies s
        → Unique s.events
        → Distinct s.active
        → get s.active queue_lag ≡ some entry
        → get s.active worker_down ≡ none
        → cfg.queue_lag_threshold < depth
        → (exists queue_lag next_poll ≡ false)
          × (d : HealingEvent) × ((poll replies cfg
                (learned now)
                (record s { events = seen })).events
              ≡ seen ++ d ∷ [])
          × (d.status ≡ active)
          × (d.event_type ≡ "queue.lag")
          × (find entry.event_id seen ≡ some (record e { status = acknowledged }))
    unfolding acknowledge_alert reconcile list_active
    acknowledged_reopens now fresh u dist listed up_ deep =
        let f = seen-Fresh fresh in
        let evicted = forgotten s queue_lag entry e u dist listed found in
        (
          evicted,
          raised_row replies w queue_lag "queue.lag" "warning" "" no_details none calm f,
          ap (λ (x : State). x.events) (poll-detects now dist up_)
              ∙ detect_queue_lag-raises calm f evicted deep,
          refl,
          refl,
          find-seen entry.event_id ∙ rw (eq_refl, found) (ground arith),
        )
