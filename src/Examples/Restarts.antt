-- ===== src/Examples/Restarts.antt =====
-- Runs of the watchdog on an event that it tracks already.
use trace_runtime.Prelude.{
  String, ◌≡◌, refl, sym, ap, ◌∙◌, true, false, none, some, [], ◌∷◌, ◌++◌, ◌==◌, arith, eq_iff,
  eq_refl, Bool-cases, inl, inr,
}
use trace_runtime.Prelude.Assoc.{get}
use trace_runtime.Tasks.{up}
use trace_runtime.Healing.{active, acknowledged, HealingEvent, find, acknowledge_alert}
use trace_runtime.Detector.{State, ActiveEntry, exists}
use trace_runtime.Detector.Keys.{Key, key_eq, queue_lag, key_for_event}
use trace_runtime.Detector.Polls.{Answers, attribute, unavailable, reconcile, poll}
use trace_runtime.Detector.Writes.{Fresh}
use trace_runtime.Detector.Duplicates.{Sound}
use trace_runtime.Detector.Restart.{restart, restart-Sound}
use trace_runtime.Detector.Reopening.{acknowledged_reopens}
use trace_runtime.Examples.Detections.{
  name, name-apart, replies, replies-Working, config, lag_row, lag_key,
}

abbrev lagging : State
lagging = record {
  active =
      (
        queue_lag,
        record {
          event_id = name 0;
          event_type = "queue.lag";
          severity = "warning";
          chaos_run_id = none;
        },
      )
      ∷ [];
  health_failures = 0;
  events = lag_row ∷ [];
  published = [];
  writes = 1;
}

lagging-Fresh : Fresh replies lagging
unfolding find
lagging-Fresh n h = rw (name-apart 0 n (omega arith)) refl

-- The operator has acknowledged the event.
abbrev seen_state : State
seen_state = record lagging { events = (acknowledge_alert up (name 0) (lag_row ∷ [])).1 }

abbrev next_answers : Answers
next_answers = record {
  now = 9;
  listed = true;
  heartbeats = none;
  health = some 200;
  queue = attribute (some (some 20));
  stuck = none;
  abandoned = none;
  dlq = unavailable;
}

acknowledged_reopens_example :
    (exists queue_lag (reconcile true seen_state) ≡ false)
    × (d : HealingEvent) × ((poll replies config next_answers seen_state).events
        ≡ seen_state.events ++ d ∷ [])
    × (d.status ≡ active)
    × (d.event_type ≡ "queue.lag")
    × (find (name 0) seen_state.events ≡ some (record lag_row { status = acknowledged }))
acknowledged_reopens_example =
    acknowledged_reopens replies replies-Working config lagging
      (record {
        event_id = name 0;
        event_type = "queue.lag";
        severity = "warning";
        chaos_run_id = none;
      })
      lag_row 20 (unfold find in ground (arith, eq_refl (name 0))) refl 9 lagging-Fresh
      (unfold find in (refl, tt)) (unfold get in (refl, tt)) (unfold get in refl)
      (unfold get in refl) (omega arith)

-- A watchdog that has stopped while it tracked the queue's lag.
abbrev lag_entry : ActiveEntry
lag_entry = record {
  event_id = name 0;
  event_type = "queue.lag";
  severity = "warning";
  chaos_run_id = none;
}

lagging-key : (k : Key) → some queue_lag ≡ some k → get lagging.active k ≡ some lag_entry
unfolding get
lagging-key k e = ground (arith, e)

lag-only :
    (id : String) (ev : HealingEvent)
    → name 0 == id ≡ true
    → find id lagging.events ≡ some ev
    → lag_row ≡ ev
unfolding find
lag-only id ev same found = ground (arith, same, found)

lagging-Sound : Sound replies lagging
unfolding find get
lagging-Sound = record {
  tracked = λ id ev k found a keyed. elim (Bool-cases (name 0 == id)) [
    | inl same ↦
        let this : lag_row ≡ ev = lag-only id ev same found in
        (
          lag_entry,
          lagging-key k (sym lag_key ∙ ap key_for_event this ∙ keyed),
          (eq_iff (name 0) id).0 same,
        )
    | inr other ↦ absurd (ground (arith, other, found))
  ];
  distinct = (refl, tt);
  fresh = lagging-Fresh;
}

restart-Sound_example : Sound replies (restart true lagging)
restart-Sound_example =
    restart-Sound replies lagging replies-Working (unfold find in refl, tt) lagging-Sound
