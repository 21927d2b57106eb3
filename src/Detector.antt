-- ===== src/Detector.antt =====
-- The watchdog's detector, services/watchdog/internal/detector/detector.go: its dedup map, and one
-- poll over the answers of its queries. Gauges, counters and logs are left out.
pub mod Keys
pub mod Polls
pub mod Reopening
pub mod Restart
pub mod Soundness
pub mod Duplicates
pub mod Health
pub mod Startup
pub mod Publisher
pub mod Sync
pub mod Writes
use trace_runtime.Prelude.{
  ℕ, ◌+◌, ◌*◌, String, Bool, true, false, not, ◌&&◌, Option, none, some, List, [], ◌∷◌, ◌++◌, ◌==◌,
  is_some, ltb, leb, contains, map, if◌then◌else◌,
}
use trace_runtime.Prelude.Assoc.{get, put, remove}
use trace_runtime.Tasks.{Link, Outcome, ok, db_error, conflict}
use trace_runtime.Healing.{
  Details, HealingEvent, Table, insert_healing_event, resolve_healing_event, list_active,
}
use Keys.{
  Key, worker_stale, worker_down, queue_lag, task_stuck, task_abandoned, dlq_nonempty, key_eq,
  key_for_event,
}

pub record ActiveEntry : Type 0 where
  pub event_id : String
  pub event_type : String
  pub severity : String
  pub chaos_run_id : Option String

-- How a write to the database fares, at what time, and the fresh id that it would insert.
pub record Reply : Type 0 where
  pub link : Link
  pub now : ℕ
  pub new_id : String

-- What is sent: "healing." and the type, status "active"; and "healing.", the type and ".resolved",
-- status "resolved".
pub data Published : Type 0 where
  raised : (event_type severity healing_event_id : String) (details : Details) → Published
  cleared : (event_type severity healing_event_id : String) (resolved_key : Key) → Published

-- The detector, the table that it writes, and the events that it sends to the API. `writes` counts
-- the writes, whose replies are given in advance.
pub record State : Type 0 where
  pub active : List (Key × ActiveEntry)
  pub health_failures : ℕ
  pub events : Table
  pub published : List Published
  pub writes : ℕ

pub record Config : Type 0 where
  pub heartbeat_stale_seconds : ℕ
  pub healthcheck_failures : ℕ
  pub queue_lag_threshold : ℕ

abbrev pub exists : Key → State → Bool
exists key s = is_some (get s.active key)

abbrev pub unless_chaos : Option String → Published → List Published
unless_chaos none p = p ∷ []
unless_chaos (some run) p = []

module _ (replies : ℕ → Reply) where
  unfoldable pub emit :
      (key : Key) (event_type severity worker_id : String) (details : Details)
      (chaos_run_id : Option String)
      → State
      → State
  emit key event_type severity worker_id details chaos_run_id s =
      let r = replies s.writes in
      let (id, events) =
        insert_healing_event r.link r.new_id r.now event_type severity "watchdog" worker_id details
          chaos_run_id s.events in
      elim id [
        | none ↦ record s { events = events; writes = s.writes + 1 }
        | some new_id ↦ record s {
          active = put s.active key (record {
            event_id = new_id;
            event_type = event_type;
            severity = severity;
            chaos_run_id = chaos_run_id;
          });
          events = events;
          published =
              s.published ++ unless_chaos chaos_run_id (raised event_type severity new_id details);
          writes = s.writes + 1;
        }
      ]

  -- The part of `resolve` after the entry is deleted from the map.
  unfoldable pub close : Key → ActiveEntry → State → State
  close key entry s =
      let r = replies s.writes in
      let (outcome, events) = resolve_healing_event r.link r.now entry.event_id s.events in
      let t = record s { active = remove s.active key; events = events; writes = s.writes + 1 } in
      elim outcome [
        | ok ↦ record t {
          published =
              t.published
              ++ unless_chaos entry.chaos_run_id
                  (cleared entry.event_type entry.severity entry.event_id key);
        }
        | _ ↦ t
      ]

  unfoldable pub resolve : Key → State → State
  unfolding close
  resolve key s = elim (get s.active key) [ none ↦ s | some entry ↦ close key entry s ]

  -- A loop over the keys to resolve.
  unfoldable pub resolve_all : List Key → State → State
  unfolding resolve
  resolve_all [] s = s
  resolve_all (key ∷ keys) s = resolve_all keys (resolve key s)

-- The keys of the map that pass a test, collected under the lock.
unfoldable pub keys_where : (Key → Bool) → List (Key × ActiveEntry) → List Key
keys_where p [] = []
keys_where p ((key, entry) ∷ m) = if p key then key ∷ keys_where p m else keys_where p m
