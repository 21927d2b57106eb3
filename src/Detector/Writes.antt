-- ===== src/Detector/Writes.antt =====
-- What the writes of Detector do to its map.
use trace_runtime.Prelude.{
  ℕ, ◌+◌, ◌≤◌, ◌<◌, String, ◌≡◌, refl, ◌∙◌, Bool, true, false, ◌&&◌, Option, none, some, List, [],
  ◌∷◌, ◌==◌, is_some, if◌then◌else◌, arith, ◌++◌, Option-cases, inl, inr,
}
use trace_runtime.Prelude.Assoc.{get, put, remove, get-put, get-remove}
use trace_runtime.Tasks.{up}
use trace_runtime.Healing.{Status, Details, HealingEvent, Table, insert_healing_event, find}
use trace_runtime.Detector.Keys.{Key, key_eq, key_beq, key_beq_iff}
use trace_runtime.Detector.{
  ActiveEntry, Reply, State, exists, emit, resolve, close, resolve_all, keys_where,
}

-- Every write is answered, and the ids that uuid.New gives are new: apart from one another, and from
-- those in the table.
pub record Working (replies : ℕ → Reply) : Type 0 where
  pub linked : (n : ℕ) → (replies n).link ≡ up
  pub apart : (m n : ℕ) → m < n → ((replies m).new_id == (replies n).new_id) ≡ false

abbrev pub Fresh : (ℕ → Reply) → State → Type 0
Fresh replies s = (n : ℕ) → s.writes ≤ n → find (replies n).new_id s.events ≡ none

pub find-append :
    (k : String) (t : Table) (e : HealingEvent)
    → find k (t ++ e ∷ [])
      ≡ (if is_some (find k t) then find k t else if e.id == k then some e else none)
unfolding find
find-append k [] e = refl
find-append k (d ∷ t) e = ground (arith, find-append k t e)

abbrev pub listed : Key → List Key → Bool
listed k [] = false
listed k (j ∷ js) = if key_beq j k then true else listed k js

module _ (replies : ℕ → Reply) where
  module _ (w : Working replies) (key : Key) (event_type severity worker_id : String)
      (details : Details) (run : Option String) (s : State) (fresh : Fresh replies s) where
    -- The row that `emit` inserts.
    abbrev pub raised_row : HealingEvent
    raised_row = record {
      id = (replies s.writes).new_id;
      event_type = event_type;
      severity = severity;
      source = "watchdog";
      status = Status.active;
      worker_id = worker_id;
      details = details;
      created_at = (replies s.writes).now;
      resolved_at = none;
      chaos_run_id = run;
    }

    abbrev pub raised_entry : ActiveEntry
    raised_entry = record {
      event_id = (replies s.writes).new_id;
      event_type = event_type;
      severity = severity;
      chaos_run_id = run;
    }

    abbrev emitted : State
    emitted = emit replies key event_type severity worker_id details run s

    pub emit-active : emitted.active ≡ put s.active key raised_entry
    unfolding emit insert_healing_event
    emit-active = ground (arith, w.linked s.writes, fresh s.writes (omega arith))

    pub emit-events : emitted.events ≡ s.events ++ raised_row ∷ []
    unfolding emit insert_healing_event
    emit-events = ground (arith, w.linked s.writes, fresh s.writes (omega arith))

    pub emit-writes : emitted.writes ≡ s.writes + 1
    unfolding emit insert_healing_event
    emit-writes = ground (arith, w.linked s.writes, fresh s.writes (omega arith))

    pub emit-Fresh : Fresh replies emitted
    emit-Fresh n h =
        rw
          (
            emit-events,
            find-append,
            fresh n (omega (arith, emit-writes)),
            w.apart s.writes n (omega (arith, emit-writes)),
          )
          refl

    pub emit-exists : (k : Key) → exists k emitted ≡ (if key_beq key k then true else exists k s)
    emit-exists k = rw (emit-active, get-put) (ground arith)

  pub close-active :
      (key : Key) (entry : ActiveEntry) (s : State)
      → (close replies key entry s).active ≡ remove s.active key
  unfolding close
  close-active key entry s = ground arith

  pub resolve-absent : (key : Key) (s : State) → get s.active key ≡ none → resolve replies key s ≡ s
  unfolding resolve
  resolve-absent key s e = rw (e, resolve) refl

  pub resolve-present :
      (key : Key) (s : State) (entry : ActiveEntry)
      → get s.active key ≡ some entry
      → resolve replies key s ≡ close replies key entry s
  unfolding resolve
  resolve-present key s entry e = rw (e, resolve) refl

  -- Whatever the database answers, a resolved key is no longer in the map, and the others stay.
  pub resolve-get :
      (key k : Key) (s : State)
      → get (resolve replies key s).active k ≡ (if key_beq key k then none else get s.active k)
  resolve-get key k s = elim (Option-cases (get s.active key)) [
    | inl e ↦ rw (resolve-absent key s e) (ground (arith, key_beq_iff key k))
    | inr (entry, e) ↦ rw (resolve-present key s entry e, close-active, get-remove) refl
  ]

  pub resolve_all-get :
      (keys : List Key) (k : Key) (s : State)
      → get (resolve_all replies keys s).active k ≡ (if listed k keys then none else get s.active k)
  unfolding resolve_all
  resolve_all-get [] k s = refl
  resolve_all-get (key ∷ keys) k s =
      resolve_all-get keys k (resolve replies key s) ∙ rw resolve-get (ground arith)

-- A key is collected exactly if it is in the map and passes the test.
pub listed-keys_where :
    (p : Key → Bool) (k : Key) (m : List (Key × ActiveEntry))
    → listed k (keys_where p m) ≡ (p k && is_some (get m k))
unfolding keys_where get
listed-keys_where p k [] = ground arith
listed-keys_where p k ((j, entry) ∷ m) = ground (arith, key_beq_iff j k, listed-keys_where p k m)
