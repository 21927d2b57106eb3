-- ===== src/Detector/Duplicates.antt =====
-- The watchdog never opens a second event for a condition while the first is active.
use trace_runtime.Prelude.{
  ℕ, ◌+◌, String, ◌≡◌, refl, sym, ap, ◌∙◌, Bool, true, false, Option, none, some, List, [], ◌∷◌,
  ◌==◌, arith, eq_iff, ◌++◌, contains, Option-cases, inl, inr, ◌⊎◌, if_same, select,
}
use trace_runtime.Prelude.Assoc.{
  get, put, remove, get-put, get-remove, get-retain, Distinct, Distinct-put, Distinct-remove,
  Distinct-retain,
}
use trace_runtime.Healing.{
  active, Details, HealingEvent, Table, find, update, to_resolved, is_active, list_active,
  resolve_healing_event,
}
use trace_runtime.Healing.Find.{find-append, find-update, to_resolved-id}
use trace_runtime.Detector.Keys.{Key, key_eq, key_beq_iff, key_for_event}
use trace_runtime.Detector.{ActiveEntry, Reply, State, exists, emit, resolve, close, resolve_all}
use trace_runtime.Detector.Polls.{reconcile, ids}
use trace_runtime.Detector.Writes.{
  Working, Fresh, emit-active, emit-events, emit-Fresh, resolve-absent, resolve-present,
  close-active,
}

some_eq : {j k : Key} → some j ≡ some k → j ≡ k
some_eq h = cc

-- A row that is active after an update to resolved was not the one updated.
still :
    (k id : String) (t : Table) (ev : HealingEvent) (now : ℕ)
    → find id (update k (to_resolved now) t) ≡ some ev
    → ev.status ≡ active
    → (find id t ≡ some ev) × ((k == id) ≡ false)
still k id t ev now h a = ground (arith, find-update k id (to_resolved now) t (to_resolved-id now))

-- Each active event of the table stands in the map, under its own key.
abbrev pub Tracked : Table → List (Key × ActiveEntry) → Type 0
Tracked t m =
    (id : String) (ev : HealingEvent) (k : Key)
    → find id t ≡ some ev
    → ev.status ≡ active
    → key_for_event ev ≡ some k
    → (entry : ActiveEntry) × (get m k ≡ some entry) × (entry.event_id ≡ id)

pub record Sound (replies : ℕ → Reply) (s : State) : Type 0 where
  pub tracked : Tracked s.events s.active
  pub distinct : Distinct s.active
  pub fresh : Fresh replies s

find-append_cases :
    (id : String) (t : Table) (row ev : HealingEvent)
    → find id (t ++ row ∷ []) ≡ some ev
    → (find id t ≡ some ev) ⊎ ((row ≡ ev) × (row.id ≡ id))
find-append_cases id t row ev h = ground (arith, find-append id t row, eq_iff row.id id)

module _ (m : List (Key × ActiveEntry)) (key k : Key) (entry : ActiveEntry) where
  get-put_other :
      {x : ActiveEntry} → get m key ≡ none → get m k ≡ some x → get (put m key entry) k ≡ some x
  get-put_other absent h = ground (arith, get-put m key k entry, key_beq_iff key k)

  get-put_same : key ≡ k → get (put m key entry) k ≡ some entry
  get-put_same e = ground (arith, get-put m key k entry, key_beq_iff key k)

append-Tracked :
    (t : Table) (m : List (Key × ActiveEntry)) (row : HealingEvent) (key : Key)
    (entry : ActiveEntry)
    → get m key ≡ none
    → key_for_event row ≡ some key
    → entry.event_id ≡ row.id
    → Tracked t m
    → Tracked (t ++ row ∷ []) (put m key entry)
append-Tracked t m row key entry absent keyed named tracked id ev k h a e =
    elim (find-append_cases id t row ev h) [
      | inl old ↦
          (let (x, g, i) = tracked id ev k old a e in (x, get-put_other m key k entry absent g, i))
      | inr (new, i) ↦ (
        entry,
        get-put_same m key k entry (some_eq (sym keyed ∙ ap key_for_event new ∙ e)),
        named ∙ i,
      )
    ]

-- Resolving the event of an entry, and taking the entry's key out of the map.
resolve-Tracked :
    (t : Table) (m : List (Key × ActiveEntry)) (key : Key) (entry : ActiveEntry) (now : ℕ)
    → get m key ≡ some entry
    → Tracked t m
    → Tracked (update entry.event_id (to_resolved now) t) (remove m key)
resolve-Tracked t m key entry now present tracked id ev k h a e =
    let (old, apart) = still entry.event_id id t ev now h a in
    let (x, g, i) = tracked id ev k old a e in
    (x, ground (arith, get-remove m key k, key_beq_iff key k, eq_iff entry.event_id id), i)

absent_still :
    (k id : String) (t : Table) (now : ℕ)
    → find id t ≡ none
    → find id (update k (to_resolved now) t) ≡ none
absent_still k id t now h =
    rw (find-update k id (to_resolved now) t (to_resolved-id now), h) (if_same (k == id) none)

listed_id :
    (id : String) (t : Table) (ev : HealingEvent)
    → find id t ≡ some ev
    → ev.status ≡ active
    → contains (ids (select is_active t)) id ≡ true
unfolding find
listed_id id [] ev h a = ground arith
listed_id id (e ∷ t) ev h a = ground (arith, eq_iff e.id id, listed_id id t ev)

module _ (replies : ℕ → Reply) (w : Working replies) where
  absent-get : (key : Key) (s : State) → exists key s ≡ false → get s.active key ≡ none
  absent-get key s e = ground arith

  pub emit-Sound :
      (key : Key) (event_type severity worker_id : String) (details : Details) (run : Option String)
      (s : State)
      → ((row : HealingEvent)
          → row.event_type ≡ event_type
          → row.worker_id ≡ worker_id
          → row.details ≡ details
          → key_for_event row ≡ some key)
      → exists key s ≡ false
      → Sound replies s
      → Sound replies (emit replies key event_type severity worker_id details run s)
  emit-Sound key event_type severity worker_id details run s keyed new sound = record {
    tracked =
        rw
          (
            emit-events replies w key event_type severity worker_id details run s sound.fresh,
            emit-active replies w key event_type severity worker_id details run s sound.fresh,
          )
          (append-Tracked s.events s.active _ key _ (absent-get key s new) (keyed _ refl refl refl)
            refl sound.tracked);
    distinct =
        rw (emit-active replies w key event_type severity worker_id details run s sound.fresh)
          (Distinct-put s.active key _ sound.distinct);
    fresh = emit-Fresh replies w key event_type severity worker_id details run s sound.fresh;
  }

  close-events :
      (key : Key) (entry : ActiveEntry) (s : State)
      → (close replies key entry s).events
        ≡ update entry.event_id (to_resolved (replies s.writes).now) s.events
  unfolding close resolve_healing_event
  close-events key entry s = ground (arith, w.linked s.writes)

  close-writes :
      (key : Key) (entry : ActiveEntry) (s : State)
      → (close replies key entry s).writes ≡ s.writes + 1
  unfolding close resolve_healing_event
  close-writes key entry s = ground (arith, w.linked s.writes)

  close-Sound :
      (key : Key) (entry : ActiveEntry) (s : State)
      → get s.active key ≡ some entry
      → Sound replies s
      → Sound replies (close replies key entry s)
  close-Sound key entry s e sound = record {
    tracked =
        rw (close-events key entry s, close-active replies key entry s)
          (resolve-Tracked s.events s.active key entry _ e sound.tracked);
    distinct = rw (close-active replies key entry s) (Distinct-remove s.active key sound.distinct);
    fresh = λ n later. rw (close-events key entry s) (
        absent_still entry.event_id _ s.events _
          (sound.fresh n (omega (arith, close-writes key entry s))));
  }

  pub resolve-Sound :
      (key : Key) (s : State) → Sound replies s → Sound replies (resolve replies key s)
  resolve-Sound key s sound = elim (Option-cases (get s.active key)) [
    | inl e ↦ rw (resolve-absent replies key s e) sound
    | inr (entry, e) ↦ rw (resolve-present replies key s entry e) (close-Sound key entry s e sound)
  ]

  pub resolve_all-Sound :
      (keys : List Key) (s : State) → Sound replies s → Sound replies (resolve_all replies keys s)
  unfolding resolve_all
  resolve_all-Sound [] s sound = sound
  resolve_all-Sound (key ∷ keys) s sound = resolve_all-Sound keys _ (resolve-Sound key s sound)

  pub reconcile-Sound :
      (listed : Bool) (s : State) → Sound replies s → Sound replies (reconcile listed s)
  unfolding reconcile list_active
  reconcile-Sound false s sound = sound
  reconcile-Sound true s sound = record {
    tracked = λ id ev k h a e.
        let (x, g, i) = sound.tracked id ev k h a e in
        (
          x,
          rw (get-retain _ s.active k sound.distinct, g, i, listed_id id s.events ev h a) refl,
          i,
        );
    distinct = Distinct-retain _ s.active sound.distinct;
    fresh = sound.fresh;
  }
