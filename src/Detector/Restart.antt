-- ===== src/Detector/Restart.antt =====
-- A restart of the watchdog: New, and what reconstructActiveState makes of the table.
use trace_runtime.Prelude.{
  ℕ, String, ◌≡◌, refl, sym, ap, ◌∙◌, Bool, true, false, Option, none, some, List, [], ◌∷◌, ◌==◌,
  arith, eq_iff, eq_refl, select, All, ◌⊎◌, inl, inr, Bool-cases, Option-cases, subst,
}
use trace_runtime.Prelude.Assoc.{get, put, get-put, Distinct, Distinct-put}
use trace_runtime.Healing.{active, HealingEvent, Table, find, is_active, list_active}
use trace_runtime.Healing.Find.{Unique}
use trace_runtime.Detector.Keys.{Key, key_eq, key_beq, key_beq_iff, key_for_event}
use trace_runtime.Detector.{ActiveEntry, Reply, State}
use trace_runtime.Detector.Polls.{reconstruct, entry_of}
use trace_runtime.Detector.Writes.{Working}
use trace_runtime.Detector.Duplicates.{Sound}
use trace_runtime.Detector.Soundness.{same_id}

-- The detector that New returns; where the query fails it starts with an empty map.
unfoldable pub restart : (answered : Bool) → State → State
unfolding reconstruct list_active
restart answered s = record s {
  active = elim (list_active answered s.events) [ none ↦ [] | some es ↦ reconstruct es [] ];
  health_failures = 0;
}

is-active : (e : HealingEvent) → e.status ≡ active → is_active e ≡ true
is-active e h = rw h refl

status-is : (e : HealingEvent) → is_active e ≡ true → e.status ≡ active
status-is e h = ground arith

module _ (k : Key) where
  -- One of the events has the key.
  abbrev Any : List HealingEvent → Type 0
  Any [] = ⊥
  Any (e ∷ es) = (key_for_event e ≡ some k) ⊎ Any es

  Any-listed :
      (id : String) (t : Table) (ev : HealingEvent)
      → find id t ≡ some ev
      → ev.status ≡ active
      → key_for_event ev ≡ some k
      → Any (select is_active t)
  unfolding find
  Any-listed id [] ev h a e = absurd (ground arith)
  Any-listed id (d ∷ t) ev h a e = elim (Bool-cases (d.id == id)) [
    | inl same ↦
        let this : d ≡ ev = ground (arith, same) in
        rw (ap (λ (x : HealingEvent). is_active x) this, is-active ev a)
          (inl (ap key_for_event this ∙ e))
    | inr other ↦
        let rest = Any-listed id t ev (ground (arith, other)) a e in
        elim (Bool-cases (is_active d)) [ inl y ↦ rw y (inr rest) | inr n ↦ rw n rest ]
  ]

  module _ (id : String) where
    -- The events with the key have the id.
    abbrev Agree : List HealingEvent → Type 0
    Agree = All (λ e. key_for_event e ≡ some k → e.id ≡ id)

    abbrev Has : List (Key × ActiveEntry) → Type 0
    Has m = (entry : ActiveEntry) × (get m k ≡ some entry) × (entry.event_id ≡ id)

    not_first :
        (d : HealingEvent) (t : Table) (j : String) (e : HealingEvent)
        → Unique (d ∷ t)
        → find j t ≡ some e
        → (d.id == j) ≡ false
    not_first d t j e u h = elim (Bool-cases (d.id == j)) [
      | inl same ↦
          absurd (ground (arith, h, subst (λ i. find i t ≡ none) ((eq_iff d.id j).0 same) u.0))
      | inr other ↦ other
    ]

    Agree-select :
        (t : Table)
        → Unique t
        → ((j : String) (e : HealingEvent)
            → find j t ≡ some e
            → e.status ≡ active
            → key_for_event e ≡ some k
            → j ≡ id)
        → Agree (select is_active t)
    unfolding find
    Agree-select [] u h = tt
    Agree-select (d ∷ t) u h =
        let rest : Agree (select is_active t) =
          Agree-select t u.1
            (λ j e found. h j e (ground (arith, eq_iff d.id j, not_first d t j e u found))) in
        elim (Bool-cases (is_active d)) [
          | inl y ↦ rw y (λ keyed. h d.id d (rw (eq_refl d.id) refl) (status-is d y) keyed, rest)
          | inr n ↦ rw n rest
        ]

    -- One round of the loop, on an event with the key `o`.
    after-Has :
        (o : Option Key) (e : HealingEvent) (es : List HealingEvent) (m : List (Key × ActiveEntry))
        → key_for_event e ≡ o
        → (key_for_event e ≡ some k → e.id ≡ id)
        → Has m ⊎ Any (e ∷ es)
        → Has (elim o [ none ↦ m | some j ↦ put m j (entry_of e) ]) ⊎ Any es
    after-Has none e es m keyed same (inl there) = inl there
    after-Has none e es m keyed same (inr (inl this)) = absurd (ground (arith, keyed, this))
    after-Has none e es m keyed same (inr (inr rest)) = inr rest
    after-Has (some j) e es m keyed same h = elim (Bool-cases (key_beq j k)) [
      | inl hit ↦ inl (
        entry_of e,
        rw (get-put m j k (entry_of e), hit) refl,
        same (keyed ∙ ap some ((key_beq_iff j k).0 hit)),
      )
      | inr miss ↦ elim h [
        | inl (x, there, i) ↦ inl (x, rw (get-put m j k (entry_of e), miss) there, i)
        | inr (inl this) ↦ absurd (ground (arith, key_beq_iff j k, miss, sym keyed ∙ this))
        | inr (inr rest) ↦ inr rest
      ]
    ]

    reconstruct-Has :
        (es : List HealingEvent) (m : List (Key × ActiveEntry))
        → Agree es
        → Has m ⊎ Any es
        → Has (reconstruct es m)
    unfolding reconstruct
    reconstruct-Has [] m g (inl h) = h
    reconstruct-Has [] m g (inr h) = absurd h
    reconstruct-Has (e ∷ es) m g h =
        reconstruct-Has es _ g.1 (after-Has (key_for_event e) e es m refl g.0 h)

reconstruct-Distinct :
    (es : List HealingEvent) (m : List (Key × ActiveEntry))
    → Distinct m
    → Distinct (reconstruct es m)
unfolding reconstruct
reconstruct-Distinct [] m d = d
reconstruct-Distinct (e ∷ es) m d = elim (Option-cases (key_for_event e)) [
  | inl none_ ↦ rw none_ (reconstruct-Distinct es m d)
  | inr (j, keyed) ↦ rw keyed (reconstruct-Distinct es _ (Distinct-put m j (entry_of e) d))
]

-- Given that the writes are answered, that the ids in the table and the new ones are apart, and that the
-- query at the start is answered: if map and table were in step before the watchdog stopped, then
-- the map that a restart reads back from the table is in step with it too.
pub restart-Sound :
    (replies : ℕ → Reply) (s : State)
    → Working replies
    → Unique s.events
    → Sound replies s
    → Sound replies (restart true s)
unfolding restart list_active
restart-Sound replies s w unique sound = record {
  tracked = λ id ev k h a e.
      reconstruct-Has k id (select is_active s.events) []
        (Agree-select k id s.events unique
          (λ j d found b keyed. same_id replies w s j id d ev k sound found h b a keyed e))
        (inr (Any-listed k id s.events ev h a e));
  distinct = reconstruct-Distinct (select is_active s.events) [] tt;
  fresh = sound.fresh;
}
