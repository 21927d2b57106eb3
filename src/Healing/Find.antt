-- ===== src/Healing/Find.antt =====
-- What a lookup by primary key finds after each statement of Healing.
use trace_runtime.Prelude.{
  ℕ, String, ◌≡◌, refl, Option, none, some, [], ◌∷◌, ◌++◌, ◌==◌, eq_iff, arith, is_some,
  if◌then◌else◌,
}
use trace_runtime.Healing.{HealingEvent, Table, find, update, to_resolved, to_acknowledged}

pub find-append :
    (k : String) (t : Table) (e : HealingEvent)
    → find k (t ++ e ∷ [])
      ≡ (if is_some (find k t) then find k t else if e.id == k then some e else none)
unfolding find
find-append k [] e = refl
find-append k (d ∷ t) e = ground (arith, find-append k t e)

abbrev pub after : Option HealingEvent → HealingEvent → HealingEvent
after none e = e
after (some d) e = d

abbrev pub changed :
    (HealingEvent → Option HealingEvent) → Option HealingEvent → Option HealingEvent
changed f none = none
changed f (some e) = some (after (f e) e)

pub find-update :
    (k j : String) (f : HealingEvent → Option HealingEvent) (t : Table)
    → ((e d : HealingEvent) → f e ≡ some d → d.id ≡ e.id)
    → find j (update k f t) ≡ (if k == j then changed f (find j t) else find j t)
unfolding find update
find-update k j f [] keeps = ground arith
find-update k j f (e ∷ t) keeps = ground (
  arith,
  keeps e (after (f e) e),
  eq_iff e.id k,
  eq_iff e.id j,
  eq_iff k j,
  eq_iff (after (f e) e).id j,
  find-update k j f t keeps,
)

pub to_resolved-id : (now : ℕ) (e d : HealingEvent) → to_resolved now e ≡ some d → d.id ≡ e.id
to_resolved-id now e d h = ground arith

pub to_acknowledged-id : (e d : HealingEvent) → to_acknowledged e ≡ some d → d.id ≡ e.id
to_acknowledged-id e d h = ground arith

pub find-id : (k : String) (t : Table) (e : HealingEvent) → find k t ≡ some e → e.id ≡ k
unfolding find
find-id k [] e h = ground arith
find-id k (d ∷ t) e h = ground (arith, eq_iff d.id k, find-id k t e)

-- The primary key.
abbrev pub Unique : Table → Type 0
Unique [] = Unit
Unique (e ∷ t) = (find e.id t ≡ none) × Unique t
