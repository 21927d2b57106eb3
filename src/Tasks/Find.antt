-- ===== src/Tasks/Find.antt =====
-- What a lookup by primary key finds after each statement of Tasks.
use trace_runtime.Prelude.{
  ℕ, String, ◌≡◌, refl, sym, Option, none, some, [], ◌∷◌, ◌++◌, ◌==◌, eq_iff, arith, is_some,
  if◌then◌else◌,
}
use trace_runtime.Tasks.{up, down, cut, TaskRow, Table, Link, find, update, Update, change, stored}
use trace_runtime.Tasks.Lifecycle.{change-Same}

-- The row as the statement leaves it.
abbrev pub after : Option TaskRow → TaskRow → TaskRow
after none r = r
after (some s) r = s

abbrev pub changed : (TaskRow → Option TaskRow) → Option TaskRow → Option TaskRow
changed f none = none
changed f (some r) = some (after (f r) r)

pub find-id : (k : String) (t : Table) (r : TaskRow) → find k t ≡ some r → r.id ≡ k
unfolding find
find-id k [] r h = ground arith
find-id k (s ∷ t) r h = ground (arith, eq_iff s.id k, find-id k t r)

pub find-update :
    (k j : String) (f : TaskRow → Option TaskRow) (t : Table)
    → ((r s : TaskRow) → f r ≡ some s → s.id ≡ r.id)
    → find j (update k f t) ≡ (if k == j then changed f (find j t) else find j t)
unfolding find update
find-update k j f [] keeps = ground arith
find-update k j f (r ∷ t) keeps = ground (
  arith,
  keeps r (after (f r) r),
  eq_iff r.id k,
  eq_iff r.id j,
  eq_iff k j,
  eq_iff (after (f r) r).id j,
  find-update k j f t keeps,
)

pub find-stored :
    (u : Update) (now : ℕ) (k j : String) (t : Table)
    → find j (stored up u now k t)
      ≡ (if k == j then changed (change u now) (find j t) else find j t)
unfolding stored
find-stored u now k j t = find-update k j (change u now) t (λ r s h. sym (change-Same u now r h).id)

pub find-append :
    (j : String) (t : Table) (r : TaskRow)
    → find j (t ++ r ∷ [])
      ≡ (if is_some (find j t) then find j t else if r.id == j then some r else none)
unfolding find
find-append j [] r = refl
find-append j (s ∷ t) r = ground (arith, find-append j t r)

-- A statement whose condition the row does not meet leaves the table as it is.
pub update-none :
    (k : String) (f : TaskRow → Option TaskRow) (t : Table) (r : TaskRow)
    → find k t ≡ some r
    → f r ≡ none
    → update k f t ≡ t
unfolding find update
update-none k f [] r h e = refl
update-none k f (s ∷ t) r h e = ground (arith, update-none k f t r)

pub stored-none :
    (link : Link) (u : Update) (now : ℕ) (k : String) (t : Table) (r : TaskRow)
    → find k t ≡ some r
    → change u now r ≡ none
    → stored link u now k t ≡ t
unfolding stored
stored-none down u now k t r h e = refl
stored-none up u now k t r h e = update-none k (change u now) t r h e
stored-none cut u now k t r h e = update-none k (change u now) t r h e
