-- ===== src/Alerts/Stats.antt =====
-- AlertStats of services/api/internal/db/alerts.go. A mean is a fraction that is not reduced; an event of
-- which the end lies before its start counts with 0 there.
use mathlib.Core.List.{foldr}
use trace_runtime.Prelude.{
  ℕ, ◌+◌, ◌-◌, String, Bool, true, false, not, ◌&&◌, Option, none, some, List, [], ◌∷◌, length,
  ◌==◌, ltb, is_some, select, string_eq,
}
use trace_runtime.Prelude.Assoc.{get, put}
use trace_runtime.Healing.{active, acknowledged, resolved, HealingEvent, Table}
use trace_runtime.Chaos.{Runs}
use trace_runtime.Alerts.{any_covers}

pub record AlertStats : Type 0 where
  pub active_count : ℕ
  pub acknowledged_count : ℕ
  pub resolved_24h : ℕ
  pub critical_active : ℕ
  pub resolution_sum : ℕ
  pub resolution_count : ℕ

pub record AlertTypeStats : Type 0 where
  pub type_active : ℕ
  pub total_24h : ℕ

abbrev day : ℕ
day = 86400000000

abbrev is_active : HealingEvent → Bool
is_active e = elim (e.status) [ active ↦ true | _ ↦ false ]

abbrev is_acknowledged : HealingEvent → Bool
is_acknowledged e = elim (e.status) [ acknowledged ↦ true | _ ↦ false ]

abbrev is_resolved : HealingEvent → Bool
is_resolved e = elim (e.status) [ resolved ↦ true | _ ↦ false ]

abbrev since : ℕ → Option ℕ → Bool
since now none = false
since now (some at) = ltb now (at + day)

abbrev is_critical : HealingEvent → Bool
is_critical e = is_active e && (e.severity == "critical")

abbrev took : HealingEvent → ℕ
took e = elim (e.resolved_at) [ none ↦ 0 | some end ↦ end - e.created_at ]

-- The condition of both queries.
unfoldable pub counted : Runs → ℕ → HealingEvent → Bool
counted runs now e = not (is_some e.chaos_run_id) && not (any_covers now e.created_at runs)

-- COUNT(*) FILTER (WHERE ...)
abbrev count : (HealingEvent → Bool) → Table → ℕ
count p t = length (select p t)

abbrev entry : Option AlertTypeStats → AlertTypeStats
entry none = record { type_active = 0; total_24h = 0 }
entry (some s) = s

abbrev one_if : Bool → ℕ
one_if true = 1
one_if false = 0

abbrev add_to : ℕ → HealingEvent → AlertTypeStats → AlertTypeStats
add_to now e s = record {
  type_active = s.type_active + one_if (is_active e);
  total_24h = s.total_24h + one_if (since now (some e.created_at));
}

-- GROUP BY event_type
unfoldable pub by_type : ℕ → Table → List (String × AlertTypeStats)
by_type now [] = []
by_type now (e ∷ t) =
    let rest = by_type now t in put rest e.event_type (add_to now e (entry (get rest e.event_type)))

unfoldable pub alert_stats : Runs → ℕ → Table → AlertStats × List (String × AlertTypeStats)
unfolding by_type counted
alert_stats runs now t =
    let rows = select (counted runs now) t in
    let ended = select (λ e. is_resolved e && is_some e.resolved_at) rows in
    (
      record {
        active_count = count is_active rows;
        acknowledged_count = count is_acknowledged rows;
        resolved_24h = count (λ e. is_resolved e && since now e.resolved_at) rows;
        critical_active = count is_critical rows;
        resolution_sum = foldr (λ e n. took e + n) 0 ended;
        resolution_count = length ended;
      },
      by_type now rows,
    )
