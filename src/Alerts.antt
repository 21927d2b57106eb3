-- ===== src/Alerts.antt =====
-- The list of alerts: ListAlerts of services/api/internal/db/alerts.go and the handler List of
-- services/api/internal/handlers/alerts.go. A cursor is a time. A limit below 0 is a limit of 0, which the code
-- treats alike. Among rows of one time, which PostgreSQL may put in any order, the later row stands first.
pub mod Sorted
pub mod Cursors
pub mod Pages
pub mod Hidden
pub mod Stats
use mathlib.Core.List.{foldr}
use trace_runtime.Prelude.{
  ℕ, zero, suc, ◌+◌, ◌-◌, String, Bool, true, false, not, ◌&&◌, ◌||◌, Option, none, some, List, [],
  ◌∷◌, map, length, ◌==◌, ltb, leb, is_some, if◌then◌else◌, select, take,
}
use trace_runtime.Healing.{Status, active, acknowledged, resolved, HealingEvent, Table}
use trace_runtime.Chaos.{ChaosRun, RunStatus, Runs}

pub record AlertListParams : Type 0 where
  pub status : String
  pub severity : String
  pub event_type : String
  pub limit : ℕ
  pub cursor : Option ℕ

-- `duration` is what stands in duration_seconds, in microseconds; an event of the future has 0, where the
-- source has a negative number.
pub record Alert : Type 0 where
  pub event : HealingEvent
  pub duration : ℕ

abbrev or_now : Option ℕ → ℕ → ℕ
or_now none now = now
or_now (some at) now = at

abbrev pub is_listed_run : RunStatus → Bool
is_listed_run RunStatus.running = true
is_listed_run RunStatus.completed = true
is_listed_run _ = false

abbrev started_by : Option ℕ → ℕ → Bool
started_by none at = false
started_by (some start) at = leb start at

-- created_at BETWEEN started_at AND COALESCE(completed_at, NOW()), of a running or completed run.
abbrev pub covers : ℕ → ℕ → ChaosRun → Bool
covers now at r =
    is_listed_run r.status && (started_by r.started_at at && leb at (or_now r.completed_at now))

abbrev pub any_covers : ℕ → ℕ → Runs → Bool
any_covers now at [] = false
any_covers now at (r ∷ rs) = if covers now at r then true else any_covers now at rs

abbrev status_name : Status → String
status_name active = "active"
status_name acknowledged = "acknowledged"
status_name resolved = "resolved"

abbrev matches : String → String → Bool
matches wanted actual = wanted == "" || wanted == actual

-- The condition of the query, but for the cursor.
unfoldable pub shown : Runs → ℕ → AlertListParams → HealingEvent → Bool
shown runs now params e =
    not (is_some e.chaos_run_id)
    && (not (any_covers now e.created_at runs)
        && ((params.status == "all" || status_name e.status == params.status)
            && (matches params.severity e.severity && matches params.event_type e.event_type)))

abbrev pub before : Option ℕ → HealingEvent → Bool
before none e = true
before (some cursor) e = ltb e.created_at cursor

unfoldable pub insert : HealingEvent → Table → Table
insert e [] = e ∷ []
insert e (f ∷ t) = if leb f.created_at e.created_at then e ∷ f ∷ t else f ∷ insert e t

-- ORDER BY created_at DESC
unfoldable pub newest_first : Table → Table
unfolding insert
newest_first = foldr insert []

abbrev pub last_created : Table → Option ℕ
last_created [] = none
last_created (e ∷ []) = some e.created_at
last_created (e ∷ f ∷ t) = last_created (f ∷ t)

abbrev pub page_limit : ℕ → ℕ
page_limit limit = if leb limit 0 || ltb 100 limit then 50 else limit

abbrev pub alert : ℕ → HealingEvent → Alert
alert now e = record { event = e; duration = or_now e.resolved_at now - e.created_at }

abbrev pub rows : Runs → ℕ → AlertListParams → Table → Table
rows runs now params t =
    take (page_limit params.limit)
      (newest_first (select (λ e. shown runs now params e && before params.cursor e) t))

-- The page and the next cursor, if the page is full.
unfoldable pub list_alerts : Runs → ℕ → AlertListParams → Table → List Alert × Option ℕ
unfolding newest_first shown
list_alerts runs now params t =
    let results = rows runs now params t in
    (
      map (alert now) results,
      if leb (page_limit params.limit) (length results) then last_created results else none,
    )

pub record Query : Type 0 where
  pub status : String
  pub severity : String
  pub event_type : String
  pub limit : Option ℕ
  pub cursor : Option ℕ

pub record Listing : Type 0 where
  pub alerts : List Alert
  pub next_cursor : Option ℕ
  pub total_active : ℕ
  pub total_acknowledged : ℕ

abbrev has_status : Status → Alert → Bool
has_status wanted a = status_name a.event.status == status_name wanted

abbrev or_fifty : Option ℕ → ℕ
or_fifty none = 50
or_fifty (some n) = n

-- The handler; `answers` is false if the query fails, and the reply is then 500.
unfoldable pub list : Bool → Runs → ℕ → Query → Table → Option Listing
unfolding list_alerts
list false runs now query t = none
list true runs now query t =
    let params : AlertListParams = record {
      status = if query.status == "" then "all" else query.status;
      severity = query.severity;
      event_type = query.event_type;
      limit = or_fifty query.limit;
      cursor = query.cursor;
    } in
    let (alerts, next) = list_alerts runs now params t in
    some (record {
      alerts = alerts;
      next_cursor = next;
      total_active = length (select (has_status active) alerts);
      total_acknowledged = length (select (has_status acknowledged) alerts);
    })
