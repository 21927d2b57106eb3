-- ===== src/Healing.antt =====
-- The `healing_events` table of PostgreSQL and the statements on it: InsertHealingEvent,
-- ResolveHealingEvent and ListActiveHealingEvents of services/watchdog/internal/db/healing.go,
-- AcknowledgeAlert of services/api/internal/db/alerts.go, InsertAuditEvent of
-- services/api/internal/db/dlq.go. Tables and links are as in Tasks. Of the JSON in `details` only the two
-- fields stand here that the program reads back.
pub mod Find
use trace_runtime.Prelude.{
  ℕ, String, Bool, true, false, Option, none, some, List, [], ◌∷◌, ◌++◌, ◌==◌, is_some,
  if◌then◌else◌, select,
}
use trace_runtime.Tasks.{Link, up, down, cut, Outcome, ok, db_error, conflict}

-- The values that the CHECK on `status` admits.
pub data Status : Type 0 where
  active acknowledged resolved : Status

pub record Details : Type 0 where
  pub worker_id : Option String
  pub task_id : Option String

pub record HealingEvent : Type 0 where
  pub id : String
  pub event_type : String
  pub severity : String
  pub source : String
  pub status : Status
  pub worker_id : String
  pub details : Details
  pub created_at : ℕ
  pub resolved_at : Option ℕ
  pub chaos_run_id : Option String

abbrev pub Table : Type 0
Table = List HealingEvent

unfoldable pub find : String → Table → Option HealingEvent
find k [] = none
find k (e ∷ t) = if e.id == k then some e else find k t

-- An update of the row with the id `k`, where `f` takes it.
unfoldable pub update : String → (HealingEvent → Option HealingEvent) → Table → Table
update k f [] = []
update k f (e ∷ t) =
    if e.id == k then elim (f e) [ none ↦ e ∷ t | some d ↦ d ∷ t ] else e ∷ update k f t

-- An insert of a new row; `none` is an error. The id is a primary key.
unfoldable pub insert : Link → HealingEvent → Table → Option String × Table
unfolding find
insert down e t = (none, t)
insert up e t = if is_some (find e.id t) then (none, t) else (some e.id, t ++ e ∷ [])
insert cut e t = (none, if is_some (find e.id t) then t else t ++ e ∷ [])

unfoldable pub insert_healing_event :
    (link : Link) (id : String) (now : ℕ) (event_type severity source worker_id : String)
    (details : Details) (chaos_run_id : Option String)
    → Table
    → Option String × Table
unfolding insert
insert_healing_event link id now event_type severity source worker_id details chaos_run_id t =
    insert link
      (record {
        id = id;
        event_type = event_type;
        severity = severity;
        source = source;
        status = active;
        worker_id = worker_id;
        details = details;
        created_at = now;
        resolved_at = none;
        chaos_run_id = chaos_run_id;
      })
      t

-- An audit event is born resolved.
unfoldable pub insert_audit_event :
    (link : Link) (id : String) (now : ℕ) (event_type severity source : String) (details : Details)
    → Table
    → Option String × Table
unfolding insert
insert_audit_event link id now event_type severity source details t =
    insert link
      (record {
        id = id;
        event_type = event_type;
        severity = severity;
        source = source;
        status = resolved;
        worker_id = "";
        details = details;
        created_at = now;
        resolved_at = none;
        chaos_run_id = none;
      })
      t

-- status IN ('active', 'acknowledged')
abbrev pub to_resolved : ℕ → HealingEvent → Option HealingEvent
to_resolved now e = elim e.status [
  | resolved ↦ none
  | _ ↦ some (record e { status = resolved; resolved_at = some now })
]

abbrev pub to_acknowledged : HealingEvent → Option HealingEvent
to_acknowledged e = elim e.status [ active ↦ some (record e { status = acknowledged }) | _ ↦ none ]

unfoldable pub resolve_healing_event : Link → ℕ → String → Table → Outcome × Table
unfolding update
resolve_healing_event up now id t = (ok, update id (to_resolved now) t)
resolve_healing_event down now id t = (db_error, t)
resolve_healing_event cut now id t = (db_error, update id (to_resolved now) t)

unfoldable pub acknowledge_alert : Link → String → Table → Outcome × Table
unfolding update find
acknowledge_alert up id t = (
  elim (find id t) [
    | none ↦ conflict
    | some e ↦ if is_some (to_acknowledged e) then ok else conflict
  ],
  update id to_acknowledged t,
)
acknowledge_alert down id t = (db_error, t)
acknowledge_alert cut id t = (db_error, update id to_acknowledged t)

abbrev pub is_active : HealingEvent → Bool
is_active e = elim e.status [ active ↦ true | _ ↦ false ]

-- `none` is an error. The order by creation time is not modelled: no caller depends on it but the
-- last writer of a key in `reconstruct`.
unfoldable pub list_active : (answered : Bool) → Table → Option (List HealingEvent)
list_active true t = some (select is_active t)
list_active false t = none
