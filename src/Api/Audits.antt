-- ===== src/Api/Audits.antt =====
-- The dead-letter queue: what a retry brings back, and the audit trail of a deletion.
use trace_runtime.Prelude.{
  String, ◌≡◌, refl, false, none, some, [], ◌∷◌, ◌++◌, ◌==◌, arith, eq_refl,
}
use trace_runtime.Tasks.{
  up, down, TaskRow, pending, failed, change, revert_to_pending_for_retry, unchecked,
}
use trace_runtime.Tasks.{find as find_task, retry as retry_row}
use trace_runtime.Tasks.Find.{find-stored}
use trace_runtime.Queue.{Task}
use trace_runtime.Healing.{HealingEvent, resolved, find, insert_audit_event, insert}
use trace_runtime.Healing.Find.{find-append}
use trace_runtime.Api.{World, error, done, send}
use trace_runtime.Api.Operator.{Calls, delete, retry, audit, about}

abbrev deletion : Calls → String → HealingEvent
deletion c task_id = record {
  id = c.audit_id;
  event_type = "dlq.message.deleted";
  severity = "info";
  source = "operator";
  status = resolved;
  worker_id = "";
  details = about task_id;
  created_at = c.now;
  resolved_at = none;
  chaos_run_id = none;
}

-- If SQS does not delete the message, given that the database answers and that the audit's id is
-- fresh: the operator is told so (410), no message is deleted, and yet the table has a resolved event
-- dlq.message.deleted for the task.
pub delete_audits_failure :
    (c : Calls) (receipt task_id : String) (w : World)
    → c.delete_link ≡ down
    → c.audit_link ≡ up
    → (receipt == "") ≡ false
    → find c.audit_id w.healing ≡ none
    → let end = delete c receipt task_id w in
      (end.0 ≡ error 410 "receipt handle expired, message may have been redelivered")
      × (end.1.deleted ≡ w.deleted)
      × (e : HealingEvent) × (find c.audit_id end.1.healing ≡ some e)
      × (e.event_type ≡ "dlq.message.deleted")
      × (e.details ≡ about task_id)
      × (e.status ≡ resolved)
unfolding delete audit insert_audit_event insert
delete_audits_failure c receipt task_id w refused audited given fresh =
    rw (given, refused, audited, fresh)
      (
        refl,
        refl,
        deletion c task_id,
        rw (find-append c.audit_id w.healing (deletion c task_id), fresh, eq_refl) refl,
        refl,
        refl,
        refl,
      )

-- If a retry is answered with success, given that the database answers the reset and that the task's
-- row is failed: the message is the last in the main queue, and the row is pending, without an
-- error, and else as it was but for the time of its update.
pub retry_revives :
    (c : Calls) (receipt : String) (body : Task) (w : World) (r : TaskRow)
    → c.revert_link ≡ up
    → find_task body.id w.tasks ≡ some r
    → r.status ≡ failed
    → (retry c receipt (some body) w).0 ≡ done
    → let after = (retry c receipt (some body) w).1 in
      (after.main ≡ w.main ++ body ∷ [])
      × (find_task body.id after.tasks
          ≡ some (record r { status = pending; error_message = none; updated_at = c.now }))
unfolding retry send audit revert_to_pending_for_retry unchecked change
retry_revives c receipt body w r reverts found is_failed h = (
  ground arith,
  ground (arith, find-stored retry_row c.now body.id body.id w.tasks, eq_refl body.id),
)
