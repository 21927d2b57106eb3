-- ===== src/Api/Operator.antt =====
-- What an operator does: Retry, Delete and Purge of services/api/internal/handlers/dlq.go, and
-- Acknowledge of services/api/internal/handlers/alerts.go; and the relay of the workers' and the
-- watchdog's events, services/api/internal/http/events.go, with the middleware that guards them,
-- internalTokenMiddleware of services/api/internal/http/router.go.
use trace_runtime.Prelude.{
  ℕ, ◌+◌, String, Bool, true, false, not, ◌&&◌, Option, none, some, ◌∷◌, ◌==◌, if◌then◌else◌,
}
use trace_runtime.Tasks.{Link, up, down, ok, db_error, conflict, revert_to_pending_for_retry}
use trace_runtime.Healing.{Details, insert_audit_event, acknowledge_alert}
use trace_runtime.Queue.{Task}
use trace_runtime.Broker.{publish}
use trace_runtime.Api.{World, Reply, done, error, Event, send}

-- The fresh id of the audit event, the time, and how the calls fare.
pub record Calls : Type 0 where
  pub send_link : Link
  pub delete_link : Link
  pub revert_link : Link
  pub audit_link : Link
  pub audit_id : String
  pub now : ℕ

abbrev notice : (event_type task_id healing_event_id : String) → Event
notice event_type task_id healing_event_id = record {
  event_id = "";
  event_type = event_type;
  trace_id = "";
  traceparent = "";
  task_id = task_id;
  healing_event_id = healing_event_id;
  source = "";
}

abbrev broadcast : Event → World → World
broadcast e w = record w { broker = publish w.broker e }

abbrev pub about : String → Details
about task_id = record { worker_id = none; task_id = some task_id }

-- InsertAuditEvent, whose error is ignored.
unfoldable pub audit : Calls → (event_type severity : String) → Details → World → World
audit c event_type severity details w = record w {
  healing =
      (insert_audit_event c.audit_link c.audit_id c.now event_type severity "operator" details
        w.healing).1;
}

-- Whether the call that removes something from the dead-letter queue is answered, and whether it ran.
abbrev pub answers : Link → Bool
answers up = true
answers _ = false

abbrev pub runs : Link → Bool
runs down = false
runs _ = true

abbrev pub delete_message : Link → String → World → World
delete_message link receipt w = if runs link then record w { deleted = receipt ∷ w.deleted } else w

-- Retry, of the message with this receipt and body; `none` is an empty body. A body that does not
-- decode has the id "". An error of DeleteMessage is only a warning.
unfoldable pub retry : Calls → (receipt : String) (body : Option Task) → World → Reply × World
unfolding send audit
retry c receipt none w = (error 400 "receipt_handle and message_body required", w)
retry c receipt (some body) w =
    if receipt == ""
    then (error 400 "receipt_handle and message_body required", w)
    else (let (sent, main) = send c.send_link body w.main in
        if sent
        then (
          done,
          broadcast (notice "task.retrying" body.id "") (
              audit c "dlq.message.retried" "info" (about body.id) (
                let moved = delete_message c.delete_link receipt (record w { main = main }) in
                record moved {
                  tasks = (revert_to_pending_for_retry c.revert_link c.now body.id moved.tasks).1;
                })),
        )
        else (error 500 "failed to send to main queue", record w { main = main }))

unfoldable pub delete : Calls → (receipt task_id : String) → World → Reply × World
unfolding audit
delete c receipt task_id w =
    if receipt == ""
    then (error 400 "receipt_handle required", w)
    else (let noted =
          delete_message c.delete_link receipt
            (audit c "dlq.message.deleted" "info" (about task_id) w) in
        if answers c.delete_link
        then (done, broadcast (notice "healing.dlq.message.deleted" task_id "") noted)
        else (error 410 "receipt handle expired, message may have been redelivered", noted))

unfoldable pub purge : Calls → World → Reply × World
unfolding audit
purge c w =
    let noted = audit c "dlq.purged" "warning" (record { worker_id = none; task_id = none }) w in
    let gone = if runs c.delete_link then record noted { purges = noted.purges + 1 } else noted in
    if answers c.delete_link
    then (done, broadcast (notice "healing.dlq.purged" "" "") gone)
    else (error 429 "purge already in progress, wait 60s before retrying", gone)

unfoldable pub acknowledge : Link → String → World → Reply × World
acknowledge link id w =
    let (outcome, healing) = acknowledge_alert link id w.healing in
    let after = record w { healing = healing } in
    elim outcome [
      | ok ↦ (done, broadcast (notice "healing.acknowledged" "" id) after)
      | conflict ↦ (error 409 "alert not found or not active", after)
      | db_error ↦ (error 500 "internal error", after)
    ]

-- The body of a POST to /internal/events: no JSON, JSON in which the three fields do not decode, and
-- JSON in which they do.
pub data Body : Type 0 where
  malformed : Body
  opaque : Event → Body
  envelope : Event → Body

-- EventsHandler.ServeHTTP on a POST. The two queries answer whether the task belongs to a chaos run and
-- whether a chaos run is active.
unfoldable pub relay :
    (is_chaos_task : String → Bool) (chaos_active : Bool) → Body → World → Reply × World
relay is_chaos_task chaos_active malformed w = (error 400 "", w)
relay is_chaos_task chaos_active (opaque e) w = (done, broadcast e w)
relay is_chaos_task chaos_active (envelope e) w =
    if not (e.task_id == "") && is_chaos_task e.task_id
    then (done, w)
    else if not (e.healing_event_id == "") && chaos_active
    then (done, w)
    else (done, broadcast e w)

-- internalTokenMiddleware around a handler.
unfoldable pub guarded : (token header : String) → (World → Reply × World) → World → Reply × World
guarded token header handler w =
    if not (token == "") && not (header == token) then (error 403 "forbidden", w) else handler w
