-- ===== src/Detector/Keys.antt =====
-- The dedup keys of the watchdog's detector, services/watchdog/internal/detector/detector.go. A key
-- is a text in the source, "kind" or "kind:id"; here it is a constructor with the id, so that HasPrefix
-- and TrimPrefix become a match.
use trace_runtime.Prelude.{
  String, ◌≡◌, refl, ap, subst, ◌↔◌, Bool, true, false, Option, none, some, ◌==◌, Eq, eq_iff,
  eq_refl, if◌then◌else◌,
}
use trace_runtime.Healing.{HealingEvent}

pub data Key : Type 0 where
  worker_stale : String → Key
  worker_down : Key
  queue_lag : Key
  task_stuck : String → Key
  task_abandoned : String → Key
  dlq_nonempty : Key

abbrev pub key_beq : Key → Key → Bool
key_beq (worker_stale a) (worker_stale b) = a == b
key_beq worker_down worker_down = true
key_beq queue_lag queue_lag = true
key_beq (task_stuck a) (task_stuck b) = a == b
key_beq (task_abandoned a) (task_abandoned b) = a == b
key_beq dlq_nonempty dlq_nonempty = true
key_beq _ _ = false

key_beq_refl : (k : Key) → key_beq k k ≡ true
key_beq_refl (worker_stale a) = eq_refl a
key_beq_refl worker_down = refl
key_beq_refl queue_lag = refl
key_beq_refl (task_stuck a) = eq_refl a
key_beq_refl (task_abandoned a) = eq_refl a
key_beq_refl dlq_nonempty = refl

key_beq-eq : (j k : Key) → key_beq j k ≡ true → j ≡ k
key_beq-eq (worker_stale a) (worker_stale b) h = ap worker_stale ((eq_iff a b).0 h)
key_beq-eq worker_down worker_down h = refl
key_beq-eq queue_lag queue_lag h = refl
key_beq-eq (task_stuck a) (task_stuck b) h = ap task_stuck ((eq_iff a b).0 h)
key_beq-eq (task_abandoned a) (task_abandoned b) h = ap task_abandoned ((eq_iff a b).0 h)
key_beq-eq dlq_nonempty dlq_nonempty h = refl
key_beq-eq _ _ h = cc

pub key_beq_iff : (j k : Key) → (key_beq j k ≡ true) ↔ (j ≡ k)
key_beq_iff j k = (key_beq-eq j k, λ e. subst (λ x. key_beq j x ≡ true) e (key_beq_refl j))

instance abbrev pub key_eq : Eq Key
key_eq = record { beq = key_beq; beq_iff = key_beq_iff }

abbrev tagged : (String → Key) → Option String → Option Key
tagged kind none = none
tagged kind (some id) = some (kind id)

-- keyForEvent; `none` is the empty key.
unfoldable pub key_for_event : HealingEvent → Option Key
key_for_event ev =
    if ev.event_type == "worker.stale"
    then (if ev.worker_id == ""
        then tagged worker_stale ev.details.worker_id
        else some (worker_stale ev.worker_id))
    else if ev.event_type == "worker.down"
    then some worker_down
    else if ev.event_type == "queue.lag"
    then some queue_lag
    else if ev.event_type == "task.stuck"
    then tagged task_stuck ev.details.task_id
    else if ev.event_type == "task.abandoned"
    then tagged task_abandoned ev.details.task_id
    else if ev.event_type == "dlq.nonempty"
    then some dlq_nonempty
    else none
