-- ===== src/Chaos/Ops.antt =====
-- What the scenarios of cmd/chaos/internal/chaos/scenarios ask of the world: the checker's calls, Docker,
-- the API and the AI runtime. The calls are operations on any type of worlds; a call is answered, or returns
-- an error. A chain of calls ends at the first error.
use Prim.Native.String.{◌++◌ as text_append}
use trace_runtime.Prelude.{
  ℕ, ◌*◌, String, Bool, true, false, ◌⊎◌, inl, inr, Option, none, some, List,
}
use trace_runtime.Healing.{HealingEvent}
use trace_runtime.Tasks.{Status}
use trace_runtime.Chaos.Waits.{Ticks}

-- A call without an answer.
pub data Done : Type 0 where
  done : Done

-- HealthStatus of cmd/chaos/internal/chaos/docker/controller.go; `unprobed` is HealthNone.
pub data HealthStatus : Type 0 where
  healthy unhealthy starting unprobed exited : HealthStatus

abbrev pub M : Type 0 → Type 0 → Type 0
M S A = S → (String ⊎ A) × S

pub record Ops (S : Type 0) : Type 0 where
  pub now : S → ℕ
  pub ticks : (timeout interval : ℕ) → S → Ticks
  pub start_time : ℕ
  pub poll_interval : ℕ
  pub sleep : ℕ → S → S
  pub ends_within : ℕ → S → Bool
  pub container_health : String → M S HealthStatus
  pub restart_count : String → M S ℕ
  pub worker_health : M S ℕ
  pub api_health : M S ℕ
  pub resolve_all_active_events : M S Done
  pub active_healing_events : M S (List HealingEvent)
  pub healing_events_since : ℕ → M S (List HealingEvent)
  pub heartbeat_age : M S ℕ
  pub task_status : String → M S Status
  pub tasks_in_status_since : Status → ℕ → M S ℕ
  pub queue_depth : M S ℕ
  pub dlq_depth : M S ℕ
  pub purge_queue : M S Done
  pub purge_dlq : M S Done
  pub fail_stuck_tasks : String → M S ℕ
  pub fail_abandoned_tasks : String → M S ℕ
  pub delete_stale_heartbeats : ℕ → M S ℕ
  pub submit_task : String → M S String
  pub set_chaos_config : ℕ → M S Done
  pub reset_chaos_config : M S Done
  pub disable_restart : String → M S Done
  pub enable_restart : String → M S Done
  pub kill : String → M S Done
  pub stop : String → M S Done
  pub start : String → M S Done
  pub pause : String → M S Done
  pub unpause : String → M S Done
  pub is_paused : String → M S Bool
  pub wait_for_healthy : String → ℕ → M S Done

abbrev pub seconds : ℕ → ℕ
seconds n = n * 1000000

-- `if err != nil { return ... }`, and going on with an error that is only logged.
abbrev pub bind :
    {S A B : Type 0} → String → (String ⊎ A) × S → (A → S → (String ⊎ B) × S) → (String ⊎ B) × S
bind label (inl e, s) k = (inl (text_append label e), s)
bind label (inr a, s) k = k a s

abbrev pub skip : {A S : Type 0} → A × S → S
skip r = r.1

abbrev pub answer_or : {A : Type 0} → A → String ⊎ A → A
answer_or a (inl e) = a
answer_or a (inr b) = b

abbrev pub mapped : {S A B : Type 0} → (A → B) → (String ⊎ A) × S → (String ⊎ B) × S
mapped f (inl e, s) = (inl e, s)
mapped f (inr a, s) = (inr (f a), s)

abbrev pub error_of : {S : Type 0} → (String ⊎ Done) × S → Option String × S
error_of (inl e, s) = (some e, s)
error_of (inr _, s) = (none, s)

abbrev pub is_done : String ⊎ Done → Bool
is_done (inl e) = false
is_done (inr _) = true

-- The chain as a monad; `labelled` is fmt.Errorf("...: %w", err), `tried` a call whose error is looked at.
abbrev pub chain : {S A B : Type 0} → (String ⊎ A) × S → (A → M S B) → (String ⊎ B) × S
chain (inl e, s) f = (inl e, s)
chain (inr a, s) f = f a s

infixl 5 ◌>>=◌ ◌>>◌
abbrev pub ◌>>=◌ : {S A B : Type 0} → M S A → (A → M S B) → M S B
◌>>=◌ m f s = chain (m s) f

abbrev pub ◌>>◌ : {S A B : Type 0} → M S A → M S B → M S B
m >> k = m >>= λ _. k

abbrev pub give : {S A : Type 0} → A → M S A
give a s = (inr a, s)

abbrev pub throw : {S A : Type 0} → String → M S A
throw e s = (inl e, s)

abbrev pub with_label : {S A : Type 0} → String → (String ⊎ A) × S → (String ⊎ A) × S
with_label label (inl e, s) = (inl (text_append label e), s)
with_label label (inr a, s) = (inr a, s)

abbrev pub labelled : {S A : Type 0} → String → M S A → M S A
labelled label m s = with_label label (m s)

abbrev pub tried : {S A : Type 0} → M S A → M S (String ⊎ A)
tried m s = (inr (m s).0, (m s).1)

abbrev pub with_default : {S A : Type 0} → A → M S A → M S A
with_default a m s = (inr (answer_or a (m s).0), (m s).1)

abbrev pub read : {S A : Type 0} → (S → A) → M S A
read f s = (inr (f s), s)

abbrev pub sleeping : {S : Type 0} → (S → S) → M S Done
sleeping f s = (inr done, f s)

-- A test of a stage: an error unless it holds.
abbrev pub require : {S : Type 0} → Bool → String → M S Done
require true e = give done
require false e = throw e
