-- ===== src/Chaos/Docker.antt =====
-- cmd/chaos/internal/chaos/docker/controller.go. The client of the Docker engine is a parameter: operations on any
-- type of worlds. The ticks of WaitForHealthy are those of Waits.
use Prim.Native.String.{◌++◌ as text_append}
use trace_runtime.Prelude.{
  ℕ, zero, suc, String, Bool, true, false, Option, none, some, ◌⊎◌, inl, inr, ◌==◌, if◌then◌else◌,
}
use trace_runtime.Prelude.Decimal.{decimal}
use trace_runtime.Chaos.Ops.{
  M, Done, done, Ops, HealthStatus, healthy, unhealthy, starting, unprobed, exited, labelled,
  seconds,
}

-- What the code reads of an inspected container; `health` is that of its health check, if it has one.
pub record ContainerInfo : Type 0 where
  pub running : Bool
  pub paused : Bool
  pub health : Option String
  pub restart_count : ℕ

pub data Inspected : Type 0 where
  info : ContainerInfo → Inspected
  not_found inspect_failed : String → Inspected

pub record Client (S : Type 0) : Type 0 where
  pub container_inspect : String → S → Inspected × S
  pub container_kill : (name signal : String) → M S Done
  pub container_stop : String → ℕ → M S Done
  pub container_start : String → M S Done
  pub container_pause : String → M S Done
  pub container_unpause : String → M S Done
  pub update_restart_policy : (name policy : String) → M S Done

pub record RetryPolicy : Type 0 where
  pub max_attempts : ℕ
  pub backoff : ℕ

abbrev is_info : Inspected → Bool
is_info (info _) = true
is_info _ = false

-- A container that is not there, not running or without a health check is no error.
abbrev pub health_of : Inspected → String ⊎ HealthStatus
health_of (not_found _) = inr exited
health_of (inspect_failed e) = inl e
health_of (info c) =
    if c.running
    then elim c.health [
      | none ↦ inr unprobed
      | some text ↦
          if text == "healthy"
          then inr healthy
          else if text == "unhealthy"
          then inr unhealthy
          else if text == "starting"
          then inr starting
          else inr unprobed
    ]
    else inr exited

abbrev read_info : {A : Type 0} → (ContainerInfo → A) → Inspected → String ⊎ A
read_info f (info c) = inr (f c)
read_info f (not_found e) = inl e
read_info f (inspect_failed e) = inl e

module _ {S : Type 0} (ops : Ops S) where
  abbrev attempted :
      ℕ → (String → S → (String ⊎ Done) × S) → (String ⊎ Done) × S → (String ⊎ Done) × S
  attempted backoff rest (inr _, s) = (inr done, s)
  attempted backoff rest (inl e, s) =
      if ops.ends_within backoff s then (inl "context ended", s) else rest e (ops.sleep backoff s)

  -- The loop, with the attempts that are left and the last error.
  unfoldable pub attempt : RetryPolicy → M S Done → ℕ → String → S → (String ⊎ Done) × S
  unfolding decimal
  attempt policy fn zero last s = (
    inl (
        text_append "after "
          (text_append (decimal policy.max_attempts) (text_append " retries: " last))),
    s,
  )
  attempt policy fn (suc n) last s =
      let rest = attempt policy fn n in attempted policy.backoff rest (fn s)

  unfoldable pub with_retry : RetryPolicy → M S Done → M S Done
  unfolding attempt
  with_retry policy fn s = attempt policy fn policy.max_attempts "" s

  module _ (client : Client S) (policy : RetryPolicy) (project : String) where
    abbrev container : String → String
    container service = text_append project (text_append "-" service)

    abbrev fallback : String → Inspected × S → String × S
    fallback service (answer, s) =
        (if is_info answer then container service else text_append (container service) "-1", s)

    abbrev primary : String → Inspected × S → String × S
    primary service (answer, s) =
        if is_info answer
        then (text_append (container service) "-1", s)
        else fallback service (client.container_inspect (container service) s)

    unfoldable pub resolve_container_name : String → S → String × S
    resolve_container_name service s =
        primary service (client.container_inspect (text_append (container service) "-1") s)

    abbrev on_container : {A : Type 0} → (String → M S A) → String → M S A
    on_container f service s =
        let resolved = resolve_container_name service s in f resolved.0 resolved.1

    unfoldable pub kill : String → M S Done
    unfolding with_retry resolve_container_name
    kill = on_container (λ name. with_retry policy (client.container_kill name "SIGKILL"))

    unfoldable pub stop : String → M S Done
    unfolding with_retry resolve_container_name
    stop = on_container (λ name. with_retry policy (client.container_stop name 10))

    unfoldable pub start : String → M S Done
    unfolding with_retry resolve_container_name
    start = on_container (λ name. with_retry policy (client.container_start name))

    unfoldable pub pause : String → M S Done
    unfolding with_retry resolve_container_name
    pause = on_container (λ name. with_retry policy (client.container_pause name))

    unfoldable pub unpause : String → M S Done
    unfolding with_retry resolve_container_name
    unpause = on_container (λ name. with_retry policy (client.container_unpause name))

    abbrev inspect_label : String → String
    inspect_label name = text_append "inspect " (text_append name ": ")

    abbrev inspected : {A : Type 0} → (Inspected → String ⊎ A) → String → M S A
    inspected f = on_container (λ name.
        labelled (inspect_label name)
          (λ s. let answer = client.container_inspect name s in (f answer.0, answer.1)))

    unfoldable pub is_paused : String → M S Bool
    unfolding resolve_container_name
    is_paused = inspected (read_info (λ c. c.paused))

    unfoldable pub health : String → M S HealthStatus
    unfolding resolve_container_name
    health = inspected health_of

    unfoldable pub restart_count : String → M S ℕ
    unfolding resolve_container_name
    restart_count = inspected (read_info (λ c. c.restart_count))

    abbrev set_policy : String → String → String → M S Done
    set_policy label policy_name = on_container (λ name.
        labelled (text_append label (text_append name ": "))
          (client.update_restart_policy name policy_name))

    unfoldable pub disable_restart : String → M S Done
    unfolding resolve_container_name
    disable_restart = set_policy "disable restart " "no"

    unfoldable pub enable_restart : String → M S Done
    unfolding resolve_container_name
    enable_restart = set_policy "enable restart " "unless-stopped"

    abbrev tick : (S → (String ⊎ Done) × S) → (String ⊎ HealthStatus) × S → (String ⊎ Done) × S
    tick rest (inr healthy, s) = (inr done, s)
    tick rest (_, s) = rest s

    -- The ticks up to the end of the time or of the context.
    unfoldable pub watch : String → String → Bool → ℕ → M S Done
    unfolding health
    watch name service context_ends zero s = (
      inl (
          if context_ends
          then "context ended"
          else text_append "timeout waiting for " (text_append name " to become healthy")),
      s,
    )
    watch name service context_ends (suc n) s =
        let rest = watch name service context_ends n in tick rest (health service s)

    unfoldable pub wait_for_healthy : String → ℕ → M S Done
    unfolding watch resolve_container_name
    wait_for_healthy service timeout s =
        let resolved = resolve_container_name service s in
        let ticks = ops.ticks timeout (seconds 2) resolved.1 in
        watch resolved.0 service ticks.context_ends ticks.count resolved.1

    -- The world of the scenarios, with Docker as the controller drives it.
    unfoldable pub with_docker : Ops S
    unfolding kill stop start pause unpause is_paused health restart_count disable_restart
        enable_restart wait_for_healthy
    with_docker = record ops {
      container_health = health;
      restart_count = restart_count;
      disable_restart = disable_restart;
      enable_restart = enable_restart;
      kill = kill;
      stop = stop;
      start = start;
      pause = pause;
      unpause = unpause;
      is_paused = is_paused;
      wait_for_healthy = wait_for_healthy;
    }
