-- ===== src/Detector/Startup.antt =====
-- services/watchdog/internal/config/config.go: what the watchdog starts with. The environment is given as a function, where
-- a name that is not set has the empty text, and so is strconv.Atoi.
use trace_runtime.Prelude.{
  ◌≡◌, refl, subst, ℕ, ◌≤◌, String, Bool, true, false, not, ◌&&◌, Option, none, some, List, [], ◌∷◌,
  ◌==◌, leb, leb→le, if◌then◌else◌, arith,
}
use trace_runtime.Prelude.Int.{ℤ, pos, negsuc}
use trace_runtime.Detector.{Config, Reply, State, exists}
use trace_runtime.Detector.Keys.{worker_down}
use trace_runtime.Detector.Duplicates.{Sound}
use trace_runtime.Detector.Writes.{Working}
use trace_runtime.Detector.Health.{trailing, checks, InStep, checks-InStep}

pub record Settings : Type 0 where
  pub database_url : String
  pub worker_health_url : String
  pub api_events_url : String
  pub internal_token : String
  pub sqs_queue_url : String
  pub sqs_dlq_url : String
  pub poll_interval_seconds : ℤ
  pub heartbeat_stale_seconds : ℤ
  pub healthcheck_interval_seconds : ℤ
  pub healthcheck_failures : ℤ
  pub queue_lag_threshold : ℤ
  pub task_stuck_seconds : ℤ
  pub task_abandoned_seconds : ℤ
  pub dlq_delta_threshold : ℤ

abbrev at_least : ℕ → ℤ → Bool
at_least n (pos m) = leb n m
at_least n (negsuc m) = false

-- The checks of the numbers. All of them are made, so that each failure is logged.
unfoldable pub valid : Settings → Bool
valid cfg =
    at_least 5 cfg.poll_interval_seconds
    && at_least 10 cfg.heartbeat_stale_seconds
    && at_least 5 cfg.healthcheck_interval_seconds
    && at_least 1 cfg.healthcheck_failures
    && at_least 1 cfg.queue_lag_threshold
    && at_least 30 cfg.task_stuck_seconds
    && at_least 30 cfg.task_abandoned_seconds
    && at_least 1 cfg.dlq_delta_threshold

module _ (getenv : String → String) (atoi : String → Option ℤ) where
  abbrev or_default : ℤ → Option ℤ → ℤ
  or_default def none = def
  or_default def (some n) = n

  abbrev env_int : String → ℕ → ℤ
  env_int key def = if getenv key == "" then pos def else or_default (pos def) (atoi (getenv key))

  -- mustEnv ends the process where a name is not set.
  abbrev all_set : List String → Bool
  all_set [] = true
  all_set (key ∷ keys) = not (getenv key == "") && all_set keys

  abbrev pub settings : Settings
  settings = record {
    database_url = getenv "DATABASE_URL";
    worker_health_url = getenv "WORKER_HEALTH_URL";
    api_events_url = getenv "API_EVENTS_URL";
    internal_token = getenv "INTERNAL_TOKEN";
    sqs_queue_url = getenv "SQS_QUEUE_URL";
    sqs_dlq_url = getenv "SQS_DLQ_URL";
    poll_interval_seconds = env_int "WATCHDOG_POLL_INTERVAL_SECONDS" 15;
    heartbeat_stale_seconds = env_int "WATCHDOG_HEARTBEAT_STALE_SECONDS" 60;
    healthcheck_interval_seconds = env_int "WATCHDOG_HEALTHCHECK_INTERVAL_SECONDS" 15;
    healthcheck_failures = env_int "WATCHDOG_HEALTHCHECK_FAILURES" 3;
    queue_lag_threshold = env_int "WATCHDOG_QUEUE_LAG_THRESHOLD" 50;
    task_stuck_seconds = env_int "WATCHDOG_TASK_STUCK_SECONDS" 300;
    task_abandoned_seconds = env_int "WATCHDOG_TASK_ABANDONED_SECONDS" 120;
    dlq_delta_threshold = env_int "WATCHDOG_DLQ_DELTA_THRESHOLD" 1;
  }

  abbrev required : List String
  required =
      "DATABASE_URL" ∷ "WORKER_HEALTH_URL" ∷ "API_EVENTS_URL" ∷ "SQS_QUEUE_URL" ∷ "SQS_DLQ_URL" ∷ []

  -- `none` where the process ends.
  unfoldable pub load : Option Settings
  unfolding valid
  load = if all_set required && valid settings then some settings else none

if-some : (b : Bool) (x y : Settings) → (if b then some x else none) ≡ some y → (b ≡ true) × (x ≡ y)
if-some true x y h = (refl, cc h)
if-some false x y h = absurd (ground (arith, h))

abbrev to_ℕ : ℤ → ℕ
to_ℕ (pos n) = n
to_ℕ (negsuc n) = 0

-- What the detector reads of them.
abbrev pub config_of : Settings → Config
config_of cfg = record {
  heartbeat_stale_seconds = to_ℕ cfg.heartbeat_stale_seconds;
  healthcheck_failures = to_ℕ cfg.healthcheck_failures;
  queue_lag_threshold = to_ℕ cfg.queue_lag_threshold;
}

at_least-le : (n : ℕ) (z : ℤ) → at_least n z ≡ true → n ≤ to_ℕ z
at_least-le n (pos m) h = leb→le n m h
at_least-le n (negsuc m) h = absurd (ground (arith, h))

load-valid :
    (getenv : String → String) (atoi : String → Option ℤ) (cfg : Settings)
    → load getenv atoi ≡ some cfg
    → valid cfg ≡ true
unfolding load
load-valid getenv atoi cfg h =
    let (passed, same) = if-some _ (settings getenv atoi) cfg h in
    subst (λ c. valid c ≡ true) same (ground (arith, passed))

valid-threshold : (cfg : Settings) → valid cfg ≡ true → 1 ≤ (config_of cfg).healthcheck_failures
unfolding valid
valid-threshold cfg h = at_least-le 1 cfg.healthcheck_failures (ground (arith, h))

-- Given that the watchdog's configuration loads from the environment, that the writes are answered, that the new ids are new, and that no failure is counted and no worker.down is active at the start: after any history of health checks worker.down is active exactly if the failures at its end have reached the configured threshold, which is at least 1, and the counter is the number of these failures.
pub load-InStep :
    (getenv : String → String) (atoi : String → Option ℤ) (cfg : Settings) (replies : ℕ → Reply)
    (w : Working replies) (answers : List (Option ℕ)) (s : State)
    → load getenv atoi ≡ some cfg
    → s.health_failures ≡ 0
    → exists worker_down s ≡ false
    → Sound replies s
    → (1 ≤ (config_of cfg).healthcheck_failures)
      × (exists worker_down (checks replies (config_of cfg) answers s)
          ≡ leb (config_of cfg).healthcheck_failures (trailing 0 answers))
      × ((checks replies (config_of cfg) answers s).health_failures ≡ trailing 0 answers)
load-InStep getenv atoi cfg replies w answers s loaded none_failed quiet sound =
    let threshold = valid-threshold cfg (load-valid getenv atoi cfg loaded) in
    let start : InStep replies (config_of cfg) w threshold 0 s = record {
      failures = none_failed;
      down = ground (arith, quiet, threshold);
      sound = sound;
    } in
    let end = checks-InStep replies (config_of cfg) w threshold answers 0 s start in
    (threshold, end.down, end.failures)
