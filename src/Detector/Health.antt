-- ===== src/Detector/Health.antt =====
-- The health check of the worker: worker.down stands for a run of failures.
use trace_runtime.Prelude.{
  ℕ, ◌+◌, ◌≤◌, String, ◌≡◌, ◌∙◌, Option, none, List, [], ◌∷◌, if◌then◌else◌, arith, leb,
}
use trace_runtime.Healing.{Details}
use trace_runtime.Detector.Keys.{Key, worker_down, key_eq}
use trace_runtime.Detector.{Reply, State, Config, exists, emit, resolve, close}
use trace_runtime.Detector.Polls.{raise_once, detect_worker_down, healthy, no_details}
use trace_runtime.Detector.Duplicates.{Sound}
use trace_runtime.Detector.Soundness.{down-Sound}
use trace_runtime.Detector.Writes.{Working, emit-exists, resolve-get}

-- The failures at the end of a history of health checks, after `n` failures before it.
abbrev pub trailing : ℕ → List (Option ℕ) → ℕ
trailing n [] = n
trailing n (a ∷ as') = trailing (if healthy a then 0 else n + 1) as'

module _ (replies : ℕ → Reply) (cfg : Config) where
  unfoldable pub checks : List (Option ℕ) → State → State
  checks [] s = s
  checks (a ∷ as') s = checks as' (detect_worker_down replies cfg a s)

  emit-failures :
      (key : Key) (event_type severity worker_id : String) (details : Details) (run : Option String)
      (s : State)
      → (emit replies key event_type severity worker_id details run s).health_failures
        ≡ s.health_failures
  unfolding emit
  emit-failures key event_type severity worker_id details run s = ground arith

  resolve-failures :
      (key : Key) (s : State) → (resolve replies key s).health_failures ≡ s.health_failures
  unfolding resolve close
  resolve-failures key s = ground arith

  module _ (w : Working replies) (threshold : 1 ≤ cfg.healthcheck_failures) where
    -- The state after a history with `n` failures at its end.
    pub record InStep (n : ℕ) (s : State) : Type 0 where
      pub failures : s.health_failures ≡ n
      pub down : exists worker_down s ≡ leb cfg.healthcheck_failures n
      pub sound : Sound replies s

    check-failures :
        (a : Option ℕ) (s : State)
        → (detect_worker_down replies cfg a s).health_failures
          ≡ (if healthy a then 0 else s.health_failures + 1)
    unfolding detect_worker_down raise_once
    check-failures a s =
        let t = record s { health_failures = s.health_failures + 1 } in
        ground (
          arith,
          resolve-failures worker_down (record s { health_failures = 0 }),
          emit-failures worker_down "worker.down" "critical" "" no_details none t,
        )

    check-down :
        (a : Option ℕ) (n : ℕ) (s : State)
        → InStep n s
        → exists worker_down (detect_worker_down replies cfg a s)
          ≡ leb cfg.healthcheck_failures (if healthy a then 0 else n + 1)
    unfolding detect_worker_down raise_once
    check-down a n s h =
        let t = record s { health_failures = s.health_failures + 1 } in
        ground (
          arith,
          resolve-get replies worker_down worker_down (record s { health_failures = 0 }),
          emit-exists replies w worker_down "worker.down" "critical" "" no_details none t
              h.sound.fresh worker_down,
        )

    check-InStep :
        (a : Option ℕ) (n : ℕ) (s : State)
        → InStep n s
        → InStep (if healthy a then 0 else n + 1) (detect_worker_down replies cfg a s)
    check-InStep a n s h = record {
      failures = check-failures a s ∙ rw h.failures;
      down = check-down a n s h;
      sound = down-Sound replies w cfg a s h.sound;
    }

    -- Given that the writes are answered, that the new ids are new, that the threshold is positive and
    -- that map and counter agree at the start: after any history of health checks the map has
    -- worker.down exactly if the failures at the end of the history have reached the threshold, and
    -- the counter is the number of these failures.
    pub checks-InStep :
        (answers : List (Option ℕ)) (n : ℕ) (s : State)
        → InStep n s
        → InStep (trailing n answers) (checks answers s)
    unfolding checks
    checks-InStep [] n s h = h
    checks-InStep (a ∷ rest) n s h = checks-InStep rest _ _ (check-InStep a n s h)
