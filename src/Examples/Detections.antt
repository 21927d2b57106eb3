-- ===== src/Examples/Detections.antt =====
-- Runs of the watchdog.
use Prim.Native.String.{count, ◌++◌ as text_append}
use text.Mathlib.TextLemmas.{length-append}
use trace_runtime.Prelude.{
  ℕ, zero, suc, ◌<◌, String, ◌≡◌, refl, sym, ap, ◌∙◌, true, false, none, some, List, [], ◌∷◌, ◌==◌,
  Option, leb, ◌≤◌, if◌then◌else◌, arith, eq_iff, ltb, contains, Bool-cases, inl, inr,
}
use trace_runtime.Prelude.Assoc.{get, put, retain}
use trace_runtime.Tasks.{up}
use trace_runtime.Healing.{active, HealingEvent, find, insert_healing_event, insert, list_active}
use trace_runtime.Detector.{
  Reply, State, Config, exists, emit, resolve, close, resolve_all, keys_where,
}
use trace_runtime.Detector.Keys.{
  key_eq, worker_stale, queue_lag, task_stuck, task_abandoned, dlq_nonempty, key_for_event,
}
use trace_runtime.Detector.Polls.{
  Heartbeat, TaskRef, stale_ids, task_ids, detect_stale_workers, detect_stuck_tasks,
  detect_abandoned_tasks, detect_queue_lag, detect_dlq, Answers, attribute, unavailable, no_details,
  get_queue_depth, reconcile, poll, report_stale, detect_worker_down, raise_once, report_abandoned,
}
use trace_runtime.Detector.Writes.{Working, Fresh}
use trace_runtime.Detector.Duplicates.{Sound}
use trace_runtime.Detector.Soundness.{polls, no_duplicates}
use trace_runtime.Detector.Sync.{detections_synced}
use trace_runtime.Detector.Health.{checks}
use trace_runtime.Detector.Startup.{load, valid, settings, config_of, load-InStep}
use trace_runtime.Prelude.Int.{ℤ, pos}
use text.Mathlib.Text.{starts_with}
use trace_runtime.Detector.Keys.{worker_down}

unfoldable pub name : ℕ → String
name zero = "e"
name (suc n) = text_append "e" (name n)

count-name : (n : ℕ) → count (name n) ≡ suc n
unfolding name
count-name zero = refl
count-name (suc n) = omega (arith, length-append "e" (name n), count-name n)

pub name-apart : (m n : ℕ) → m < n → (name m == name n) ≡ false
name-apart m n h = elim (Bool-cases (name m == name n)) [
  | inl e ↦ absurd (
      omega
        (arith, h, sym (count-name m) ∙ ap count ((eq_iff (name m) (name n)).0 e) ∙ count-name n))
  | inr e ↦ e
]

abbrev pub replies : ℕ → Reply
replies n = record { link = up; now = n; new_id = name n }

pub replies-Working : Working replies
replies-Working = record { linked = λ n. refl; apart = name-apart }

abbrev pub config : Config
config = record { heartbeat_stale_seconds = 30; healthcheck_failures = 3; queue_lag_threshold = 10 }

abbrev idle : State
idle = record { active = []; health_failures = 0; events = []; published = []; writes = 0 }

idle-Fresh : Fresh replies idle
unfolding find
idle-Fresh n h = refl

idle-Sound : Sound replies idle
unfolding find
idle-Sound = record {
  tracked = λ id ev k h. absurd (ground arith);
  distinct = tt;
  fresh = idle-Fresh;
}

abbrev beats : List Heartbeat
beats =
    record { worker_id = "w1"; last_seen_at = 0 }
    ∷ record { worker_id = "w2"; last_seen_at = 99000000 }
    ∷ []

abbrev found_tasks : List TaskRef
found_tasks =
    record { task_id = "t1"; chaos_run_id = none }
    ∷ record { task_id = "w1"; chaos_run_id = some "run" }
    ∷ []

detections_synced_example :
    (exists (worker_stale "w1") (detect_stale_workers replies config 100000000 (some beats) idle)
      ≡ contains (stale_ids config 100000000 beats) "w1")
    × (exists (task_stuck "w1") (detect_stuck_tasks replies (some found_tasks) idle)
        ≡ contains (task_ids found_tasks) "w1")
    × (exists (task_abandoned "w1") (detect_abandoned_tasks replies (some found_tasks) idle)
        ≡ contains (task_ids found_tasks) "w1")
    × (exists queue_lag (detect_queue_lag replies config (some 11) idle) ≡ ltb 10 11)
    × (exists dlq_nonempty (detect_dlq replies (some 11) idle) ≡ ltb 0 11)
detections_synced_example =
    detections_synced replies replies-Working config 100000000 beats found_tasks 11 idle "w1"
      idle-Fresh

abbrev answers : Answers
answers = record {
  now = 100000000;
  listed = true;
  heartbeats = some [];
  health = some 200;
  queue = attribute (some (some 20));
  stuck = none;
  abandoned = some [];
  dlq = unavailable;
}

-- The row that two polls leave.
abbrev pub lag_row : HealingEvent
lag_row = record {
  id = name 0;
  event_type = "queue.lag";
  severity = "warning";
  source = "watchdog";
  status = active;
  worker_id = "";
  details = no_details;
  created_at = 0;
  resolved_at = none;
  chaos_run_id = none;
}

lag_found : find (name 0) (polls replies config (answers ∷ answers ∷ []) idle).events ≡ some lag_row
unfolding polls poll reconcile list_active detect_stale_workers report_stale keys_where resolve_all
    detect_worker_down resolve close detect_queue_lag get_queue_depth raise_once emit
    insert_healing_event insert detect_stuck_tasks detect_abandoned_tasks report_abandoned
    detect_dlq find get put retain name
lag_found = refl

pub lag_key : key_for_event lag_row ≡ some queue_lag
unfolding key_for_event
lag_key = refl

no_duplicates_example : name 0 ≡ name 0
no_duplicates_example =
    no_duplicates replies replies-Working config (answers ∷ answers ∷ []) idle (name 0) (name 0)
      lag_row lag_row queue_lag idle-Sound lag_found lag_found refl refl lag_key lag_key

-- An environment with one number set.
abbrev getenv : String → String
getenv name =
    if name == "WATCHDOG_HEALTHCHECK_FAILURES"
    then "2"
    else if starts_with name "WATCHDOG_"
    then ""
    else "x"

abbrev atoi : String → Option ℤ
atoi text = if text == "2" then some (pos 2) else none

load-InStep_example :
    (1 ≤ 2)
    × (exists worker_down
          (checks replies (config_of (settings getenv atoi)) (some 200 ∷ none ∷ some 503 ∷ []) idle)
        ≡ leb 2 2)
    × ((checks replies
          (config_of (settings getenv atoi))
          (some 200 ∷ none ∷ some 503 ∷ [])
          idle).health_failures
        ≡ 2)
load-InStep_example =
    load-InStep getenv atoi (settings getenv atoi) replies replies-Working
      (some 200 ∷ none ∷ some 503 ∷ []) idle (unfold load valid in refl) refl (unfold get in refl)
      idle-Sound
