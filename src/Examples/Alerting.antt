-- ===== src/Examples/Alerting.antt =====
-- Alerts and chaos requests.
use Prim.Native.String.{◌++◌ as text_append}
use trace_runtime.Prelude.{ℕ, String, ◌≡◌, refl, true, none, some, [], ◌∷◌, map, arith, leb, select}
use trace_runtime.Prelude.Assoc.{get, remove}
use trace_runtime.Healing.{active, HealingEvent, Table}
use trace_runtime.Chaos.{Runs, to_running}
use trace_runtime.Chaos.Runner.{World, expired, run_scenario}
use trace_runtime.Chaos.Suites.{link, filter_scenarios, run_all, run_suite}
use trace_runtime.Chaos.Recorded.{find_run}
use trace_runtime.Alerts.{AlertListParams, alert, shown, insert, newest_first, list_alerts}
use trace_runtime.Alerts.Pages.{read_pages, fetch, listing, read_pages_complete}
use trace_runtime.Alerts.Hidden.{outside, interrupted-hides}
use trace_runtime.Examples.Suites.{clock, probe, config, steady, queued_run}
use trace_runtime.ChaosApi.Ids.{is_valid_report_id}
use trace_runtime.ChaosApi.{
  File, Directory, Disk, SuiteFile, ChaosRequest, Env, TriggerRequest, accepted, CancelReply,
  trigger, cancel,
}
use trace_runtime.ChaosApi.Status.{
  StatusReply, waiting, queued, plain, judged, suite_name, reply_for, reported, scan, status,
}
use trace_runtime.ChaosApi.Reports.{deleted, delete_report}
use trace_runtime.ChaosApi.Lifecycle.{queue_with, trigger-cancel}
use trace_runtime.ChaosApi.Requeued.{left, deleted-queued}

-- SIGINT after two seconds.
abbrev interrupted : World ℕ
interrupted = record clock { interrupted = leb 2000000 }

abbrev event : String → ℕ → HealingEvent
event id at = record {
  id = id;
  event_type = "queue.lag";
  severity = "warning";
  source = "watchdog";
  status = active;
  worker_id = "";
  details = record { worker_id = none; task_id = none };
  created_at = at;
  resolved_at = none;
  chaos_run_id = none;
}

abbrev anything : AlertListParams
anything = record { status = "all"; severity = ""; event_type = ""; limit = 1; cursor = none }

-- An event before the run and one during it.
abbrev mixed : Table
mixed = event "e" 4000000 ∷ event "d" 3 ∷ []

abbrev runs_left : Runs
runs_left = (run_suite interrupted steady config "7" (probe ∷ []) (queued_run ∷ []) 5).1.0

interrupted-hides_example :
    (find_run "7" runs_left ≡ some (to_running 5 queued_run))
    × (list_alerts runs_left 5000000 anything mixed
        ≡ list_alerts runs_left 5000000 anything (select (outside 5 5000000) mixed))
interrupted-hides_example =
    interrupted-hides interrupted steady config "7" (probe ∷ []) (queued_run ∷ []) 5 probe []
      queued_run (unfold filter_scenarios in refl) (unfold find_run in refl) refl
      (unfold link in refl) (unfold run_all run_scenario expired in refl) 5000000 anything mixed
      runs_left refl

read_pages_complete_example :
    read_pages (fetch [] 9 anything (event "a" 3 ∷ event "b" 5 ∷ [])) 3 none
    ≡ map (alert 9) (listing [] 9 anything (event "a" 3 ∷ event "b" 5 ∷ []))
read_pages_complete_example =
    read_pages_complete [] 9 anything (event "a" 3 ∷ event "b" 5 ∷ []) 3
      (((λ e. ground (arith, e)), tt), (tt, tt)) (unfold newest_first shown insert in omega arith)

abbrev suite : SuiteFile
suite = record {
  run_id = "chaos-all-1";
  timestamp = "t";
  duration = 5;
  summary = record { total = 1; passed = 1; warned = 0; failed = 0 };
  scenarios = "queue flood" ∷ [];
}

-- Encodings that are enough for requests of one time.
abbrev machine : Env
machine = record {
  stamp = λ _. "1";
  rfc3339 = λ _. "t";
  parse_time = λ _. some 1;
  parse_suite = λ _. some suite;
  parse_request = λ s. some (record {
    run_id = text_append "chaos-" (text_append s "-1");
    scenario = s;
    timeout = 300;
    queued_at = "t";
  });
  print_request = λ r. r.scenario;
  slug = λ s. s;
  reads = λ _. true;
  writes = true;
  removes = λ _. true;
}

abbrev crash : TriggerRequest
crash = record { scenario = "worker-crash"; timeout = 0 }

abbrev crash_id : String
crash_id = "chaos-worker-crash-1"

abbrev empty_disk : Disk
empty_disk = record { results = []; requests = some [] }

trigger-cancel_example :
    (status machine 1 crash_id empty_disk ≡ StatusReply.refused 404 "run not found")
    × (trigger machine 1 (some crash) empty_disk ≡ (
      accepted crash_id "worker-crash" "make chaos SCENARIO=worker-crash"
          (text_append "/api/chaos/status?run_id=" crash_id),
      queue_with [] [] machine 1 crash,
    ))
    × (status machine 2 crash_id (queue_with [] [] machine 1 crash)
        ≡ waiting crash_id queued "worker-crash" "make chaos SCENARIO=worker-crash" "t")
    × (cancel machine crash_id (queue_with [] [] machine 1 crash)
        ≡ (CancelReply.cancelled crash_id, empty_disk))
trigger-cancel_example =
    trigger-cancel machine [] [] 1 2 crash refl refl refl refl refl
      (unfold is_valid_report_id in refl) (unfold get in refl) (unfold reported get in refl)

abbrev report_file : File
report_file = record { modified = 8; body = "{}" }

abbrev request : File
request = record { modified = 1; body = "all" }

abbrev all_request : ChaosRequest
all_request = record { run_id = "chaos-all-1"; scenario = "all"; timeout = 300; queued_at = "t" }

abbrev reports : Directory
reports = ("chaos-suite-chaos-all-1", report_file) ∷ []

abbrev requests : Directory
requests = ("chaos-all-1", request) ∷ []

deleted-queued_example :
    (status machine 9 "chaos-all-1" (record { results = reports; requests = some requests })
      ≡ reply_for "chaos-all-1" all_request (judged (suite_name "chaos-all-1") suite))
    × (delete_report machine
          (suite_name "chaos-all-1")
          (record { results = reports; requests = some requests })
        ≡ (
          deleted
              (suite_name "chaos-all-1")
              (left machine (suite_name "chaos-all-1") report_file reports).0,
          record {
            results = (left machine (suite_name "chaos-all-1") report_file reports).1;
            requests = some requests;
          },
        ))
    × (status machine 9 "chaos-all-1" (record {
      results = (left machine (suite_name "chaos-all-1") report_file reports).1;
      requests = some requests;
    })
        ≡ reply_for "chaos-all-1" all_request (plain queued))
deleted-queued_example =
    deleted-queued machine reports requests 9 "chaos-all-1" report_file request suite all_request
      refl (unfold is_valid_report_id in refl) (unfold is_valid_report_id in refl) refl refl
      (unfold get in refl) refl (unfold get in refl) refl (unfold scan remove in refl)
