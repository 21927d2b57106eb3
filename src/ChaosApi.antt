-- ===== src/ChaosApi.antt =====
-- The chaos endpoints of the API, services/api/internal/handlers/chaos.go, over the two directories
-- that they share with the operator's machine. A directory is the map of its .json files, under their names
-- without the ending; os.Stat finds the files of the map. Go's time and JSON libraries are parameters.
pub mod Ids
pub mod Status
pub mod Reports
pub mod Lifecycle
pub mod Requeued
use Prim.Native.String.{◌++◌ as text_append}
use text.Mathlib.Text.{starts_with}
use trace_runtime.Prelude.{
  ℕ, ◌+◌, String, Bool, true, false, not, ◌&&◌, ◌||◌, Option, none, some, List, [], ◌∷◌, map,
  length, ◌==◌, ltb, leb, is_some, if◌then◌else◌, contains, string_eq,
}
use trace_runtime.Prelude.Assoc.{get, put, remove}
use trace_runtime.ChaosApi.Ids.{is_valid_report_id}

pub record File : Type 0 where
  pub modified : ℕ
  pub body : String

abbrev pub Directory : Type 0
Directory = List (String × File)

-- `requests` is empty if the directory is missing.
pub record Disk : Type 0 where
  pub results : Directory
  pub requests : Option Directory

pub record ReportSummary : Type 0 where
  pub total : ℕ
  pub passed : ℕ
  pub warned : ℕ
  pub failed : ℕ

-- What the handlers read of a suite's report.
pub record SuiteFile : Type 0 where
  pub run_id : String
  pub timestamp : String
  pub duration : ℕ
  pub summary : ReportSummary
  pub scenarios : List String

pub record ChaosRequest : Type 0 where
  pub run_id : String
  pub scenario : String
  pub timeout : ℕ
  pub queued_at : String

-- Go's libraries (the layouts of time, encoding/json, strings), and whether the file system does what it
-- is asked to: to read a file that is there, to write a request, to remove a file.
pub record Env : Type 0 where
  pub stamp : ℕ → String
  pub rfc3339 : ℕ → String
  pub parse_time : String → Option ℕ
  pub parse_suite : String → Option SuiteFile
  pub parse_request : String → Option ChaosRequest
  pub print_request : ChaosRequest → String
  pub slug : String → String
  pub reads : String → Bool
  pub writes : Bool
  pub removes : String → Bool

abbrev pub valid_scenarios : List String
valid_scenarios =
    "worker-crash" ∷ "runtime-hang" ∷ "ai-failure" ∷ "postgres-failure" ∷ "queue-flood"
    ∷ "slow-inference" ∷ "all" ∷ []

pub record TriggerRequest : Type 0 where
  pub scenario : String
  pub timeout : ℕ

pub data TriggerReply : Type 0 where
  refused : ℕ → String → TriggerReply
  accepted : (run_id scenario command poll_url : String) → TriggerReply

abbrev pub command_for : String → String
command_for scenario =
    if scenario == "all" then "make chaos" else text_append "make chaos SCENARIO=" scenario

abbrev pub run_id_of : Env → ℕ → String → String
run_id_of env now scenario =
    text_append "chaos-" (text_append scenario (text_append "-" (env.stamp now)))

abbrev pub request_of : Env → ℕ → TriggerRequest → ChaosRequest
request_of env now req = record {
  run_id = run_id_of env now req.scenario;
  scenario = req.scenario;
  timeout = if leb req.timeout 0 then 300 else req.timeout;
  queued_at = env.rfc3339 now;
}

abbrev queue_up : Env → ℕ → TriggerRequest → Disk → Directory → TriggerReply × Disk
queue_up env now req disk requests =
    let run_id = run_id_of env now req.scenario in
    if env.writes
    then (
      accepted run_id req.scenario (command_for req.scenario)
          (text_append "/api/chaos/status?run_id=" run_id),
      record disk {
        requests = some (
            put requests run_id
              (record { modified = now; body = env.print_request (request_of env now req) }));
      },
    )
    else (refused 500 "failed to queue scenario", disk)

-- A body that does not decode is `none`. A timeout below 0 is one of 0, which the code treats alike.
unfoldable pub trigger : Env → ℕ → Option TriggerRequest → Disk → TriggerReply × Disk
trigger env now none disk = (refused 400 "invalid request body", disk)
trigger env now (some req) disk =
    if contains valid_scenarios req.scenario
    then elim (disk.requests) [
      | none ↦ (refused 500 "chaos request directory unavailable", disk)
      | some requests ↦ queue_up env now req disk requests
    ]
    else (refused 400 "invalid scenario", disk)

pub data CancelReply : Type 0 where
  refused : ℕ → String → CancelReply
  cancelled : String → CancelReply

abbrev look : Option Directory → String → Option File
look none name = none
look (some d) name = get d name

abbrev without : Option Directory → String → Option Directory
without none name = none
without (some d) name = some (remove d name)

abbrev pub request_file : Disk → String → Option File
request_file disk name = look disk.requests name

unfoldable pub cancel : Env → String → Disk → CancelReply × Disk
unfolding is_valid_report_id
cancel env run_id disk =
    if is_valid_report_id run_id
    then elim (request_file disk run_id) [
      | none ↦ (CancelReply.refused 404 "request not found", disk)
      | some _ ↦
          if env.removes run_id
          then (
            CancelReply.cancelled run_id,
            record disk { requests = without disk.requests run_id },
          )
          else (CancelReply.refused 500 "failed to cancel", disk)
    ]
    else (CancelReply.refused 400 "invalid run_id", disk)
