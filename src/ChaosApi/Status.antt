-- ===== src/ChaosApi/Status.antt =====
-- Status, statusGlobal, statusByRunID and resolveRunStatus of services/api/internal/handlers/chaos.go.
-- Glob answers in the order of the directory's map, which Go sorts by name.
use Prim.Native.String.{◌++◌ as text_append}
use text.Mathlib.Text.{starts_with}
use mathlib.Core.List.{foldr}
use trace_runtime.Prelude.{
  ℕ, ◌+◌, String, Bool, true, false, ◌||◌, Option, none, some, [], ◌∷◌, ◌==◌, ltb, if◌then◌else◌,
  string_eq, ◌≡◌, refl,
}
use trace_runtime.Prelude.Assoc.{get}
use trace_runtime.ChaosApi.Ids.{is_valid_report_id}
use trace_runtime.ChaosApi.{
  File, Directory, Disk, ReportSummary, SuiteFile, ChaosRequest, Env, command_for, request_file,
}

-- filepath.Glob of a prefix, `*` and .json.
abbrev pub glob : String → Directory → Directory
glob pattern [] = []
glob pattern ((name, f) ∷ d) =
    if starts_with name pattern then (name, f) ∷ glob pattern d else glob pattern d

abbrev later : String × File → Directory → Directory
later e [] = e ∷ []
later e (f ∷ d) = if ltb e.1.modified f.1.modified then f ∷ later e d else e ∷ f ∷ d

-- sort.Slice by ModTime, the latest first.
unfoldable pub latest_first : Directory → Directory
latest_first = foldr later []

pub data RunState : Type 0 where
  idle queued running completed failed : RunState

pub record RunStatus : Type 0 where
  pub state : RunState
  pub summary : Option ReportSummary
  pub report_id : String

abbrev pub judged : String → SuiteFile → RunStatus
judged report_id suite = record {
  state = if ltb 0 suite.summary.failed then failed else completed;
  summary = some suite.summary;
  report_id = report_id;
}

abbrev pub suite_name : String → String
suite_name run_id = text_append "chaos-suite-" run_id

-- What os.ReadFile and json.Unmarshal make of a file; an error of either is `none`.
abbrev pub read_suite : Env → String → Option File → Option SuiteFile
read_suite env name none = none
read_suite env name (some f) = if env.reads name then env.parse_suite f.body else none

abbrev pub or_else : Option RunStatus → Option RunStatus → Option RunStatus
or_else none b = b
or_else (some a) b = some a

abbrev status_if : String → String → Option SuiteFile → Option RunStatus
status_if run_id name none = none
status_if run_id name (some suite) =
    if suite.run_id == run_id then some (judged name suite) else none

-- The second step: any suite's report that names the run.
unfoldable pub scan : Env → String → Directory → Option RunStatus
scan env run_id [] = none
scan env run_id ((name, f) ∷ d) =
    or_else (status_if run_id name (read_suite env name (some f))) (scan env run_id d)

abbrev pub direct : String → Option SuiteFile → Option RunStatus
direct run_id none = none
direct run_id (some suite) = some (judged (suite_name run_id) suite)

-- The first two steps.
unfoldable pub reported : Env → String → Disk → Option RunStatus
unfolding scan
reported env run_id disk =
    or_else
      (direct run_id (read_suite env (suite_name run_id) (get disk.results (suite_name run_id))))
      (scan env run_id (glob "chaos-suite-" disk.results))

abbrev pub plain : RunState → RunStatus
plain state = record { state = state; summary = none; report_id = "" }

abbrev by_request : Option File → RunStatus
by_request none = plain idle
by_request (some _) = plain queued

abbrev pub or_by_request : Option RunStatus → Option File → RunStatus
or_by_request (some status) f = status
or_by_request none f = by_request f

unfoldable pub resolve_run_status : Env → String → Disk → RunStatus
unfolding reported
resolve_run_status env run_id disk =
    or_by_request (reported env run_id disk) (request_file disk run_id)

pub data StatusReply : Type 0 where
  refused : ℕ → String → StatusReply
  nothing_queued : StatusReply
  finished :
      (run_id : String) (state : RunState) (scenario : String) (summary : Option ReportSummary)
      (report_url : String)
      → StatusReply
  waiting : (run_id : String) (state : RunState) (scenario command queued_at : String) → StatusReply

abbrev no_request : ChaosRequest
no_request = record { run_id = ""; scenario = ""; timeout = 0; queued_at = "" }

abbrev pub or_no_request : Option ChaosRequest → ChaosRequest
or_no_request none = no_request
or_no_request (some r) = r

abbrev pub read_request : Env → String → Option File → Option ChaosRequest
read_request env name none = none
read_request env name (some f) = if env.reads name then env.parse_request f.body else none

abbrev command_of : String → String
command_of scenario = if scenario == "" then "make chaos" else command_for scenario

abbrev pub reply_for : String → ChaosRequest → RunStatus → StatusReply
reply_for run_id req status = elim (status.state) [
  | completed ↦
      finished run_id completed req.scenario status.summary
        (text_append "/api/chaos/reports/" status.report_id)
  | failed ↦
      finished run_id failed req.scenario status.summary
        (text_append "/api/chaos/reports/" status.report_id)
  | queued ↦ waiting run_id queued req.scenario (command_of req.scenario) req.queued_at
  | _ ↦ refused 404 "run not found"
]

unfoldable pub status_by_run_id : Env → String → Disk → StatusReply
unfolding resolve_run_status
status_by_run_id env run_id disk =
    reply_for run_id (or_no_request (read_request env run_id (request_file disk run_id)))
      (resolve_run_status env run_id disk)

abbrev is_final : RunState → Bool
is_final completed = true
is_final failed = true
is_final _ = false

abbrev is_old : ℕ → Option ℕ → Bool
is_old now none = false
is_old now (some at) = ltb (at + 3600000000) now

abbrev queued_time : Env → String → Option ℕ
queued_time env text = if text == "" then none else env.parse_time text

-- Whether the loop passes over a request.
abbrev passed_over : Env → ℕ → Disk → ChaosRequest → Bool
passed_over env now disk req =
    req.run_id == ""
    || (is_old now (queued_time env req.queued_at)
        || is_final (resolve_run_status env req.run_id disk).state)

abbrev current : Env → ℕ → Disk → Option ChaosRequest → StatusReply → StatusReply
current env now disk none next = next
current env now disk (some req) next =
    if passed_over env now disk req
    then next
    else waiting req.run_id (resolve_run_status env req.run_id disk).state req.scenario
        (command_for req.scenario) req.queued_at

unfoldable pub first_pending : Env → ℕ → Disk → Directory → StatusReply
first_pending env now disk [] = nothing_queued
first_pending env now disk ((name, f) ∷ d) =
    current env now disk (read_request env name (some f)) (first_pending env now disk d)

abbrev pending_files : Option Directory → Directory
pending_files none = []
pending_files (some d) = latest_first (glob "chaos-" d)

unfoldable pub status : Env → ℕ → String → Disk → StatusReply
unfolding is_valid_report_id status_by_run_id first_pending latest_first
status env now run_id disk =
    if run_id == ""
    then first_pending env now disk (pending_files disk.requests)
    else if is_valid_report_id run_id
    then status_by_run_id env run_id disk
    else refused 400 "invalid run_id"

pub resolve_run_status_lem :
    (env : Env) (run_id : String) (disk : Disk)
    → resolve_run_status env run_id disk
      ≡ or_by_request (reported env run_id disk) (request_file disk run_id)
unfolding resolve_run_status
resolve_run_status_lem env run_id disk = refl

-- The reports are not looked for among the requests.
pub reported-results :
    (env : Env) (run_id : String) (results : Directory) (q r : Option Directory)
    → reported env run_id (record { results = results; requests = q })
      ≡ reported env run_id (record { results = results; requests = r })
unfolding reported
reported-results env run_id results q r = refl

pub status-valid :
    (env : Env) (now : ℕ) (run_id : String) (disk : Disk)
    → (run_id == "") ≡ false
    → is_valid_report_id run_id ≡ true
    → status env now run_id disk
      ≡ reply_for run_id
          (or_no_request (read_request env run_id (request_file disk run_id)))
          (resolve_run_status env run_id disk)
unfolding status status_by_run_id
status-valid env now run_id disk n v = rw (n, v) refl

pub reported_lem :
    (env : Env) (run_id : String) (disk : Disk)
    → reported env run_id disk
      ≡ or_else
          (direct run_id
            (read_suite env (suite_name run_id) (get disk.results (suite_name run_id))))
          (scan env run_id (glob "chaos-suite-" disk.results))
unfolding reported
reported_lem env run_id disk = refl
