-- ===== src/ChaosApi/Reports.antt =====
-- ListReports, GetReport and DeleteReport of services/api/internal/handlers/chaos.go.
use Prim.Native.String.{◌++◌ as text_append}
use trace_runtime.Prelude.{
  ℕ, zero, suc, ◌+◌, ◌-◌, String, ◌&&◌, Option, none, some, List, [], ◌∷◌, ◌==◌, leb, if◌then◌else◌,
  string_eq,
}
use trace_runtime.Prelude.Assoc.{get, remove}
use trace_runtime.ChaosApi.Ids.{is_valid_report_id}
use trace_runtime.ChaosApi.{File, Directory, Disk, ReportSummary, SuiteFile, Env}
use trace_runtime.ChaosApi.Status.{glob, latest_first, read_suite}

pub record ReportEntry : Type 0 where
  pub id : String
  pub file : String
  pub timestamp : String
  pub duration : ℕ
  pub summary : ReportSummary
  pub scenarios : List String

abbrev at_most : ℕ → Directory → Directory
at_most zero d = []
at_most (suc n) [] = []
at_most (suc n) (f ∷ d) = f ∷ at_most n d

abbrev with_entry : String → Option SuiteFile → List ReportEntry → List ReportEntry
with_entry name none entries = entries
with_entry name (some suite) entries =
    record {
      id = name;
      file = text_append name ".json";
      timestamp = suite.timestamp;
      duration = suite.duration;
      summary = suite.summary;
      scenarios = suite.scenarios;
    }
    ∷ entries

abbrev entries : Env → Directory → List ReportEntry
entries env [] = []
entries env ((name, f) ∷ d) = with_entry name (read_suite env name (some f)) (entries env d)

unfoldable pub list_reports : Env → Disk → List ReportEntry
unfolding latest_first
list_reports env disk = entries env (at_most 50 (latest_first (glob "chaos-suite-" disk.results)))

pub data GetReply : Type 0 where
  refused : ℕ → String → GetReply
  report : String → GetReply

unfoldable pub get_report : Env → String → Disk → GetReply
unfolding is_valid_report_id
get_report env id disk =
    if is_valid_report_id id
    then elim (get disk.results id) [
      | none ↦ refused 404 "report not found"
      | some f ↦ if env.reads id then report f.body else refused 500 "failed to read report"
    ]
    else refused 400 "invalid report id"

pub data DeleteReply : Type 0 where
  refused : ℕ → String → DeleteReply
  deleted : (report_id : String) (files_removed : ℕ) → DeleteReply

abbrev distance : ℕ → ℕ → ℕ
distance a b = (a - b) + (b - a)

-- The files of one scenario's name that are at most an hour away from the suite's report; how many go.
abbrev pub remove_near : Env → ℕ → Directory → ℕ × Directory → ℕ × Directory
remove_near env at [] (n, d) = (n, d)
remove_near env at ((name, f) ∷ matches) (n, d) = remove_near env at matches (
    if leb (distance f.modified at) 3600000000 && env.removes name
    then (n + 1, remove d name)
    else (n, d))

abbrev pub remove_scenarios : Env → ℕ → List String → ℕ × Directory → ℕ × Directory
remove_scenarios env at [] (n, d) = (n, d)
remove_scenarios env at (s ∷ names) (n, d) = remove_scenarios env at names (
    if s == ""
    then (n, d)
    else remove_near env at (glob (text_append "chaos-" (text_append (env.slug s) "-")) d) (n, d))

abbrev pub scenarios_of : Option SuiteFile → List String
scenarios_of none = []
scenarios_of (some suite) = suite.scenarios

abbrev delete_file : Env → String → File → Disk → DeleteReply × Disk
delete_file env id f disk =
    let gone =
      remove_scenarios env f.modified (scenarios_of (env.parse_suite f.body))
        (1, remove disk.results id) in
    if env.reads id
    then if env.removes id
      then (deleted id gone.0, record disk { results = gone.1 })
      else (refused 500 "failed to delete report", disk)
    else (refused 500 "failed to read report", disk)

unfoldable pub delete_report : Env → String → Disk → DeleteReply × Disk
unfolding is_valid_report_id
delete_report env id disk =
    if is_valid_report_id id
    then elim (get disk.results id) [
      | none ↦ (refused 404 "report not found", disk)
      | some f ↦ delete_file env id f disk
    ]
    else (refused 400 "invalid report id", disk)
