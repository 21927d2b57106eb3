-- ===== src/Chaos/Reports.antt =====
-- cmd/chaos/internal/chaos/report.go: service level objectives, the verdict on a scenario, the summary of a
-- suite. A value of Go's type `any` is one of the values that the
-- scenarios put there; a number of seconds is in microseconds.
use trace_runtime.Prelude.{
  ℕ, ◌+◌, String, Bool, true, false, ◌&&◌, List, [], ◌∷◌, length, if◌then◌else◌,
}
use trace_runtime.Prelude.Int.{ℤ}
use trace_runtime.Chaos.{Tally}

pub data SloStatus : Type 0 where
  pass warn fail : SloStatus

pub data SloType : Type 0 where
  functional timing : SloType

pub data Value : Type 0 where
  flag : Bool → Value
  number : ℕ → Value
  text : String → Value
  texts : List String → Value
  int : ℤ → Value
  ints : List (String × ℤ) → Value
  flags : List (String × Bool) → Value

pub record SloResult : Type 0 where
  pub name : String
  pub kind : SloType
  pub expected : Value
  pub actual : Value
  pub status : SloStatus

pub record StageResult : Type 0 where
  pub duration_ms : ℕ
  pub status : String

pub record Stages : Type 0 where
  pub setup : StageResult
  pub inject : StageResult
  pub observe : StageResult
  pub validate : StageResult
  pub cleanup : StageResult

pub record ScenarioReport : Type 0 where
  pub name : String
  pub status : SloStatus
  pub duration : ℕ
  pub stages : Stages
  pub metrics : List (String × Value)
  pub slo_results : List SloResult
  pub warnings : List String
  pub error : String

abbrev not_run : StageResult
not_run = record { duration_ms = 0; status = "" }

abbrev pub new_scenario_report : String → ScenarioReport
new_scenario_report name = record {
  name = name;
  status = pass;
  duration = 0;
  stages = record {
    setup = not_run;
    inject = not_run;
    observe = not_run;
    validate = not_run;
    cleanup = not_run;
  };
  metrics = [];
  slo_results = [];
  warnings = [];
  error = "";
}

abbrev pub failed : SloResult → Bool
failed slo = elim (slo.status) [ fail ↦ true | _ ↦ false ]

abbrev pub is_functional : SloResult → Bool
is_functional slo = elim (slo.kind) [ functional ↦ true | timing ↦ false ]

abbrev pub any : (SloResult → Bool) → List SloResult → Bool
any p [] = false
any p (x ∷ xs) = if p x then true else any p xs

-- The two loops.
unfoldable pub compute_status : List SloResult → SloStatus
compute_status slos =
    if any (λ s. is_functional s && failed s) slos
    then fail
    else if any failed slos
    then warn
    else pass

abbrev pub tally_one : SloStatus → Tally → Tally
tally_one pass t = record t { passed = t.passed + 1 }
tally_one warn t = record t { warned = t.warned + 1 }
tally_one fail t = record t { failed = t.failed + 1 }

abbrev pub tally_all : List ScenarioReport → Tally → Tally
tally_all [] t = t
tally_all (r ∷ rs) t = tally_all rs (tally_one r.status t)

unfoldable pub compute_summary : List ScenarioReport → Tally
compute_summary reports =
    tally_all reports (record { total = length reports; passed = 0; warned = 0; failed = 0 })
