-- ===== src/Chaos/Runner.antt =====
-- cmd/chaos/internal/chaos/runner.go: a scenario goes through its stages. A scenario is what scenario.go
-- asks of it, over any type of states of the world; a stage returns an error, or nothing.
use Prim.Native.String.{◌++◌ as text_append}
use trace_runtime.Prelude.{
  ℕ, ◌+◌, ◌-◌, ◌/◌, String, Bool, true, false, ◌||◌, ◌⊎◌, inl, inr, not, is_some, Option, none,
  some, List, [], ◌∷◌, ◌++◌, leb, if◌then◌else◌,
}
use trace_runtime.Chaos.Reports.{
  Value, fail, StageResult, Stages, ScenarioReport, new_scenario_report, compute_status,
}

-- A context with a time limit.
pub record Context : Type 0 where
  pub deadline : ℕ

pub record Observed : Type 0 where
  pub metrics : List (String × Value)

pub record Scenario (S : Type 0) : Type 0 where
  pub name : String
  pub timeout : ℕ
  pub setup : Context → S → Option String × S
  pub inject : Context → S → Option String × S
  pub observe : Context → S → (String ⊎ Option Observed) × S
  pub validate : Context → Observed → S → (String ⊎ Option ScenarioReport) × S
  pub cleanup : Context → S → Option String × S

-- The clock, SIGINT and the output directory. An error of WriteReport is only logged.
pub record World (S : Type 0) : Type 1 where
  pub now : S → ℕ
  pub interrupted : S → Bool
  pub write_report : ScenarioReport → S → S

-- context.WithTimeout
abbrev pub with_timeout : Context → ℕ → ℕ → Context
with_timeout parent now timeout = record {
  deadline = if leb parent.deadline (now + timeout) then parent.deadline else now + timeout;
}

module _ {S : Type 0} (w : World S) where
  -- ctx.Err() != nil
  unfoldable pub expired : Context → S → Bool
  expired ctx s = w.interrupted s || leb ctx.deadline (w.now s)

  abbrev stage_status : Bool → String
  stage_status true = "ok"
  stage_status false = "error"

  abbrev pub staged : ℕ → Bool → S → StageResult
  staged start good s = record {
    duration_ms = (w.now s - start) / 1000;
    status = stage_status good;
  }

  abbrev set_stages : (Stages → Stages) → ScenarioReport → ScenarioReport
  set_stages f r = record r { stages = f r.stages }

  abbrev pub abort : String → String → ScenarioReport → ScenarioReport
  abort stage message r = record r {
    status = fail;
    error = text_append stage (text_append ": " message);
  }

  abbrev adopt : ScenarioReport → ScenarioReport → ScenarioReport
  adopt validated r = record r {
    slo_results = validated.slo_results;
    metrics = validated.metrics;
    warnings = validated.warnings;
    status = compute_status validated.slo_results;
  }

  abbrev mark_setup : StageResult → ScenarioReport → ScenarioReport
  mark_setup result = set_stages (λ t. record t { setup = result })

  abbrev mark_inject : StageResult → ScenarioReport → ScenarioReport
  mark_inject result = set_stages (λ t. record t { inject = result })

  abbrev mark_observe : StageResult → ScenarioReport → ScenarioReport
  mark_observe result = set_stages (λ t. record t { observe = result })

  abbrev mark_validate : StageResult → ScenarioReport → ScenarioReport
  mark_validate result = set_stages (λ t. record t { validate = result })

  abbrev warned : Option String → List String → List String
  warned none warnings = warnings
  warned (some message) warnings = warnings ++ text_append "cleanup error: " message ∷ []

  module _ (sc : Scenario S) (ctx : Context) (began : ℕ) where
    abbrev close : Option String × S → ℕ → ScenarioReport → ScenarioReport × S
    close (e, s) start r =
        let report = record r {
          stages = record r.stages { cleanup = staged start (not (is_some e)) s };
          warnings = warned e r.warnings;
          duration = w.now s - began;
        } in
        (report, w.write_report report s)

    unfoldable pub finish : ScenarioReport → S → ScenarioReport × S
    finish r s = close (sc.cleanup ctx s) (w.now s) r

    unfoldable pub after_validate :
        ℕ → (String ⊎ Option ScenarioReport) × S → ScenarioReport → ScenarioReport × S
    unfolding finish
    after_validate start (inl message, s) r =
        finish (abort "validate" message (mark_validate (staged start false s) r)) s
    after_validate start (inr none, s) r = finish (mark_validate (staged start true s) r) s
    after_validate start (inr (some validated), s) r =
        finish (adopt validated (mark_validate (staged start true s) r)) s

    unfoldable pub after_observe :
        ℕ → (String ⊎ Option Observed) × S → ScenarioReport → ScenarioReport × S
    unfolding finish after_validate
    after_observe start (inl message, s) r =
        finish (abort "observe" message (mark_observe (staged start false s) r)) s
    after_observe start (inr none, s) r = finish (mark_observe (staged start true s) r) s
    after_observe start (inr (some observed), s) r =
        after_validate (w.now s) (sc.validate ctx observed s) (mark_observe (staged start true s) r)

    unfoldable pub after_inject : ℕ → Option String × S → ScenarioReport → ScenarioReport × S
    unfolding finish after_observe
    after_inject start (some message, s) r =
        finish (abort "inject" message (mark_inject (staged start false s) r)) s
    after_inject start (none, s) r =
        after_observe (w.now s) (sc.observe ctx s) (mark_inject (staged start true s) r)

    unfoldable pub after_setup : ℕ → Option String × S → ScenarioReport → ScenarioReport × S
    unfolding finish after_inject
    after_setup start (some message, s) r =
        finish (abort "setup" message (mark_setup (staged start false s) r)) s
    after_setup start (none, s) r =
        after_inject (w.now s) (sc.inject ctx s) (mark_setup (staged start true s) r)

  unfoldable pub run_scenario : Context → Scenario S → S → ScenarioReport × S
  unfolding after_setup
  run_scenario global sc s =
      let ctx = with_timeout global (w.now s) sc.timeout in
      after_setup sc ctx (w.now s) (w.now s) (sc.setup ctx s) (new_scenario_report sc.name)
