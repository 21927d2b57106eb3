-- ===== src/Chaos/Course.antt =====
-- The course of a scenario: which of its stages run, and the verdict that they lead to.
use trace_runtime.Prelude.{
  ℕ, String, ◌≡◌, refl, sym, subst, ◌⊎◌, inl, inr, Option, none, some, List, [], ◌∷◌, ◌++◌,
}
use trace_runtime.Chaos.Reports.{SloStatus, pass, fail, ScenarioReport, compute_status}
use trace_runtime.Chaos.Runner.{
  Context, Observed, Scenario, World, after_validate, after_observe, after_inject, after_setup,
  run_scenario, with_timeout,
}

pub data Stage : Type 0 where
  setup inject observe validate cleanup : Stage

-- A scenario that writes down each of its stages as it enters it.
module _ {S : Type 0} where
  abbrev log : {A : Type 0} → Stage → A × S → List Stage → A × (S × List Stage)
  log stage r stages = (r.0, (r.1, stages ++ stage ∷ []))

  abbrev pub traced : Scenario S → Scenario (S × List Stage)
  traced sc = record {
    name = sc.name;
    timeout = sc.timeout;
    setup = λ ctx s. log setup (sc.setup ctx s.0) s.1;
    inject = λ ctx s. log inject (sc.inject ctx s.0) s.1;
    observe = λ ctx s. log observe (sc.observe ctx s.0) s.1;
    validate = λ ctx o s. log validate (sc.validate ctx o s.0) s.1;
    cleanup = λ ctx s. log cleanup (sc.cleanup ctx s.0) s.1;
  }

  abbrev pub watched : World S → World (S × List Stage)
  watched w = record {
    now = λ s. w.now s.0;
    interrupted = λ s. w.interrupted s.0;
    write_report = λ r s. (w.write_report r s.0, s.1);
  }

-- The stages of a run and the status of its report, with the results of the stages that lead to them.
pub data Course {S : Type 0} (sc : Scenario S) (ctx : Context) (s : S)
    : List Stage → SloStatus → Type 0 where
  setup_failed :
      {m : String} {s1 : S}
      → sc.setup ctx s ≡ (some m, s1)
      → Course sc ctx s (setup ∷ cleanup ∷ []) fail
  inject_failed :
      {m : String} {s1 s2 : S}
      → sc.setup ctx s ≡ (none, s1)
      → sc.inject ctx s1 ≡ (some m, s2)
      → Course sc ctx s (setup ∷ inject ∷ cleanup ∷ []) fail
  observe_failed :
      {m : String} {s1 s2 s3 : S}
      → sc.setup ctx s ≡ (none, s1)
      → sc.inject ctx s1 ≡ (none, s2)
      → sc.observe ctx s2 ≡ (inl m, s3)
      → Course sc ctx s (setup ∷ inject ∷ observe ∷ cleanup ∷ []) fail
  unobserved :
      {s1 s2 s3 : S}
      → sc.setup ctx s ≡ (none, s1)
      → sc.inject ctx s1 ≡ (none, s2)
      → sc.observe ctx s2 ≡ (inr none, s3)
      → Course sc ctx s (setup ∷ inject ∷ observe ∷ cleanup ∷ []) pass
  validate_failed :
      {m : String} {o : Observed} {s1 s2 s3 s4 : S}
      → sc.setup ctx s ≡ (none, s1)
      → sc.inject ctx s1 ≡ (none, s2)
      → sc.observe ctx s2 ≡ (inr (some o), s3)
      → sc.validate ctx o s3 ≡ (inl m, s4)
      → Course sc ctx s (setup ∷ inject ∷ observe ∷ validate ∷ cleanup ∷ []) fail
  unjudged :
      {o : Observed} {s1 s2 s3 s4 : S}
      → sc.setup ctx s ≡ (none, s1)
      → sc.inject ctx s1 ≡ (none, s2)
      → sc.observe ctx s2 ≡ (inr (some o), s3)
      → sc.validate ctx o s3 ≡ (inr none, s4)
      → Course sc ctx s (setup ∷ inject ∷ observe ∷ validate ∷ cleanup ∷ []) pass
  judged :
      {o : Observed} {v : ScenarioReport} {s1 s2 s3 s4 : S}
      → sc.setup ctx s ≡ (none, s1)
      → sc.inject ctx s1 ≡ (none, s2)
      → sc.observe ctx s2 ≡ (inr (some o), s3)
      → sc.validate ctx o s3 ≡ (inr (some v), s4)
      → Course sc ctx s
          (setup ∷ inject ∷ observe ∷ validate ∷ cleanup ∷ [])
          (compute_status v.slo_results)

module _ {S : Type 0} (w : World S) (sc : Scenario S) (ctx : Context) (began : ℕ) (s : S) where
  abbrev Followed : ScenarioReport × (S × List Stage) → Type 0
  Followed out = Course sc ctx s (out.1).1 (out.0).status

  abbrev observed_stages : List Stage
  observed_stages = setup ∷ inject ∷ observe ∷ []

  after_validate-Followed :
      (start : ℕ) (p : (String ⊎ Option ScenarioReport) × S) (r : ScenarioReport) {o : Observed}
      {s1 s2 s3 : S}
      → r.status ≡ pass
      → sc.setup ctx s ≡ (none, s1)
      → sc.inject ctx s1 ≡ (none, s2)
      → sc.observe ctx s2 ≡ (inr (some o), s3)
      → sc.validate ctx o s3 ≡ p
      → Followed (
          after_validate (watched w) (traced sc) ctx began start (log validate p observed_stages) r)
  unfolding after_validate
  after_validate-Followed start (inl m, s4) r h a b c d = validate_failed a b c d
  after_validate-Followed start (inr none, s4) r h a b c d =
      subst (Course sc ctx s _) (sym h) (unjudged a b c d)
  after_validate-Followed start (inr (some v), s4) r h a b c d = judged a b c d

  after_observe-Followed :
      (start : ℕ) (p : (String ⊎ Option Observed) × S) (r : ScenarioReport) {s1 s2 : S}
      → r.status ≡ pass
      → sc.setup ctx s ≡ (none, s1)
      → sc.inject ctx s1 ≡ (none, s2)
      → sc.observe ctx s2 ≡ p
      → Followed (
          after_observe
            (watched w)
            (traced sc)
            ctx
            began
            start
            (log observe p (setup ∷ inject ∷ []))
            r)
  unfolding after_observe
  after_observe-Followed start (inl m, s3) r h a b c = observe_failed a b c
  after_observe-Followed start (inr none, s3) r h a b c =
      subst (Course sc ctx s _) (sym h) (unobserved a b c)
  after_observe-Followed start (inr (some o), s3) r h a b c =
      after_validate-Followed (w.now s3) (sc.validate ctx o s3) _ h a b c refl

  after_inject-Followed :
      (start : ℕ) (p : Option String × S) (r : ScenarioReport) {s1 : S}
      → r.status ≡ pass
      → sc.setup ctx s ≡ (none, s1)
      → sc.inject ctx s1 ≡ p
      → Followed
          (after_inject (watched w) (traced sc) ctx began start (log inject p (setup ∷ [])) r)
  unfolding after_inject
  after_inject-Followed start (some m, s2) r h a b = inject_failed a b
  after_inject-Followed start (none, s2) r h a b =
      after_observe-Followed (w.now s2) (sc.observe ctx s2) _ h a b refl

  after_setup-Followed :
      (start : ℕ) (p : Option String × S) (r : ScenarioReport)
      → r.status ≡ pass
      → sc.setup ctx s ≡ p
      → Followed (after_setup (watched w) (traced sc) ctx began start (log setup p []) r)
  unfolding after_setup
  after_setup-Followed start (some m, s1) r h a = setup_failed a
  after_setup-Followed start (none, s1) r h a =
      after_inject-Followed (w.now s1) (sc.inject ctx s1) _ h a refl

-- To write the stages down makes no difference to the report.
module _ {S : Type 0} (w : World S) (sc : Scenario S) (ctx : Context) (began start : ℕ)
    (stages : List Stage) where
  after_validate-traced :
      (o : (String ⊎ Option ScenarioReport) × S) (r : ScenarioReport)
      → (after_validate (watched w) (traced sc) ctx began start (log validate o stages) r).0
        ≡ (after_validate w sc ctx began start o r).0
  unfolding after_validate
  after_validate-traced (inl m, s) r = refl
  after_validate-traced (inr none, s) r = refl
  after_validate-traced (inr (some v), s) r = refl

module _ {S : Type 0} (w : World S) (sc : Scenario S) (ctx : Context) (began : ℕ) where
  after_observe-traced :
      (start : ℕ) (stages : List Stage) (o : (String ⊎ Option Observed) × S) (r : ScenarioReport)
      → (after_observe (watched w) (traced sc) ctx began start (log observe o stages) r).0
        ≡ (after_observe w sc ctx began start o r).0
  unfolding after_observe
  after_observe-traced start stages (inl m, s) r = refl
  after_observe-traced start stages (inr none, s) r = refl
  after_observe-traced start stages (inr (some o), s) r =
      after_validate-traced w sc ctx began (w.now s) _ (sc.validate ctx o s) _

  after_inject-traced :
      (start : ℕ) (stages : List Stage) (o : Option String × S) (r : ScenarioReport)
      → (after_inject (watched w) (traced sc) ctx began start (log inject o stages) r).0
        ≡ (after_inject w sc ctx began start o r).0
  unfolding after_inject
  after_inject-traced start stages (some m, s) r = refl
  after_inject-traced start stages (none, s) r =
      after_observe-traced (w.now s) _ (sc.observe ctx s) _

  after_setup-traced :
      (start : ℕ) (o : Option String × S) (r : ScenarioReport)
      → (after_setup (watched w) (traced sc) ctx began start (log setup o []) r).0
        ≡ (after_setup w sc ctx began start o r).0
  unfolding after_setup
  after_setup-traced start (some m, s) r = refl
  after_setup-traced start (none, s) r =
      after_inject-traced (w.now s) (setup ∷ []) (sc.inject ctx s) _

run_scenario-traced :
    {S : Type 0} (w : World S) (global : Context) (sc : Scenario S) (s : S)
    → (run_scenario (watched w) global (traced sc) (s, [])).0 ≡ (run_scenario w global sc s).0
unfolding run_scenario
run_scenario-traced w global sc s = after_setup-traced w sc _ (w.now s) (w.now s) (sc.setup _ s) _

-- Whatever a scenario's stages return and whatever the time is, its run follows one of seven courses: Inject is entered exactly if Setup returned no error, Observe exactly if Inject then returned none, Validate exactly if Observe then returned an observation, and Cleanup always, once and last; the report's status is FAIL if the last stage before Cleanup returned an error, PASS if Observe or Validate returned nothing and no error, else what ComputeStatus makes of the SLO results that Validate returned. To write the stages down changes nothing in the report.
pub run_scenario-Course :
    {S : Type 0} (w : World S) (global : Context) (sc : Scenario S) (s : S)
    → Course sc
        (with_timeout global (w.now s) sc.timeout)
        s
        (run_scenario (watched w) global (traced sc) (s, [])).1.1
        (run_scenario w global sc s).0.status
unfolding run_scenario
run_scenario-Course w global sc s =
    let ctx = with_timeout global (w.now s) sc.timeout in
    subst (λ r. Course sc ctx s (run_scenario (watched w) global (traced sc) (s, [])).1.1 r.status)
      (run_scenario-traced w global sc s)
      (after_setup-Followed w sc ctx (w.now s) s (w.now s) (sc.setup ctx s) _ refl refl)
