-- ===== src/Chaos/AiFailure/Unrecovered.antt =====
-- An AI runtime that does not come back.
use trace_runtime.Prelude.{
  ℕ, String, ◌≡◌, refl, sym, ap, ◌∙◌, true, ◌⊎◌, inl, inr, some, arith, string_eq,
}
use trace_runtime.Prelude.Int.{ℤ, pos}
use trace_runtime.Prelude.Assoc.{get}
use trace_runtime.Chaos.Reports.{warn, ScenarioReport, compute_status}
use trace_runtime.Chaos.Runner.{Observed}
use trace_runtime.Chaos.Ops.{Ops, Done, seconds}
use trace_runtime.Chaos.Helpers.{flag_of, int_of, pause_for}
use trace_runtime.Chaos.Chains.{seen-inr, given_report, chain-inr}
use trace_runtime.Chaos.AiFailure.{Failure, after_healthy, after_start, validate, look, observe}

abbrev spurious : Observed → ℤ
spurious o = int_of (get o.metrics "spurious_worker_events")

abbrev of_answer : Observed → String ⊎ Observed → ℤ
of_answer o (inl e) = spurious o
of_answer o (inr p) = spurious p

module _ {S : Type 0} (ops : Ops S) where
  look-spurious : (s : S) (o : Observed) → (look ops s).0 ≡ inr o → spurious o ≡ pos 0
  unfolding get
  look-spurious s o h =
      let (_, _, _, rest) = chain-inr (pause_for ops (seconds 15) s) _ h in
      sym (ap (of_answer o) rest)

  after_healthy-warn :
      (o : Observed) (f : Failure S) (restarted : ℕ) (e : String) (r : (String ⊎ Done) × S)
      → r.0 ≡ inl e
      → flag_of (get o.metrics "worker_healthy") ≡ true
      → spurious o ≡ pos 0
      → (after_healthy ops f.inject_task_ids o restarted r).0.status ≡ warn
  unfolding compute_status
  after_healthy-warn o f restarted e (inl m, s) gone up none_seen = rw (up, none_seen) refl
  after_healthy-warn o f restarted e (inr d, s) gone up none_seen = absurd (ground (arith, gone))

  after_start-warn :
      (o : Observed) (f : Failure S) (restarted : ℕ) (e : String) (r : (String ⊎ Done) × S)
      (d : Done)
      → r.0 ≡ inr d
      → (ops.wait_for_healthy "ai-runtime" (seconds 120) r.1).0 ≡ inl e
      → flag_of (get o.metrics "worker_healthy") ≡ true
      → spurious o ≡ pos 0
      → (after_start ops f.inject_task_ids o restarted r).0.status ≡ warn
  after_start-warn o f restarted e (inl m, s) d started gone up none_seen =
      absurd (ground (arith, started))
  after_start-warn o f restarted e (inr c, s) d started gone up none_seen =
      after_healthy-warn o f restarted e _ gone up none_seen

-- Where Observe has seen the worker healthy and the AI runtime is started but does not become healthy in the 120 seconds given, the verdict is WARN and not FAIL: the injected tasks are not looked at, and the count of spurious worker events is the 0 that Observe writes without a query.
pub unrecovered-warns :
    {S : Type 0} (ops later : Ops S) (f g : Failure S) (o : Observed) (v : ScenarioReport)
    (d : Done) (e : String)
    → (observe ops f).0 ≡ inr (some o)
    → flag_of (get o.metrics "worker_healthy") ≡ true
    → (later.start "ai-runtime" g.world).0 ≡ inr d
    → (later.wait_for_healthy "ai-runtime" (seconds 120) (later.start "ai-runtime" g.world).1).0
      ≡ inl e
    → (validate later o g).0 ≡ inr (some v)
    → v.status ≡ warn
unfolding observe validate
unrecovered-warns ops later f g o v d e seen up started gone judged =
    ap (λ r. r.status) (sym (given_report judged))
    ∙ after_start-warn later o g (later.now g.world) e (later.start "ai-runtime" g.world) d started
        gone up (look-spurious ops f.world o (seen-inr _ (look ops f.world) o seen))
