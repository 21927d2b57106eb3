-- ===== src/Chaos/PostgresFailure/Verdict.antt =====
-- What it takes for the postgres-failure scenario not to fail.
use trace_runtime.Prelude.{
  ℕ, String, ◌≡◌, ◌≢◌, refl, sym, subst, ap, ◌∙◌, Bool, true, false, ◌⊎◌, inl, inr, some, List, [],
  ◌∷◌, ◌++◌, arith, leb, Bool-cases, All, string_eq,
}
use trace_runtime.Prelude.Int.{ℤ}
use trace_runtime.Prelude.Assoc.{get, put}
use trace_runtime.Chaos.Reports.{fail, ints, flags, ScenarioReport}
use trace_runtime.Chaos.Runner.{Observed}
use trace_runtime.Chaos.Waits.{WaitResult, ticked, Told, wait_for-Told}
use trace_runtime.Chaos.Ops.{Ops, Done, seconds, answer_or, skip}
use trace_runtime.Chaos.Helpers.{delta, is_met, wait, amount}
use trace_runtime.Chaos.Objectives.{Holds, not-fail-Holds}
use trace_runtime.Chaos.Chains.{Steady, steady_at, seen-inr, truth-Holds, given_report}
use trace_runtime.Chaos.PostgresFailure.{
  Outage, base, services, is_structured, api_metrics, count_at, accepted, accepts, after_start,
  look, observe, validate,
}

abbrev pub Structured : String ⊎ ℕ → Type 0
Structured r = (r ≡ inr 200) ⊎ (r ≡ inr 503)

structured : (code : ℕ) → is_structured code ≡ true → Structured (inr code)
structured code h = elim (Bool-cases (leb code 200)) [
  | inl low ↦ inl (ap inr (ground (arith, low, h)))
  | inr high ↦ inr (ap inr (ground (arith, high, h)))
]

abbrev noted : String ⊎ ℕ → List (String × ℤ) → List (String × Bool) → Observed
noted r deltas alive = record {
  metrics =
      api_metrics r ++ ("restart_counts", ints deltas) ∷ ("containers_alive", flags alive) ∷ [];
}

-- What the objectives on the observation say of its parts.
held :
    (r : String ⊎ ℕ) (deltas : List (String × ℤ)) (alive : List (String × Bool))
    → All Holds (base (noted r deltas alive))
    → Structured r
      × (Holds (amount "" 0 (count_at deltas "api"))
          × (Holds (amount "" 0 (count_at deltas "worker"))
              × Holds (amount "" 0 (count_at deltas "watchdog"))))
unfolding get
held (inl e) deltas alive h = absurd (ground (arith, h.0))
held (inr code) deltas alive h =
    let (_, (ok, (api, (worker, (watchdog, _))))) = h in
    (structured code (truth-Holds (is_structured code) ok), (api, (worker, watchdog)))

module _ {S : Type 0} (ops : Ops S) where
  abbrev pub Accepted : Type 0
  Accepted =
      (t : S) × (id : String) × ((ops.submit_task "chaos-postgres-reconnect-test" t).0 ≡ inr id)

  accepted-id : (r : String ⊎ String) → accepted ops r ≡ true → (id : String) × (r ≡ inr id)
  accepted-id (inl e) h = absurd (ground (arith, h))
  accepted-id (inr id) h = (id, refl)

  met-Accepted :
      (start n : ℕ) (origin : S) (r : (String ⊎ WaitResult) × S)
      → Told ops.now (accepts ops) start n origin r
      → is_met r.0 ≡ true
      → Accepted
  met-Accepted start n origin (inl e, s) told h = absurd (ground (arith, h))
  met-Accepted start n origin (inr result, s) told h =
      let (k, _, seen) = told h in
      let t = ticked (accepts ops) k origin in
      let (id, given) =
        accepted-id (ops.submit_task "chaos-postgres-reconnect-test" t).0
          (ap (λ q. answer_or false q.0) seen) in
      (t, id, given)

  after_start-Accepted :
      (o : Observed) (r : (String ⊎ Done) × S)
      → (after_start ops o r).0.status ≢ fail
      → All Holds (base o) × Accepted
  after_start-Accepted o (inl e, s) h =
      let (_, (_, (_, (_, (_, (_, (_, (_, (lost, _))))))))) = not-fail-Holds _ h in
      absurd (ground (arith, lost))
  after_start-Accepted o (inr d, s) h =
      let (a, (b, (c, (d, (e, (f, (g, (i, (back, _))))))))) = not-fail-Holds _ h in
      let t = skip (ops.wait_for_healthy "postgres" (seconds 30) s) in
      let result = wait ops (accepts ops) (seconds 30) (seconds 3) t in
      (
        (a, (b, (c, (d, (e, (f, (g, (i, tt)))))))),
        met-Accepted (ops.now t) (ops.ticks (seconds 30) (seconds 3) t).count t result
            (wait_for-Told ops.now (accepts ops) (ops.ticks (seconds 30) (seconds 3) t) t)
            (truth-Holds (is_met result.0) back),
      )

  found :
      (counts : List (String × ℕ)) (s : S) (o : Observed)
      → (look ops counts s).0 ≡ inr o
      → All Holds (base o)
      → Structured (ops.api_health (ops.sleep (seconds 10) s)).0 × All (Steady ops counts) services
  unfolding put get
  found counts s o e h =
      let t = ops.sleep (seconds 10) s in
      let u1 = (ops.container_health "api" (ops.api_health t).1).1 in
      let u2 = (ops.container_health "worker" (delta ops counts "api" u1).1).1 in
      let u3 = (ops.container_health "watchdog" (delta ops counts "worker" u2).1).1 in
      let (structured, (api, (worker, watchdog))) =
        held (ops.api_health t).0 _ _ (subst (λ r. All Holds (base (answer_or o r))) (sym e) h) in
      (
        structured,
        (
          steady_at ops counts "api" u1 api,
          (
            steady_at ops counts "worker" u2 worker,
            (steady_at ops counts "watchdog" u3 watchdog, tt),
          ),
        ),
      )

-- The verdict of Validate on what Observe has found is not FAIL only if the API's health endpoint answers 200 or 503 after the pause of ten seconds; if each of api, worker and watchdog has, in some state, exactly the restarts that the baseline says, 0 where it says nothing; and if the API accepts the task of the reconnection check in some state.
pub verdict-Survived :
    {S : Type 0} (ops later : Ops S) (w x : Outage S) (o : Observed) (v : ScenarioReport)
    → (observe ops w).0 ≡ inr (some o)
    → (validate later o x).0 ≡ inr (some v)
    → v.status ≢ fail
    → Structured (ops.api_health (ops.sleep (seconds 10) w.world)).0
      × All (Steady ops w.restart_baseline) services
      × Accepted later
unfolding observe validate
verdict-Survived ops later w x o v seen judged ok =
    let (kept, accepted) =
      after_start-Accepted later o (later.start "postgres" x.world)
        (λ e. ok (ap (λ r. r.status) (sym (given_report judged)) ∙ e)) in
    let (structured, steady) =
      found ops w.restart_baseline w.world o
        (seen-inr (λ t. record w { world = t }) (look ops w.restart_baseline w.world) o seen)
        kept in
    (structured, steady, accepted)
