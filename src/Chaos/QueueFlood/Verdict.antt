-- ===== src/Chaos/QueueFlood/Verdict.antt =====
-- What it takes for the queue-flood scenario not to fail.
use trace_runtime.Prelude.{
  ℕ, ◌-◌, ◌<◌, String, ◌≡◌, ◌≢◌, sym, subst, ap, ◌∙◌, true, false, ◌⊎◌, inl, inr, some, List, All,
  Bool-cases, string_eq,
}
use trace_runtime.Prelude.Assoc.{get}
use trace_runtime.Healing.{HealingEvent}
use trace_runtime.Chaos.Reports.{fail, ScenarioReport}
use trace_runtime.Chaos.Runner.{Observed}
use trace_runtime.Chaos.Waits.{WaitResult, ticked, Told, wait_for-Told}
use trace_runtime.Chaos.Ops.{Ops, seconds, answer_or, with_label}
use trace_runtime.Chaos.Helpers.{delta, any_of, wait, answered_200}
use trace_runtime.Chaos.Objectives.{Holds, not-fail-Holds}
use trace_runtime.Chaos.Chains.{
  Has, any_of-Has, Steady, steady_at, seen-inr, chain-inr, with_label-inr, truth-Holds, answered,
  given_report,
}
use trace_runtime.Chaos.QueueFlood.{
  Flood, core, objectives, lag_event, recent_lag, observation, observe_lag, observe, validate,
}

module _ {S : Type 0} (ops : Ops S) where
  -- One of the two queries, asked in this state, the second after the first, answers with a queue.lag event.
  abbrev pub LagAt : S → Type 0
  LagAt t =
      (events : List HealingEvent) × Has "queue.lag" events
      × (((ops.active_healing_events t).0 ≡ inr events)
          ⊎ ((ops.healing_events_since (ops.start_time - seconds 30)
                (ops.active_healing_events t).1).0
              ≡ inr events))

  recent_lag-events :
      (t : S)
      → (recent_lag ops false t).0 ≡ inr true
      → (events : List HealingEvent) × ((ops.healing_events_since (ops.start_time - seconds 30) t).0
          ≡ inr events)
        × (any_of "queue.lag" events ≡ true)
  recent_lag-events t h =
      let (events, u, e, given) =
        chain-inr (ops.healing_events_since (ops.start_time - seconds 30) t) _ h in
      (events, ap (λ r. r.0) e, ap (answer_or false) given)

  active-LagAt :
      (t u : S) (events : List HealingEvent)
      → ops.active_healing_events t ≡ (inr events, u)
      → (recent_lag ops (any_of "queue.lag" events) u).0 ≡ inr true
      → LagAt t
  active-LagAt t u events e h = elim (Bool-cases (any_of "queue.lag" events)) [
    | inl y ↦ (events, any_of-Has "queue.lag" events y, inl (ap (λ r. r.0) e))
    | inr n ↦
        let (recent, since, lag) = recent_lag-events u (rw n at h) in
        (
          recent,
          any_of-Has "queue.lag" recent lag,
          inr (
              subst (λ v. (ops.healing_events_since (ops.start_time - seconds 30) v).0 ≡ inr recent)
                (sym (ap (λ r. r.1) e)) since),
        )
  ]

  lag_event-LagAt : (t u : S) → lag_event ops t ≡ (inr true, u) → LagAt t
  unfolding lag_event
  lag_event-LagAt t u h =
      let (events, s, e, rest) = chain-inr (ops.active_healing_events t) _ (ap (λ r. r.0) h) in
      active-LagAt t s events e rest

  observation-met :
      (counts : List (String × ℕ)) (result : WaitResult) (t : S) (o : Observed)
      → (observation ops counts result t).0 ≡ inr o
      → All Holds (objectives o)
      → (result.met ≡ true)
        × All (Steady ops counts) core
        × (u : S) × ((ops.worker_health u).0 ≡ inr 200)
  unfolding get
  observation-met counts result t o e h =
      let good = subst (λ r. All Holds (objectives (answer_or o r))) (sym e) h in
      let (lag, (api, (worker, (watchdog, (healthy, _))))) = good in
      let t1 = (ops.queue_depth t).1 in
      let t2 = (delta ops counts "api" t1).1 in
      let t3 = (delta ops counts "worker" t2).1 in
      let t4 = (delta ops counts "watchdog" t3).1 in
      (
        truth-Holds result.met lag,
        (
          steady_at ops counts "api" t1 api,
          (
            steady_at ops counts "worker" t2 worker,
            (steady_at ops counts "watchdog" t3 watchdog, tt),
          ),
        ),
        t4,
        answered (ops.worker_health t4).0
            (truth-Holds (answered_200 (ops.worker_health t4).0) healthy),
      )

  found :
      (counts : List (String × ℕ)) (s : S) (o : Observed)
      → (observe_lag ops counts s).0 ≡ inr o
      → All Holds (objectives o)
      → ((k : ℕ) × (k < (ops.ticks (seconds 120) ops.poll_interval s).count)
          × LagAt (ticked (lag_event ops) k s))
        × All (Steady ops counts) core
        × (u : S) × ((ops.worker_health u).0 ≡ inr 200)
  found counts s o e h =
      let (result, t, waited, seen) =
        chain-inr (with_label _ (wait ops (lag_event ops) (seconds 120) ops.poll_interval s)) _ e in
      let (met, steady, v, healthy) = observation-met counts result t o seen h in
      let (k, in_time, lag) =
        subst
          (Told ops.now (lag_event ops) (ops.now s)
            (ops.ticks (seconds 120) ops.poll_interval s).count s)
          (with_label-inr _ _ waited)
          (wait_for-Told ops.now (lag_event ops) (ops.ticks (seconds 120) ops.poll_interval s) s)
          met in
      ((k, in_time, lag_event-LagAt (ticked (lag_event ops) k s) t lag), steady, v, healthy)

-- The verdict of Validate on what Observe has found is not FAIL only if, at one tick of the wait, an event of type queue.lag is in the answer to one of the two queries, of the active events or else of those since 30 seconds before the start; if each of api, worker and watchdog has, in some state, exactly the restarts that the baseline says, 0 where it says nothing; and if the worker's health endpoint answers 200 in some state.
pub verdict-Flooded :
    {S : Type 0} (ops later : Ops S) (f g : Flood S) (o : Observed) (v : ScenarioReport)
    → (observe ops f).0 ≡ inr (some o)
    → (validate later o g).0 ≡ inr (some v)
    → v.status ≢ fail
    → ((k : ℕ) × (k < (ops.ticks (seconds 120) ops.poll_interval f.world).count)
        × LagAt ops (ticked (lag_event ops) k f.world))
      × All (Steady ops f.restart_baseline) core
      × (u : S) × ((ops.worker_health u).0 ≡ inr 200)
unfolding observe validate
verdict-Flooded ops later f g o v seen judged ok =
    found ops f.restart_baseline f.world o (seen-inr _ _ o seen)
      (not-fail-Holds (objectives o) (λ e. ok (ap (λ r. r.status) (sym (given_report judged)) ∙ e)))
