-- ===== src/Chaos/WorkerCrash/Verdict.antt =====
-- What it takes for the worker-crash scenario not to fail.
use trace_runtime.Prelude.{
  ℕ, ◌<◌, String, ◌==◌, eq_iff, ◌≡◌, ◌≢◌, refl, sym, subst, ap, ◌∙◌, Bool, true, false, ◌⊎◌, inl,
  inr, Option, none, some, List, [], ◌∷◌, arith, Bool-cases, Option-cases, string_eq,
}
use trace_runtime.Prelude.Assoc.{get}
use trace_runtime.Healing.{HealingEvent}
use trace_runtime.Chaos.Reports.{fail, ScenarioReport, compute_status}
use trace_runtime.Chaos.Runner.{Observed}
use trace_runtime.Chaos.Waits.{WaitResult, ticked, Told, wait_for-Told}
use trace_runtime.Chaos.Ops.{Ops, Done, seconds}
use trace_runtime.Chaos.Helpers.{flag_of, truth}
use trace_runtime.Chaos.Chains.{Has}
use trace_runtime.Chaos.WorkerCrash.{
  Crash, is_critical, first_critical, critical_event, found_in, observation, observe, minute,
  after_start, validated, validate,
}

abbrev detected : Observed → Bool
detected o = flag_of (get o.metrics "critical_event_detected")

abbrev said : String ⊎ Bool → Bool
said (inl e) = false
said (inr b) = b

abbrev or_given : {A : Type 0} → A → String ⊎ Option A → A
or_given a (inr (some b)) = b
or_given a _ = a

module _ {S : Type 0} (ops : Ops S) where
  -- Without the event the verdict is FAIL, whatever else comes out.
  after_start-missed :
      (detection seen restarted : ℕ) (o : (String ⊎ Done) × S)
      → (after_start ops false detection
          (truth "watchdog_detects_worker_failure" false
            ∷ minute "failure_detection_time" seen
            ∷ [])
          restarted
          o).0.status
        ≡ fail
  unfolding compute_status
  after_start-missed detection seen restarted (inl e, s) = refl
  after_start-missed detection seen restarted (inr d, s) = refl

  validated-missed :
      (o : Observed) (s : S) → detected o ≡ false → (validated ops o s).0.status ≡ fail
  validated-missed o s h = rw h (after_start-missed _ _ (ops.now s) (ops.start "worker" s))

  given :
      (o : Observed) (c : Crash S) (v : ScenarioReport)
      → (validate ops o c).0 ≡ inr (some v)
      → v ≡ (validated ops o c.world).0
  unfolding validate
  given o c v e = sym (ap (or_given v) e)

  validate-detected :
      (o : Observed) (c : Crash S) (v : ScenarioReport)
      → (validate ops o c).0 ≡ inr (some v)
      → v.status ≢ fail
      → detected o ≡ true
  validate-detected o c v e n = elim (Bool-cases (detected o)) [
    | inl d ↦ d
    | inr m ↦ absurd (n (ap (λ r. r.status) (given o c v e) ∙ validated-missed o c.world m))
  ]

  missing :
      (first : Option HealingEvent) (es : List HealingEvent) (s : S) (p : S × Option HealingEvent)
      → first_critical es ≡ none
      → found_in first (inr es, s) ≡ (inr true, p)
      → ⊥
  missing first es s p n h =
      let none_found : found_in first (inr es, s) ≡ (inr false, (s, first)) =
        rw (found_in, n) refl in
      let clash : false ≡ true = ap (λ q. said q.0) (sym none_found ∙ h) in
      absurd (ground (arith, clash))

  found_in-event :
      (first : Option HealingEvent) (q : (String ⊎ List HealingEvent) × S)
      (p : S × Option HealingEvent)
      → found_in first q ≡ (inr true, p)
      → (es : List HealingEvent) × (e : HealingEvent) × (q.0 ≡ inr es)
        × (first_critical es ≡ some e)
  found_in-event first (inl m, s) p h = absurd (ground (arith, h))
  found_in-event first (inr es, s) p h = elim (Option-cases (first_critical es)) [
    | inl none_ ↦ absurd (missing first es s p none_ h)
    | inr (e, some_) ↦ (es, e, refl, some_)
  ]

  observation-Told :
      (c : Crash S) (start n : ℕ) (origin : S × Option HealingEvent)
      (r : (String ⊎ WaitResult) × (S × Option HealingEvent)) (o : Observed)
      → Told (λ p. ops.now p.0) (critical_event ops c.killed_at) start n origin r
      → (observation ops c start r).0 ≡ inr (some o)
      → detected o ≡ true
      → (k : ℕ) × (k < n)
        × (critical_event ops c.killed_at (ticked (critical_event ops c.killed_at) k origin)
            ≡ (inr true, r.1))
  unfolding get
  observation-Told c start n origin (inl e, p) o told h d = absurd (ground (arith, h))
  observation-Told c start n origin (inr result, p) o told h d =
      told (subst (λ x. detected x ≡ true) (sym (ap (or_given o) h)) d)

-- An event of one of the two types.
abbrev pub Failing : List HealingEvent → Type 0
Failing es = Has "worker.stale" es ⊎ Has "worker.down" es

critical-Failing :
    (e : HealingEvent) (es : List HealingEvent) → is_critical e ≡ true → Failing (e ∷ es)
critical-Failing e es h = elim (Bool-cases (e.event_type == "worker.stale")) [
  | inl stale ↦ inl (inl ((eq_iff e.event_type "worker.stale").0 stale))
  | inr other ↦ inr (inl ((eq_iff e.event_type "worker.down").0 (ground (arith, other, h))))
]

later-Failing : (e : HealingEvent) (es : List HealingEvent) → Failing es → Failing (e ∷ es)
later-Failing e es (inl stale) = inl (inr stale)
later-Failing e es (inr down) = inr (inr down)

first_critical-Failing :
    (es : List HealingEvent) (e : HealingEvent) → first_critical es ≡ some e → Failing es
first_critical-Failing [] e h = absurd (ground (arith, h))
first_critical-Failing (f ∷ es) e h = elim (Bool-cases (is_critical f)) [
  | inl c ↦ critical-Failing f es c
  | inr c ↦ later-Failing f es (first_critical-Failing es e (ground (arith, c, h)))
]

-- The verdict of Validate on what Observe has found is not FAIL only if, at one tick of the wait, the healing events since the kill are answered and one of them has the type worker.stale or worker.down.
pub verdict-Detected :
    {S : Type 0} (ops later : Ops S) (c d : Crash S) (o : Observed) (v : ScenarioReport)
    → (observe ops c).0 ≡ inr (some o)
    → (validate later o d).0 ≡ inr (some v)
    → v.status ≢ fail
    → (k : ℕ) × (es : List HealingEvent) × (k < (ops.ticks (seconds 90) (seconds 3) c.world).count)
      × ((ops.healing_events_since c.killed_at
            (ticked (critical_event ops c.killed_at) k (c.world, none)).0).0
          ≡ inr es)
      × Failing es
unfolding observe
verdict-Detected ops later c d o v seen judged ok =
    let check = critical_event ops c.killed_at in
    let ticks = ops.ticks (seconds 90) (seconds 3) c.world in
    let (k, in_time, told) =
      observation-Told ops c (ops.now c.world) ticks.count (c.world, none) _ o
        (wait_for-Told (λ p. ops.now p.0) check ticks (c.world, none)) seen
        (validate-detected later o d v judged ok) in
    let (es, e, answered, found) =
      found_in-event ops (ticked check k (c.world, none)).1
        (ops.healing_events_since c.killed_at (ticked check k (c.world, none)).0) _ told in
    (k, es, in_time, answered, first_critical-Failing es e found)
