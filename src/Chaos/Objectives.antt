-- ===== src/Chaos/Objectives.antt =====
-- What a verdict of ComputeStatus says of the objectives that it comes from.
use trace_runtime.Prelude.{
  ◌≡◌, ◌≢◌, Bool, false, ◌&&◌, inl, inr, List, [], ◌∷◌, arith, Bool-cases, All,
}
use trace_runtime.Chaos.Reports.{SloResult, pass, fail, any, failed, is_functional, compute_status}

-- A functional objective is not missed.
abbrev pub Holds : SloResult → Type 0
Holds s = (is_functional s && failed s) ≡ false

abbrev pub Reached : SloResult → Type 0
Reached s = failed s ≡ false

All-any :
    (p : SloResult → Bool) (slos : List SloResult)
    → any p slos ≡ false
    → All (λ s. p s ≡ false) slos
All-any p [] h = tt
All-any p (s ∷ slos) h = elim (Bool-cases (p s)) [
  | inl y ↦ absurd (ground (arith, y, h))
  | inr n ↦ (n, All-any p slos (ground (arith, n, h)))
]

pub not-fail-Holds : (slos : List SloResult) → compute_status slos ≢ fail → All Holds slos
unfolding compute_status
not-fail-Holds slos h = elim (Bool-cases (any (λ s. is_functional s && failed s) slos)) [
  | inl y ↦ absurd (h (rw y))
  | inr n ↦ All-any (λ s. is_functional s && failed s) slos n
]

pub pass-Reached : (slos : List SloResult) → compute_status slos ≡ pass → All Reached slos
unfolding compute_status
pass-Reached slos h = elim (Bool-cases (any failed slos)) [
  | inl y ↦ absurd (ground (arith, y, h))
  | inr n ↦ All-any failed slos n
]
