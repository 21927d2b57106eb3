-- ===== src/Chaos/Chains.antt =====
-- What an answer of a chain of calls says of the calls in it.
use trace_runtime.Prelude.{
  List, ℕ, ◌≡◌, refl, ap, String, Bool, true, false, ◌⊎◌, inl, inr, arith, Option, none, some, [],
  ◌∷◌, sym, ◌∙◌, ◌==◌, eq_iff, Bool-cases, string_eq,
}
use trace_runtime.Prelude.Int.{ℤ, minus_one, is_nat, is_nat-sub_ℕ}
use trace_runtime.Prelude.Assoc.{get}
use trace_runtime.Healing.{HealingEvent}
use trace_runtime.Tasks.{completed}
use trace_runtime.Chaos.Reports.{ScenarioReport}
use trace_runtime.Chaos.Ops.{Ops, M, chain, with_label, answer_or, mapped}
use trace_runtime.Chaos.Helpers.{seen, delta, since_baseline, any_of, truth, amount, answered_200}
use trace_runtime.Chaos.Objectives.{Holds, Reached}

abbrev or_given : {A : Type 0} → A → String ⊎ Option A → A
or_given a (inr (some b)) = b
or_given a _ = a

pub chain-inr :
    {S A B : Type 0} (r : (String ⊎ A) × S) (f : A → M S B) {b : B}
    → (chain r f).0 ≡ inr b
    → (a : A) × (s : S) × (r ≡ (inr a, s)) × ((f a s).0 ≡ inr b)
chain-inr (inl e, s) f h = absurd (ground (arith, h))
chain-inr (inr a, s) f h = (a, s, refl, h)

pub with_label-inr :
    {S A : Type 0} (label : String) (r : (String ⊎ A) × S) {a : A} {s : S}
    → with_label label r ≡ (inr a, s)
    → r ≡ (inr a, s)
with_label-inr label (inl e, t) h = absurd (ground (arith, h))
with_label-inr label (inr b, t) h = h

-- One of the events has this type.
abbrev pub Has : String → List HealingEvent → Type 0
Has kind [] = ⊥
Has kind (e ∷ es) = (e.event_type ≡ kind) ⊎ Has kind es

pub any_of-Has : (kind : String) (es : List HealingEvent) → any_of kind es ≡ true → Has kind es
any_of-Has kind [] h = absurd (ground (arith, h))
any_of-Has kind (e ∷ es) h = elim (Bool-cases (e.event_type == kind)) [
  | inl same ↦ inl ((eq_iff e.event_type kind).0 same)
  | inr other ↦ inr (any_of-Has kind es (ground (arith, other, h)))
]

-- What a map of counts says of a name: it is 0 where there is none.
abbrev pub Counted : List (String × ℕ) → String → ℕ → Type 0
Counted counts name n = (get counts name ≡ some n) ⊎ ((get counts name ≡ none) × (n ≡ 0))

-- The name of an objective does not matter.
pub truth-Holds : (b : Bool) → Holds (truth "" b) → b ≡ true
truth-Holds true h = refl
truth-Holds false h = absurd (ground (arith, h))

pub truth-Reached : (b : Bool) → Reached (truth "" b) → b ≡ true
truth-Reached true h = refl
truth-Reached false h = absurd (ground (arith, h))

pub amount-Holds : (n : ℕ) (z : ℤ) → Holds (amount "" n z) → is_nat n z ≡ true
amount-Holds n z h = ground (arith, h)

pub answered : (r : String ⊎ ℕ) → answered_200 r ≡ true → r ≡ inr 200
answered (inl e) h = absurd (ground (arith, h))
answered (inr n) h = let same : n ≡ 200 = ground (arith, h) in ap inr same

pub given_report :
    {v w : ScenarioReport}
    → ◌≡◌ {A = String ⊎ Option ScenarioReport} (inr (some v)) (inr (some w))
    → v ≡ w
given_report {v} {w} h = ap (or_given v) h

pub mapped-true :
    {S A : Type 0} (test : A → Bool) (r : (String ⊎ A) × S) {t : S}
    → mapped test r ≡ (inr true, t)
    → (a : A) × (r.0 ≡ inr a) × (test a ≡ true)
mapped-true test (inl e, s) h = absurd (ground (arith, h))
mapped-true test (inr a, s) h = (a, refl, ap (λ q. answer_or false q.0) h)

pub seen-inr :
    {S W A : Type 0} (back : S → W) (r : (String ⊎ A) × S) (o : A)
    → (seen back r).0 ≡ inr (some o)
    → r.0 ≡ inr o
seen-inr back (inl e, s) o h = absurd (ground (arith, h))
seen-inr back (inr p, s) o h = ground (arith, h)

none_since :
    {S : Type 0} (ops : Ops S) (counts : List (String × ℕ)) (name : String) (current : ℕ)
    (o : Option ℕ)
    → get counts name ≡ o
    → is_nat 0 (since_baseline ops counts name current) ≡ true
    → Counted counts name current
none_since ops counts name current none e h = inr (e, ground (arith, e, h))
none_since ops counts name current (some baseline) e h =
    inl (e ∙ ap some (sym (is_nat-sub_ℕ current baseline (rw (is_nat, e) at h))))

module _ {S : Type 0} (ops : Ops S) where
  -- In some state the service has as many restarts as in the baseline.
  abbrev pub Steady : List (String × ℕ) → String → Type 0
  Steady counts name =
      (t : S) × (n : ℕ) × ((ops.restart_count name t).0 ≡ inr n) × Counted counts name n

  counted_at :
      (counts : List (String × ℕ)) (name : String) (u : S) (r : (String ⊎ ℕ) × S)
      → ops.restart_count name u ≡ r
      → is_nat 0 (
          answer_or minus_one
            (chain r (λ (current : ℕ).
              λ (s : S). (◌⊎◌.inr (since_baseline ops counts name current), s))).0)
        ≡ true
      → Steady counts name
  counted_at counts name u (inl e, s) same k = absurd (ground (arith, k))
  counted_at counts name u (inr n, s) same k =
      (u, n, ap (λ q. q.0) same, none_since ops counts name n (get counts name) refl k)

  pub steady_at :
      (counts : List (String × ℕ)) (name : String) (u : S)
      → Holds (amount "" 0 (answer_or minus_one (delta ops counts name u).0))
      → Steady counts name
  unfolding delta
  steady_at counts name u k =
      counted_at counts name u (ops.restart_count name u) refl
        (amount-Holds 0 (answer_or minus_one (delta ops counts name u).0) k)

  -- A query of the task's status is answered with `completed`.
  abbrev pub Completed : String → Type 0
  Completed id = (t : S) × ((ops.task_status id t).0 ≡ inr completed)
