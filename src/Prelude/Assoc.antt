-- ===== src/Prelude/Assoc.antt =====
-- Go's `map`, as an association list without repeated keys. A `range` over it goes
-- through the entries in the list's order; Go leaves the order open, and no theorem depends on it.
use mathlib.Core.Path.{◌≡◌, refl, ap}
use mathlib.Core.Logic.{inl, inr}
use mathlib.Core.Bool.{Bool, false}
use mathlib.Core.Option.{Option, none, some}
use mathlib.Core.List.{List, [], ◌∷◌}
use native.Mathlib.Omega.{arith}
use trace_runtime.Prelude.Tests.{if◌then◌else◌, Bool-cases}
use trace_runtime.Prelude.Keys.{Eq}

pub beq-symm_false {κ} : {K : Type κ} ⦃e : Eq K⦄ (j k : K) → e.beq j k ≡ false → e.beq k j ≡ false
beq-symm_false ⦃e⦄ j k n = ground (arith, e.beq_iff j k, e.beq_iff k j)

module _ {κ ℓ} {K : Type κ} {V : Type ℓ} ⦃e : Eq K⦄ where
  -- m[k]
  unfoldable pub get : List (K × V) → K → Option V
  get [] k = none
  get ((j, v) ∷ m) k = if e.beq j k then some v else get m k

  -- delete(m, k)
  unfoldable pub remove : List (K × V) → K → List (K × V)
  remove [] k = []
  remove ((j, v) ∷ m) k = if e.beq j k then remove m k else (j, v) ∷ remove m k

  -- m[k] = v
  unfoldable pub put : List (K × V) → K → V → List (K × V)
  put [] k v = (k, v) ∷ []
  put ((j, w) ∷ m) k v = if e.beq j k then (k, v) ∷ m else (j, w) ∷ put m k v

  pub get-remove :
      (m : List (K × V)) (k j : K) → get (remove m k) j ≡ (if e.beq k j then none else get m j)
  unfolding get remove
  get-remove [] k j = ground arith
  get-remove ((i, v) ∷ m) k j =
      ground (arith, e.beq_iff k j, e.beq_iff i k, e.beq_iff i j, get-remove m k j)

  pub get-put :
      (m : List (K × V)) (k j : K) (v : V)
      → get (put m k v) j ≡ (if e.beq k j then some v else get m j)
  unfolding get put
  get-put [] k j v = refl
  get-put ((i, w) ∷ m) k j v =
      ground (arith, e.beq_iff k j, e.beq_iff i k, e.beq_iff i j, get-put m k j v)

  remove-none : (m : List (K × V)) (k : K) → get m k ≡ none → remove m k ≡ m
  unfolding get remove
  remove-none [] k h = refl
  remove-none ((j, v) ∷ m) k h = ground (arith, h, remove-none m k)

  pub remove-put : (m : List (K × V)) (k : K) (v : V) → get m k ≡ none → remove (put m k v) k ≡ m
  unfolding get put remove
  remove-put [] k v h = ground (arith, e.beq_iff k k)
  remove-put ((j, w) ∷ m) k v h = ground (arith, h, e.beq_iff k k, remove-put m k v)

module _ {κ ℓ} {K : Type κ} {V : Type ℓ} ⦃e : Eq K⦄ where
  -- A loop over the map that deletes the entries which fail a test.
  unfoldable pub retain : (K → V → Bool) → List (K × V) → List (K × V)
  retain p [] = []
  retain p ((j, v) ∷ m) = if p j v then (j, v) ∷ retain p m else retain p m

  -- No key stands twice.
  abbrev pub Distinct : List (K × V) → Type (κ ⊔ ℓ)
  Distinct [] = Unit
  Distinct ((j, v) ∷ m) = (get m j ≡ none) × Distinct m

  abbrev pub kept : (K → V → Bool) → K → Option V → Option V
  kept p k none = none
  kept p k (some v) = if p k v then some v else none

  pub get-retain :
      (p : K → V → Bool) (m : List (K × V)) (k : K)
      → Distinct m
      → get (retain p m) k ≡ kept p k (get m k)
  unfolding get retain
  get-retain p [] k d = refl
  get-retain p ((j, v) ∷ m) k d =
      ground (arith, e.beq_iff j k, get-retain p m k d.1, ap (kept p k) d.0)

  pub Distinct-put : (m : List (K × V)) (k : K) (v : V) → Distinct m → Distinct (put m k v)
  unfolding put
  Distinct-put [] k v d = (unfold get in refl, tt)
  Distinct-put ((j, w) ∷ m) k v d = elim (Bool-cases (e.beq j k)) [
    | inl h ↦ rw h (rw (← (e.beq_iff j k).0 h) d.0, d.1)
    | inr n ↦ rw n (rw (get-put, beq-symm_false j k n) d.0, Distinct-put m k v d.1)
  ]

  pub Distinct-remove : (m : List (K × V)) (k : K) → Distinct m → Distinct (remove m k)
  unfolding remove
  Distinct-remove [] k d = tt
  Distinct-remove ((j, v) ∷ m) k d = elim (Bool-cases (e.beq j k)) [
    | inl h ↦ rw h (Distinct-remove m k d.1)
    | inr n ↦ rw n (rw (get-remove, beq-symm_false j k n) d.0, Distinct-remove m k d.1)
  ]

  pub Distinct-retain : (p : K → V → Bool) (m : List (K × V)) → Distinct m → Distinct (retain p m)
  unfolding retain
  Distinct-retain p [] d = tt
  Distinct-retain p ((j, v) ∷ m) d = elim (Bool-cases (p j v)) [
    | inl h ↦ rw h (rw (get-retain p m j d.1, d.0) refl, Distinct-retain p m d.1)
    | inr n ↦ rw n (Distinct-retain p m d.1)
  ]

pub ruleset assoc_laws = (get-remove, get-put)
