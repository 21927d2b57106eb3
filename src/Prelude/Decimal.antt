-- ===== src/Prelude/Decimal.antt =====
-- %d of fmt.Sprintf.
use Prim.Native.Nat.{ℕ, zero, suc, ◌/◌, ◌%◌}
use Prim.Native.String.{String, ◌++◌}
use mathlib.Core.Option.{none, some}
use mathlib.Core.List.{List, [], ◌∷◌}
use mathlib.Core.Path.{◌≡◌, refl}
use trace_runtime.Prelude.Tests.{ltb, if◌then◌else◌}
use trace_runtime.Prelude.Lists.{get_elem?}

abbrev figures : List String
figures = "0" ∷ "1" ∷ "2" ∷ "3" ∷ "4" ∷ "5" ∷ "6" ∷ "7" ∷ "8" ∷ "9" ∷ []

digit : ℕ → String
digit n = elim (get_elem? figures n) [ none ↦ "" | some s ↦ s ]

-- A number has fewer digits than its successor counts.
digits : ℕ → ℕ → String
digits zero n = ""
digits (suc fuel) n =
    let rest = digits fuel (n / 10) ++ digit (n % 10) in if ltb n 10 then digit n else rest

unfoldable pub decimal : ℕ → String
unfolding digits digit
decimal n = digits (suc n) n

decimal_60 : decimal 60 ≡ "60"
unfolding decimal
decimal_60 = refl
