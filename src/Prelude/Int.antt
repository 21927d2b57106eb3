-- ===== src/Prelude/Int.antt =====
-- Go's int, where it may be below 0.
use Prim.Native.Nat.{ℕ, ◌-◌}
use mathlib.Core.Path.{◌≡◌}
use mathlib.Core.Bool.{Bool, true, false, ◌&&◌}
use native.Mathlib.Omega.{arith}
use trace_runtime.Prelude.Tests.{if◌then◌else◌, leb}

-- `negsuc n` is -(n + 1).
pub data ℤ : Type 0 where
  pos : ℕ → ℤ
  negsuc : ℕ → ℤ

-- a - b
abbrev pub sub_ℕ : ℕ → ℕ → ℤ
sub_ℕ a b = if leb b a then pos (a - b) else negsuc (b - a - 1)

-- Where a call has failed, the code reports -1.
abbrev pub minus_one : ℤ
minus_one = negsuc 0

abbrev pub is_nat : ℕ → ℤ → Bool
is_nat n (pos m) = leb n m && leb m n
is_nat n (negsuc m) = false

pub is_nat-sub_ℕ : (a b : ℕ) → is_nat 0 (sub_ℕ a b) ≡ true → a ≡ b
is_nat-sub_ℕ a b h = ground arith
