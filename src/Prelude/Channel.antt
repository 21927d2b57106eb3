-- ===== src/Prelude/Channel.antt =====
-- Go's buffered channels, as the list of what waits in them, the oldest first.
use Prim.Native.Nat.{ℕ}
use mathlib.Core.Option.{Option, none, some}
use mathlib.Core.List.{List, [], ◌∷◌, ◌++◌}
use trace_runtime.Prelude.Tests.{ltb, if◌then◌else◌}
use trace_runtime.Prelude.Lists.{length}

module _ {ℓ} {A : Type ℓ} where
  -- select { case ch <- x: … default: … }: `none` is the default branch.
  unfoldable pub try_send : ℕ → List A → A → Option (List A)
  try_send capacity ch x = if ltb (length ch) capacity then some (ch ++ x ∷ []) else none

  -- <-ch: `none` where the receiver waits.
  abbrev pub receive : List A → Option (A × List A)
  receive [] = none
  receive (x ∷ ch) = some (x, ch)
