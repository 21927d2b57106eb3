-- ===== src/Processor/Claimed.antt =====
-- A waiting row that SetProcessing has claimed, and the statement that then settles it.
use trace_runtime.Prelude.{ℕ, String, ◌≡◌, refl, some, arith, eq_refl}
use trace_runtime.Tasks.{
  pending, processing, TaskRow, Table, up, find, affects, Update, claim, change, stored, checked,
  ok, coalesce, set_processing,
}
use trace_runtime.Tasks.Find.{find-stored}

unfoldable pub claimed : ℕ → TaskRow → TaskRow
claimed now r = record r {
  status = processing;
  processing_started_at = some (coalesce r.processing_started_at now);
  updated_at = now;
}

module _ (now : ℕ) (id : String) (t : Table) (r : TaskRow) (found : find id t ≡ some r)
    (waits : r.status ≡ pending) where
  pub claim-ok : (set_processing up now id t).0 ≡ ok
  unfolding set_processing checked affects change
  claim-ok = ground arith

  pub find-claimed : find id (stored up claim now id t) ≡ some (claimed now r)
  unfolding change claimed
  find-claimed = rw (find-stored, eq_refl, found) (ground arith)

  pub find-settled :
      (u : Update) (later : ℕ) (s : TaskRow)
      → change u later (claimed now r) ≡ some s
      → find id (stored up u later id (stored up claim now id t)) ≡ some s
  find-settled u later s h = rw (find-stored, eq_refl, find-claimed, h) refl
