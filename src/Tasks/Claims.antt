-- ===== src/Tasks/Claims.antt =====
-- SetProcessing hands a task to one worker at a time.
use trace_runtime.Prelude.{
  ℕ, String, ◌≡◌, ap, ◌∙◌, ◌≢◌, Bool, true, false, Option, none, some, List, [], ◌∷◌, ◌==◌, eq_refl,
  arith, All,
}
use trace_runtime.Tasks.{
  pending, TaskRow, Table, Link, up, down, cut, find, affects, revert, retry, change, checked,
  set_processing, ok,
}
use trace_runtime.Tasks.Find.{find-stored}
use trace_runtime.Tasks.History.{Request, Statement, insert, on, run, effect, follow, find-run}

-- The statements that put a task back to pending.
abbrev pub releases : String → Statement → Bool
releases k (on j revert) = j == k
releases k (on j retry) = j == k
releases k _ = false

abbrev taken : Option TaskRow → Bool
taken none = false
taken (some r) = elim r.status [ pending ↦ false | _ ↦ true ]

effect-taken :
    (link : Link) (now : ℕ) (st : Statement) (k : String) (o : Option TaskRow)
    → releases k st ≡ false
    → taken o ≡ true
    → taken (effect link now st k o) ≡ true
unfolding effect change
effect-taken link now (insert p) k (some r) n h = ground arith
effect-taken link now (insert p) k none n h = ground arith
effect-taken link now (on j u) k o n h = ground arith

follow-taken :
    (k : String) (qs : List Request) (o : Option TaskRow)
    → All (λ q. releases k q.statement ≡ false) qs
    → taken o ≡ true
    → taken (follow k qs o) ≡ true
unfolding follow
follow-taken k [] o n h = h
follow-taken k (q ∷ qs) o n h =
    follow-taken k qs _ n.1 (effect-taken q.link q.now q.statement k o n.0 h)

claim_taken :
    (link : Link) (now : ℕ) (k : String) (t : Table)
    → (set_processing link now k t).0 ≡ ok
    → taken (find k (set_processing link now k t).1) ≡ true
unfolding set_processing checked affects change
claim_taken down now k t h = cc
claim_taken cut now k t h = cc
claim_taken up now k t h = rw find-stored (rw eq_refl (ground arith))

not_claimed :
    (link : Link) (now : ℕ) (k : String) (t : Table)
    → taken (find k t) ≡ true
    → (set_processing link now k t).0 ≢ ok
unfolding set_processing checked affects change
not_claimed link now k t h = ground arith

-- Once SetProcessing has succeeded on a task, no later SetProcessing on it succeeds, whatever
-- statements ran in between and however their connections fared, unless one of them was a
-- RevertToPending or a RevertToPendingForRetry on that task.
pub claim_exclusive :
    (link : Link) (now : ℕ) (k : String) (t : Table) (qs : List Request) (link' : Link) (now' : ℕ)
    → (set_processing link now k t).0 ≡ ok
    → All (λ q. releases k q.statement ≡ false) qs
    → (set_processing link' now' k (run qs (set_processing link now k t).1)).0 ≢ ok
claim_exclusive link now k t qs link' now' h n =
    not_claimed link' now' k _
      (ap taken (find-run qs k _) ∙ follow-taken k qs _ n (claim_taken link now k t h))
