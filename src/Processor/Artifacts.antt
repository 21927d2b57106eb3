-- ===== src/Processor/Artifacts.antt =====
-- A completed task has its output in S3.
use trace_runtime.Prelude.{
  ℕ, String, ◌≡◌, refl, sym, ◌∙◌, true, Option, none, some, List, ◌∷◌, ◌==◌, arith, eq_refl,
  contains, Bool-cases, inl, inr, leb, if_ind,
}
use trace_runtime.Tasks.{
  TaskRow, Table, Link, up, down, cut, find, Update, claim, complete, fail, revert, change, stored,
  set_processing, set_completed, set_failed, revert_to_pending,
}
use trace_runtime.Tasks.Find.{after, changed, find-stored}
use trace_runtime.Processor.Calls.{
  Config, Message, InferResult, Env, Span, World, publish_sse, call_ai_runtime, max_receive_count,
}
use trace_runtime.Processor.{
  fail_task, after_ai_error, after_output, execute, start, process, s3_key, is_ok, mock_result,
}

-- Each artifact key in the table names an object in S3.
abbrev pub Backed : Table → List String → Type 0
Backed t artifacts =
    (k : String) (r : TaskRow) (key : String)
    → find k t ≡ some r
    → r.artifact_key ≡ some key
    → contains artifacts key ≡ true

-- The key that an update writes, if it writes one, is stored.
abbrev Written : Update → List String → Type 0
Written (complete key tm) artifacts = contains artifacts key ≡ true
Written _ artifacts = Unit

change-backed :
    (u : Update) (now : ℕ) (artifacts : List String) (r s : TaskRow) (key : String)
    → Written u artifacts
    → change u now r ≡ some s
    → s.artifact_key ≡ some key
    → (r.artifact_key ≡ some key → contains artifacts key ≡ true)
    → contains artifacts key ≡ true
unfolding change
change-backed (complete key' tm) now artifacts r s key w h e b = ground arith
change-backed u now artifacts r s key w h e b = ground arith

after-backed :
    (u : Update) (now : ℕ) (artifacts : List String) (r : TaskRow) (c : Option TaskRow)
    (key : String)
    → Written u artifacts
    → change u now r ≡ c
    → (after c r).artifact_key ≡ some key
    → (r.artifact_key ≡ some key → contains artifacts key ≡ true)
    → contains artifacts key ≡ true
after-backed u now artifacts r none key w h e b = b e
after-backed u now artifacts r (some s) key w h e b = change-backed u now artifacts r s key w h e b

changed-backed :
    (u : Update) (now : ℕ) (artifacts : List String) (o : Option TaskRow) (r : TaskRow)
    (key : String)
    → Written u artifacts
    → changed (change u now) o ≡ some r
    → r.artifact_key ≡ some key
    → ((q : TaskRow) → o ≡ some q → q.artifact_key ≡ some key → contains artifacts key ≡ true)
    → contains artifacts key ≡ true
changed-backed u now artifacts none r key w h e b = cc
changed-backed u now artifacts (some q) r key w h e b =
    after-backed u now artifacts q (change u now q) key w refl (cc) (b q refl)

updated-Backed :
    (u : Update) (now : ℕ) (id : String) (t : Table) (artifacts : List String)
    → Written u artifacts
    → Backed t artifacts
    → Backed (stored up u now id t) artifacts
updated-Backed u now id t artifacts w b k r key h e = elim (Bool-cases (id == k)) [
  | inl same ↦
      changed-backed u now artifacts (find k t) r key w
        (sym (rw same at (find-stored u now id k t)) ∙ h) e (λ q. b k q key)
  | inr other ↦ b k r key (sym (rw other at (find-stored u now id k t)) ∙ h) e
]

pub stored-Backed :
    (link : Link) (u : Update) (now : ℕ) (id : String) (t : Table) (artifacts : List String)
    → Written u artifacts
    → Backed t artifacts
    → Backed (stored link u now id t) artifacts
unfolding stored
stored-Backed down u now id t artifacts w b = b
stored-Backed up u now id t artifacts w b = updated-Backed u now id t artifacts w b
stored-Backed cut u now id t artifacts w b = updated-Backed u now id t artifacts w b

more-Backed :
    (key : String) (t : Table) (artifacts : List String)
    → Backed t artifacts
    → Backed t (key ∷ artifacts)
more-Backed key t artifacts b k r other h e = ground (arith, b k r other h e)

-- A world in which every artifact key in the table names an object in S3.
abbrev pub IsBacked : World → Type 0
IsBacked w = Backed w.tasks w.artifacts

module _ (cfg : Config) (env : Env) (span : Span) (msg : Message) where
  fail_task-IsBacked :
      (reason : String) (w : World) → IsBacked w → IsBacked (fail_task cfg env span msg reason w)
  unfolding fail_task set_failed
  fail_task-IsBacked reason w b =
      if_ind IsBacked cfg.has_db
        (stored-Backed env.settle_link (fail reason) env.settle_at msg.task_id w.tasks w.artifacts
          tt b)
        b

  after_ai_error-IsBacked :
      (receipt : String) (n : ℕ) (w : World)
      → IsBacked w
      → IsBacked (after_ai_error cfg env span msg receipt n w)
  unfolding after_ai_error revert_to_pending
  after_ai_error-IsBacked receipt n w b =
      if_ind IsBacked (leb max_receive_count n) (fail_task-IsBacked "ai_runtime_error" w b) (
        if_ind IsBacked cfg.has_db
          (stored-Backed env.settle_link revert env.settle_at msg.task_id w.tasks w.artifacts tt b)
          b)

  after_output-IsBacked :
      (receipt : String) (ir : InferResult) (w : World)
      → IsBacked w
      → IsBacked (after_output cfg env span msg receipt ir w)
  unfolding after_output set_completed
  after_output-IsBacked receipt ir w b =
      let key = s3_key span msg in
      let more : Backed w.tasks (key ∷ w.artifacts) = more-Backed key w.tasks w.artifacts b in
      if_ind IsBacked env.s3_stores
        (if_ind IsBacked cfg.has_db
          (stored-Backed env.settle_link (complete key ir.tokens) env.settle_at msg.task_id w.tasks
            (key ∷ w.artifacts) (rw eq_refl) more)
          more)
        (fail_task-IsBacked "s3_write_error" w b)

  execute-IsBacked :
      (receipt : String) (n : ℕ) (w : World)
      → IsBacked w
      → IsBacked (execute cfg env span msg receipt n w)
  unfolding execute
  execute-IsBacked receipt n w b =
      if_ind IsBacked cfg.ai_enabled (go (call_ai_runtime env.ai))
        (after_output-IsBacked receipt (mock_result msg) w b)
    where
      go :
          (o : Option InferResult)
          → IsBacked (elim o [
            | none ↦ after_ai_error cfg env span msg receipt n w
            | some ir ↦ after_output cfg env span msg receipt ir w
          ])
      go none = after_ai_error-IsBacked receipt n w b
      go (some ir) = after_output-IsBacked receipt ir w b

  start-IsBacked :
      (receipt : String) (n : ℕ) (w : World)
      → IsBacked w
      → IsBacked (start cfg env span msg receipt n w)
  unfolding start publish_sse
  start-IsBacked receipt n w b = execute-IsBacked receipt n _ b

-- Whatever the database, the AI runtime, S3 and the API answer: if every artifact key in the table
-- of tasks names an object in S3, then this is so after `Process` has handled any message.
pub process-IsBacked :
    (cfg : Config) (env : Env) (parsed : Option Message) (attr receipt : String) (n : ℕ) (w : World)
    → IsBacked w
    → IsBacked (process cfg env parsed attr receipt n w)
unfolding process set_processing
process-IsBacked cfg env none attr receipt n w b = b
process-IsBacked cfg env (some msg) attr receipt n w b =
    let claimed =
      stored-Backed env.claim_link claim env.claim_at msg.task_id w.tasks w.artifacts tt b in
    if_ind IsBacked cfg.has_db
      (if_ind IsBacked (is_ok (set_processing env.claim_link env.claim_at msg.task_id w.tasks).0)
        (start-IsBacked cfg env _ msg receipt n _ claimed) claimed)
      (start-IsBacked cfg env _ msg receipt n _ b)
