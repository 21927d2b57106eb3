-- ===== src/InProcess/Drained.antt =====
-- The worker empties its queue in order.
use trace_runtime.Prelude.{
  ℕ, zero, suc, ◌≤◌, ◌≡◌, ◌≢◌, refl, String, true, false, ◌⊎◌, inl, inr, ◌==◌, eq_iff, Bool-cases,
  List, [], ◌∷◌, length, arith,
}
use trace_runtime.Queue.{Task, Queue, dequeue, depth}
use trace_runtime.Broker.{Broker}
use trace_runtime.InProcess.{
  Event, Inference, failure, response, Span, report, process, run, reports, publish_all,
}

module _ (spans : Task → Span) (infer : Task → Inference) where
  drain :
      (ts : List Task) (capacity rejected fuel : ℕ) (b : Broker Event)
      → length ts ≤ fuel
      → run spans infer fuel (record { ch = ts; capacity = capacity; rejected = rejected }) b ≡ (
        record { ch = []; capacity = capacity; rejected = rejected },
        publish_all (reports spans infer ts) b,
      )
  unfolding run dequeue process reports publish_all
  drain [] capacity rejected zero b h = refl
  drain [] capacity rejected (suc fuel) b h = refl
  drain (t ∷ ts) capacity rejected zero b h = absurd (omega (arith, h))
  drain (t ∷ ts) capacity rejected (suc fuel) b h =
      drain ts capacity rejected fuel (process spans infer t b) (omega (arith, h))

  -- How a task that got this answer is reported.
  abbrev pub Ending : Inference → Event → Type 0
  Ending (failure true) e = (e.event_type ≡ "task.failed") × (e.error_reason ≡ "timeout")
  Ending (failure false) e = (e.event_type ≡ "task.failed") × (e.error_reason ≡ "ai_runtime_error")
  Ending (response r) e =
      ((r.execution_status ≡ "failed")
        × (e.event_type ≡ "task.failed")
        × (e.error_reason ≡ "ai_runtime_failed"))
      ⊎ ((r.execution_status ≢ "failed")
          × (e.event_type ≡ "task.completed")
          × (e.output ≡ r.output)
          × (e.error_reason ≡ ""))

  -- An event is about a task and its trace.
  abbrev pub About : Task → Event → Type 0
  About t e =
      (e.task_id ≡ t.id)
      × (e.trace_id ≡ (spans t).trace_id)
      × (e.traceparent ≡ (spans t).traceparent)

  -- Two events for each of the tasks.
  pub data Reported : List Task → List Event → Type 0 where
    none_left : Reported [] []
    one_more :
        {t : Task} {ts : List Task} {start end : Event} {es : List Event}
        → start.event_type ≡ "task.processing"
        → About t start
        → Ending (infer t) end
        → About t end
        → Reported ts es
        → Reported (t ∷ ts) (start ∷ end ∷ es)

  report-Ending : (t : Task) (i : Inference) → Ending i (report (spans t) t i)
  unfolding report
  report-Ending t (failure true) = (refl, refl)
  report-Ending t (failure false) = (refl, refl)
  report-Ending t (response r) = elim (Bool-cases (r.execution_status == "failed")) [
    | inl y ↦ inl ((eq_iff r.execution_status "failed").0 y, rw y refl, rw y refl)
    | inr n ↦ inr (differs r.execution_status n, rw n refl, rw n refl, rw n refl)
  ]
    where
      differs : (status : String) → (status == "failed") ≡ false → status ≢ "failed"
      differs status n e = absurd (ground (arith, n, (eq_iff status "failed").1 e))

  report-About : (t : Task) (i : Inference) → About t (report (spans t) t i)
  unfolding report
  report-About t (failure timed_out) = (refl, refl, refl)
  report-About t (response r) = elim (Bool-cases (r.execution_status == "failed")) [
    | inl y ↦ rw y (refl, refl, refl)
    | inr n ↦ rw n (refl, refl, refl)
  ]

  reports-Reported : (ts : List Task) → Reported ts (reports spans infer ts)
  unfolding reports
  reports-Reported [] = none_left
  reports-Reported (t ∷ ts) =
      one_more refl (refl, refl, refl) (report-Ending t (infer t)) (report-About t (infer t))
        (reports-Reported ts)

  -- Given that no task is added meanwhile and that the worker may take as many tasks as wait: it empties the queue, and the hub is as after the publication of two events for each task, in the order of the queue, both with the task's id and trace: task.processing, and then task.failed, with the reason timeout or ai_runtime_error, if the AI runtime gave no response, task.failed with the reason ai_runtime_failed if it responded with the status failed, and else task.completed with the output.
  pub run-drains :
      (fuel : ℕ) (q : Queue) (b : Broker Event)
      → depth q ≤ fuel
      → (es : List Event) × Reported q.ch es
        × (run spans infer fuel q b ≡ (record q { ch = [] }, publish_all es b))
  unfolding depth
  run-drains fuel q b h =
      (reports spans infer q.ch, reports-Reported q.ch, drain q.ch q.capacity q.rejected fuel b h)
