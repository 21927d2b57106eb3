-- ===== src/Processor/Gauges.antt =====
-- pollQueueDepth and updateDepth of services/worker/cmd/worker/main.go. A number in an attribute of SQS is whole; one that
-- does not parse is none.
use trace_runtime.Prelude.{ℕ, Option, none, some, List, [], ◌∷◌}

pub record Gauges : Type 0 where
  pub queue_depth : ℕ
  pub queue_inflight : ℕ
  pub dlq_depth : ℕ

-- What GetQueueAttributes answers, if it does.
pub record Depths : Type 0 where
  pub visible : Option ℕ
  pub not_visible : Option ℕ

abbrev set : Option ℕ → ℕ → ℕ
set none before = before
set (some n) before = n

-- The new values of a queue's depth and of its count in flight. A gauge keeps its value where there is no number.
unfoldable pub update_depth : Option Depths → ℕ → ℕ → ℕ × ℕ
update_depth none depth inflight = (depth, inflight)
update_depth (some d) depth inflight = (set d.visible depth, set d.not_visible inflight)

abbrev tick : Option Depths → Option Depths → Gauges → Gauges
tick queue dlq g = record {
  queue_depth = (update_depth queue g.queue_depth g.queue_inflight).0;
  queue_inflight = (update_depth queue g.queue_depth g.queue_inflight).1;
  dlq_depth = (update_depth dlq g.dlq_depth 0).0;
}

-- An element is one tick with the answers for the queue and for the dead-letter queue, or the end of the context.
unfoldable pub poll_queue_depth : List (Option (Option Depths × Option Depths)) → Gauges → Gauges
unfolding update_depth
poll_queue_depth [] g = g
poll_queue_depth (none ∷ ticks) g = g
poll_queue_depth (some (queue, dlq) ∷ ticks) g = poll_queue_depth ticks (tick queue dlq g)
