-- ===== src/Queue.antt =====
-- The bounded work queue between the HTTP handler and the in-process worker:
-- services/api/internal/queue/queue.go.
pub mod Order
use trace_runtime.Prelude.{ℕ, ◌+◌, String, Bool, true, false, Option, none, some, List, [], length}
use trace_runtime.Prelude.Channel.{try_send, receive}

pub record Task : Type 0 where
  pub id : String
  pub trace_id : String
  pub traceparent : String
  pub payload : String

pub record Queue : Type 0 where
  pub ch : List Task
  pub capacity : ℕ
  pub rejected : ℕ

unfoldable pub new_queue : ℕ → Queue
new_queue capacity = record { ch = []; capacity = capacity; rejected = 0 }

unfoldable pub enqueue : Queue → Task → Bool × Queue
unfolding try_send
enqueue q t = elim (try_send q.capacity q.ch t) [
  | some ch' ↦ (true, record q { ch = ch' })
  | none ↦ (false, record q { rejected = q.rejected + 1 })
]

-- The worker's `<-w.queue.Receive()`.
unfoldable pub dequeue : Queue → Option Task × Queue
dequeue q = elim (receive q.ch) [
  | none ↦ (none, q)
  | some (t, rest) ↦ (some t, record q { ch = rest })
]

unfoldable pub depth : Queue → ℕ
depth q = length q.ch
