-- ===== src/Queue/Order.antt =====
-- The queue over any history of its calls: it stays within its capacity, hands tasks out in the
-- order in which it took them, and counts each one that it refused.
use trace_runtime.Prelude.{
  ℕ, ◌+◌, ◌≤◌, ◌≡◌, refl, Bool, true, false, Option, none, some, List, [], ◌∷◌, ◌++◌, length-append,
  arith,
}
use mathlib.Core.List.{append_assoc, append-nil}
use trace_runtime.Queue.{Task, Queue, new_queue, enqueue, dequeue, depth}

pub data Call : Type 0 where
  put : Task → Call
  take : Call

-- What a history has taken in, handed out and refused, and the queue that it leaves.
pub record History : Type 0 where
  pub accepted : List Task
  pub handed : List Task
  pub refused : ℕ
  pub queue : Queue

abbrev took : Bool → Task → List Task
took true t = t ∷ []
took false t = []

abbrev missed : Bool → ℕ
missed true = 0
missed false = 1

abbrev gave : Option Task → List Task
gave none = []
gave (some t) = t ∷ []

call : Call → History → History
call (put t) h =
    let (taken, q) = enqueue h.queue t in
    record h {
      accepted = h.accepted ++ took taken t;
      refused = h.refused + missed taken;
      queue = q;
    }
call take h =
    let (given, q) = dequeue h.queue in record h { handed = h.handed ++ gave given; queue = q }

unfoldable pub replay : List Call → History → History
unfolding call
replay [] h = h
replay (c ∷ cs) h = replay cs (call c h)

abbrev pub begin : ℕ → History
begin capacity = record { accepted = []; handed = []; refused = 0; queue = new_queue capacity }

pub record Sound (capacity : ℕ) (h : History) : Type 0 where
  pub same : h.queue.capacity ≡ capacity
  pub bounded : depth h.queue ≤ capacity
  pub counted : h.queue.rejected ≡ h.refused
  pub in_order : h.accepted ≡ h.handed ++ h.queue.ch

put-Sound :
    (capacity : ℕ) (t : Task) (h : History) → Sound capacity h → Sound capacity (call (put t) h)
unfolding call enqueue depth
put-Sound capacity t h s = ground (
  arith,
  length-append h.queue.ch (t ∷ []),
  append_assoc h.handed h.queue.ch (t ∷ []),
  append-nil h.accepted,
)

take-Sound_of :
    (capacity : ℕ) (h : History) (ch : List Task)
    → h.queue.ch ≡ ch
    → Sound capacity h
    → Sound capacity (call take h)
unfolding call dequeue depth
take-Sound_of capacity h [] e s = ground (arith, append-nil h.handed)
take-Sound_of capacity h (t ∷ rest) e s = ground (arith, append_assoc h.handed (t ∷ []) rest)

replay_keeps :
    (capacity : ℕ) (cs : List Call) (h : History) → Sound capacity h → Sound capacity (replay cs h)
unfolding replay
replay_keeps capacity [] h s = s
replay_keeps capacity (put t ∷ cs) h s = replay_keeps capacity cs _ (put-Sound capacity t h s)
replay_keeps capacity (take ∷ cs) h s =
    replay_keeps capacity cs _ (take-Sound_of capacity h h.queue.ch refl s)

-- After any sequence of calls of Enqueue and receives on a new queue: it holds no more than its
-- capacity, the tasks handed out and then those that wait are the accepted ones in their order, and
-- the counter of rejected tasks is the number of refusals.
pub replay-Sound : (capacity : ℕ) (cs : List Call) → Sound capacity (replay cs (begin capacity))
unfolding new_queue depth
replay-Sound capacity cs =
    replay_keeps capacity cs (begin capacity)
      (record { same = refl; bounded = omega arith; counted = refl; in_order = refl })
