-- ===== src/Examples/Limits.antt =====
-- Runs of the rate limiter and of the queue.
use trace_runtime.Prelude.{◌+◌, ◌-◌, ◌*◌, ◌≤◌, String, ◌≡◌, refl, [], ◌∷◌, arith, List}
use trace_runtime.Prelude.Assoc.{get}
use trace_runtime.RateLimit.{
  RateLimiter, new_rate_limiter, one, handle, served, allow, admit, refill,
}
use trace_runtime.RateLimit.Bound.{arrive, tidy, Tick, spent, end, spent_bound}
use trace_runtime.RateLimit.Retry.{refused_then_served}
use trace_runtime.Queue.{Task}
use trace_runtime.Queue.Order.{put, take, replay, begin, Sound, replay-Sound}

abbrev ticks : List Tick
ticks =
    record { at = 5; act = arrive "10.0.0.1" }
    ∷ record { at = 6; act = arrive "10.0.0.1" }
    ∷ record { at = 7; act = tidy }
    ∷ []

spent_bound_example :
    spent "10.0.0.1" ticks (new_rate_limiter 10 20) ≤ 20 * one + (end 1 ticks - 1) * 10
spent_bound_example =
    spent_bound 10 20 "10.0.0.1" (omega arith) (omega arith) ticks 1
      (omega arith, (omega arith, (omega arith, tt)))

-- A limiter of one request a second, after its first request.
abbrev spent_limiter : RateLimiter
spent_limiter = record (new_rate_limiter 1 1) {
  clients = ("10.0.0.1", record { tokens = 0; last = 5 }) ∷ [];
}

refused_then_served_example :
    (handle (handle spent_limiter "/task" "10.0.0.1" 6).1 "/tasks" "10.0.0.1" 1000000006).0 ≡ served
refused_then_served_example =
    refused_then_served spent_limiter "/task" "/tasks" "10.0.0.1" 6 1000000006 1
      (unfold new_rate_limiter in omega arith) (unfold new_rate_limiter in omega arith)
      (unfold handle allow admit refill new_rate_limiter get in refl) (omega arith)

abbrev small : String → Task
small id = record { id = id; trace_id = "abc"; traceparent = ""; payload = "hello" }

replay-Sound_example :
    Sound 1 (replay (put (small "a") ∷ put (small "b") ∷ take ∷ put (small "c") ∷ []) (begin 1))
replay-Sound_example =
    replay-Sound 1 (put (small "a") ∷ put (small "b") ∷ take ∷ put (small "c") ∷ [])
