-- ===== src/RateLimit.antt =====
-- The token bucket of services/api/internal/http/ratelimit.go. A balance is a float of tokens in
-- the source; here it is a whole number of billionths of a token, and a time is in nanoseconds, so
-- that the product of an elapsed time and a rate is exact. Times are readings of Go's monotonic
-- clock. The burst is taken to be at least 1 where a theorem says so: the source would start a
-- client of a smaller burst below zero.
mod Level
pub mod Bound
pub mod Retry
use trace_runtime.Prelude.{
  string_eq, ℕ, ◌+◌, ◌-◌, ◌*◌, String, Bool, true, false, not, ◌||◌, Option, none, some, List, [],
  ◌∷◌, ◌==◌, ltb, if◌then◌else◌,
}
use trace_runtime.Prelude.Assoc.{get, put, retain}

pub record Client : Type 0 where
  pub tokens : ℕ
  pub last : ℕ

pub record RateLimiter : Type 0 where
  pub clients : List (String × Client)
  pub rate : ℕ
  pub burst : ℕ

-- One token, and one second.
abbrev pub one : ℕ
one = 1000000000

abbrev pub full : ℕ → ℕ
full burst = burst * one

unfoldable pub new_rate_limiter : ℕ → ℕ → RateLimiter
new_rate_limiter rps burst = record { clients = []; rate = rps; burst = burst }

-- The balance with what `elapsed` adds, capped at the burst.
unfoldable pub refill : ℕ → ℕ → Client → ℕ → ℕ
refill rate burst c now =
    let tokens = c.tokens + (now - c.last) * rate in
    if ltb (full burst) tokens then full burst else tokens

-- What `allow` answers, and the client that it leaves, from the client that it finds.
unfoldable pub admit : ℕ → ℕ → ℕ → Option Client → Bool × Client
unfolding refill
admit rate burst now none = (true, record { tokens = full burst - one; last = now })
admit rate burst now (some c) =
    let tokens = refill rate burst c now in
    if ltb tokens one
    then (false, record { tokens = tokens; last = now })
    else (true, record { tokens = tokens - one; last = now })

unfoldable pub allow : RateLimiter → String → ℕ → Bool × RateLimiter
allow rl ip now =
    let (allowed, c) = admit rl.rate rl.burst now (get rl.clients ip) in
    (allowed, record rl { clients = put rl.clients ip c })

-- Ten minutes.
abbrev pub idle_limit : ℕ
idle_limit = 600 * one

abbrev pub is_idle : ℕ → Client → Bool
is_idle now c = ltb (c.last + idle_limit) now

-- One round of the loop in `cleanup`, at `now`.
unfoldable pub cleanup : RateLimiter → ℕ → RateLimiter
cleanup rl now = record rl { clients = retain (λ _ c. not (is_idle now c)) rl.clients }

pub data Reply : Type 0 where
  -- The next handler runs.
  served : Reply
  -- 429 with the header Retry-After, in seconds.
  too_many_requests : (retry_after : ℕ) → Reply

unfoldable pub handle : RateLimiter → (path ip : String) → ℕ → Reply × RateLimiter
handle rl path ip now =
    if path == "/health" || path == "/metrics"
    then (served, rl)
    else (let (allowed, rl') = allow rl ip now in
        if allowed then (served, rl') else (too_many_requests 1, rl'))
