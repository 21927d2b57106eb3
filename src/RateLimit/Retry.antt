-- ===== src/RateLimit/Retry.antt =====
-- The promise of the header Retry-After: 1, and what the limiter leaves alone.
use trace_runtime.Prelude.{
  string_eq, ℕ, ◌+◌, ◌-◌, ◌*◌, ◌≤◌, String, ◌≡◌, true, false, Option, some, eq_refl, arith, subst,
}
use native.Mathlib.Nat.{mul-le-mul}
use trace_runtime.Prelude.Assoc.{get, get-put}
use trace_runtime.RateLimit.{
  Client, RateLimiter, one, refill, admit, allow, served, too_many_requests, handle,
}

one-le : (rate elapsed : ℕ) → 1 ≤ rate → one ≤ elapsed → one ≤ elapsed * rate
one-le rate elapsed h k = omega (arith, mul-le-mul k h)

-- The client that a refusal leaves.
refused :
    (rate burst now : ℕ) (o : Option Client)
    → (admit rate burst now o).0 ≡ false
    → (admit rate burst now o).1.last ≡ now
unfolding admit
refused rate burst now o h = ground arith

admitted_later :
    (rate burst now : ℕ) (c : Client)
    → 1 ≤ rate
    → 1 ≤ burst
    → c.last + one ≤ now
    → (admit rate burst now (some c)).0 ≡ true
unfolding admit refill
admitted_later rate burst now c h k later =
    let enough : one ≤ (now - c.last) * rate = one-le rate (now - c.last) h (omega arith) in
    ground arith

handle-refused :
    (rl : RateLimiter) (path ip : String) (now n : ℕ)
    → (handle rl path ip now).0 ≡ too_many_requests n
    → (n ≡ 1) × ((allow rl ip now).0 ≡ false) × ((handle rl path ip now).1 ≡ (allow rl ip now).1)
unfolding handle
handle-refused rl path ip now n e = ground arith

handle-allowed :
    (rl : RateLimiter) (path ip : String) (now : ℕ)
    → (allow rl ip now).0 ≡ true
    → (handle rl path ip now).0 ≡ served
unfolding handle
handle-allowed rl path ip now e = ground arith

allow-again :
    (rl : RateLimiter) (ip : String) (now later : ℕ)
    → 1 ≤ rl.rate
    → 1 ≤ rl.burst
    → (allow rl ip now).0 ≡ false
    → now + one ≤ later
    → (allow (allow rl ip now).1 ip later).0 ≡ true
unfolding allow
allow-again rl ip now later h k e wait =
    rw (get-put, eq_refl)
      (admitted_later rl.rate rl.burst later (admit rl.rate rl.burst now (get rl.clients ip)).1 h k
        (omega (arith, refused rl.rate rl.burst now (get rl.clients ip) e)))

-- A client that was refused with `Retry-After: 1` is served if its next request comes a second
-- later or after that, on whatever path, provided that the rate and the burst are positive.
pub refused_then_served :
    (rl : RateLimiter) (path path' ip : String) (now later n : ℕ)
    → 1 ≤ rl.rate
    → 1 ≤ rl.burst
    → (handle rl path ip now).0 ≡ too_many_requests n
    → now + n * one ≤ later
    → (handle (handle rl path ip now).1 path' ip later).0 ≡ served
refused_then_served rl path path' ip now later n h k e wait =
    let (one_second, denied, left) = handle-refused rl path ip now n e in
    rw left (
      handle-allowed (allow rl ip now).1 path' ip later (
        allow-again rl ip now later h k denied
          (subst (λ x. now + x * one ≤ later) one_second wait)))
