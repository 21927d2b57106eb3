-- ===== src/RateLimit/Level.antt =====
-- What one client may still spend: its balance, refilled up to now; a full bucket, if it is not in
-- the map. How each operation of RateLimit moves that level.
use trace_runtime.Prelude.{
  string_eq, ℕ, ◌+◌, ◌-◌, ◌*◌, ◌≤◌, String, ◌≡◌, refl, Bool, true, false, not, Option, none, some,
  ◌==◌, eq_refl, arith, ltb→lt, Bool-cases, inl, inr,
}
use native.Mathlib.Nat.{mul-le-mul_right, add-mul}
use trace_runtime.Prelude.Assoc.{get, get-put, get-retain, kept, Distinct}
use trace_runtime.RateLimit.{
  Client, RateLimiter, one, full, refill, admit, allow, cleanup, idle_limit, is_idle,
}

-- The level of an entry of the map, found or not.
unfoldable pub level_of : ℕ → ℕ → ℕ → Option Client → ℕ
level_of rate burst now none = full burst
level_of rate burst now (some c) = refill rate burst c now

unfoldable pub level : RateLimiter → String → ℕ → ℕ
unfolding level_of
level rl ip now = level_of rl.rate rl.burst now (get rl.clients ip)

-- What an answer costs.
abbrev pub price : Bool → ℕ
price true = one
price false = 0

mul-le_of_le_add : (a b c r : ℕ) → a ≤ b + c → a * r ≤ b * r + c * r
mul-le_of_le_add a b c r h = omega (arith, mul-le-mul_right r h, add-mul b c r)

elapsed-le :
    (rate last now later : ℕ) → (later - last) * rate ≤ (now - last) * rate + (later - now) * rate
elapsed-le rate last now later =
    mul-le_of_le_add (later - last) (now - last) (later - now) rate (omega arith)

-- A second passing adds at most the rate.
pub refill-le :
    (rate burst now later : ℕ) (c : Client)
    → refill rate burst c later ≤ refill rate burst c now + (later - now) * rate
unfolding refill
refill-le rate burst now later c =
    let elapsed : (later - c.last) * rate ≤ (now - c.last) * rate + (later - now) * rate =
      elapsed-le rate c.last now later in
    ground arith

pub admit-level :
    (rate burst now : ℕ) (o : Option Client)
    → 1 ≤ burst
    → let (allowed, c) = admit rate burst now o in
      level_of rate burst now (some c) + price allowed ≡ level_of rate burst now o
unfolding admit level_of refill
admit-level rate burst now none h = ground arith
admit-level rate burst now (some c) h = ground arith

pub level-later :
    (rl : RateLimiter) (ip : String) (now later : ℕ)
    → level rl ip later ≤ level rl ip now + (later - now) * rl.rate
unfolding level
level-later rl ip now later = go (get rl.clients ip)
  where
    go :
        (o : Option Client)
        → level_of rl.rate rl.burst later o
          ≤ level_of rl.rate rl.burst now o + (later - now) * rl.rate
    go none = omega arith
    go (some c) = refill-le rl.rate rl.burst now later c

pub level-allow :
    (rl : RateLimiter) (ip : String) (now : ℕ)
    → 1 ≤ rl.burst
    → let (allowed, rl') = allow rl ip now in level rl' ip now + price allowed ≡ level rl ip now
unfolding level allow
level-allow rl ip now h =
    rw (get-put, eq_refl) (admit-level rl.rate rl.burst now (get rl.clients ip) h)

pub level-allow_other :
    (rl : RateLimiter) (ip j : String) (now : ℕ)
    → (ip == j) ≡ false
    → level (allow rl ip now).1 j now ≡ level rl j now
unfolding level allow
level-allow_other rl ip j now n = rw (get-put, n) refl

-- In the time after which `cleanup` drops a client, its bucket has filled up.
idle-full :
    (rate burst now : ℕ) (c : Client)
    → burst ≤ rate * 600
    → is_idle now c ≡ true
    → full burst ≤ (now - c.last) * rate
idle-full rate burst now c h e = omega (
  arith,
  ltb→lt (c.last + idle_limit) now e,
  mul-le-mul_right {m = idle_limit} {n = now - c.last} rate
      (omega (arith, ltb→lt (c.last + idle_limit) now e)),
)

kept-level :
    (rate burst now : ℕ) (ip : String) (o : Option Client)
    → burst ≤ rate * 600
    → level_of rate burst now (kept (λ _ c. not (is_idle now c)) ip o) ≤ level_of rate burst now o
unfolding level_of refill
kept-level rate burst now ip none h = omega arith
kept-level rate burst now ip (some c) h = elim (Bool-cases (is_idle now c)) [
  | inl e ↦ rw e (
      let refilled : full burst ≤ (now - c.last) * rate = idle-full rate burst now c h e in
      ground arith)
  | inr n ↦ rw n (omega arith)
]

pub level-cleanup :
    (rl : RateLimiter) (ip : String) (now : ℕ)
    → Distinct rl.clients
    → rl.burst ≤ rl.rate * 600
    → level (cleanup rl now) ip now ≤ level rl ip now
unfolding level cleanup
level-cleanup rl ip now d h =
    rw (get-retain (λ _ c. not (is_idle now c)) rl.clients ip d)
      (kept-level rl.rate rl.burst now ip (get rl.clients ip) h)
