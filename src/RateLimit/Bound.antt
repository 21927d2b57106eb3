-- ===== src/RateLimit/Bound.antt =====
-- The promise of the rate limiter: no client gets more than its burst and what the rate adds.
use trace_runtime.Prelude.{
  string_eq, ℕ, ◌+◌, ◌-◌, ◌*◌, ◌≤◌, String, ◌≡◌, refl, Bool, false, List, [], ◌∷◌, ◌==◌, eq_iff,
  arith, if◌then◌else◌, Bool-cases, inl, inr, subst,
}
use native.Mathlib.Nat.{add-mul}
use trace_runtime.Prelude.Assoc.{get, Distinct, Distinct-put, Distinct-retain}
use trace_runtime.RateLimit.{RateLimiter, one, new_rate_limiter, allow, cleanup}
use trace_runtime.RateLimit.Level.{
  level, level_of, price, level-later, level-allow, level-allow_other, level-cleanup,
}

-- What happens to the limiter: a request of a client, or a round of `cleanup`.
pub data Act : Type 0 where
  arrive : String → Act
  tidy : Act

pub record Tick : Type 0 where
  pub at : ℕ
  pub act : Act

-- The answer, if it is one to `ip`, and the limiter after it.
serve : String → Act → ℕ → RateLimiter → Bool × RateLimiter
serve ip (arrive j) now rl =
    let (allowed, rl') = allow rl j now in (if j == ip then allowed else false, rl')
serve ip tidy now rl = (false, cleanup rl now)

-- What the client `ip` has spent at the end of a history, in billionths of a token.
unfoldable pub spent : String → List Tick → RateLimiter → ℕ
unfolding serve
spent ip [] rl = 0
spent ip (t ∷ ts) rl =
    let (allowed, rl') = serve ip t.act t.at rl in price allowed + spent ip ts rl'

abbrev pub end : ℕ → List Tick → ℕ
end now [] = now
end now (t ∷ ts) = end t.at ts

-- The clock does not go back.
abbrev pub Ascending : ℕ → List Tick → Type 0
Ascending now [] = Unit
Ascending now (t ∷ ts) = (now ≤ t.at) × Ascending t.at ts

le-end : (now : ℕ) (ts : List Tick) → Ascending now ts → now ≤ end now ts
le-end now [] h = omega arith
le-end now (t ∷ ts) h = omega (arith, h.0, le-end t.at ts h.1)

split_mul : (a b c r : ℕ) → a + b ≡ c → a * r + b * r ≡ c * r
split_mul a b c r e = rw (← e) (omega (arith, add-mul a b r))

-- What the operations keep.
record Sound (rate burst : ℕ) (rl : RateLimiter) : Type 0 where
  same_rate : rl.rate ≡ rate
  same_burst : rl.burst ≡ burst
  distinct : Distinct rl.clients

module _ (rate burst : ℕ) (ip : String) (positive : 1 ≤ burst) (refills : burst ≤ rate * 600) where
  serve-Sound :
      (a : Act) (now : ℕ) (rl : RateLimiter)
      → Sound rate burst rl
      → Sound rate burst (serve ip a now rl).1
  unfolding serve allow cleanup
  serve-Sound (arrive j) now rl s = record {
    same_rate = s.same_rate;
    same_burst = s.same_burst;
    distinct = Distinct-put rl.clients j _ s.distinct;
  }
  serve-Sound tidy now rl s = record {
    same_rate = s.same_rate;
    same_burst = s.same_burst;
    distinct = Distinct-retain _ rl.clients s.distinct;
  }

  serve-level :
      (a : Act) (now : ℕ) (rl : RateLimiter)
      → Sound rate burst rl
      → level (serve ip a now rl).1 ip now + price (serve ip a now rl).0 ≤ level rl ip now
  unfolding serve
  serve-level (arrive j) now rl s = elim (Bool-cases (j == ip)) [
    | inl e ↦
        rw (e, (eq_iff j ip).0 e) (omega (arith, level-allow rl ip now (rw s.same_burst positive)))
    | inr n ↦ rw n (omega (arith, level-allow_other rl j ip now n))
  ]
  serve-level tidy now rl s =
      omega (arith, level-cleanup rl ip now s.distinct (rw (s.same_burst, s.same_rate) refills))

  spent-le :
      (ts : List Tick) (now : ℕ) (rl : RateLimiter)
      → Sound rate burst rl
      → Ascending now ts
      → spent ip ts rl ≤ level rl ip now + (end now ts - now) * rate
  unfolding spent
  spent-le [] now rl s h = omega arith
  spent-le (t ∷ ts) now rl s h = omega (
    arith,
    spent-le ts t.at (serve ip t.act t.at rl).1 (serve-Sound t.act t.at rl s) h.1,
    serve-level t.act t.at rl s,
    later-rate s,
    split_mul (t.at - now) (end t.at ts - t.at) (end t.at ts - now) rate
        (omega (arith, le-end t.at ts h.1)),
  )
    where
      later-rate : Sound rate burst rl → level rl ip t.at ≤ level rl ip now + (t.at - now) * rate
      later-rate s' =
          subst (λ x. level rl ip t.at ≤ level rl ip now + (t.at - now) * x) s'.same_rate
            (level-later rl ip now t.at)

  -- Whatever requests all clients send, at whatever times, and whenever `cleanup` runs: the requests
  -- of one client that are allowed cost no more than the burst and what the rate adds in the time
  -- that passed. The burst must be positive, and be refilled within ten minutes.
  pub spent_bound :
      (ts : List Tick) (start : ℕ)
      → Ascending start ts
      → spent ip ts (new_rate_limiter rate burst) ≤ burst * one + (end start ts - start) * rate
  unfolding new_rate_limiter level level_of get
  spent_bound ts start h =
      spent-le ts start (new_rate_limiter rate burst)
        (record { same_rate = refl; same_burst = refl; distinct = tt }) h
