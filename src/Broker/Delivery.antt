-- ===== src/Broker/Delivery.antt =====
-- What one Publish of Broker does to every subscriber, and to the count of dropped messages.
use trace_runtime.Prelude.{
  string_eq, ℕ, suc, ◌+◌, String, ◌≡◌, refl, Option, none, some, List, [], ◌∷◌, length,
  length-append, arith,
}
use trace_runtime.Prelude.Assoc.{get}
use trace_runtime.Broker.{Broker, offer, drops, fan_out, drop_count, publish}

module _ {M : Type 0} where
  abbrev pub offered : M → Option (List M) → Option (List M)
  offered msg none = none
  offered msg (some ch) = some (offer msg ch)

  pub get-fan_out :
      (msg : M) (m : List (String × List M)) (id : String)
      → get (fan_out msg m) id ≡ offered msg (get m id)
  unfolding get fan_out
  get-fan_out msg [] id = refl
  get-fan_out msg ((j, ch) ∷ m) id = ground (arith, get-fan_out msg m id)

  -- All that waits in the buffers.
  unfoldable pub waiting : List (String × List M) → ℕ
  waiting [] = 0
  waiting ((id, ch) ∷ m) = length ch + waiting m

  offer-drops : (msg : M) (ch : List M) → length (offer msg ch) + drops msg ch ≡ suc (length ch)
  unfolding offer drops
  offer-drops msg ch = ground (arith, length-append ch (msg ∷ []))

  fan_out_count :
      (msg : M) (m : List (String × List M))
      → waiting (fan_out msg m) + drop_count msg m ≡ waiting m + length m
  unfolding waiting fan_out drop_count
  fan_out_count msg [] = refl
  fan_out_count msg ((id, ch) ∷ m) = omega (arith, offer-drops msg ch, fan_out_count msg m)

  -- A Publish gives each subscriber one message, in its buffer or in the count of dropped messages:
  -- together these grow by the number of subscribers.
  pub publish_conserves :
      (b : Broker M) (msg : M)
      → waiting (publish b msg).subscribers + (publish b msg).dropped_total
        ≡ waiting b.subscribers + b.dropped_total + length b.subscribers
  unfolding publish
  publish_conserves b msg = omega (arith, fan_out_count msg b.subscribers)
