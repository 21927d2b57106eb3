-- ===== src/Broker.antt =====
-- The SSE hub of the API, services/api/internal/event/broker.go, and one connection's handler on
-- it, services/api/internal/http/sse.go. The messages are of any type `M`.
pub mod Delivery
pub mod Streams
use trace_runtime.Prelude.{
  string_eq, ℕ, ◌+◌, String, Bool, true, false, not, ◌&&◌, Option, none, some, List, [], ◌∷◌, ◌++◌,
  ◌==◌, is_some, if◌then◌else◌, contains,
}
use trace_runtime.Prelude.Assoc.{get, put, remove}
use trace_runtime.Prelude.Channel.{try_send, receive}

pub record Broker (M : Type 0) : Type 0 where
  pub subscribers : List (String × List M)
  pub dropped_total : ℕ

-- make(chan []byte, 16)
abbrev pub buffer_size : ℕ
buffer_size = 16

module _ {M : Type 0} where
  unfoldable pub new_broker : Broker M
  new_broker = record { subscribers = []; dropped_total = 0 }

  unfoldable pub subscribe : Broker M → String → Broker M
  subscribe b id = record b { subscribers = put b.subscribers id [] }

  unfoldable pub unsubscribe : Broker M → String → Broker M
  unsubscribe b id =
      if is_some (get b.subscribers id)
      then record b { subscribers = remove b.subscribers id }
      else b

  -- What a subscriber's buffer becomes: a full one drops the message.
  unfoldable pub offer : M → List M → List M
  unfolding try_send
  offer msg ch = elim (try_send buffer_size ch msg) [ some ch' ↦ ch' | none ↦ ch ]

  unfoldable pub drops : M → List M → ℕ
  unfolding try_send
  drops msg ch = elim (try_send buffer_size ch msg) [ some ch' ↦ 0 | none ↦ 1 ]

  -- The loop of `Publish`.
  unfoldable pub fan_out : M → List (String × List M) → List (String × List M)
  unfolding offer
  fan_out msg [] = []
  fan_out msg ((id, ch) ∷ m) = (id, offer msg ch) ∷ fan_out msg m

  unfoldable pub drop_count : M → List (String × List M) → ℕ
  unfolding drops
  drop_count msg [] = 0
  drop_count msg ((id, ch) ∷ m) = drops msg ch + drop_count msg m

  unfoldable pub publish : Broker M → M → Broker M
  unfolding fan_out drop_count
  publish b msg = record {
    subscribers = fan_out msg b.subscribers;
    dropped_total = b.dropped_total + drop_count msg b.subscribers;
  }

  -- `case msg := <-ch` of a connection.
  unfoldable pub next : Broker M → String → Option M × Broker M
  next b id = elim (get b.subscribers id) [
    | none ↦ (none, b)
    | some ch ↦ elim (receive ch) [
      | none ↦ (none, b)
      | some (msg, rest) ↦ (some msg, record b { subscribers = put b.subscribers id rest })
    ]
  ]

unfoldable pub is_allowed_origin : String → List String → Bool
is_allowed_origin origin allowed = contains allowed origin

pub data Connection : Type 0 where
  refused streaming unsupported : Connection

-- The start of the handler of GET /events, up to its loop; `flushes` says whether the writer is a
-- Flusher. Where it is not, the deferred Unsubscribe runs at once.
unfoldable pub connect :
    {M : Type 0} (allowed : List String) (origin client_id : String) (flushes : Bool)
    → Broker M
    → Connection × Broker M
unfolding is_allowed_origin subscribe unsubscribe
connect allowed origin client_id flushes b =
    if not (origin == "") && not (is_allowed_origin origin allowed)
    then (refused, b)
    else if flushes
    then (streaming, subscribe b client_id)
    else (unsupported, unsubscribe (subscribe b client_id) client_id)
