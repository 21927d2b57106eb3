-- ===== src/Examples/Streams.antt =====
-- Runs of the hub.
use trace_runtime.Prelude.{ℕ, List, [], ◌∷◌}
use trace_runtime.Broker.{Broker}
use trace_runtime.Broker.Streams.{Act, announce, read, play, open_stream, Sound, stream_in_order}

abbrev two_clients : Broker ℕ
two_clients = record { subscribers = ("a", 1 ∷ []) ∷ ("b", []) ∷ []; dropped_total = 3 }

abbrev acts : List (Act ℕ)
acts = announce 4 ∷ read "a" ∷ announce 5 ∷ read "b" ∷ []

stream_in_order_example : Sound "b" (play "b" acts (open_stream two_clients "b"))
stream_in_order_example = stream_in_order two_clients "b" acts
