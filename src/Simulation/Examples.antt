-- ===== src/Simulation/Examples.antt =====
-- The theorems about internal/simulation at a new engine and a server that answers every request.
use traffic_backend_queue.Common.{refl, true, some, [], ◌∷◌, arith}
use traffic_backend_queue.Simulation.{Config, new_engine, Server, all_off}
use traffic_backend_queue.Simulation.Counts.{
  updates, sets_sale, ticks, play, Consistent, play-Consistent,
}

abbrev mixed : Config
mixed = record all_off { mixed_realistic = true; late_surge = true }

new_engine-Consistent : Consistent new_engine
unfolding new_engine
new_engine-Consistent = record {
  errors = omega arith;
  blocked = omega arith;
  least = omega arith;
  most = omega arith;
  mixed = refl;
}

-- Every request is answered 200 after five milliseconds, with a token.
abbrev fine : Server
fine request = record {
  response = some (record { status_code = 200; token = some "token" });
  latency_ms = 5;
}

play-Consistent_example : Consistent (
    play new_engine
      (sets_sale (some 1) ∷ updates mixed ∷ ticks fine mixed 1 0 ∷ ticks fine mixed 1 5 ∷ []))
play-Consistent_example =
    play-Consistent new_engine
      (sets_sale (some 1) ∷ updates mixed ∷ ticks fine mixed 1 0 ∷ ticks fine mixed 1 5 ∷ [])
      new_engine-Consistent
