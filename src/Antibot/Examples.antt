-- ===== src/Antibot/Examples.antt =====
-- The theorems about internal/antibot at concrete attempts.
use traffic_backend_queue.Common.{◌≡◌, refl, none, [], ◌∷◌, arith}
use traffic_backend_queue.Antibot.{Counters, user_checkout}
use traffic_backend_queue.Antibot.Windows.{allowed, allowed-Steady}

abbrev fresh : Counters
fresh kind id = none

allowed-Steady_example : allowed user_checkout 7 2 60 (0 ∷ 10 ∷ 20 ∷ 75 ∷ []) fresh ≡ 2
allowed-Steady_example =
    allowed-Steady user_checkout 7 2 60 0 (10 ∷ 20 ∷ 75 ∷ []) fresh refl (omega arith) (omega arith)
