-- ===== src/AssertQueue/Examples.antt =====
-- The check of cmd/assert-queue at concrete rows.
use traffic_backend_queue.Common.{sort_by, insert_by, ◌≡◌, refl, List, [], ◌∷◌}
use traffic_backend_queue.AssertQueue.{Row, inversions, drops}

abbrev first : Row
first = record { position = 1; joined = 60; user_id = 6 }

abbrev second : Row
second = record { position = 2; joined = 71; user_id = 7 }

abbrev fair : List Row
fair = second ∷ first ∷ []

fair-inversions : inversions fair ≡ 0
unfolding inversions sort_by drops insert_by
fair-inversions = refl

-- The user who came later is ahead: each of the two passes finds it.
unfair-inversions :
    inversions (record second { position = 1 } ∷ record first { position = 2 } ∷ []) ≡ 2
unfolding inversions sort_by drops insert_by
unfair-inversions = refl
