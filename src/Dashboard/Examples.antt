-- ===== src/Dashboard/Examples.antt =====
-- The dashboard at a concrete waiting room.
use traffic_backend_queue.Common.{◌≡◌, refl, false, some, [], ◌∷◌}
use traffic_backend_queue.Storage.{QueueEntry, Store}
use traffic_backend_queue.Simulation.{Stats, new_engine}
use traffic_backend_queue.WaitingRoom.Examples.{room, entry}
use traffic_backend_queue.Dashboard.{live, Query, health_of, healthy, max_position}

abbrev admitted_entry : QueueEntry
admitted_entry = record entry { admitted_at = some 90 }

abbrev empty_room : Store
empty_room = record room { db = record (room.db) { queue_entries = [] } }

-- The queue is empty at the first read, and an entry is admitted by the third: one admitted entry is
-- shown in a queue of depth 0.
abbrev moments : Query → Store
moments Query.depth = empty_room
moments _ = record room { db = record (room.db) { queue_entries = admitted_entry ∷ [] } }

torn :
    let shown = live (λ q. false) 5 (λ q. 100) 1 new_engine moments in
    (shown.queue_depth ≡ 0) × (shown.admitted_count ≡ 1)
unfolding live max_position
torn = (refl, refl)

abbrev five_percent : Stats
five_percent = record {
  requests_total = 60;
  errors_total = 3;
  blocked_total = 0;
  last_latency_ms = 9;
}

-- One in twenty is not too many.
five_percent-healthy : health_of 5 five_percent ≡ healthy
unfolding health_of
five_percent-healthy = refl
