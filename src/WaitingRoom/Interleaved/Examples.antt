-- ===== src/WaitingRoom/Interleaved/Examples.antt =====
-- The theorems about interleaved joins: the users 7 and 8 join the sale 1 at once.
use traffic_backend_queue.Common.{◌+◌, ◌≡◌, ◌≢◌, ◌<◌, refl, true, [], ◌∷◌, length, arith}
use traffic_backend_queue.Storage.{find_sale, find_entry}
use traffic_backend_queue.WaitingRoom.{
  ok, no_faults, sale_open_for_queue, take_position, position_taken, can_insert, insert_entry,
}
use traffic_backend_queue.WaitingRoom.Entries.{Inv, seq}
use traffic_backend_queue.WaitingRoom.Examples.{sale, room, room-Inv}
use traffic_backend_queue.WaitingRoom.History.{HasPlace}
use traffic_backend_queue.WaitingRoom.Interleaved.{
  Pc, reads_sale, reads_entry, reads_counter, takes_position, inserts, answered, advance, Slot,
  System, calls, Reach, here, next,
}
use traffic_backend_queue.WaitingRoom.Interleaved.Places.{Reach-Inv, Reach-HasPlace, Fresh}
use traffic_backend_queue.WaitingRoom.Interleaved.Capacity.{Reach-capacity}
use traffic_backend_queue.WaitingRoom.Interleaved.Race.{two, two_joins_race}
use traffic_backend_queue.AssertQueue.{inversions, rows_of}

abbrev first_at : Pc → Slot
first_at pc = record { sale = 1; user = 7; pc = pc }

-- The user 7 has taken the position 2, and the user 8 has made no call.
abbrev in_flight : System
in_flight = record {
  store = take_position 1 room;
  slots = first_at (inserts 2) ∷ record { sale = 1; user = 8; pc = reads_sale } ∷ [];
}

Reach-in_flight : Reach (two room 1 7 8) in_flight
unfolding advance take_position find_sale find_entry sale_open_for_queue
Reach-in_flight =
    next
      (next
        (next (next here (calls no_faults 70 71 0 (first_at reads_sale) refl refl))
          (calls no_faults 70 71 0 (first_at (reads_entry sale)) refl refl))
        (calls no_faults 70 71 0 (first_at (reads_counter sale)) refl refl))
      (calls no_faults 70 71 0 (first_at takes_position) refl refl)

two-Fresh : Fresh (two room 1 7 8).slots
two-Fresh = (refl, (refl, tt))

Reach-Inv_example : Inv in_flight.store
Reach-Inv_example = Reach-Inv room-Inv two-Fresh Reach-in_flight

Reach-capacity_example :
    seq in_flight.store 1 < sale.waiting_room_cap + length (two room 1 7 8).slots
unfolding find_sale
Reach-capacity_example =
    Reach-capacity 1 sale (omega arith) refl two-Fresh (omega arith) Reach-in_flight

-- The user 7 is answered, and the user 8 has made no call.
abbrev first_in : System
first_in = record {
  store = insert_entry 71 1 7 2 (take_position 1 room);
  slots = first_at (answered (ok (2, true))) ∷ record { sale = 1; user = 8; pc = reads_sale } ∷ [];
}

Reach-first_in : Reach (two room 1 7 8) first_in
unfolding advance take_position can_insert insert_entry position_taken find_entry
Reach-first_in = next Reach-in_flight (calls no_faults 70 71 0 (first_at (inserts 2)) refl refl)

Reach-HasPlace_example : HasPlace 1 7 2 first_in.store
Reach-HasPlace_example =
    Reach-HasPlace room-Inv two-Fresh Reach-first_in 0 (first_at (answered (ok (2, true)))) 2 true
      refl refl

two_joins_race_example :
    (z : System) × Reach (two room 1 7 8) z
    × (z.slots
        ≡ first_at (answered (ok (1 + 1, true)))
          ∷ record { sale = 1; user = 8; pc = answered (ok (1 + 2, true)) }
          ∷ [])
    × (seq z.store 1 ≡ 1 + 2)
    × (inversions (rows_of 1 z.store.db.queue_entries) ≢ 0)
unfolding find_sale find_entry sale_open_for_queue
two_joins_race_example =
    two_joins_race 70 71 72 1 7 8 1 room sale room-Inv refl refl (omega arith) refl refl refl refl
      refl (omega arith) (omega arith)
