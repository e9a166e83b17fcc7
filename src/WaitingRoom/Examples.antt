-- ===== src/WaitingRoom/Examples.antt =====
-- The theorems about internal/waitingroom at a concrete sale.

use traffic_backend_queue.Common.{
  ◌-◌, ◌≡◌, refl, ◌||◌, leb, is_some, true, none, some, [], ◌∷◌, arith, List, if◌then◌else◌,
}
use traffic_backend_queue.Storage.{Sale, general_sale, QueueEntry, Store, find_sale, find_entry}
use traffic_backend_queue.Auth.{issue_admission_token}
use traffic_backend_queue.Auth.Toy.{toy, admission_payload}
use traffic_backend_queue.WaitingRoom.{no_faults, Status, status, position_taken}
use traffic_backend_queue.WaitingRoom.Entries.{Inv}
use traffic_backend_queue.WaitingRoom.Polls.{status-ok, window}
use traffic_backend_queue.WaitingRoom.Line.{line, enqueue_all, accepted, InOrder, run-line}
use traffic_backend_queue.WaitingRoom.History.{
  Call, joins, polls, advances, HasPlace, IsAdmitted, run, run-HasPlace, run-IsAdmitted,
}

abbrev pub sale : Sale
sale = record {
  id = 1;
  phase = general_sale;
  opens_at = 50;
  ends_at = 1000;
  max_tickets_per_user = 4;
  waiting_room_cap = 2;
  admit_per_minute = 60;
  total_seats = 10;
}

abbrev pub entry : QueueEntry
entry = record { sale_id = 1; user_id = 6; position = 1; joined_at = 60; admitted_at = none }

-- User 6 waits at position 1 of sale 1.
abbrev pub room : Store
room = record {
  db = record {
    users = 6 ∷ 7 ∷ 8 ∷ [];
    sales = sale ∷ [];
    seats = [];
    queue_entries = entry ∷ [];
    pre_registrations = [];
    access_codes = [];
    holds = [];
    orders = [];
    tickets = [];
  };
  redis = record {
    queue_seq = λ j. if leb j 1 then some 1 else none;
    next_admit = λ j. if leb j 1 then some 1 else none;
  };
}

pub room-Inv : Inv room
unfolding find_entry position_taken
room-Inv = record { in_range = omega arith; distinct = (refl, refl, tt) }

abbrev answer : Status
answer = record {
  position = 1;
  ahead_count = 0;
  estimated_wait_sec = 0;
  admitted = true;
  admission_token = some "token";
  retry_after_ms = 3000;
  message = "Refreshing does not change your place in line.";
}

-- User 7, whose token the stand-in can sign, waits at position 1.
abbrev pub room_seven : Store
room_seven = record room {
  db = record (room.db) { queue_entries = record entry { user_id = 7 } ∷ [] };
}

status-ok_example :
    (e : QueueEntry) × (find_entry 1 7 room_seven.db.queue_entries ≡ some e)
    × (answer.position ≡ e.position)
    × (answer.admitted ≡ (is_some e.admitted_at || leb e.position (window room_seven 1)))
    × (is_some answer.admission_token ≡ answer.admitted)
    × (answer.ahead_count ≡ e.position - window room_seven 1)
unfolding status toy issue_admission_token find_sale find_entry
status-ok_example =
    status-ok (toy admission_payload) no_faults "secret" 60 100 101 5 1 7 room_seven answer refl

abbrev pub calls : List Call
calls =
    joins no_faults 70 71 1 7
    ∷ polls no_faults "secret" 60 100 101 5 1 6
    ∷ advances 1 5
    ∷ joins no_faults 80 81 1 6
    ∷ []

run-HasPlace_example : HasPlace 1 6 1 (run (toy admission_payload) room calls)
unfolding find_entry
run-HasPlace_example = run-HasPlace (toy admission_payload) room calls 1 6 1 (entry, refl, refl)

run-IsAdmitted_example : IsAdmitted 1 6 (run (toy admission_payload) room calls)
unfolding find_entry
run-IsAdmitted_example = run-IsAdmitted (toy admission_payload) room calls 1 6 (entry, refl, refl)

run-line_example :
    (line 1 (run (toy admission_payload) room calls).db.queue_entries
      ≡ enqueue_all (line 1 room.db.queue_entries) (accepted (toy admission_payload) 1 room calls))
    × InOrder (run (toy admission_payload) room calls).db.queue_entries
run-line_example = run-line (toy admission_payload) 1 room calls room-Inv (tt, tt)
