-- ===== src/Inventory/Examples.antt =====
-- The theorems about internal/inventory at a concrete sale.
use traffic_backend_queue.Common.{
  ℕ, zero, suc, ap, ◌+◌, ◌*◌, ◌≡◌, refl, ◌⊎◌, true, false, [], ◌∷◌, arith, List, sort_by, pos,
}
use traffic_backend_queue.Storage.{Sale, general_sale, Seat, available, held, Hold, Db, find_sale}
use traffic_backend_queue.Inventory.{
  fine, no_faults, hold, result_of, find_hold, update_status, is_referenced, ok, find_hold_by_key,
  active_holds,
}
use traffic_backend_queue.Inventory.Layout.{create_seats, IsLaidOut, IsInjective}
use traffic_backend_queue.Inventory.Layout.Rows.{create_seats-IsLaidOut}
use traffic_backend_queue.Inventory.Seats.{find_seat}
use traffic_backend_queue.Inventory.Claims.{Inv, hold-ok, Replayed, Taken, requested, claims}
use traffic_backend_queue.Inventory.Available.{list_available}
use traffic_backend_queue.Inventory.Holding.{hold_succeeds, listed_succeeds, UniqueSeats}
use traffic_backend_queue.Orders.History.{Call, releases, holds_seats, run}
use traffic_backend_queue.Inventory.Repeats.{hold_again, repeated}
use traffic_backend_queue.Inventory.Rounds.{rounds, rounds_release_all, expired_count}

abbrev pub sale : Sale
sale = record {
  id = 1;
  phase = general_sale;
  opens_at = 50;
  ends_at = 1000;
  max_tickets_per_user = 4;
  waiting_room_cap = 2;
  admit_per_minute = 60;
  total_seats = 10;
}

abbrev pub seat : ℕ → Seat
seat i = record { id = i; sale_id = 1; row_num = 1; seat_num = i; status = available; version = 0 }

abbrev pub first_hold : Hold
first_hold = record {
  id = 40;
  sale_id = 1;
  user_id = 6;
  seat_ids = 10 ∷ [];
  idempotency_key = 0;
  expires_at = 90;
}

abbrev pub second_hold : Hold
second_hold = record {
  id = 41;
  sale_id = 1;
  user_id = 7;
  seat_ids = 11 ∷ [];
  idempotency_key = 0;
  expires_at = 200;
}

-- Seats 10 and 11 are held, and seat 12 is available.
abbrev pub hall : Db
hall = record {
  users = 6 ∷ 7 ∷ 8 ∷ [];
  sales = sale ∷ [];
  seats = record (seat 10) { status = held } ∷ record (seat 11) { status = held } ∷ seat 12 ∷ [];
  queue_entries = [];
  pre_registrations = [];
  access_codes = [];
  holds = first_hold ∷ second_hold ∷ [];
  orders = [];
  tickets = [];
}

pub hall-Inv : Inv hall
unfolding find_hold find_seat claims
hall-Inv = record { claimed = λ s. ground arith; unique = (refl, (refl, tt)) }

hold-ok_example :
    Replayed no_faults 12 100 101 42 1 8 0
      (12 ∷ [])
      hall
      (result_of (requested no_faults 12 100 101 42 1 8 0 (12 ∷ []) hall))
      (hold no_faults 12 100 101 42 1 8 0 (12 ∷ []) hall).0
    ⊎ Taken no_faults 12 100 101 42 1 8 0
        (12 ∷ [])
        hall
        (result_of (requested no_faults 12 100 101 42 1 8 0 (12 ∷ []) hall))
        (hold no_faults 12 100 101 42 1 8 0 (12 ∷ []) hall).0
unfolding hold update_status find_hold find_sale
hold-ok_example =
    hold-ok no_faults 12 100 101 42 1 8 0 (12 ∷ []) hall
      (result_of (requested no_faults 12 100 101 42 1 8 0 (12 ∷ []) hall)) refl

-- A round of the worker, which releases the first hold, and a hold of its seat by the user 7.
abbrev between : List Call
between = releases false (λ id. fine) 107 ∷ holds_seats no_faults 12 107 108 44 1 7 0 (10 ∷ []) ∷ []

hold_again_example :
    hold no_faults 12 109 110 43 1 8 0
      (10 ∷ [])
      (run (hold no_faults 12 100 101 42 1 8 0 (12 ∷ []) hall).0 between)
    ≡ (
      run (hold no_faults 12 100 101 42 1 8 0 (12 ∷ []) hall).0 between,
      repeated 109 (result_of (requested no_faults 12 100 101 42 1 8 0 (12 ∷ []) hall)),
    )
unfolding hold update_status find_hold find_sale
hold_again_example =
    hold_again no_faults no_faults 12 100 101 42 12 109 110 43 1 8 0 (12 ∷ []) (10 ∷ []) hall
      (result_of (requested no_faults 12 100 101 42 1 8 0 (12 ∷ []) hall)) between hall-Inv refl
      (omega arith, (tt, tt)) (omega arith) (omega arith) refl

rounds_release_all_example : expired_count 95 (rounds (100 ∷ 150 ∷ []) hall).holds ≡ 0
unfolding is_referenced
rounds_release_all_example =
    rounds_release_all 95 150 (100 ∷ 150 ∷ []) hall (hall-Inv.unique, (refl, (refl, tt)))
      (omega arith) ((omega arith, omega arith), ((omega arith, omega arith), tt)) (omega arith)

-- An id for each row and number, odd beyond the row 0.
abbrev pub pair : ℕ → ℕ → ℕ
pair zero num = 2 * num
pair (suc row) num = 2 * pair row num + 1

abbrev pub draw : ℕ → ℕ → ℕ
draw row num = 20 + pair row num

pub draw-IsInjective : IsInjective draw
draw-IsInjective zero num zero num' e = (refl, omega (arith, e))
draw-IsInjective zero num (suc row') num' e = absurd (omega (arith, e))
draw-IsInjective (suc row) num zero num' e = absurd (omega (arith, e))
draw-IsInjective (suc row) num (suc row') num' e =
    let (same_row, same_num) = draw-IsInjective row num row' num' (omega (arith, e)) in
    (ap suc same_row, same_num)

-- The sale 2 gets three seats beside those of the sale 1.
create_seats-IsLaidOut_example :
    ((create_seats (λ row num. false) draw 2 3 hall.seats).1 ≡ true)
    × IsLaidOut 2 3 (create_seats (λ row num. false) draw 2 3 hall.seats).0
create_seats-IsLaidOut_example =
    create_seats-IsLaidOut draw 2 3 draw-IsInjective hall.seats
      (omega arith, (omega arith, (omega arith, tt)))
      (λ row num. (omega arith, (omega arith, (omega arith, tt))))

abbrev free_seats : List Seat
free_seats = seat 12 ∷ []

hall-UniqueSeats : UniqueSeats hall.seats
unfolding find_seat
hall-UniqueSeats = (refl, (refl, (refl, tt)))

listed_succeeds_example :
    (hold no_faults 12 100 101 42 1 8 0 (12 ∷ []) hall).1
    ≡ ok (result_of (requested no_faults 12 100 101 42 1 8 0 (12 ∷ []) hall))
unfolding list_available find_hold find_sale sort_by find_hold_by_key active_holds
listed_succeeds_example =
    listed_succeeds false (pos 200) 12 100 101 42 1 8 0 0 hall free_seats (seat 12) hall-UniqueSeats
      refl refl refl refl refl refl refl

hold_succeeds_example :
    (hold no_faults 12 100 101 42 1 8 0 (12 ∷ []) hall).1
    ≡ ok (result_of (requested no_faults 12 100 101 42 1 8 0 (12 ∷ []) hall))
unfolding find_hold find_sale find_seat find_hold_by_key active_holds
hold_succeeds_example =
    hold_succeeds 12 100 101 42 1 8 0 (12 ∷ []) hall (omega arith) (omega arith) (refl, tt)
      ((seat 12, refl, refl), tt) refl refl refl refl refl
