-- ===== src/Orders/Examples.antt =====
-- The theorems about internal/orders at a concrete sale.
use traffic_backend_queue.Common.{◌≤◌, ℕ, ◌+◌, ◌≡◌, refl, [], ◌∷◌, length, count}
use traffic_backend_queue.Storage.{held, sold, active, Db, find_sale}
use traffic_backend_queue.Inventory.{update_status, fine, is_referenced}
use traffic_backend_queue.Inventory
use traffic_backend_queue.Inventory.Seats.{held_count, find_seat}
use traffic_backend_queue.Inventory.Examples.{hall, second_hold, seat}
use traffic_backend_queue.Orders.{
  Error, commit_failed, err, no_faults, fill_order, new_order, owned_count, checkout, find_order,
  insert_order, sell_seats,
}
use traffic_backend_queue.Orders.Filling.{fill_order-ok, issue, IsSold}
use traffic_backend_queue.Orders.Checkout.{checkout_fails}

abbrev draw : ℕ → ℕ
draw n = 900 + n

abbrev hash : ℕ → ℕ
hash user = user

-- The database after the statements for the second hold.
abbrev filled : Db
filled = record hall {
  seats =
      record (seat 10) { status = held }
      ∷ record (seat 11) { status = sold; version = 1 }
      ∷ seat 12
      ∷ [];
  orders = new_order 70 second_hold 0 ∷ [];
  tickets =
      record {
        id = 900;
        order_id = 70;
        sale_id = 1;
        user_id = 7;
        seat_id = 11;
        owner_hash = 7;
        status = active;
      }
      ∷ [];
}

fill_order-ok_example :
    (filled.orders ≡ new_order 70 second_hold 0 ∷ hall.orders)
    × (filled.holds ≡ hall.holds)
    × (length {A = ℕ} (900 ∷ []) ≡ length second_hold.seat_ids)
    × (filled.tickets ≡ issue 70 1 7 7 (900 ∷ []) second_hold.seat_ids hall.tickets)
    × (owned_count 1 7 filled.tickets ≡ owned_count 1 7 hall.tickets + length second_hold.seat_ids)
    × ((s : ℕ)
        → (held_count s filled.seats + count s second_hold.seat_ids ≡ held_count s hall.seats)
          × (count s second_hold.seat_ids ≡ 0 → find_seat s filled.seats ≡ find_seat s hall.seats)
          × (1 ≤ count s second_hold.seat_ids → IsSold s filled.seats))
unfolding fill_order insert_order sell_seats update_status
fill_order-ok_example = fill_order-ok no_faults draw 70 7 0 second_hold hall filled (900 ∷ []) refl

checkout_fails_example :
    (x : Error) × (checkout no_faults draw hash 100 70 1 7 0 41 hall ≡ (hall, err x))
unfolding find_order
checkout_fails_example = checkout_fails no_faults draw hash 100 70 1 7 0 41 hall refl

-- A valid checkout gets as far as the COMMIT.
valid_checkout : (checkout no_faults draw hash 100 70 1 7 0 41 hall).1 ≡ err commit_failed
unfolding checkout Inventory.delete_hold update_status find_sale
valid_checkout = refl
