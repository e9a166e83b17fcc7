-- ===== src/Inventory/Layout.antt =====
-- CreateSeats of internal/inventory/service.go: rows of fifty seats. `draw` gives the ids.
pub mod Rows
use traffic_backend_queue.Common.{
  ℕ, zero, suc, ◌+◌, ◌-◌, ◌*◌, ◌/◌, ◌≡◌, ◌≢◌, ◌≤◌, ◌<◌, refl, ap, ==_refl, Bool, true, false, ◌&&◌,
  ◌||◌, List, [], ◌∷◌, ◌==◌, if◌then◌else◌, ltb, arith, All, All-map, Bool-cases, inl, inr,
}
use mathlib.Core.Path.{subst}
use traffic_backend_queue.Storage.{Seat, SeatStatus, available}

abbrev pub per_row : ℕ
per_row = 50

-- UNIQUE (sale_id, section, row_num, seat_num), and the primary key.
pub has_seat : (sale row num id : ℕ) → List Seat → Bool
has_seat sale row num id [] = false
has_seat sale row num id (x ∷ xs) =
    (x.id == id)
    || (x.sale_id == sale && (x.row_num == row && x.seat_num == num))
    || has_seat sale row num id xs

-- INSERT INTO seats … ON CONFLICT DO NOTHING
unfoldable pub insert_seat : (sale row num id : ℕ) → List Seat → List Seat
unfolding has_seat
insert_seat sale row num id seats =
    if has_seat sale row num id seats
    then seats
    else record {
      id = id;
      sale_id = sale;
      row_num = row;
      seat_num = num;
      status = available;
      version = 0;
    }
      ∷ seats

module _ (fails : ℕ → ℕ → Bool) (draw : ℕ → ℕ → ℕ) (sale total : ℕ) where
  -- The inner loop, with `k` rounds left: the seats, and whether every INSERT went well.
  pub fill_row : (row num k : ℕ) → List Seat → List Seat × Bool
  fill_row row num zero seats = (seats, true)
  fill_row row num (suc k) seats =
      let rest = fill_row row (num + 1) k (insert_seat sale row num (draw row num) seats) in
      if ltb total ((row - 1) * per_row + num)
      then (seats, true)
      else if fails row num
      then (seats, false)
      else rest

  pub fill_rows : (row k : ℕ) → List Seat → List Seat × Bool
  unfolding fill_row
  fill_rows row zero seats = (seats, true)
  fill_rows row (suc k) seats =
      let (seats', went_well) = fill_row row 1 per_row seats in
      let rest = fill_rows (row + 1) k seats' in if went_well then rest else (seats', false)

  unfoldable pub create_seats : List Seat → List Seat × Bool
  unfolding fill_rows
  create_seats seats = fill_rows 1 ((total + per_row - 1) / per_row) seats

-- How many seats a sale has.
pub seat_count : ℕ → List Seat → ℕ
seat_count sale [] = 0
seat_count sale (x ∷ xs) = (if x.sale_id == sale then 1 else 0) + seat_count sale xs

-- The place of a seat in the order of the loops, from 1.
abbrev pub place : Seat → ℕ
place x = (x.row_num - 1) * per_row + x.seat_num

-- The sale has `n` seats, all available, fifty to a row, at places up to `n`.
abbrev pub IsLaidOut : ℕ → ℕ → List Seat → Type 0
IsLaidOut sale n seats =
    (seat_count sale seats ≡ n)
    × All
        (λ x.
          x.sale_id ≡ sale
          → (x.status ≡ available)
            × (0 < x.row_num)
            × (0 < x.seat_num)
            × (x.seat_num ≤ per_row)
            × (place x ≤ n))
        seats

-- No seat has an id that is drawn for a place after `n`.
abbrev pub AreNew : (ℕ → ℕ → ℕ) → ℕ → List Seat → Type 0
AreNew draw n seats =
    (row num : ℕ) → n < (row - 1) * per_row + num → All (λ x. x.id ≢ draw row num) seats

-- No id is drawn twice: the ids are random UUIDs.
abbrev pub IsInjective : (ℕ → ℕ → ℕ) → Type 0
IsInjective draw =
    (row num row' num' : ℕ) → draw row num ≡ draw row' num' → (row ≡ row') × (num ≡ num')
