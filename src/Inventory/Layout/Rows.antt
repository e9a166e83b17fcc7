-- ===== src/Inventory/Layout/Rows.antt =====
-- What CreateSeats of internal/inventory/service.go lays out.
use traffic_backend_queue.Common.{
  ℕ, zero, suc, ◌+◌, ◌-◌, ◌*◌, ◌/◌, ◌≡◌, ◌≢◌, ◌≤◌, ◌<◌, refl, ap, ==_refl, Bool, true, false, ◌&&◌,
  List, [], ◌∷◌, ◌==◌, if◌then◌else◌, ltb, arith, All, All-map, Bool-cases, inl, inr,
}
use mathlib.Core.Path.{subst}
use traffic_backend_queue.Storage.{Seat, available}
use traffic_backend_queue.Inventory.Layout.{
  per_row, has_seat, insert_seat, fill_row, fill_rows, create_seats, seat_count, place, IsLaidOut,
  AreNew, IsInjective,
}

module _ (draw : ℕ → ℕ → ℕ) (sale total : ℕ) (injective : IsInjective draw) where
  -- The seats after `n` places.
  abbrev At : ℕ → List Seat → Type 0
  At n seats = IsLaidOut sale n seats × AreNew draw n seats

  At-eq : (n m : ℕ) (seats : List Seat) → n ≡ m → At n seats → At m seats
  At-eq n m seats e h = subst (λ k. At k seats) e h

  not-has_seat :
      (row num n : ℕ) (seats : List Seat)
      → n < (row - 1) * per_row + num
      → All
          (λ x.
            x.sale_id ≡ sale
            → (x.status ≡ available)
              × (0 < x.row_num)
              × (0 < x.seat_num)
              × (x.seat_num ≤ per_row)
              × (place x ≤ n))
          seats
      → All (λ x. x.id ≢ draw row num) seats
      → has_seat sale row num (draw row num) seats ≡ false
  unfolding has_seat
  not-has_seat row num n [] lt h new = refl
  not-has_seat row num n (x ∷ xs) lt h new =
      let rest = not-has_seat row num n xs lt h.1 new.1 in
      let (first, ids) : (x.sale_id ≡ sale → place x ≤ n) × (x.id ≢ draw row num) =
        ((λ e. (h.0 e).4), new.0) in
      elim (Bool-cases (x.sale_id == sale && (x.row_num == row && x.seat_num == num))) [
        | inr b ↦ ground (arith, rest, ids)
        | inl b ↦
            let le = first (ground arith) in
            let same_row : x.row_num ≡ row = ground arith in
            let same_num : x.seat_num ≡ num = ground arith in
            absurd (omega (arith, le, lt, ap (λ (k : ℕ). (k - 1) * 50) same_row, same_num))
      ]

  insert_seat-At :
      (row num n : ℕ) (seats : List Seat)
      → 0 < row
      → 0 < num
      → num ≤ per_row
      → suc n ≡ (row - 1) * per_row + num
      → At n seats
      → At (suc n) (insert_seat sale row num (draw row num) seats)
  unfolding insert_seat seat_count
  insert_seat-At row num n seats r lo hi e ((count, all), new) =
      rw
        (
          not-has_seat row num n seats (omega (arith, e)) all (new row num (omega (arith, e))),
          insert_seat,
        )
        (
          (
            (omega (arith, ap {B = ℕ} (λ (b : Bool). if b then 1 else 0) (==_refl sale), count)),
            (
              (λ q. (refl, r, lo, hi, omega (arith, e))),
              All-map _ _ seats
                  (λ x h q. let (a, b, c, d, k) = h q in (a, b, c, d, omega (arith, k))) all,
            ),
          ),
          (λ row' num' lt. (
            (λ q.
                let (same_row, same_num) = injective row num row' num' q in
                omega (arith, lt, e, ap (λ (k : ℕ). (k - 1) * 50) same_row, same_num)),
            new row' num' (omega (arith, lt)),
          )),
        )

  abbrev never : ℕ → ℕ → Bool
  never row num = false

  -- Where a row stops: at the last place, or at its end.
  abbrev stop : ℕ → ℕ
  stop n = if ltb total (n + per_row) then total else n + per_row

  fill_row-At :
      (row num k b n : ℕ) (seats : List Seat)
      → 0 < row
      → b ≡ (row - 1) * per_row
      → 0 < num
      → num + k ≡ suc per_row
      → suc n ≡ b + num
      → n ≤ total
      → At n seats
      → ((fill_row never draw sale total row num k seats).1 ≡ true)
        × At (stop b) (fill_row never draw sale total row num k seats).0
  unfolding fill_row
  fill_row-At row num zero b n seats r eb lo ek en le h =
      (refl, At-eq n (stop b) seats (ground arith) h)
  fill_row-At row num (suc k) b n seats r eb lo ek en le h =
      elim (Bool-cases (ltb total ((row - 1) * per_row + num))) [
        | inl c ↦ rw (c, fill_row) ((refl, At-eq n (stop b) seats (ground (arith, eb)) h))
        | inr c ↦
            let more =
              insert_seat-At row num n seats r lo (omega (arith, ek)) (omega (arith, en, eb)) h in
            rw (c, fill_row)
              (fill_row-At row (num + 1) k b (suc n) (insert_seat sale row num (draw row num) seats)
                r eb (omega arith) (omega (arith, ek)) (omega (arith, en)) (ground (arith, eb))
                more)
      ]

  fill_rows-At :
      (row k n : ℕ) (seats : List Seat)
      → 0 < row
      → n ≡ (row - 1) * per_row
      → n ≤ total
      → total ≤ n + k * per_row
      → n + k * per_row ≤ total + 49
      → At n seats
      → ((fill_rows never draw sale total row k seats).1 ≡ true)
        × At total (fill_rows never draw sale total row k seats).0
  unfolding fill_rows
  fill_rows-At row zero n seats r en le up lo h = (refl, At-eq n total seats (omega arith) h)
  fill_rows-At row (suc k) n seats r en le up lo h =
      let (went, filled) =
        fill_row-At row 1 per_row n n seats r en (omega arith) (omega arith) (omega arith) le h in
      let seats' = (fill_row never draw sale total row 1 per_row seats).0 in
      elim (Bool-cases (ltb total (n + per_row))) [
        | inl c ↦
            let last : k ≡ 0 = ground arith in
            rw (went, last, fill_rows) ((refl, At-eq (stop n) total seats' (ground arith) filled))
        | inr c ↦
            rw (went, fill_rows)
              (fill_rows-At (row + 1) k (n + per_row) seats' (omega arith) (omega (arith, en))
                (ground arith) (omega arith) (omega arith)
                (At-eq (stop n) (n + per_row) seats' (ground arith) filled))
      ]

  seat_count-none : (seats : List Seat) → All (λ x. x.sale_id ≢ sale) seats → IsLaidOut sale 0 seats
  unfolding seat_count
  seat_count-none [] h = (refl, tt)
  seat_count-none (x ∷ xs) h =
      let (count, all) = seat_count-none xs h.1 in
      let ne = h.0 in (ground (arith, count, ne), ((λ q. absurd (ne q)), all))

  -- For a sale without seats, if no INSERT fails and the ids of the seats are new and different, as
  -- many seats are created as the sale is to have: all available, in rows of fifty, none past the
  -- last place.
  pub create_seats-IsLaidOut :
      (seats : List Seat)
      → All (λ x. x.sale_id ≢ sale) seats
      → ((row num : ℕ) → All (λ x. x.id ≢ draw row num) seats)
      → ((create_seats never draw sale total seats).1 ≡ true)
        × IsLaidOut sale total (create_seats never draw sale total seats).0
  unfolding create_seats
  create_seats-IsLaidOut seats none_yet new =
      let (went, (laid, _)) =
        fill_rows-At 1 ((total + per_row - 1) / per_row) 0 seats (omega arith) (omega arith)
          (omega arith) (omega arith) (omega arith)
          (seat_count-none seats none_yet, λ row num lt. new row num) in
      (went, laid)
