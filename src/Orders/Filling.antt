-- ===== src/Orders/Filling.antt =====
-- The statements of `Checkout` of internal/orders/service.go up to the DELETE.
use traffic_backend_queue.Common.{
  ◌∙◌, ◌≤◌, ℕ, suc, ◌+◌, ◌≡◌, refl, some, List, [], ◌∷◌, ◌==◌, if◌then◌else◌, count, arith,
  Bool-cases, Option-cases, inl, inr, ◌⊎◌, length,
}
use traffic_backend_queue.Storage.{Ticket, sold, Seat, Hold, active, Db}
use traffic_backend_queue.Inventory.{update_status, held_in}
use traffic_backend_queue.Inventory.Seats.{find_seat, held_count, find_seat-update_status}
use traffic_backend_queue.Orders.{
  Error, Result, ok, err, Faults, owned_count, sell_seats, new_order, insert_order, fill_order,
}

pub Result-cases {ℓ} :
    {A : Type ℓ} (r : Result A) → ((e : Error) × (r ≡ err e)) ⊎ ((a : A) × (r ≡ ok a))
Result-cases (ok a) = inr (a, refl)
Result-cases (err e) = inl (e, refl)

-- The seat is in the table, and sold.
abbrev pub IsSold : ℕ → List Seat → Type 0
IsSold i seats = (x : Seat) × (find_seat i seats ≡ some x) × (x.status ≡ sold)

-- The tickets with an active one of the user for each seat put in front, in turn.
pub issue : (order sale user owner_hash : ℕ) → (ids is : List ℕ) → List Ticket → List Ticket
issue order sale user owner_hash (k ∷ ks) (i ∷ is) ts = issue order sale user owner_hash ks is (
    record {
      id = k;
      order_id = order;
      sale_id = sale;
      user_id = user;
      seat_id = i;
      owner_hash = owner_hash;
      status = active;
    }
    ∷ ts)
issue order sale user owner_hash _ _ ts = ts

-- One round of the loop that ends well.
abbrev pub after_sale : (ℕ → ℕ) → (order sale user owner_hash n i : ℕ) → List Seat → Db → Db
after_sale draw order sale user owner_hash n i seats d = record d {
  seats = seats;
  tickets =
      record {
        id = draw n;
        order_id = order;
        sale_id = sale;
        user_id = user;
        seat_id = i;
        owner_hash = owner_hash;
        status = active;
      }
      ∷ d.tickets;
}

module _ (f : Faults) (draw : ℕ → ℕ) (order sale user owner_hash : ℕ) where
  abbrev next : ℕ → ℕ → List Seat → Db → Db
  next = after_sale draw order sale user owner_hash

  sell_seats-cons :
      (n i : ℕ) (is : List ℕ) (d d' : Db) (ids : List ℕ)
      → sell_seats f draw order sale user owner_hash n (i ∷ is) d ≡ ok (d', ids)
      → (seats : List Seat) × (update_status i (held_in sale) sold d.seats ≡ some seats)
        × (rest : List ℕ) × (sell_seats f draw order sale user owner_hash
              (suc n)
              is
              (next n i seats d)
            ≡ ok (d', rest))
        × (ids ≡ draw n ∷ rest)
  unfolding sell_seats
  sell_seats-cons n i is d d' ids h = elim (Bool-cases (f.seat_update n)) [
    | inl b ↦ absurd (ground arith)
    | inr b ↦ elim (Option-cases (update_status i (held_in sale) sold d.seats)) [
      | inl e ↦ absurd (ground arith)
      | inr (seats, e) ↦
          elim (Result-cases
            (sell_seats f draw order sale user owner_hash (suc n) is (next n i seats d))) [
              | inl (x, q) ↦ absurd (ground arith)
              | inr ((d'', rest), q) ↦ (seats, e, rest, ground arith, ground arith)
            ]
    ]
  ]

  -- The loop leaves the orders and the holds alone.
  sell_seats-orders :
      (n : ℕ) (is : List ℕ) (d d' : Db) (ids : List ℕ)
      → sell_seats f draw order sale user owner_hash n is d ≡ ok (d', ids)
      → (d'.orders ≡ d.orders) × (d'.holds ≡ d.holds) × (length ids ≡ length is)
  unfolding sell_seats
  sell_seats-orders n [] d d' ids h = ground arith
  sell_seats-orders n (i ∷ is) d d' ids h =
      let (seats, e, rest, q, r) = sell_seats-cons n i is d d' ids h in
      let (a, b, c) = sell_seats-orders (suc n) is (next n i seats d) d' rest q in
      (a, b, ground arith)

  held_count-sell :
      (i j : ℕ) (seats seats' : List Seat)
      → update_status i (held_in sale) sold seats ≡ some seats'
      → held_count j seats' + (if i == j then 1 else 0) ≡ held_count j seats
  held_count-sell i j seats seats' h =
      let (x, found, t, same) = find_seat-update_status i (held_in sale) sold j seats seats' h in
      ground (arith, x, found, t, same)

  -- Every seat that the loop sells was held, once for each time that it is listed.
  sell_seats-held_count :
      (j n : ℕ) (is : List ℕ) (d d' : Db) (ids : List ℕ)
      → sell_seats f draw order sale user owner_hash n is d ≡ ok (d', ids)
      → held_count j d'.seats + count j is ≡ held_count j d.seats
  unfolding sell_seats
  sell_seats-held_count j n [] d d' ids h = ground arith
  sell_seats-held_count j n (i ∷ is) d d' ids h =
      let (seats, e, rest, q, r) = sell_seats-cons n i is d d' ids h in
      omega (
        arith,
        sell_seats-held_count j (suc n) is (next n i seats d) d' rest q,
        held_count-sell i j d.seats seats e,
      )

  owned_count-next :
      (n i : ℕ) (seats : List Seat) (d : Db)
      → owned_count sale user (next n i seats d).tickets ≡ owned_count sale user d.tickets + 1
  unfolding owned_count
  owned_count-next n i seats d = ground arith

  sell_seats-owned_count :
      (n : ℕ) (is : List ℕ) (d d' : Db) (ids : List ℕ)
      → sell_seats f draw order sale user owner_hash n is d ≡ ok (d', ids)
      → owned_count sale user d'.tickets ≡ owned_count sale user d.tickets + length is
  unfolding sell_seats
  sell_seats-owned_count n [] d d' ids h = ground arith
  sell_seats-owned_count n (i ∷ is) d d' ids h =
      let (seats, e, rest, q, r) = sell_seats-cons n i is d d' ids h in
      omega (
        arith,
        sell_seats-owned_count (suc n) is (next n i seats d) d' rest q,
        owned_count-next n i seats d,
      )

  -- A seat that the loop does not list is left as it is, and one that it lists is sold.
  sell_seats-find_seat :
      (j n : ℕ) (is : List ℕ) (d d' : Db) (ids : List ℕ)
      → sell_seats f draw order sale user owner_hash n is d ≡ ok (d', ids)
      → (count j is ≡ 0 → find_seat j d'.seats ≡ find_seat j d.seats)
        × (1 ≤ count j is → IsSold j d'.seats)
  unfolding sell_seats
  sell_seats-find_seat j n [] d d' ids h = ((λ z. ground arith), (λ lt. absurd (omega (arith, lt))))
  sell_seats-find_seat j n (i ∷ is) d d' ids h =
      let (seats, e, rest, q, r) = sell_seats-cons n i is d d' ids h in
      let (x, found, t, same) = find_seat-update_status i (held_in sale) sold j d.seats seats e in
      let (left, later) = sell_seats-find_seat j (suc n) is (next n i seats d) d' rest q in
      elim (Bool-cases (i == j)) [
        | inl hit ↦ (
          (λ z. absurd (ground (arith, hit, z))),
          (λ lt. elim (Bool-cases (count j is == 0)) [
            | inl once ↦ (
              record x { status = sold; version = x.version + 1 },
              left (ground (arith, once)) ∙ ground (arith, same, hit),
              refl,
            )
            | inr more ↦ later (ground (arith, more))
          ]),
        )
        | inr miss ↦ (
          (λ z. left (ground (arith, miss, z)) ∙ ground (arith, same, miss)),
          (λ lt. later (ground (arith, miss, lt))),
        )
      ]

  sell_seats-tickets :
      (n : ℕ) (is : List ℕ) (d d' : Db) (ids : List ℕ)
      → sell_seats f draw order sale user owner_hash n is d ≡ ok (d', ids)
      → d'.tickets ≡ issue order sale user owner_hash ids is d.tickets
  unfolding sell_seats issue
  sell_seats-tickets n [] d d' ids h = ground arith
  sell_seats-tickets n (i ∷ is) d d' ids h =
      let (seats, e, rest, q, r) = sell_seats-cons n i is d d' ids h in
      sell_seats-tickets (suc n) is (next n i seats d) d' rest q ∙ ground (arith, r)

pub fill_order_parts :
    (f : Faults) (draw : ℕ → ℕ) (order owner_hash key : ℕ) (h : Hold) (d d' : Db) (ids : List ℕ)
    → fill_order f draw order owner_hash key h d ≡ ok (d', ids)
    → sell_seats f draw order h.sale_id h.user_id owner_hash 0 h.seat_ids
        (record d { orders = new_order order h key ∷ d.orders })
      ≡ ok (d', ids)
unfolding fill_order insert_order
fill_order_parts f draw order owner_hash key h d d' ids e = ground arith

-- Where the statements up to the DELETE succeed, they add one confirmed order for the hold. Every seat
-- of the hold, each of which was held, is sold and no longer held, and every other seat is left as it
-- is. For the seats of the hold, in their order, they add one active ticket each, of the user, the sale
-- and the order, with the ids that are returned: so the user owns that many tickets more.
pub fill_order-ok :
    (f : Faults) (draw : ℕ → ℕ) (order owner_hash key : ℕ) (h : Hold) (d d' : Db) (ids : List ℕ)
    → fill_order f draw order owner_hash key h d ≡ ok (d', ids)
    → (d'.orders ≡ new_order order h key ∷ d.orders)
      × (d'.holds ≡ d.holds)
      × (length ids ≡ length h.seat_ids)
      × (d'.tickets ≡ issue order h.sale_id h.user_id owner_hash ids h.seat_ids d.tickets)
      × (owned_count h.sale_id h.user_id d'.tickets
          ≡ owned_count h.sale_id h.user_id d.tickets + length h.seat_ids)
      × ((seat : ℕ)
          → (held_count seat d'.seats + count seat h.seat_ids ≡ held_count seat d.seats)
            × (count seat h.seat_ids ≡ 0 → find_seat seat d'.seats ≡ find_seat seat d.seats)
            × (1 ≤ count seat h.seat_ids → IsSold seat d'.seats))
fill_order-ok f draw order owner_hash key h d d' ids e =
    let mid = record d { orders = new_order order h key ∷ d.orders } in
    let q = fill_order_parts f draw order owner_hash key h d d' ids e in
    let (a, b, c) =
      sell_seats-orders f draw order h.sale_id h.user_id owner_hash 0 h.seat_ids mid d' ids q in
    (
      a,
      b,
      c,
      sell_seats-tickets f draw order h.sale_id h.user_id owner_hash 0 h.seat_ids mid d' ids q,
      sell_seats-owned_count f draw order h.sale_id h.user_id owner_hash 0 h.seat_ids mid d' ids q,
      λ seat.
          let (others, sales) =
            sell_seats-find_seat f draw order h.sale_id h.user_id owner_hash seat 0 h.seat_ids mid
              d' ids q in
          (
            sell_seats-held_count f draw order h.sale_id h.user_id owner_hash seat 0 h.seat_ids mid
                d' ids q,
            others,
            sales,
          ),
    )
