-- ===== src/Orders.antt =====
-- internal/orders/service.go: the checkout of a hold. UUIDs are drawn by the caller, `owner_hash` is
-- the digest of the user's id, and `db_now` is the clock of the database.
pub mod Filling
pub mod Checkout
pub mod History
pub mod Stats
pub mod Examples
use traffic_backend_queue.Common.{
  ℕ, suc, ◌+◌, ◌*◌, Bool, true, false, ◌&&◌, ◌||◌, not, Option, none, some, List, [], ◌∷◌, ltb,
  ◌==◌, if◌then◌else◌, is_some, length, select,
}
use traffic_backend_queue.Storage.{
  SeatStatus, sold, Hold, Order, OrderStatus, confirmed, Ticket, TicketStatus, active, Db, Sale,
  find_sale,
}
use traffic_backend_queue.Inventory.{update_status, held_in, delete_hold}

pub data Error : Type 0 where
  ticket_cap_reached transfer_blocked hold_not_found seat_unavailable query_failed begin_failed
        insert_failed commit_failed :
      Error

pub data Result {ℓ} (A : Type ℓ) : Type ℓ where
  ok : A → Result A
  err : Error → Result A

pub record CheckoutResult : Type 0 where
  pub order_id : ℕ
  pub ticket_ids : List ℕ
  pub status : OrderStatus

-- Which of the calls to the database fail; for the seats by the round of the loop.
pub record Faults : Type 0 where
  pub existing_query : Bool
  pub max_query : Bool
  pub owned_query : Bool
  pub hold_query : Bool
  pub begin : Bool
  pub order_insert : Bool
  pub seat_update : ℕ → Bool
  pub ticket_insert : ℕ → Bool
  pub delete : Bool
  pub commit : Bool

abbrev pub no_faults : Faults
no_faults = record {
  existing_query = false;
  max_query = false;
  owned_query = false;
  hold_query = false;
  begin = false;
  order_insert = false;
  seat_update = λ i. false;
  ticket_insert = λ i. false;
  delete = false;
  commit = false;
}

-- UNIQUE (sale_id, user_id, idempotency_key)
pub find_order : ℕ → ℕ → ℕ → List Order → Option Order
find_order sale user key [] = none
find_order sale user key (o ∷ os) =
    if o.sale_id == sale && o.user_id == user && o.idempotency_key == key
    then some o
    else find_order sale user key os

pub order_id_taken : ℕ → List Order → Bool
order_id_taken id [] = false
order_id_taken id (o ∷ os) = o.id == id || order_id_taken id os

-- WHERE id = $1 AND user_id = $2 AND sale_id = $3 AND expires_at > NOW()
pub find_valid_hold : ℕ → ℕ → ℕ → ℕ → List Hold → Option Hold
find_valid_hold db_now id user sale [] = none
find_valid_hold db_now id user sale (h ∷ hs) =
    if h.id == id && h.user_id == user && h.sale_id == sale && ltb db_now h.expires_at
    then some h
    else find_valid_hold db_now id user sale hs

abbrev pub max_of : Option Sale → ℕ
max_of none = 0
max_of (some s) = s.max_tickets_per_user

-- A failed query or a missing sale leaves the limit at 0, which stands for 4.
pub max_per_user : Faults → ℕ → Db → ℕ
max_per_user f sale d =
    let n = if f.max_query then 0 else max_of (find_sale sale d.sales) in if n == 0 then 4 else n

abbrev pub is_active : TicketStatus → Bool
is_active active = true
is_active _ = false

abbrev pub owned_by : ℕ → ℕ → Ticket → Bool
owned_by sale user t = t.sale_id == sale && t.user_id == user && is_active t.status

pub owned_count : ℕ → ℕ → List Ticket → ℕ
owned_count sale user ts = length (select (owned_by sale user) ts)

-- SELECT COUNT(*) FROM tickets …; a failed query leaves the count at 0.
pub owned : Faults → ℕ → ℕ → Db → ℕ
unfolding owned_count
owned f sale user d = if f.owned_query then 0 else owned_count sale user d.tickets

-- PRIMARY KEY (id) and UNIQUE (seat_id)
pub ticket_taken : ℕ → ℕ → List Ticket → Bool
ticket_taken id seat [] = false
ticket_taken id seat (t ∷ ts) = t.id == id || t.seat_id == seat || ticket_taken id seat ts

-- The loop of `Checkout` over the seats of the hold; `draw` gives the ids of the tickets.
module _ (f : Faults) (draw : ℕ → ℕ) (order sale user owner_hash : ℕ) where
  pub sell_seats : ℕ → List ℕ → Db → Result (Db × List ℕ)
  unfolding ticket_taken
  sell_seats n [] d = ok (d, [])
  sell_seats n (i ∷ is) d =
      if f.seat_update n
      then err seat_unavailable
      else elim (update_status i (held_in sale) sold d.seats) [
        | none ↦ err seat_unavailable
        | some seats ↦
            if f.ticket_insert n || ticket_taken (draw n) i d.tickets
            then err insert_failed
            else elim (sell_seats (suc n) is (record d {
              seats = seats;
              tickets =
                  record {
                    id = draw n;
                    order_id = order;
                    sale_id = sale;
                    user_id = user;
                    seat_id = i;
                    owner_hash = owner_hash;
                    status = active;
                  }
                  ∷ d.tickets;
            })) [ err e ↦ err e | ok (d', ids) ↦ ok (d', draw n ∷ ids) ]
      ]

abbrev pub new_order : ℕ → Hold → ℕ → Order
new_order id h key = record {
  id = id;
  sale_id = h.sale_id;
  user_id = h.user_id;
  hold_id = h.id;
  idempotency_key = key;
  status = confirmed;
  total_cents = length h.seat_ids * 5000;
}

-- INSERT INTO orders …
pub insert_order : Faults → Order → Db → Option Db
unfolding find_order order_id_taken
insert_order f o d =
    if f.order_insert
      || order_id_taken o.id d.orders
      || is_some (find_order o.sale_id o.user_id o.idempotency_key d.orders)
    then none
    else some (record d { orders = o ∷ d.orders })

-- The statements of the transaction up to the DELETE.
pub fill_order : Faults → (ℕ → ℕ) → (order owner_hash key : ℕ) → Hold → Db → Result (Db × List ℕ)
unfolding insert_order sell_seats
fill_order f draw order owner_hash key h d = elim (insert_order f (new_order order h key) d) [
  | none ↦ err insert_failed
  | some d' ↦ sell_seats f draw order h.sale_id h.user_id owner_hash 0 h.seat_ids d'
]

-- The transaction. The result of the DELETE is not looked at; a statement that fails aborts the
-- transaction in the database, whose COMMIT then rolls back and is reported as an error.
pub checkout_tx :
    Faults → (ℕ → ℕ) → (order owner_hash key : ℕ) → Hold → Db → Db × Result CheckoutResult
unfolding fill_order
checkout_tx f draw order owner_hash key h d =
    if f.begin then (d, err begin_failed) else elim (fill_order f draw order owner_hash key h d) [
      | err e ↦ (d, err e)
      | ok (d', ids) ↦ elim (delete_hold h.id d') [
        | none ↦ (d, err commit_failed)
        | some d'' ↦
            if f.delete || f.commit
            then (d, err commit_failed)
            else (d'', ok (record { order_id = order; ticket_ids = ids; status = confirmed }))
      ]
    ]

unfoldable pub checkout :
    Faults
    → (ℕ → ℕ)
    → (owner_hash : ℕ → ℕ) → (db_now order sale user key hold_id : ℕ) → Db
    → Db × Result CheckoutResult
unfolding checkout_tx find_order find_valid_hold max_per_user owned
checkout f draw owner_hash db_now order sale user key hold_id d =
    if f.existing_query then (d, err query_failed) else elim (find_order sale user key d.orders) [
      | some o ↦ (d, ok (record { order_id = o.id; ticket_ids = []; status = o.status }))
      | none ↦
          if f.hold_query
          then (d, err hold_not_found)
          else elim (find_valid_hold db_now hold_id user sale d.holds) [
            | none ↦ (d, err hold_not_found)
            | some h ↦
                if ltb (max_per_user f sale d) (owned f sale user d + length h.seat_ids)
                then (d, err ticket_cap_reached)
                else checkout_tx f draw order (owner_hash user) key h d
          ]
    ]

unfoldable pub transfer : Result (Unit {0})
transfer = err transfer_blocked
