-- ===== src/Inventory.antt =====
-- internal/inventory/service.go: the seats of a sale and the holds on them. `now` is the clock of
-- the process and `db_now` that of the database; UUIDs are drawn by the caller.
pub mod Seats
pub mod Untouched
pub mod Claims
pub mod Available
pub mod Holding
pub mod Release
pub mod Spared
pub mod Repeats
pub mod Rounds
pub mod Expiry
pub mod Interleaved
pub mod Layout
pub mod Examples
use traffic_backend_queue.Common.{
  ℕ, zero, suc, ◌+◌, ◌-◌, ◌*◌, ◌/◌, Bool, true, false, ◌&&◌, ◌||◌, not, Option, none, some, List,
  [], ◌∷◌, ltb, leb, ◌==◌, if◌then◌else◌, from_option, is_some, contains, length, take, select,
}
use traffic_backend_queue.Storage.{
  SeatStatus, available, held, sold, Seat, Hold, Order, Db, find_sale,
}

pub data Error : Type 0 where
  invalid_seat_count seat_unavailable hold_not_found hold_expired active_hold_exists query_failed
        begin_failed insert_failed commit_failed :
      Error

pub data Result {ℓ} (A : Type ℓ) : Type ℓ where
  ok : A → Result A
  err : Error → Result A

pub record HoldResult : Type 0 where
  pub hold_id : ℕ
  pub seat_ids : List ℕ
  pub expires_at : ℕ

-- Which of the calls to the database fail.
pub record Faults : Type 0 where
  pub existing_query : Bool
  pub count_query : Bool
  pub begin : Bool
  pub seat_update : ℕ → Bool
  pub insert : Bool
  pub commit : Bool

abbrev pub no_faults : Faults
no_faults = record {
  existing_query = false;
  count_query = false;
  begin = false;
  seat_update = λ i. false;
  insert = false;
  commit = false;
}

abbrev pub is_held : SeatStatus → Bool
is_held held = true
is_held _ = false

abbrev pub is_available : SeatStatus → Bool
is_available available = true
is_available _ = false

-- UPDATE seats SET status = …, version = version + 1 WHERE id = … AND …: `none` if no row is
-- affected. `id` is the primary key, so one row matches at most.
unfoldable pub update_status : ℕ → (Seat → Bool) → SeatStatus → List Seat → Option (List Seat)
update_status id test status [] = none
update_status id test status (x ∷ xs) = elim (x.id == id) [
  | true ↦
      if test x then some (record x { status = status; version = x.version + 1 } ∷ xs) else none
  | false ↦ elim (update_status id test status xs) [ none ↦ none | some ys ↦ some (x ∷ ys) ]
]

-- sale_id = $2 AND status = 'available'
abbrev pub available_in : ℕ → Seat → Bool
available_in sale x = x.sale_id == sale && is_available x.status

abbrev pub held_in : ℕ → Seat → Bool
held_in sale x = x.sale_id == sale && is_held x.status

-- The loop of `Hold` over the requested seats.
pub hold_seats : (ℕ → Bool) → ℕ → List ℕ → List Seat → Result (List Seat)
hold_seats fails sale [] seats = ok seats
hold_seats fails sale (i ∷ is) seats =
    if fails i then err query_failed else elim (update_status i (available_in sale) held seats) [
      | none ↦ err seat_unavailable
      | some seats' ↦ hold_seats fails sale is seats'
    ]

-- UNIQUE (sale_id, user_id, idempotency_key)
pub find_hold_by_key : ℕ → ℕ → ℕ → List Hold → Option Hold
find_hold_by_key sale user key [] = none
find_hold_by_key sale user key (h ∷ hs) =
    if h.sale_id == sale && h.user_id == user && h.idempotency_key == key
    then some h
    else find_hold_by_key sale user key hs

unfoldable pub find_hold : ℕ → List Hold → Option Hold
find_hold id [] = none
find_hold id (h ∷ hs) = if h.id == id then some h else find_hold id hs

abbrev pub is_active : ℕ → ℕ → ℕ → Hold → Bool
is_active db_now sale user h = h.sale_id == sale && h.user_id == user && ltb db_now h.expires_at

-- SELECT COUNT(*) FROM holds …; a failed query leaves the count at 0.
pub active_holds : Faults → ℕ → ℕ → ℕ → Db → ℕ
active_holds f db_now sale user d =
    if f.count_query then 0 else length (select (is_active db_now sale user) d.holds)

-- The INSERT meets the primary key, the UNIQUE constraint and the two foreign keys.
pub can_insert : Faults → Hold → Db → Bool
unfolding find_hold find_hold_by_key
can_insert f h d =
    not f.insert
    && not (is_some (find_hold h.id d.holds))
    && not (is_some (find_hold_by_key h.sale_id h.user_id h.idempotency_key d.holds))
    && contains h.user_id d.users
    && is_some (find_sale h.sale_id d.sales)

abbrev pub result_of : Hold → HoldResult
result_of h = record { hold_id = h.id; seat_ids = h.seat_ids; expires_at = h.expires_at }

-- The transaction of `Hold`: a failure rolls back.
pub hold_tx : Faults → Hold → Db → Db × Result HoldResult
unfolding hold_seats can_insert
hold_tx f h d =
    if f.begin
    then (d, err begin_failed)
    else elim (hold_seats f.seat_update h.sale_id h.seat_ids d.seats) [
      | err e ↦ (d, err e)
      | ok seats ↦
          if not (can_insert f h d)
          then (d, err insert_failed)
          else if f.commit
          then (d, err commit_failed)
          else (record d { seats = seats; holds = h ∷ d.holds }, ok (result_of h))
    ]

pub hold_new : Faults → ℕ → Hold → Db → Db × Result HoldResult
unfolding hold_tx active_holds
hold_new f db_now h d =
    if ltb 0 (active_holds f db_now h.sale_id h.user_id d)
    then (d, err active_hold_exists)
    else hold_tx f h d

unfoldable pub hold :
    Faults → (ttl now db_now id sale user key : ℕ) → List ℕ → Db → Db × Result HoldResult
unfolding hold_new find_hold_by_key
hold f ttl now db_now id sale user key seat_ids d =
    if length seat_ids == 0 || ltb 4 (length seat_ids)
    then (d, err invalid_seat_count)
    else if f.existing_query
    then (d, err query_failed)
    else elim (find_hold_by_key sale user key d.holds) [
      | some existing ↦
          if ltb existing.expires_at now
          then (d, err hold_expired)
          else (d, ok (result_of existing))
      | none ↦
          hold_new f db_now
            (record {
              id = id;
              sale_id = sale;
              user_id = user;
              seat_ids = seat_ids;
              idempotency_key = key;
              expires_at = now + ttl;
            })
            d
    ]

-- The loop of `ReleaseExpired` over the seats of one hold; a seat that is not held stays.
pub release_seats : List ℕ → List Seat → List Seat
release_seats [] seats = seats
release_seats (i ∷ is) seats =
    release_seats is (from_option seats (update_status i (λ x. is_held x.status) available seats))

pub remove_hold : ℕ → List Hold → List Hold
remove_hold id [] = []
remove_hold id (h ∷ hs) = elim (h.id == id) [ true ↦ hs | false ↦ h ∷ remove_hold id hs ]

-- An order that refers to the hold: `hold_id UUID REFERENCES holds(id)`.
pub is_referenced : ℕ → List Order → Bool
is_referenced id [] = false
is_referenced id (o ∷ os) = o.hold_id == id || is_referenced id os

-- DELETE FROM holds WHERE id = …: the foreign key of `orders` has no ON DELETE action, so `none`,
-- an error, if an order refers to the row.
unfoldable pub delete_hold : ℕ → Db → Option Db
unfolding is_referenced remove_hold
delete_hold id d =
    if is_referenced id d.orders then none else some (record d { holds = remove_hold id d.holds })

-- How the transaction for one hold fails from outside; a statement that fails aborts the
-- transaction, and its COMMIT then rolls back.
pub data TxFault : Type 0 where
  fine begin_fails commit_fails : TxFault

-- The transaction for one expired hold, and whether the COMMIT succeeds.
pub release_tx : Hold → Db → Db × Bool
unfolding release_seats delete_hold
release_tx h d = elim (delete_hold h.id (record d { seats = release_seats h.seat_ids d.seats })) [
  | none ↦ (d, false)
  | some d' ↦ (d', true)
]

-- The loop of `ReleaseExpired` over the rows: the count, and an error if a BEGIN fails.
pub release_rows : (ℕ → TxFault) → List Hold → ℕ → Db → Db × ℕ × Option Error
unfolding release_tx
release_rows fault [] n d = (d, n, none)
release_rows fault (h ∷ hs) n d =
    let (d', done) = release_tx h d in
    let go_on = release_rows fault hs (if done then n + 1 else n) d' in
    let skip = release_rows fault hs n d in
    elim (fault h.id) [
      | fine ↦ go_on
      | begin_fails ↦ (d, n, some begin_failed)
      | commit_fails ↦ skip
    ]

abbrev pub is_expired : ℕ → Hold → Bool
is_expired db_now h = ltb h.expires_at db_now

-- SELECT id, seat_ids FROM holds WHERE expires_at < NOW() LIMIT 100
unfoldable pub release_expired : Bool → (ℕ → TxFault) → ℕ → Db → Db × ℕ × Option Error
unfolding release_rows
release_expired query_fails fault db_now d =
    if query_fails
    then (d, 0, some query_failed)
    else release_rows fault (take 100 (select (is_expired db_now) d.holds)) 0 d
