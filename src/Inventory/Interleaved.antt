-- ===== src/Inventory/Interleaved.antt =====
-- `Hold` and `ReleaseExpired` of internal/inventory/service.go as they run at once: requests that go
-- from one call of the database to the next, and workers that go from one expired hold to the next.
-- A transaction is one step: its UPDATE locks the rows of the seats until it ends, and another
-- transaction that meets a lock waits, then tests its condition again. The clock of the database,
-- by which holds are active or expired, is one for all.
pub mod Exclusive
pub mod Stale
pub mod Active
pub mod Examples
use traffic_backend_queue.Common.{
  ℕ, zero, suc, ◌≡◌, ◌≤◌, ◌+◌, Bool, true, false, ◌||◌, Option, none, some, List, [], ◌∷◌, ◌==◌,
  if◌then◌else◌, ltb, length, take, select, get_elem?, set,
}
use traffic_backend_queue.Storage.{Hold, Db}
use traffic_backend_queue.Orders
use traffic_backend_queue.Orders.{checkout}
use traffic_backend_queue.Inventory.{
  Error, invalid_seat_count, query_failed, hold_expired, active_hold_exists, Result, ok, err,
  HoldResult, Faults, find_hold_by_key, active_holds, hold_tx, result_of, TxFault, fine,
  begin_fails, commit_fails, release_tx, is_expired,
}

-- The arguments of `Hold`, and the UUID that it will draw.
pub record Request : Type 0 where
  pub id : ℕ
  pub sale : ℕ
  pub user : ℕ
  pub key : ℕ
  pub seat_ids : List ℕ

-- The row that is inserted.
abbrev pub hold_of : ℕ → Request → Hold
hold_of expires_at r = record {
  id = r.id;
  sale_id = r.sale;
  user_id = r.user;
  seat_ids = r.seat_ids;
  idempotency_key = r.key;
  expires_at = expires_at;
}

-- Where a request stands: before the query for its key, before the count of the user's active
-- holds, before the transaction, or at its end.
pub data Pc : Type 0 where
  reads_key counts_active transacts : Pc
  answered : Result HoldResult → Pc

-- One call of a request, and what the code does with its answer before the next call.
unfoldable pub advance : Faults → (ttl now db_now : ℕ) → Request → Pc → Db → Db × Pc
unfolding find_hold_by_key active_holds hold_tx
advance f ttl now db_now r reads_key d =
    if length r.seat_ids == 0 || ltb 4 (length r.seat_ids)
    then (d, answered (err invalid_seat_count))
    else if f.existing_query
    then (d, answered (err query_failed))
    else elim (find_hold_by_key r.sale r.user r.key d.holds) [
      | some existing ↦
          if ltb existing.expires_at now
          then (d, answered (err hold_expired))
          else (d, answered (ok (result_of existing)))
      | none ↦ (d, counts_active)
    ]
advance f ttl now db_now r counts_active d =
    if ltb 0 (active_holds f db_now r.sale r.user d)
    then (d, answered (err active_hold_exists))
    else (d, transacts)
advance f ttl now db_now r transacts d =
    let (d', answer) = hold_tx f (hold_of (now + ttl) r) d in (d', answered answer)
advance f ttl now db_now r (answered answer) d = (d, answered answer)

-- Three calls of one request, with no other in between.
unfoldable pub run_alone : Faults → (ttl now db_now : ℕ) → Request → ℕ → Pc → Db → Db × Pc
unfolding advance
run_alone f ttl now db_now r zero pc d = (d, pc)
run_alone f ttl now db_now r (suc k) pc d =
    let (d', pc') = advance f ttl now db_now r pc d in run_alone f ttl now db_now r k pc' d'

pub record Slot : Type 0 where
  pub request : Request
  pub pc : Pc

abbrev pub is_answered : Pc → Bool
is_answered (answered r) = true
is_answered _ = false

-- A worker is the rows that its query gave and that it has not come to yet: none between two rounds.
pub record System : Type 0 where
  pub clock : ℕ
  pub db : Db
  pub slots : List Slot
  pub workers : List (List Hold)

abbrev pub after : Faults → (ttl now : ℕ) → System → ℕ → Slot → System
after f ttl now s i x =
    let (db, pc) = advance f ttl now s.clock x.request x.pc s.db in
    record s { db = db; slots = set s.slots i (record x { pc = pc }) }

-- SELECT id, seat_ids FROM holds WHERE expires_at < NOW() LIMIT 100
abbrev pub expired_rows : ℕ → Db → List Hold
expired_rows db_now d = take 100 (select (is_expired db_now) d.holds)

-- The body of the loop of `ReleaseExpired` for one row: a BEGIN that fails ends the round.
unfoldable pub release_row : TxFault → Hold → List Hold → Db → Db × List Hold
unfolding release_tx
release_row fine h rows d = ((release_tx h d).0, rows)
release_row begin_fails h rows d = (d, [])
release_row commit_fails h rows d = (d, rows)

abbrev pub after_row : TxFault → System → ℕ → Hold → List Hold → System
after_row fault s w h rows =
    let (db, left) = release_row fault h rows s.db in
    record s { db = db; workers = set s.workers w left }

-- What can happen next: time passes, a slot that has answered takes a request, a slot makes its next
-- call, a worker starts a round, a worker comes to its next row, or a checkout takes place. `May` says which failures of the
-- calls of a request are possible.
pub data Step (May : Faults → Type 0) (s t : System) : Type 0 where
  ticks : (later : ℕ) → s.clock ≤ later → t ≡ record s { clock = later } → Step May s t
  arrives :
      (i : ℕ) (r : Request) (x : Slot)
      → get_elem? s.slots i ≡ some x
      → is_answered x.pc ≡ true
      → t ≡ record s { slots = set s.slots i (record { request = r; pc = reads_key }) }
      → Step May s t
  calls :
      (f : Faults)
      → May f
      → (ttl now i : ℕ) (x : Slot) → get_elem? s.slots i ≡ some x
      → t ≡ after f ttl now s i x
      → Step May s t
  selects :
      (w : ℕ)
      → get_elem? s.workers w ≡ some []
      → t ≡ record s { workers = set s.workers w (expired_rows s.clock s.db) }
      → Step May s t
  releases :
      (fault : TxFault) (w : ℕ) (h : Hold) (rows : List Hold)
      → get_elem? s.workers w ≡ some (h ∷ rows)
      → t ≡ after_row fault s w h rows
      → Step May s t
  checks_out :
      (f : Orders.Faults) (draw owner_hash : ℕ → ℕ) (order sale user key hold_id : ℕ)
      → t
        ≡ record s { db = (checkout f draw owner_hash s.clock order sale user key hold_id s.db).0 }
      → Step May s t

pub data Reach (May : Faults → Type 0) (s : System) : System → Type 0 where
  here : Reach May s s
  next : {t u : System} → Reach May s t → Step May t u → Reach May s u
