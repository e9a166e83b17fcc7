-- ===== src/WaitingRoom/Interleaved.antt =====
-- `Join` of internal/waitingroom/service.go as the server runs it: many requests at once, each going
-- from one call of the database or of Redis to the next. A slot is one request in flight, and takes
-- the next request when it has answered; how many slots there are is how many requests run at once.
pub mod Alone
pub mod Calls
pub mod Places
pub mod Capacity
pub mod Race
pub mod Examples
use traffic_backend_queue.Common.{
  ℕ, zero, suc, ◌≡◌, Bool, true, false, not, ◌&&◌, Option, none, some, List, [], ◌∷◌, ◌==◌,
  if◌then◌else◌, leb, get_elem?, set,
}
use traffic_backend_queue.Storage.{Sale, Store, find_entry}
use traffic_backend_queue.WaitingRoom.{
  Error, query_failed, redis_failed, insert_failed, sale_not_open, waiting_room_full, Result, ok,
  err, Faults, get_sale, sale_open_for_queue, check_capacity, next_position, take_position,
  can_insert, insert_entry, update_admitted, advance_admission,
}

-- Where a request stands: before each call, with what it has read.
pub data Pc : Type 0 where
  reads_sale : Pc
  reads_entry : Sale → Pc
  reads_counter : Sale → Pc
  takes_position : Pc
  inserts : (position : ℕ) → Pc
  reads_again : Pc
  answered : Result (ℕ × Bool) → Pc

-- One call of a request, and what the code does with its answer before the next call.
unfoldable pub advance : Faults → (now db_now sale user : ℕ) → Pc → Store → Store × Pc
unfolding get_sale sale_open_for_queue check_capacity next_position take_position can_insert
    insert_entry
advance f now db_now sale user reads_sale s = elim (get_sale f sale s) [
  | err e ↦ (s, answered (err e))
  | ok info ↦
      if sale_open_for_queue now info
      then (s, reads_entry info)
      else (s, answered (err sale_not_open))
]
advance f now db_now sale user (reads_entry info) s =
    if f.entry_query
    then (s, answered (err query_failed))
    else elim (find_entry sale user s.db.queue_entries) [
      | some existing ↦ (s, answered (ok (existing.position, false)))
      | none ↦ (s, reads_counter info)
    ]
advance f now db_now sale user (reads_counter info) s = elim (check_capacity f info sale s) [
  | some r ↦ (s, answered r)
  | none ↦ (s, takes_position)
]
advance f now db_now sale user takes_position s =
    if f.redis_incr
    then (s, answered (err redis_failed))
    else (take_position sale s, inserts (next_position sale s))
advance f now db_now sale user (inserts p) s =
    if can_insert f sale user p s
    then (insert_entry db_now sale user p s, answered (ok (p, true)))
    else (s, reads_again)
advance f now db_now sale user reads_again s =
    if f.retry_query
    then (s, answered (err insert_failed))
    else elim (find_entry sale user s.db.queue_entries) [
      | some existing ↦ (s, answered (ok (existing.position, false)))
      | none ↦ (s, answered (err insert_failed))
    ]
advance f now db_now sale user (answered r) s = (s, answered r)

pub record Slot : Type 0 where
  pub sale : ℕ
  pub user : ℕ
  pub pc : Pc

abbrev pub is_answered : Pc → Bool
is_answered (answered r) = true
is_answered _ = false

pub record System : Type 0 where
  pub store : Store
  pub slots : List Slot

-- The system after slot `i`, which is `x`, has made its next call.
abbrev pub after : Faults → (now db_now : ℕ) → System → ℕ → Slot → System
after f now db_now s i x =
    let (store, pc) = advance f now db_now x.sale x.user x.pc s.store in
    record { store = store; slots = set s.slots i (record x { pc = pc }) }

-- What can happen next: a slot that has answered takes a request, a slot makes its next call, a poll
-- marks an entry as admitted, or the worker moves the window.
pub data Step (s t : System) : Type 0 where
  arrives :
      (i sale user : ℕ) (x : Slot)
      → get_elem? s.slots i ≡ some x
      → is_answered x.pc ≡ true
      → t
        ≡ record s { slots = set s.slots i (record { sale = sale; user = user; pc = reads_sale }) }
      → Step s t
  calls :
      (f : Faults) (now db_now i : ℕ) (x : Slot)
      → get_elem? s.slots i ≡ some x
      → t ≡ after f now db_now s i x
      → Step s t
  polls :
      (db_now sale user : ℕ)
      → t ≡ record s { store = update_admitted db_now sale user s.store }
      → Step s t
  advances : (sale n : ℕ) → t ≡ record s { store = advance_admission sale n s.store } → Step s t

pub data Reach (s : System) : System → Type 0 where
  here : Reach s s
  next : {t u : System} → Reach s t → Step t u → Reach s u

-- Six calls of one request, with no other in between.
unfoldable pub run_alone : Faults → (now db_now sale user : ℕ) → ℕ → Pc → Store → Store × Pc
unfolding advance
run_alone f now db_now sale user zero pc s = (s, pc)
run_alone f now db_now sale user (suc k) pc s =
    let (s', pc') = advance f now db_now sale user pc s in run_alone f now db_now sale user k pc' s'
