-- ===== src/WaitingRoom.antt =====
-- internal/waitingroom/service.go: the queue of a sale. `now` is the clock of the process and
-- `db_now` that of the database.
pub mod Entries
pub mod Steps
pub mod Join
pub mod Polls
pub mod History
pub mod Fairness
pub mod Interleaved
pub mod Line
pub mod Examples
use Prim.Native.String.{String}
use traffic_backend_queue.Common.{
  ℕ, ◌+◌, ◌-◌, ◌*◌, ◌/◌, Bool, true, false, ◌&&◌, ◌||◌, not, Option, none, some, List, [], ◌∷◌, ltb,
  leb, ◌==◌, if◌then◌else◌, from_option, is_some, contains,
}
use traffic_backend_queue.Storage.{
  Phase, presale, general_sale, Sale, QueueEntry, Store, update, find_sale, entry_of, find_entry,
}
use traffic_backend_queue.Auth.{Jwt, issue_admission_token}

pub data Error : Type 0 where
  no_rows query_failed redis_failed insert_failed sale_not_open waiting_room_full not_in_queue
        token_failed :
      Error

pub data Result {ℓ} (A : Type ℓ) : Type ℓ where
  ok : A → Result A
  err : Error → Result A

pub record Status : Type 0 where
  pub position : ℕ
  pub ahead_count : ℕ
  pub estimated_wait_sec : ℕ
  pub admitted : Bool
  pub admission_token : Option String
  pub retry_after_ms : ℕ
  pub message : String

-- Which of the calls to the database and to Redis fail.
pub record Faults : Type 0 where
  pub sale_query : Bool
  pub entry_query : Bool
  pub redis_get : Bool
  pub redis_incr : Bool
  pub insert : Bool
  pub retry_query : Bool
  pub admit_update : Bool

abbrev pub no_faults : Faults
no_faults = record {
  sale_query = false;
  entry_query = false;
  redis_get = false;
  redis_incr = false;
  insert = false;
  retry_query = false;
  admit_update = false;
}

pub get_sale : Faults → ℕ → Store → Result Sale
get_sale f sale s =
    if f.sale_query
    then err query_failed
    else elim (find_sale sale s.db.sales) [ none ↦ err no_rows | some info ↦ ok info ]

abbrev pub is_queue_phase : Phase → Bool
is_queue_phase general_sale = true
is_queue_phase presale = true
is_queue_phase _ = false

unfoldable pub sale_open_for_queue : ℕ → Sale → Bool
sale_open_for_queue now info = if ltb now info.opens_at then false else is_queue_phase info.phase

-- The join up to the counter: an early return, or `none` to go on.
pub check_capacity : Faults → Sale → ℕ → Store → Option (Result (ℕ × Bool))
check_capacity f info sale s =
    if f.redis_get then some (err redis_failed) else elim (s.redis.queue_seq sale) [
      | none ↦ none
      | some current_len ↦
          if leb info.waiting_room_cap current_len then some (err waiting_room_full) else none
    ]

pub check_existing : Faults → Sale → ℕ → ℕ → Store → Option (Result (ℕ × Bool))
unfolding check_capacity
check_existing f info sale user s =
    if f.entry_query
    then some (err query_failed)
    else elim (find_entry sale user s.db.queue_entries) [
      | some existing ↦ some (ok (existing.position, false))
      | none ↦ check_capacity f info sale s
    ]

pub before_join : Faults → ℕ → ℕ → ℕ → Store → Option (Result (ℕ × Bool))
unfolding get_sale check_existing sale_open_for_queue
before_join f now sale user s = elim (get_sale f sale s) [
  | err e ↦ some (err e)
  | ok info ↦
      if not (sale_open_for_queue now info)
      then some (err sale_not_open)
      else check_existing f info sale user s
]

-- `INCR sale:<id>:queue_seq`, which counts from 0 where the key is missing.
pub next_position : ℕ → Store → ℕ
next_position sale s = from_option 0 (s.redis.queue_seq sale) + 1

pub take_position : ℕ → Store → Store
unfolding next_position
take_position sale s = record s {
  redis = record (s.redis) { queue_seq = update s.redis.queue_seq sale (next_position sale s) };
}

-- UNIQUE (sale_id, position)
unfoldable pub position_taken : ℕ → ℕ → List QueueEntry → Bool
position_taken sale position [] = false
position_taken sale position (e ∷ es) =
    (e.sale_id == sale && e.position == position) || position_taken sale position es

-- The INSERT succeeds if the user exists and neither UNIQUE constraint is violated.
pub can_insert : Faults → ℕ → ℕ → ℕ → Store → Bool
unfolding position_taken
can_insert f sale user position s =
    not f.insert
    && contains user s.db.users
    && not (is_some (find_entry sale user s.db.queue_entries))
    && not (position_taken sale position s.db.queue_entries)

pub insert_entry : ℕ → ℕ → ℕ → ℕ → Store → Store
insert_entry db_now sale user position s = record s {
  db = record (s.db) { queue_entries = entry ∷ s.db.queue_entries };
}
  where
    entry : QueueEntry
    entry = record {
      sale_id = sale;
      user_id = user;
      position = position;
      joined_at = db_now;
      admitted_at = none;
    }

pub record_entry : Faults → ℕ → ℕ → ℕ → ℕ → Store → Store × Result (ℕ × Bool)
unfolding can_insert insert_entry
record_entry f db_now sale user position s =
    if can_insert f sale user position s
    then (insert_entry db_now sale user position s, ok (position, true))
    else if f.retry_query
    then (s, err insert_failed)
    else elim (find_entry sale user s.db.queue_entries) [
      | some existing ↦ (s, ok (existing.position, false))
      | none ↦ (s, err insert_failed)
    ]

unfoldable pub join : Faults → ℕ → ℕ → ℕ → ℕ → Store → Store × Result (ℕ × Bool)
unfolding before_join take_position record_entry
join f now db_now sale user s = elim (before_join f now sale user s) [
  | some r ↦ (s, r)
  | none ↦
      if f.redis_incr
      then (s, err redis_failed)
      else record_entry f db_now sale user (next_position sale s) (take_position sale s)
]

abbrev pub max : ℕ → ℕ → ℕ
max a b = if ltb b a then a else b

-- UPDATE queue_entries SET admitted_at = NOW() … AND admitted_at IS NULL
pub mark_admitted : ℕ → ℕ → ℕ → List QueueEntry → List QueueEntry
mark_admitted db_now sale user [] = []
mark_admitted db_now sale user (e ∷ es) =
    (if entry_of sale user e && not (is_some e.admitted_at)
      then record e { admitted_at = some db_now }
      else e)
    ∷ mark_admitted db_now sale user es

pub effective_admit_position : ℕ → ℕ
effective_admit_position position = position

-- The reply to one poll, with the token that `issued` is, if the user is admitted.
pub status_of : Sale → QueueEntry → ℕ → Option String → Status
unfolding effective_admit_position
status_of info e next_admit token =
    let effective_pos = effective_admit_position e.position in
    let ahead = effective_pos - next_admit in
    record {
      position = e.position;
      ahead_count = ahead;
      estimated_wait_sec = ahead * 60 / max info.admit_per_minute 1;
      admitted = is_some e.admitted_at || leb effective_pos next_admit;
      admission_token = token;
      retry_after_ms = 3000;
      message = "Refreshing does not change your place in line.";
    }

abbrev pub update_admitted : ℕ → ℕ → ℕ → Store → Store
update_admitted db_now sale user s = record s {
  db = record (s.db) { queue_entries = mark_admitted db_now sale user s.db.queue_entries };
}

pub admit_entry : Faults → ℕ → ℕ → ℕ → QueueEntry → Store → Store
admit_entry f db_now sale user e s =
    if is_some e.admitted_at || f.admit_update then s else update_admitted db_now sale user s

module _ (jwt : Jwt) where
  unfoldable pub status : Faults → String → ℕ → ℕ → ℕ → ℕ → ℕ → ℕ → Store → Store × Result Status
  unfolding get_sale status_of admit_entry
  status f secret admission_ttl now db_now jti sale user s =
      if f.entry_query
      then (s, err query_failed)
      else elim (find_entry sale user s.db.queue_entries) [
        | none ↦ (s, err not_in_queue)
        | some e ↦ elim (get_sale f sale s) [
          | err x ↦ (s, err x)
          | ok info ↦
              if f.redis_get
              then (s, err redis_failed)
              else let next_admit = from_option 0 (s.redis.next_admit sale) in
                if is_some e.admitted_at || leb (effective_admit_position e.position) next_admit
                then elim (issue_admission_token jwt secret user sale jti admission_ttl now) [
                  | none ↦ (admit_entry f db_now sale user e s, err token_failed)
                  | some token ↦ (
                    admit_entry f db_now sale user e s,
                    ok (status_of info e next_admit (some token)),
                  )
                ]
                else (s, ok (status_of info e next_admit none))
        ]
      ]

-- INCRBY sale:<id>:next_admit
unfoldable pub advance_admission : ℕ → ℕ → Store → Store
advance_admission sale n s = record s {
  redis = record (s.redis) {
    next_admit = update s.redis.next_admit sale (from_option 0 (s.redis.next_admit sale) + n);
  };
}
