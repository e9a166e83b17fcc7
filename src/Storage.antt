-- ===== src/Storage.antt =====
-- The shared state of the services: the tables of migrations/001_init.sql and the Redis keys.
-- A UUID, a user, a sale and a seat are numbers; a time is a number of nanoseconds.
use traffic_backend_queue.Common.{
  ℕ, Bool, Option, none, some, List, [], ◌∷◌, ◌==◌, if◌then◌else◌, ◌&&◌,
}

pub data Phase : Type 0 where
  pre_register lottery_draw presale general_sale ended : Phase

-- The columns that hold a number are only ever written by the program with positive values.
pub record Sale : Type 0 where
  pub id : ℕ
  pub phase : Phase
  pub opens_at : ℕ
  pub ends_at : ℕ
  pub max_tickets_per_user : ℕ
  pub waiting_room_cap : ℕ
  pub admit_per_minute : ℕ
  pub total_seats : ℕ

pub data SeatStatus : Type 0 where
  available held sold : SeatStatus

-- `section` is left out: the program writes the one section "GA".
pub record Seat : Type 0 where
  pub id : ℕ
  pub sale_id : ℕ
  pub row_num : ℕ
  pub seat_num : ℕ
  pub status : SeatStatus
  pub version : ℕ

pub record QueueEntry : Type 0 where
  pub sale_id : ℕ
  pub user_id : ℕ
  pub position : ℕ
  pub joined_at : ℕ
  pub admitted_at : Option ℕ

pub record PreRegistration : Type 0 where
  pub sale_id : ℕ
  pub user_id : ℕ

pub record AccessCode : Type 0 where
  pub id : ℕ
  pub sale_id : ℕ
  pub user_id : ℕ
  pub code_hash : ℕ
  pub used_at : Option ℕ

pub record Hold : Type 0 where
  pub id : ℕ
  pub sale_id : ℕ
  pub user_id : ℕ
  pub seat_ids : List ℕ
  pub idempotency_key : ℕ
  pub expires_at : ℕ

pub data OrderStatus : Type 0 where
  pending confirmed failed : OrderStatus

pub record Order : Type 0 where
  pub id : ℕ
  pub sale_id : ℕ
  pub user_id : ℕ
  pub hold_id : ℕ
  pub idempotency_key : ℕ
  pub status : OrderStatus
  pub total_cents : ℕ

pub data TicketStatus : Type 0 where
  active cancelled : TicketStatus

pub record Ticket : Type 0 where
  pub id : ℕ
  pub order_id : ℕ
  pub sale_id : ℕ
  pub user_id : ℕ
  pub seat_id : ℕ
  pub owner_hash : ℕ
  pub status : TicketStatus

pub record Db : Type 0 where
  pub users : List ℕ
  pub sales : List Sale
  pub seats : List Seat
  pub queue_entries : List QueueEntry
  pub pre_registrations : List PreRegistration
  pub access_codes : List AccessCode
  pub holds : List Hold
  pub orders : List Order
  pub tickets : List Ticket

-- A key that expires holds its value with the time at which it goes.
pub record Redis : Type 0 where
  pub queue_seq : ℕ → Option ℕ
  pub next_admit : ℕ → Option ℕ

pub record Store : Type 0 where
  pub db : Db
  pub redis : Redis

-- A key of Redis is written; the others keep their values.
abbrev pub update {ℓ} : {V : Type ℓ} → (ℕ → Option V) → ℕ → V → ℕ → Option V
update m k v j = if k == j then some v else m j

-- `id` is the primary key of `sales`, so one row matches at most.
unfoldable pub find_sale : ℕ → List Sale → Option Sale
find_sale sale [] = none
find_sale sale (s ∷ ss) = if s.id == sale then some s else find_sale sale ss

-- The rows of `queue_entries` that `sale_id` and `user_id` select; they are unique together.
abbrev pub entry_of : ℕ → ℕ → QueueEntry → Bool
entry_of sale user e = e.sale_id == sale && e.user_id == user

unfoldable pub find_entry : ℕ → ℕ → List QueueEntry → Option QueueEntry
find_entry sale user [] = none
find_entry sale user (e ∷ es) = if entry_of sale user e then some e else find_entry sale user es
