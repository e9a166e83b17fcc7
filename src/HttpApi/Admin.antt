-- ===== src/HttpApi/Admin.antt =====
-- createEvent and createSale of internal/httpapi/handlers.go, behind `adminAuth`. The texts and the
-- times of a request are what the program decodes; a time that cannot be parsed is `none`.
pub mod Sales
use Prim.Native.String.{String}
use traffic_backend_queue.Common.{
  ℕ, Bool, true, false, ◌||◌, not, Option, none, some, List, [], ◌∷◌, ◌==◌, if◌then◌else◌, ltb,
  is_some, from_option, ℤ, pos, negsuc, is_positive,
}
use traffic_backend_queue.Storage.{Sale, Phase, Db, find_sale}
use traffic_backend_queue.Inventory.Layout.{create_seats}
use traffic_backend_queue.HttpApi.{admin_auth}

-- A row of `events`.
pub record Event : Type 0 where
  pub id : ℕ
  pub name : ℕ
  pub venue : ℕ
  pub starts_at : ℕ

-- The table `events`, which only these handlers use, and the other tables.
pub record Tables : Type 0 where
  pub events : List Event
  pub db : Db

-- An error with its HTTP status and its code, or an id, which is `none` where the program writes an
-- empty text.
pub data Answer : Type 0 where
  error : ℕ → String → Answer
  event_created : (http_status : ℕ) → (event_id : Option ℕ) → Answer
  sale_created : (http_status sale_id : ℕ) → Answer

pub record EventRequest : Type 0 where
  pub name : ℕ
  pub venue : ℕ
  pub starts_at : Option ℕ

-- `event_id` is `none` if the text is no UUID.
pub record SaleRequest : Type 0 where
  pub event_id : Option ℕ
  pub opens_at : Option ℕ
  pub ends_at : Option ℕ
  pub total_seats : ℤ
  pub admit_per_minute : ℤ
  pub waiting_room_cap : ℤ

-- What fails in the database, and what it draws.
pub record AdminEnv : Type 0 where
  pub insert_fails : Bool
  pub seat_fails : (row num : ℕ) → Bool
  pub id : ℕ
  pub draw : (row num : ℕ) → ℕ

-- For the zero time of Go: it is before every time of the model, and this is at most that.
abbrev pub zero_time : ℕ
zero_time = 0

-- The largest value of a column of type INT.
abbrev pub int_max : ℕ
int_max = 2147483647

-- A number of the request if it is positive, and otherwise the default.
unfoldable pub seats_or : ℕ → ℤ → ℕ
seats_or d (pos n) = if ltb 0 n then n else d
seats_or d (negsuc n) = d

unfoldable pub has_event : ℕ → List Event → Bool
has_event id [] = false
has_event id (e ∷ es) = e.id == id || has_event id es

-- An INSERT that fails leaves `id` empty.
unfoldable pub create_event : AdminEnv → EventRequest → Tables → Tables × Answer
unfolding has_event
create_event env req t =
    if env.insert_fails || has_event env.id t.events then (t, event_created 201 none) else (
      record t {
        events =
            record {
              id = env.id;
              name = req.name;
              venue = req.venue;
              starts_at = from_option zero_time req.starts_at;
            }
            ∷ t.events;
      },
      event_created 201 (some env.id),
    )

-- The INSERT INTO sales meets the key of the event, the primary key and the width of INT.
unfoldable pub refuses : AdminEnv → SaleRequest → Sale → Tables → Bool
unfolding has_event find_sale
refuses env req sale t = elim req.event_id [
  | none ↦ true
  | some event ↦
      env.insert_fails
      || not (has_event event t.events)
      || is_some (find_sale sale.id t.db.sales)
      || ltb int_max sale.total_seats
      || ltb int_max sale.admit_per_minute
      || ltb int_max sale.waiting_room_cap
]

abbrev pub sale_of : ℕ → SaleRequest → Sale
sale_of id req = record {
  id = id;
  phase = Phase.general_sale;
  opens_at = from_option zero_time req.opens_at;
  ends_at = from_option zero_time req.ends_at;
  max_tickets_per_user = 4;
  waiting_room_cap = seats_or 100000 req.waiting_room_cap;
  admit_per_minute = seats_or 5000 req.admit_per_minute;
  total_seats = seats_or 2000 req.total_seats;
}

-- The error of `CreateSeats` is ignored.
unfoldable pub create_sale : AdminEnv → SaleRequest → Tables → Tables × Answer
unfolding refuses seats_or create_seats
create_sale env req t =
    let sale = sale_of env.id req in
    if refuses env req sale t
    then (t, error 400 "bad_request")
    else let (seats, _) = create_seats env.seat_fails env.draw env.id sale.total_seats t.db.seats in
      (
        record t { db = record (t.db) { sales = sale ∷ t.db.sales; seats = seats } },
        sale_created 201 env.id,
      )

module _ (admin_api_key : Option ℕ) where
  unfoldable pub route_event : Option ℕ → AdminEnv → EventRequest → Tables → Tables × Answer
  unfolding create_event admin_auth
  route_event key env req t =
      if admin_auth admin_api_key key then create_event env req t else (t, error 401 "unauthorized")

  unfoldable pub route_sale : Option ℕ → AdminEnv → SaleRequest → Tables → Tables × Answer
  unfolding create_sale admin_auth
  route_sale key env req t =
      if admin_auth admin_api_key key then create_sale env req t else (t, error 401 "unauthorized")
