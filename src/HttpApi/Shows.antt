-- ===== src/HttpApi/Shows.antt =====
-- The handlers of internal/httpapi that only show something: listSeats, saleStats, queueEntries and
-- ready of handlers.go, getSimulation and liveDashboard of simulation_handlers.go, demoConfig of
-- loadtest_handlers.go, and the route of ticket transfers, each behind its middleware.
use Prim.Native.String.{String}
use traffic_backend_queue.Common.{
  ℕ, Bool, Option, none, some, List, if◌then◌else◌, is_some, pos, sort_by,
}
use traffic_backend_queue.Storage.{Seat, Db, Store}
use traffic_backend_queue.Auth.{
  Jwt, Authorization, Denial, unauthorized, admission_required, invalid_admission, deny, pass,
  admission_middleware,
}
use traffic_backend_queue.Inventory.{ok, err}
use traffic_backend_queue.Inventory.Available.{list_available}
use traffic_backend_queue.Orders
use traffic_backend_queue.Orders.{transfer}
use traffic_backend_queue.Orders.Stats.{StatsFaults, SaleStats, stats}
use traffic_backend_queue.AssertQueue.{Row, rows_of, placed_before}
use traffic_backend_queue.Simulation
use traffic_backend_queue.Simulation.{Engine}
use traffic_backend_queue.Loadtest.{Caps}
use traffic_backend_queue.Dashboard
use traffic_backend_queue.Dashboard.{LiveStats, live}
use traffic_backend_queue.HttpApi.{Config, admin_auth, demo_auth}

pub data Shown : Type 0 where
  error : ℕ → String → Shown
  seats : List Seat → Shown
  sale_stats : SaleStats → Shown
  entries : List Row → Shown
  simulation : Simulation.Config → Shown
  dashboard : LiveStats → Shown
  demo_config : (demo_key_required : Bool) → Caps → Shown
  is_ready : Shown

unfoldable pub list_seats : Bool → (sale : ℕ) → Store → Shown
unfolding list_available
list_seats fails sale s = elim (list_available fails sale (pos 200) s.db.seats) [
  | ok listed ↦ seats listed
  | err e ↦ error 500 "internal"
]

-- `QueueEntriesForAssert` of internal/waitingroom/service.go in the order of the positions.
unfoldable pub queue_entries : Bool → (sale : ℕ) → Store → Shown
unfolding rows_of
queue_entries fails sale s =
    if fails
    then error 500 "internal"
    else entries (sort_by placed_before (rows_of sale s.db.queue_entries))

-- The sale of the query, and otherwise that of the engine.
abbrev pub shown_sale : Option ℕ → Engine → Option ℕ
shown_sale (some sale) sim = some sale
shown_sale none sim = sim.sale_id

unfoldable pub live_dashboard :
    (fails : Dashboard.Query → Bool)
    → (elapsed : ℕ) → (db_now : Dashboard.Query → ℕ) → Option ℕ
    → Engine
    → (Dashboard.Query → Store)
    → Shown
unfolding live
live_dashboard fails elapsed db_now query sim found = elim (shown_sale query sim) [
  | none ↦ error 400 "no_sale"
  | some sale ↦ dashboard (live fails elapsed db_now sale sim found)
]

-- Only the database is asked.
pub ready : (ping_fails : Bool) → Shown
ready ping_fails = if ping_fails then error 503 "not_ready" else is_ready

abbrev pub refused : Denial → Shown
refused unauthorized = error 401 "unauthorized"
refused admission_required = error 403 "admission required"
refused invalid_admission = error 403 "invalid admission"

-- The routes.
unfoldable pub route_seats :
    Jwt → Config → (now : ℕ) → Authorization → Bool → (sale : ℕ) → Store → Shown
unfolding list_seats
route_seats jwt cfg now h fails sale s = elim (admission_middleware jwt cfg.jwt_secret now h) [
  | deny d ↦ refused d
  | pass claims ↦ list_seats fails sale s
]

module _ (admin_api_key key : Option ℕ) where
  unfoldable pub route_stats : StatsFaults → (sale : ℕ) → Db → Shown
  unfolding stats admin_auth
  route_stats f sale d =
      if admin_auth admin_api_key key then sale_stats (stats f sale d) else error 401 "unauthorized"

  unfoldable pub route_entries : Bool → (sale : ℕ) → Store → Shown
  unfolding queue_entries admin_auth
  route_entries fails sale s =
      if admin_auth admin_api_key key then queue_entries fails sale s else error 401 "unauthorized"

module _ (demo_api_key header query_key : Option ℕ) where
  unfoldable pub route_simulation : Engine → Shown
  unfolding demo_auth
  route_simulation sim =
      if demo_auth demo_api_key header query_key
      then simulation sim.cfg
      else error 401 "unauthorized"

  unfoldable pub route_dashboard :
      (fails : Dashboard.Query → Bool)
      → (elapsed : ℕ) → (db_now : Dashboard.Query → ℕ) → Option ℕ
      → Engine
      → (Dashboard.Query → Store)
      → Shown
  unfolding demo_auth live_dashboard
  route_dashboard fails elapsed db_now query sim found =
      if demo_auth demo_api_key header query_key
      then live_dashboard fails elapsed db_now query sim found
      else error 401 "unauthorized"

  unfoldable pub route_demo_config : Caps → Shown
  unfolding demo_auth
  route_demo_config limits =
      if demo_auth demo_api_key header query_key
      then demo_config (is_some demo_api_key) limits
      else error 401 "unauthorized"

-- The route of transfers answers the same whatever `Transfer` returns.
pub route_transfer : Shown
unfolding transfer
route_transfer = elim transfer [
  | Orders.Result.ok u ↦ error 403 "transfer_blocked"
  | Orders.Result.err e ↦ error 403 "transfer_blocked"
]
