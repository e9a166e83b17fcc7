-- ===== src/HttpApi/Demo/Examples.antt =====
-- The theorems about the admin and the demo handlers at a small site.
use traffic_backend_queue.Common.{ℕ, ◌≡◌, refl, false, some, [], ◌∷◌, pos, arith}
use traffic_backend_queue.Storage.{find_sale}
use traffic_backend_queue.Inventory.Examples.{hall, draw, draw-IsInjective}
use traffic_backend_queue.Simulation.{new_engine}
use traffic_backend_queue.HttpApi.{admin_auth}
use traffic_backend_queue.HttpApi.Admin.{Tables, AdminEnv, has_event, seats_or}
use traffic_backend_queue.HttpApi.Admin.Sales.{DrawsNew}
use traffic_backend_queue.HttpApi.Demo.{
  SaleParams, answered, SetupEnv, World, ready, demo_reset, demo_sale,
}
use traffic_backend_queue.HttpApi.Demo.Setup.{IsHealthy, Ready, demo_reset-ready}

abbrev pub tables : Tables
tables = record { events = record { id = 5; name = 0; venue = 1; starts_at = 900 } ∷ []; db = hall }

abbrev env : ℕ → AdminEnv
env id = record { insert_fails = false; seat_fails = λ row num. false; id = id; draw = draw }

-- The database draws 2 for the sale, and 20 and more for its seats.
pub tables-DrawsNew : DrawsNew (env 2) tables
tables-DrawsNew = record {
  injective = draw-IsInjective;
  unused = λ row num. (omega arith, (omega arith, (omega arith, tt)));
  no_seats = (omega arith, (omega arith, (omega arith, tt)));
}

abbrev pub setup : SetupEnv
setup = record {
  now = 1000;
  event_delivery = answered;
  event_env = env 6;
  sale_delivery = answered;
  sale_env = env 2;
}

abbrev params : SaleParams
params = record { total_seats = pos 3; admit_per_minute = pos 0; waiting_room_cap = pos 7 }

abbrev pub world : World
world = record { engine = new_engine; tables = tables; loads = record { jobs = []; results = [] } }

world-IsHealthy : IsHealthy (some 9) (some 9) setup params world
unfolding has_event find_sale demo_sale seats_or
world-IsHealthy = record {
  answered_event = refl;
  answered_sale = refl;
  inserts_event = refl;
  inserts_sale = refl;
  inserts_seats = refl;
  new_event = refl;
  new_sale = refl;
  draws_new = tables-DrawsNew;
  seats_fit = omega arith;
  rate_fits = omega arith;
  cap_fits = omega arith;
}

demo_reset-ready_example :
    ((demo_reset (some 9) (some 9) setup params world).1 ≡ ready 200 (some 2))
    × Ready (some 9) (some 9) 1000 2 (demo_reset (some 9) (some 9) setup params world).0
unfolding admin_auth
demo_reset-ready_example =
    demo_reset-ready (some 9) (some 9) setup params world refl world-IsHealthy
