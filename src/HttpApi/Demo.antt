-- ===== src/HttpApi/Demo.antt =====
-- The demo handlers of internal/httpapi/loadtest_handlers.go and simulation_handlers.go, and the setup
-- of internal/simulation/engine.go, which calls the admin routes of this server.
pub mod Setup
pub mod Starting
pub mod Examples
use Prim.Native.String.{String}
use traffic_backend_queue.Common.{
  ℕ, ◌-◌, ◌*◌, ◌/◌, ◌+◌, Bool, not, Option, none, some, List, if◌then◌else◌, ℤ, pos,
}
use traffic_backend_queue.Simulation
use traffic_backend_queue.Simulation.{Engine, Name, active_names, set_sale_id, update_config}
use traffic_backend_queue.Loadtest
use traffic_backend_queue.Loadtest.{
  Caps, Scenario, Job, RunRequest, RunResult, Submitted, accepted, refused, positive_or,
  valid_scenario, submit, get_status, second,
}
use traffic_backend_queue.Loadtest.Listing.{list_runs}
use traffic_backend_queue.HttpApi.Admin.{
  Tables, Answer, event_created, sale_created, AdminEnv, EventRequest, SaleRequest, route_event,
  route_sale,
}

pub record SaleParams : Type 0 where
  pub total_seats : ℤ
  pub admit_per_minute : ℤ
  pub waiting_room_cap : ℤ

abbrev pub default_sale_params : SaleParams
default_sale_params = record {
  total_seats = pos 500;
  admit_per_minute = pos 6000;
  waiting_room_cap = pos 100000;
}

-- A call of the engine to the server: it is answered, or it fails before or after the server has
-- handled it.
pub data Delivery : Type 0 where
  answered not_sent answer_lost : Delivery

pub record SetupEnv : Type 0 where
  pub now : ℕ
  pub event_delivery : Delivery
  pub event_env : AdminEnv
  pub sale_delivery : Delivery
  pub sale_env : AdminEnv

-- What the handlers of the demo change.
pub record World : Type 0 where
  pub engine : Engine
  pub tables : Tables
  pub loads : Loadtest.Store

-- What the bodies of the answers decode to: `none` is the empty text.
abbrev pub event_id_of : Answer → Option ℕ
event_id_of (event_created status id) = id
event_id_of _ = none

abbrev pub sale_id_of : Answer → Option ℕ
sale_id_of (sale_created status id) = some id
sale_id_of _ = none

-- The tables after a call, and the answer if it arrives.
abbrev pub deliver : Delivery → Tables → Tables × Answer → Tables × Option Answer
deliver Delivery.answered t (t', a) = (t', some a)
deliver Delivery.not_sent t r = (t, none)
deliver Delivery.answer_lost t (t', a) = (t', none)

-- A time in RFC 3339 has whole seconds.
abbrev pub to_second : ℕ → ℕ
to_second t = t / second * second

-- 2026-12-01T20:00:00Z, and the texts of the demo.
abbrev pub demo_event : EventRequest
demo_event = record { name = 0; venue = 1; starts_at = some (1796155200 * second) }

unfoldable pub demo_sale : ℕ → Option ℕ → SaleParams → SaleRequest
demo_sale now event p = record {
  event_id = event;
  opens_at = some (to_second (now - 2 * 60 * second));
  ends_at = some (to_second (now + 24 * 3600 * second));
  total_seats = positive_or p.total_seats (pos 500);
  admit_per_minute = positive_or p.admit_per_minute (pos 6000);
  waiting_room_cap = positive_or p.waiting_room_cap (pos 100000);
}

-- What the handlers write: an error with its HTTP status and its code, or a result.
pub data Reply : Type 0 where
  error : ℕ → String → Reply
  ready : (http_status : ℕ) → (sale : Option ℕ) → Reply
  simulating : (http_status : ℕ) → Simulation.Config → (sale : Option ℕ) → List Name → Reply
  started : (http_status run : ℕ) → (sale : Option ℕ) → Scenario → Reply
  run_status : (http_status : ℕ) → RunResult → Reply
  listed : (http_status : ℕ) → List RunResult → Reply

abbrev pub submit_reply : Option ℕ → Submitted → Reply
submit_reply sale (accepted job) = started 202 job.run_id sale job.scenario
submit_reply sale (refused Loadtest.Error.queue_full) = error 429 "loadtest_busy"
submit_reply sale (refused Loadtest.Error.already_busy) = error 429 "loadtest_busy"
submit_reply sale (refused _) = error 500 "submit_failed"

-- `none` is a setup that fails, and otherwise it gives the text of the id of the sale.
module _ (admin_api_key engine_key : Option ℕ) where
  unfoldable pub setup_demo : SetupEnv → SaleParams → World → World × Option (Option ℕ)
  unfolding route_event route_sale set_sale_id demo_sale
  setup_demo env p w =
      let (t, ev) =
        deliver env.event_delivery w.tables
          (route_event admin_api_key engine_key env.event_env demo_event w.tables) in
      elim ev [
        | none ↦ (record w { tables = t }, none)
        | some e ↦
            let (t', answer) = deliver env.sale_delivery t (
              route_sale admin_api_key engine_key env.sale_env (demo_sale env.now (event_id_of e) p)
                t) in
            elim answer [
              | none ↦ (record w { tables = t' }, none)
              | some a ↦ (
                record w { tables = t'; engine = set_sale_id (sale_id_of a) w.engine },
                some (sale_id_of a),
              )
            ]
      ]

  unfoldable pub demo_reset : SetupEnv → SaleParams → World → World × Reply
  unfolding setup_demo
  demo_reset env p w =
      let (w', r) = setup_demo env p w in
      elim r [ none ↦ (w', error 500 "reset_failed") | some sale ↦ (w', ready 200 sale) ]

  unfoldable pub demo_setup : SetupEnv → World → World × Reply
  unfolding setup_demo set_sale_id
  demo_setup env w =
      let (w', r) = setup_demo env default_sale_params w in
      elim r [
        | none ↦ (w', error 500 "setup_failed")
        | some sale ↦ (record w' { engine = set_sale_id sale w'.engine }, ready 200 sale)
      ]

  -- The sale of the engine, and otherwise that of a new setup.
  unfoldable pub engine_sale : SetupEnv → SaleParams → World → World × Option (Option ℕ)
  unfolding setup_demo
  engine_sale env p w = elim w.engine.sale_id [
    | some sale ↦ (w, some (some sale))
    | none ↦ setup_demo env p w
  ]

  unfoldable pub set_simulation : SetupEnv → Option Simulation.Config → World → World × Reply
  unfolding engine_sale update_config active_names
  set_simulation env none w = (w, error 400 "bad_request")
  set_simulation env (some c) w =
      let (w', r) = engine_sale env default_sale_params w in
      elim r [
        | none ↦ (w', error 500 "setup_failed")
        | some sale ↦ (
          record w' { engine = update_config c w'.engine },
          simulating 200 c sale (active_names c),
        )
      ]

  -- The sale of the request, and otherwise that of `engine_sale`.
  unfoldable pub requested_sale : SetupEnv → RunRequest → World → World × Option (Option ℕ)
  unfolding engine_sale
  requested_sale env req w = elim req.sale_id [
    | some sale ↦ (w, some (some sale))
    | none ↦
        engine_sale env
          (record {
            total_seats = req.total_seats;
            admit_per_minute = req.admit_per_minute;
            waiting_room_cap = req.waiting_room_cap;
          })
          w
  ]

  unfoldable pub start_load_test :
      (list_fails write_fails : Bool)
      → Caps
      → (run : ℕ) → SetupEnv
      → Option RunRequest
      → World
      → World × Reply
  unfolding requested_sale submit valid_scenario
  start_load_test list_fails write_fails l run env none w = (w, error 400 "bad_request")
  start_load_test list_fails write_fails l run env (some req) w =
      let (w', r) = requested_sale env req w in
      if not (valid_scenario req.scenario) then (w, error 400 "invalid_scenario") else elim r [
        | none ↦ (w', error 500 "setup_failed")
        | some sale ↦
            let (loads, s) =
              submit list_fails write_fails l run env.now (record req { sale_id = sale })
                w'.loads in
            (record w' { loads = loads }, submit_reply sale s)
      ]

unfoldable pub get_load_test : (now run : ℕ) → World → Reply
unfolding get_status
get_load_test now run w = elim (get_status now run w.loads) [
  | none ↦ error 404 "not_found"
  | some r ↦ run_status 200 r
]

unfoldable pub list_load_tests : (dir_fails : Bool) → (greater : ℕ → ℕ → Bool) → World → Reply
unfolding list_runs
list_load_tests dir_fails greater w = elim (list_runs dir_fails greater (pos 20) w.loads) [
  | none ↦ error 500 "internal"
  | some runs ↦ listed 200 runs
]
