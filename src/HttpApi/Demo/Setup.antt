-- ===== src/HttpApi/Demo/Setup.antt =====
-- What a setup of the demo gives: internal/simulation/engine.go through the admin routes of
-- internal/httpapi/handlers.go.
use traffic_backend_queue.Common.{
  ℕ, ◌≡◌, refl, ap, ◌≤◌, false, true, Option, none, some, ◌∷◌, from_option, arith,
}
use traffic_backend_queue.Storage.{Sale, find_sale}
use traffic_backend_queue.Inventory.Layout.{IsLaidOut}
use traffic_backend_queue.Simulation.{set_sale_id}
use traffic_backend_queue.WaitingRoom.{sale_open_for_queue}
use traffic_backend_queue.HttpApi.{admin_auth}
use traffic_backend_queue.HttpApi.Admin.{
  Tables, SaleRequest, has_event, sale_of, sale_created, event_created, create_event, create_sale,
  refuses, route_sale, route_event, int_max,
}
use traffic_backend_queue.HttpApi.Admin.Sales.{DrawsNew, route_sale-IsLaidOut}
use traffic_backend_queue.HttpApi.Demo.{
  SaleParams, answered, SetupEnv, World, demo_sale, setup_demo, demo_reset, demo_event, ready,
}

module _ (admin_api_key engine_key : Option ℕ) where
  -- The server answers both calls, no statement of the database fails, the ids that it draws are new,
  -- and the numbers of the parameters fit the columns.
  pub record IsHealthy (env : SetupEnv) (p : SaleParams) (w : World) : Type 0 where
    pub answered_event : env.event_delivery ≡ answered
    pub answered_sale : env.sale_delivery ≡ answered
    pub inserts_event : env.event_env.insert_fails ≡ false
    pub inserts_sale : env.sale_env.insert_fails ≡ false
    pub inserts_seats : env.sale_env.seat_fails ≡ (λ row num. false)
    pub new_event : has_event env.event_env.id w.tables.events ≡ false
    pub new_sale : find_sale env.sale_env.id w.tables.db.sales ≡ none
    pub draws_new : DrawsNew env.sale_env w.tables
    pub seats_fit : (sale_of 0 (demo_sale env.now none p)).total_seats ≤ int_max
    pub rate_fits : (sale_of 0 (demo_sale env.now none p)).admit_per_minute ≤ int_max
    pub cap_fits : (sale_of 0 (demo_sale env.now none p)).waiting_room_cap ≤ int_max

  module _ (env : SetupEnv) (p : SaleParams) (w : World)
      (key : admin_auth admin_api_key engine_key ≡ true) (h : IsHealthy env p w) where
    abbrev after_event : Tables
    after_event = record w.tables {
      events =
          record {
            id = env.event_env.id;
            name = demo_event.name;
            venue = demo_event.venue;
            starts_at = from_option 0 demo_event.starts_at;
          }
          ∷ w.tables.events;
    }

    abbrev request : SaleRequest
    request = demo_sale env.now (some env.event_env.id) p

    event_step :
        route_event admin_api_key engine_key env.event_env demo_event w.tables
        ≡ (after_event, event_created 201 (some env.event_env.id))
    unfolding route_event
    event_step = rw (key, h.inserts_event, h.new_event, create_event) refl

    accepts : refuses env.sale_env request (sale_of env.sale_env.id request) after_event ≡ false
    unfolding refuses demo_sale has_event
    accepts = ground (arith, h)

    sale_step :
        (route_sale admin_api_key engine_key env.sale_env request after_event).1
        ≡ sale_created 201 env.sale_env.id
    unfolding route_sale create_sale
    sale_step = ground (arith, key, accepts)

    abbrev after_setup : World
    after_setup = record w {
      tables = (route_sale admin_api_key engine_key env.sale_env request after_event).0;
      engine = set_sale_id (some env.sale_env.id) w.engine;
    }

    setup_step :
        setup_demo admin_api_key engine_key env p w ≡ (after_setup, some (some env.sale_env.id))
    unfolding setup_demo
    setup_step =
        rw (h.answered_event, event_step, h.answered_sale, setup_demo) (ground (arith, sale_step))

    reset_step :
        demo_reset admin_api_key engine_key env p w
        ≡ (after_setup, ready 200 (some env.sale_env.id))
    unfolding demo_reset
    reset_step =
        rw (setup_step, demo_reset) (ap (λ r. (r.0, ready 200 (some env.sale_env.id))) setup_step)

  -- The engine is set to the sale, which has its seats laid out and is open from now on. Loops that run
  -- already keep the sale that they were started for.
  abbrev pub Ready : (now id : ℕ) → World → Type 0
  Ready now id w =
      (w.engine.sale_id ≡ some id)
      × ((sale : Sale) × (find_sale id w.tables.db.sales ≡ some sale)
          × IsLaidOut id sale.total_seats w.tables.db.seats
          × ((later : ℕ) → now ≤ later → sale_open_for_queue later sale ≡ true))

  after_setup-Ready :
      (env : SetupEnv) (p : SaleParams) (w : World)
      (key : admin_auth admin_api_key engine_key ≡ true) (h : IsHealthy env p w)
      → Ready env.now env.sale_env.id (after_setup env p w key h)
  unfolding sale_open_for_queue demo_sale set_sale_id
  after_setup-Ready env p w key h =
      let (_, _, found, laid) =
        route_sale-IsLaidOut admin_api_key engine_key env.sale_env (request env p w key h)
          (after_event env p w key h) env.sale_env.id
          (record {
            injective = h.draws_new.injective;
            unused = h.draws_new.unused;
            no_seats = h.draws_new.no_seats;
          })
          h.inserts_seats (sale_step env p w key h) in
      (
        refl,
        (
          sale_of env.sale_env.id (request env p w key h),
          found,
          laid,
          λ later le. ground (arith, le),
        ),
      )

  pub setup_demo-Ready :
      (env : SetupEnv) (p : SaleParams) (w : World)
      → admin_auth admin_api_key engine_key ≡ true
      → IsHealthy env p w
      → Ready env.now env.sale_env.id (setup_demo admin_api_key engine_key env p w).0
  setup_demo-Ready env p w key h = rw (setup_step env p w key h) (after_setup-Ready env p w key h)

  -- An engine that knows the admin key sets a demo up, where the server answers and no statement of
  -- the database fails: the reset answers 200 with a new sale, the sale of the engine is set to it, the
  -- sale has its seats laid out, and from then on it is open for joining.
  pub demo_reset-ready :
      (env : SetupEnv) (p : SaleParams) (w : World)
      → admin_auth admin_api_key engine_key ≡ true
      → IsHealthy env p w
      → let (w', reply) = demo_reset admin_api_key engine_key env p w in
        (reply ≡ ready 200 (some env.sale_env.id)) × Ready env.now env.sale_env.id w'
  demo_reset-ready env p w key h =
      rw (reset_step env p w key h) (refl, after_setup-Ready env p w key h)

  -- An engine with the wrong admin key sets no demo up, where the server answers: the server changes
  -- no table, and yet the reset answers 200 without a sale, and the engine no longer has one.
  pub demo_reset_rejected :
      (env : SetupEnv) (p : SaleParams) (w : World)
      → admin_auth admin_api_key engine_key ≡ false
      → env.event_delivery ≡ answered
      → env.sale_delivery ≡ answered
      → demo_reset admin_api_key engine_key env p w
        ≡ (record w { engine = set_sale_id none w.engine }, ready 200 none)
  unfolding demo_reset setup_demo route_event route_sale
  demo_reset_rejected env p w wrong event sale =
      rw (event, wrong, demo_reset, setup_demo, route_event) (ground (arith, sale, wrong))
