-- ===== src/HttpApi.antt =====
-- internal/httpapi/handlers.go: the handlers of the sale, each behind its middleware. A text of a
-- request is a number, and the empty text is `none`; the texts of the messages are left out.
pub mod Access
pub mod Queueing
pub mod Shows
pub mod Accounts
pub mod Admin
pub mod Demo
pub mod Examples
use Prim.Native.String.{String}
use traffic_backend_queue.Common.{
  ℕ, zero, suc, ◌+◌, ◌*◌, Bool, true, false, Option, none, some, List, [], ◌∷◌, ◌==◌, if◌then◌else◌,
  from_option, not,
}
use traffic_backend_queue.Storage.{Store, Order, OrderStatus}
use traffic_backend_queue.Auth.{
  Jwt, AdmissionClaims, Authorization, Denial, unauthorized, admission_required, invalid_admission,
  pass, deny, middleware, admission_middleware, Consumed, consume_admission,
}
use traffic_backend_queue.WaitingRoom
use traffic_backend_queue.WaitingRoom.{Status, join, status}
use traffic_backend_queue.Inventory
use traffic_backend_queue.Inventory.{HoldResult, hold}
use traffic_backend_queue.Orders
use traffic_backend_queue.Orders.{CheckoutResult, checkout}
use traffic_backend_queue.Antibot
use traffic_backend_queue.Antibot.{Counters, allow_join, allow_checkout}

-- What a handler writes: an error with its HTTP status and its code, or a result.
pub data Reply : Type 0 where
  error : ℕ → String → Reply
  queued : (http_status position : ℕ) → Reply
  polled : Status → Reply
  seats_held : HoldResult → Reply
  sold : CheckoutResult → Reply
  order : (order_id : ℕ) → OrderStatus → Reply

-- What the handlers share: the store, the counters of the limiter, and the consumed tokens.
pub record App : Type 0 where
  pub store : Store
  pub counters : Counters
  pub consumed : Consumed

-- The settings that the handlers use: the key of the tokens and the times to live.
pub record Config : Type 0 where
  pub jwt_secret : String
  pub hold_ttl : ℕ
  pub admission_ttl : ℕ

-- One reading of the two clocks for a request, and the ids that it draws.
pub record Moment : Type 0 where
  pub now : ℕ
  pub db_now : ℕ
  pub id : ℕ

abbrev pub denied : Denial → Reply
denied unauthorized = error 401 "unauthorized"
denied admission_required = error 403 "admission required"
denied invalid_admission = error 403 "invalid admission"

-- The text "default".
abbrev pub default_key : ℕ
default_key = 0

-- X-Forwarded-For, and otherwise the address of the connection.
unfoldable pub client_ip : Option ℕ → ℕ → ℕ
client_ip forwarded remote = from_option remote forwarded

unfoldable pub join_reply : WaitingRoom.Result (ℕ × Bool) → Reply
join_reply (WaitingRoom.Result.ok (pos, is_new)) = queued (if is_new then 201 else 200) pos
join_reply (WaitingRoom.Result.err WaitingRoom.Error.sale_not_open) = error 403 "sale_closed"
join_reply (WaitingRoom.Result.err WaitingRoom.Error.waiting_room_full) = error 503 "room_full"
join_reply (WaitingRoom.Result.err _) = error 500 "internal"

unfoldable pub queue_join :
    Antibot.Faults → WaitingRoom.Faults → Moment → (sale user ip : ℕ) → App → App × Reply
unfolding join_reply
queue_join lf f m sale user ip app =
    let (counters, answer) = allow_join lf m.now user ip app.counters in
    elim answer [
      | some true ↦
          let (store, r) = join f m.now m.db_now sale user app.store in
          (record app { store = store; counters = counters }, join_reply r)
      | some false ↦ (record app { counters = counters }, error 429 "rate_limited")
      | none ↦ (record app { counters = counters }, error 429 "rate_limited")
    ]

unfoldable pub status_reply : WaitingRoom.Result Status → Reply
status_reply (WaitingRoom.Result.ok st) = polled st
status_reply (WaitingRoom.Result.err WaitingRoom.Error.not_in_queue) = error 404 "not_in_queue"
status_reply (WaitingRoom.Result.err _) = error 500 "internal"

unfoldable pub hold_reply : Inventory.Result HoldResult → Reply
hold_reply (Inventory.Result.ok r) = seats_held r
hold_reply (Inventory.Result.err Inventory.Error.seat_unavailable) = error 409 "unavailable"
hold_reply (Inventory.Result.err _) = error 400 "bad_request"

-- The body of a hold: `none` if it is no JSON of the expected form.
unfoldable pub create_hold :
    Inventory.Faults
    → Config
    → Moment
    → (sale user : ℕ) → Option (List ℕ × Option ℕ)
    → App
    → App × Reply
unfolding hold_reply
create_hold f cfg m sale user none app = (app, error 400 "bad_request")
create_hold f cfg m sale user (some (seat_ids, key)) app =
    let (db, r) =
      hold f cfg.hold_ttl m.now m.db_now m.id sale user (from_option default_key key) seat_ids
        app.store.db in
    (record app { store = record (app.store) { db = db } }, hold_reply r)

unfoldable pub checkout_reply : Orders.Result CheckoutResult → Reply
checkout_reply (Orders.Result.ok r) = sold r
checkout_reply (Orders.Result.err Orders.Error.ticket_cap_reached) = error 403 "cap_exceeded"
checkout_reply (Orders.Result.err _) = error 400 "bad_request"

-- Which calls of a checkout fail, and what the libraries draw and compute for it.
pub record CheckoutEnv : Type 0 where
  pub consume : Bool
  pub limiter : Antibot.Faults
  pub orders : Orders.Faults
  pub draw : ℕ → ℕ
  pub owner_hash : ℕ → ℕ

-- A hold id that is no UUID makes the query for the hold fail.
abbrev pub hold_query_faults : Orders.Faults → Option ℕ → Orders.Faults
hold_query_faults f none = record f { hold_query = true }
hold_query_faults f (some id) = f

-- A body that cannot be decoded leaves both fields empty.
abbrev pub place_order :
    CheckoutEnv → Moment → (sale user : ℕ) → Option ℕ → Option ℕ → App → App × Reply
place_order env m sale user hold_id key app =
    let (db, r) =
      checkout (hold_query_faults env.orders hold_id) env.draw env.owner_hash m.db_now m.id sale
        user (from_option default_key key) (from_option 0 hold_id) app.store.db in
    (record app { store = record (app.store) { db = db } }, checkout_reply r)

abbrev pub limited_order :
    CheckoutEnv → Moment → (sale user ip : ℕ) → Option ℕ → Option ℕ → App → App × Reply
limited_order env m sale user ip hold_id key app =
    let (counters, answer) = allow_checkout env.limiter m.now user ip app.counters in
    let app' = record app { counters = counters } in
    elim answer [
      | some true ↦ place_order env m sale user hold_id key app'
      | some false ↦ (app', error 429 "rate_limited")
      | none ↦ (app', error 429 "rate_limited")
    ]

-- The handler `checkout`. `sale` is the one of the URL; the sale of the token is not looked at.
unfoldable pub checkout_handler :
    CheckoutEnv
    → Config
    → Moment
    → (sale : ℕ) → AdmissionClaims
    → (ip : ℕ) → Option ℕ
    → Option ℕ
    → App
    → App × Reply
checkout_handler env cfg m sale claims ip hold_id key app =
    let (consumed, answer) =
      consume_admission env.consume (cfg.admission_ttl * 2) m.now sale claims.jti app.consumed in
    let app' = record app { consumed = consumed } in
    elim answer [
      | some true ↦ limited_order env m sale claims.user_id ip hold_id key app'
      | some false ↦ (app', error 403 "admission_used")
      | none ↦ (app', error 403 "admission_used")
    ]

-- SELECT status FROM orders WHERE id = $1 AND user_id = $2
pub find_user_order : ℕ → ℕ → List Order → Option Order
find_user_order id user [] = none
find_user_order id user (o ∷ os) = elim (o.id == id) [
  | true ↦ if o.user_id == user then some o else find_user_order id user os
  | false ↦ find_user_order id user os
]

unfoldable pub get_order : Bool → (order_id user : ℕ) → App → Reply
unfolding find_user_order
get_order fails order_id user app =
    if fails
    then error 404 "not_found"
    else elim (find_user_order order_id user app.store.db.orders) [
      | none ↦ error 404 "not_found"
      | some o ↦ order order_id o.status
    ]

-- The key of a request for the demo: the header, and otherwise the query.
unfoldable pub demo_auth : (demo_api_key header query : Option ℕ) → Bool
demo_auth none header query = true
demo_auth (some expected) (some key) query = key == expected
demo_auth (some expected) none (some key) = key == expected
demo_auth (some expected) none none = false

unfoldable pub admin_auth : (admin_api_key header : Option ℕ) → Bool
admin_auth none none = true
admin_auth (some expected) (some key) = key == expected
admin_auth _ _ = false

module _ (jwt : Jwt) where
  unfoldable pub queue_status :
      WaitingRoom.Faults → Config → Moment → (sale user : ℕ) → App → App × Reply
  unfolding status_reply
  queue_status f cfg m sale user app =
      let (store, r) =
        status jwt f cfg.jwt_secret cfg.admission_ttl m.now m.db_now m.id sale user app.store in
      (record app { store = store }, status_reply r)

  -- The loop of `queueStream`: one poll for each round left, at the moments given.
  pub stream_rounds :
      WaitingRoom.Faults
      → Config
      → (moments : ℕ → Moment) → (sale user rounds : ℕ) → Store
      → Store × List Status
  stream_rounds f cfg moments sale user zero s = (s, [])
  stream_rounds f cfg moments sale user (suc k) s =
      let m = moments (suc k) in
      let (s', r) = status jwt f cfg.jwt_secret cfg.admission_ttl m.now m.db_now m.id sale user s in
      let rest = stream_rounds f cfg moments sale user k s' in
      elim r [
        | WaitingRoom.Result.err e ↦ (s', [])
        | WaitingRoom.Result.ok st ↦ if st.admitted then (s', st ∷ []) else (rest.0, st ∷ rest.1)
      ]

  unfoldable pub queue_stream :
      WaitingRoom.Faults
      → Config
      → (moments : ℕ → Moment) → (sale user : ℕ) → App
      → App × List Status
  unfolding stream_rounds
  queue_stream f cfg moments sale user app =
      let (s, sent) = stream_rounds f cfg moments sale user 5 app.store in
      (record app { store = s }, sent)

  -- The routes, each behind its middleware.
  unfoldable pub route_join :
      Antibot.Faults
      → WaitingRoom.Faults
      → Config
      → Moment
      → Authorization
      → (sale ip : ℕ) → App
      → App × Reply
  unfolding queue_join
  route_join lf f cfg m h sale ip app = elim (middleware jwt cfg.jwt_secret m.now h) [
    | deny d ↦ (app, denied d)
    | pass claims ↦ queue_join lf f m sale claims.user_id ip app
  ]

  unfoldable pub route_hold :
      Inventory.Faults
      → Config
      → Moment
      → Authorization
      → (sale : ℕ) → Option (List ℕ × Option ℕ)
      → App
      → App × Reply
  route_hold f cfg m h sale body app = elim (admission_middleware jwt cfg.jwt_secret m.now h) [
    | deny d ↦ (app, denied d)
    | pass claims ↦ create_hold f cfg m sale claims.user_id body app
  ]

  unfoldable pub route_checkout :
      CheckoutEnv
      → Config
      → Moment
      → Authorization
      → (sale ip : ℕ) → Option ℕ
      → Option ℕ
      → App
      → App × Reply
  route_checkout env cfg m h sale ip hold_id key app =
      elim (admission_middleware jwt cfg.jwt_secret m.now h) [
        | deny d ↦ (app, denied d)
        | pass claims ↦ checkout_handler env cfg m sale claims ip hold_id key app
      ]
