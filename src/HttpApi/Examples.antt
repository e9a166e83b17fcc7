-- ===== src/HttpApi/Examples.antt =====
-- The theorems about internal/httpapi at a concrete sale.
use traffic_backend_queue.Common.{
  ◌+◌, ap, ◌≡◌, ◌≢◌, refl, inl, false, true, none, some, [], ◌∷◌, length, arith,
}
use traffic_backend_queue.Storage.{find_sale, find_entry}
use traffic_backend_queue.Auth.{admission, admission_middleware, issue_user_token}
use traffic_backend_queue.Auth.Toy.{toy, user_payload}
use traffic_backend_queue.WaitingRoom
use traffic_backend_queue.WaitingRoom.{join, position_taken}
use traffic_backend_queue.WaitingRoom.Entries.{Inv}
use traffic_backend_queue.Inventory
use traffic_backend_queue.Inventory.{HoldResult, hold, update_status}
use traffic_backend_queue.Inventory.Examples.{hall, first_hold}
use traffic_backend_queue.Orders
use traffic_backend_queue.Antibot
use traffic_backend_queue.Antibot.{Counters, allow_join}
use traffic_backend_queue.HttpApi.{
  seats_held, App, Config, Moment, CheckoutEnv, create_hold, route_hold,
}
use traffic_backend_queue.HttpApi.Access.{Carries, route_hold-Carries, hold_skips_queue}

abbrev config : Config
config = record { jwt_secret = "secret"; hold_ttl = 12; admission_ttl = 60 }

abbrev moment : Moment
moment = record { now = 130; db_now = 131; id = 42 }

abbrev fresh : Counters
fresh kind id = none

abbrev no_limiter_faults : Antibot.Faults
no_limiter_faults = record { ip = false; user = false }

-- The sale of `hall` without the second hold, with an empty queue.
abbrev site : App
site = record {
  store = record {
    db = record hall { holds = first_hold ∷ [] };
    redis = record { queue_seq = λ j. none; next_admit = λ j. none };
  };
  counters = fresh;
  consumed = λ sale jti. none;
}

site-Inv : Inv site.store
site-Inv = record { in_range = tt; distinct = tt }

abbrev no_sales : CheckoutEnv
no_sales = record {
  consume = false;
  limiter = no_limiter_faults;
  orders = Orders.no_faults;
  draw = λ n. 900 + n;
  owner_hash = λ user. user;
}

abbrev broken : Antibot.Faults
broken = record { ip = true; user = false }

broken_answer : (allow_join broken 130 7 9 fresh).1 ≢ some true
unfolding allow_join
broken_answer e = cc

abbrev answer : HoldResult
answer = record { hold_id = 42; seat_ids = 12 ∷ []; expires_at = 142 }

hold_skips_queue_example :
    (route_hold
      (toy user_payload)
      Inventory.no_faults
      config
      moment
      (admission "token")
      1
      (some (12 ∷ [], some 9))
      site).1
    ≡ seats_held answer
unfolding toy issue_user_token hold update_status find_sale find_entry
hold_skips_queue_example =
    hold_skips_queue (toy user_payload) config moment Inventory.no_faults 7 1 5 60 100 9 "token"
      (12 ∷ []) site answer refl refl (omega arith) refl

held_differs :
    (route_hold
      (toy user_payload)
      Inventory.no_faults
      config
      moment
      (admission "token")
      1
      (some (12 ∷ [], some 9))
      site).0
    ≢ site
unfolding toy route_hold create_hold admission_middleware hold update_status find_sale
held_differs e =
    let more = ap (λ (a : App). length a.store.db.holds) e in absurd (omega (arith, more))

route_hold-Carries_example : Carries (toy user_payload) config moment (admission "token")
route_hold-Carries_example =
    route_hold-Carries (toy user_payload) config moment Inventory.no_faults (admission "token") 1
      (some (12 ∷ [], some 9)) no_sales 9 none none site (inl held_differs)
