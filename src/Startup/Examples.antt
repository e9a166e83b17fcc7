-- ===== src/Startup/Examples.antt =====
-- The theorems about the start of the server at concrete environments.
use traffic_backend_queue.Common.{
  List, Bool, ◌==◌, none, AllPairs, true, some, ℕ, false, ◌≡◌, refl, [], ◌∷◌, arith,
}
use traffic_backend_queue.Config.{
  Environment, Variable, hold_ttl_minutes, codes, load, atoi, read_signed, read_digits,
}
use traffic_backend_queue.Storage.{Store, find_entry, find_sale}
use traffic_backend_queue.Loadtest.{default_limits}
use traffic_backend_queue.Inventory.{
  TxFault, no_faults, hold, err, hold_expired, result_of, update_status, find_hold,
}
use traffic_backend_queue.Inventory.Claims.{requested}
use traffic_backend_queue.Inventory.Examples.{hall, hall-Inv}
use traffic_backend_queue.Startup.{limits_of}
use traffic_backend_queue.Startup.{Outside, connect}
use traffic_backend_queue.Startup.Programs.{check_queue, Tick, ticks}
use traffic_backend_queue.Startup.Checking.{check_queue-run, check_queue-IsFair}
use traffic_backend_queue.Auth.Toy.{toy, admission_payload}
use traffic_backend_queue.WaitingRoom
use traffic_backend_queue.WaitingRoom.{Status, status, ok}
use traffic_backend_queue.Auth.{issue_admission_token}
use traffic_backend_queue.Worker.{batch}
use traffic_backend_queue.Startup.Admitting.{all_admitted}
use traffic_backend_queue.WaitingRoom.Examples.{sale, entry, room_seven, room, room-Inv, calls}
use traffic_backend_queue.WaitingRoom.History.{run}
use traffic_backend_queue.AssertQueue.{rows_of}
use traffic_backend_queue.AssertQueue.Fairness.{IsFair}
use traffic_backend_queue.Startup.Defaults.{limits_of-default}
use traffic_backend_queue.Orders.History
use traffic_backend_queue.Orders.History.{releases}
use traffic_backend_queue.Startup.Unreadable.{unreadable_ttl_expires}

abbrev nothing_set : Environment
nothing_set k = []

-- Two numbers with their units.
abbrev with_units : Environment
with_units hold_ttl_minutes = codes "12m"
with_units Variable.loadtest_max_steady_sec = codes "90s"
with_units _ = []

limits_of-default_example : limits_of (load nothing_set) ≡ default_limits
limits_of-default_example = limits_of-default nothing_set (refl, (refl, (refl, (refl, (refl, tt)))))

-- A round of the worker at the time of the hold.
abbrev round_at_once : List History.Call
round_at_once = releases false (λ id. TxFault.fine) 100 ∷ []

unreadable_ttl_expires_example :
    hold no_faults 0 101 101 43 1 8 0
      (12 ∷ [])
      (History.run (hold no_faults 0 100 100 42 1 8 0 (12 ∷ []) hall).0 round_at_once)
    ≡ (
      History.run (hold no_faults 0 100 100 42 1 8 0 (12 ∷ []) hall).0 round_at_once,
      err hold_expired,
    )
unfolding load atoi read_signed read_digits hold update_status find_hold find_sale
unreadable_ttl_expires_example =
    unreadable_ttl_expires with_units no_faults no_faults 0 100 100 101 101 42 43 1 8 0 (12 ∷ [])
      hall (result_of (requested no_faults 0 100 100 42 1 8 0 (12 ∷ []) hall)) round_at_once
      (λ e. cc) refl refl hall-Inv refl refl (omega arith, tt) (omega arith) (omega arith) refl
      (omega arith)

-- Everything answers.
abbrev healthy : Outside
healthy = record {
  opens = λ url most least. true;
  reads_url = λ url. true;
  answers_ping = λ url. true;
}

-- User 6 joined at time 60, and user 7 joins at time 71.
check_queue-run_example :
    check_queue healthy nothing_set (some 1) false (run (toy admission_payload) room calls).db ≡ 0
unfolding rows_of connect
check_queue-run_example =
    check_queue-run (toy admission_payload) 1 60 room calls healthy nothing_set room-Inv
      (omega arith, (omega arith, (omega arith, (omega arith, tt))))
      ((omega arith, tt), (((λ lt. omega (arith, lt)), tt), tt)) refl

check_queue-IsFair_example :
    (sale : ℕ) × (some 1 ≡ some sale)
    × AllPairs IsFair (rows_of sale (run (toy admission_payload) room calls).db.queue_entries)
check_queue-IsFair_example =
    check_queue-IsFair healthy nothing_set (some 1) false
      (run (toy admission_payload) room calls).db check_queue-run_example

-- The window has not moved yet.
abbrev closed_window : Store
closed_window = record room_seven { redis = record (room_seven.redis) { next_admit = λ j. none } }

-- The release of holds fails in the first tick.
abbrev two_ticks : List Tick
two_ticks = tick_at 100 true ∷ tick_at 105 false ∷ []
  where
    tick_at : ℕ → Bool → Tick
    tick_at t release_fails = record {
      db_now = t;
      query_fails = false;
      incr_fails = λ i. i == 2;
      release_fails = release_fails;
      fault = λ id. TxFault.fine;
    }

all_admitted_example :
    (st : Status) × ((status
        (toy admission_payload)
        WaitingRoom.no_faults
        "secret"
        60
        100
        101
        5
        1
        7
        (ticks two_ticks closed_window)).1
      ≡ ok st)
    × (st.position ≡ 1)
    × (st.admitted ≡ true)
    × (st.admission_token ≡ some "token")
unfolding find_sale find_entry issue_admission_token batch toy
all_admitted_example =
    all_admitted (toy admission_payload) "secret" 60 100 101 5 1 7 two_ticks closed_window sale
      (record entry { user_id = 7 }) "token" (refl, tt) refl refl
      ((refl, refl, refl), ((refl, refl, refl), tt)) (omega arith) refl
