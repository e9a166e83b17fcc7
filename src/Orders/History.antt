-- ===== src/Orders/History.antt =====
-- Any sequence of holds, checkouts and rounds of the worker over one database.
use traffic_backend_queue.Common.{ℕ, ◌≡◌, refl, ◌∙◌, sym, ap, Bool, List, [], ◌∷◌}
use mathlib.Core.Path.{subst}
use traffic_backend_queue.Storage.{Db}
use traffic_backend_queue.Inventory.{
  TxFault, hold, release_expired, release_rows, release_tx, hold_new, hold_tx, delete_hold, fine,
  begin_fails, commit_fails,
}
use traffic_backend_queue.Inventory
use traffic_backend_queue.Inventory.Claims.{Inv, hold-Inv, hold-tables}
use traffic_backend_queue.Inventory.Expiry.{release_expired-Inv, release_expired-tables}
use traffic_backend_queue.Orders.{Faults, checkout}
use traffic_backend_queue.Orders.Checkout.{checkout-db}

pub data Call : Type 0 where
  holds_seats : Inventory.Faults → (ttl now db_now id sale user key : ℕ) → List ℕ → Call
  checks_out : Faults → (ℕ → ℕ) → (ℕ → ℕ) → (db_now order sale user key hold_id : ℕ) → Call
  releases : Bool → (ℕ → TxFault) → (db_now : ℕ) → Call

unfoldable pub step : Db → Call → Db
step d (holds_seats f ttl now db_now id sale user key ids) =
    (hold f ttl now db_now id sale user key ids d).0
step d (checks_out f draw owner_hash db_now order sale user key hold_id) =
    (checkout f draw owner_hash db_now order sale user key hold_id d).0
step d (releases query_fails fault db_now) = (release_expired query_fails fault db_now d).0

unfoldable pub run : Db → List Call → Db
run d [] = d
run d (c ∷ cs) = run (step d c) cs

pub step-Inv : (d : Db) (c : Call) → Inv d → Inv (step d c)
unfolding step
step-Inv d (holds_seats f ttl now db_now id sale user key ids) v =
    hold-Inv f ttl now db_now id sale user key ids d v
step-Inv d (checks_out f draw owner_hash db_now order sale user key hold_id) v =
    subst Inv (sym (checkout-db f draw owner_hash db_now order sale user key hold_id d)) v
step-Inv d (releases query_fails fault db_now) v = release_expired-Inv query_fails fault db_now d v

-- The orders and the tickets.
abbrev SameSales : Db → Db → Type 0
SameSales d d' = (d'.orders ≡ d.orders) × (d'.tickets ≡ d.tickets)

step-SameSales : (d : Db) (c : Call) → SameSales d (step d c)
unfolding step
step-SameSales d (holds_seats f ttl now db_now id sale user key ids) =
    hold-tables f ttl now db_now id sale user key ids d
step-SameSales d (checks_out f draw owner_hash db_now order sale user key hold_id) =
    let e = checkout-db f draw owner_hash db_now order sale user key hold_id d in
    (ap (λ (x : Db). x.orders) e, ap (λ (x : Db). x.tickets) e)
step-SameSales d (releases query_fails fault db_now) =
    release_expired-tables query_fails fault db_now d

-- After any holds, checkouts and rounds of the worker, with any failures, every seat is still listed
-- by the holds once if it is held, and otherwise by none.
pub seats_stay_claimed : (d : Db) (cs : List Call) → Inv d → Inv (run d cs)
unfolding run
seats_stay_claimed d [] v = v
seats_stay_claimed d (c ∷ cs) v = seats_stay_claimed (step d c) cs (step-Inv d c v)

-- No sequence of holds, checkouts and rounds of the worker ever adds an order or a ticket: under the
-- foreign key of the schema nothing is sold.
pub run-SameSales :
    (d : Db) (cs : List Call) → ((run d cs).orders ≡ d.orders) × ((run d cs).tickets ≡ d.tickets)
unfolding run
run-SameSales d [] = (refl, refl)
run-SameSales d (c ∷ cs) =
    let (a, b) = run-SameSales (step d c) cs in
    let (a', b') = step-SameSales d c in (a ∙ a', b ∙ b')
