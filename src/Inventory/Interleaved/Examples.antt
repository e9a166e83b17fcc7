-- ===== src/Inventory/Interleaved/Examples.antt =====
-- Interleaved holds and releases of internal/inventory/service.go at a concrete sale.
use traffic_backend_queue.Common.{
  ℕ, ◌≡◌, ◌≤◌, refl, List, [], ◌∷◌, arith, get_elem?, from_option, is_some, Option, none, some,
  true,
}
use traffic_backend_queue.Storage.{Seat, available, Hold, find_sale}
use traffic_backend_queue.Inventory.{
  no_faults, fine, update_status, find_hold, is_referenced, release_tx,
}
use traffic_backend_queue.Inventory.Seats.{held_count, find_seat}
use traffic_backend_queue.Inventory.Claims.{Inv, claims}
use traffic_backend_queue.Inventory.Examples.{hall, hall-Inv, first_hold}
use traffic_backend_queue.Inventory.Interleaved.{
  Request, reads_key, advance, Slot, System, after, after_row, calls, selects, releases, Reach,
  here, next, release_row,
}
use traffic_backend_queue.Inventory.Interleaved.Exclusive.{one_worker-Inv}
use traffic_backend_queue.Inventory.Interleaved.Stale.{stale_row-breaks}
use traffic_backend_queue.Inventory.Interleaved.Active.{Counting, active_count, active_holds-Reach}

-- Two requests of one user, for the seats 12 and 10.
abbrev first : Request
first = record { id = 42; sale = 1; user = 8; key = 0; seat_ids = 12 ∷ [] }

abbrev second : Request
second = record { id = 43; sale = 1; user = 8; key = 1; seat_ids = 10 ∷ [] }

abbrev starting : Request → Slot
starting r = record { request = r; pc = reads_key }

-- The first hold has expired at 90, the second expires at 200.
abbrev start : List (List Hold) → System
start workers = record {
  clock = 100;
  db = hall;
  slots = starting first ∷ starting second ∷ [];
  workers = workers;
}

abbrev slot_at : System → ℕ → Slot
slot_at s i = from_option (starting first) (get_elem? s.slots i)

-- A call of the slot `i`.
abbrev call : System → ℕ → System
call s i = after no_faults 50 100 s i (slot_at s i)

-- The seat 10 is released.
abbrev freed : System
freed =
    after_row fine (record (start ([] ∷ [])) { workers = (first_hold ∷ []) ∷ [] }) 0 first_hold []

-- Both requests pass the count before one of them has begun its transaction.
abbrev both_held : System
both_held = call (call (call (call (call (call freed 0) 1) 0) 1) 0) 1

freed-Reach : Reach Counting (start ([] ∷ [])) freed
unfolding release_row
freed-Reach = next (next here (selects 0 refl refl)) (releases fine 0 first_hold [] refl refl)

some-from_option :
    {A : Type 0} (default : A) (o : Option A) → is_some o ≡ true → o ≡ some (from_option default o)
some-from_option default none h = cc
some-from_option default (some a) h = refl

Reach-call :
    {s t : System} (i : ℕ)
    → is_some (get_elem? t.slots i) ≡ true
    → Reach Counting s t
    → Reach Counting s (call t i)
Reach-call {s} {t} i there r =
    next r (calls no_faults refl 50 100 i (slot_at t i) (some-from_option _ _ there) refl)

both_held-Reach : Reach Counting (start ([] ∷ [])) both_held
both_held-Reach = Reach-call 1 refl (
    Reach-call 0 refl
      (Reach-call 1 refl (Reach-call 0 refl (Reach-call 1 refl (Reach-call 0 refl freed-Reach)))))

one_worker-Inv_example : Inv both_held.db
one_worker-Inv_example = one_worker-Inv refl hall-Inv both_held-Reach

active_holds-Reach_example : active_count 1 8 both_held.clock both_held.db.holds ≤ 2
active_holds-Reach_example = active_holds-Reach 1 8 (refl, (refl, tt)) (omega arith) both_held-Reach

-- The user has two active holds.
two_active : active_count 1 8 both_held.clock both_held.db.holds ≡ 2
unfolding advance update_status find_hold is_referenced release_row find_sale
two_active = refl

-- The second request has taken the seat 10 after the worker has released it.
abbrev taken_again : System
taken_again = call (call (call freed 1) 1) 1

taken_again-Inv : Inv taken_again.db
taken_again-Inv =
    one_worker-Inv refl hall-Inv
      (Reach-call 1 refl (Reach-call 1 refl (Reach-call 1 refl freed-Reach)))

stale_row-breaks_example :
    (claims 10 (release_tx first_hold taken_again.db).0.holds ≡ 1)
    × ((x : Seat) × (find_seat 10 (release_tx first_hold taken_again.db).0.seats ≡ some x)
        × (x.status ≡ available))
    × (¬ Inv (release_tx first_hold taken_again.db).0)
unfolding advance update_status find_hold is_referenced release_row find_sale find_seat
stale_row-breaks_example =
    stale_row-breaks first_hold taken_again.db 10 refl refl (omega arith) refl taken_again-Inv

-- Two workers have both read the expired hold.
abbrev two_rounds : System
two_rounds = record (start ([] ∷ [])) { workers = (first_hold ∷ []) ∷ (first_hold ∷ []) ∷ [] }

two_rounds-Reach : Reach Counting (start ([] ∷ [] ∷ [])) two_rounds
two_rounds-Reach = next (next here (selects 0 refl refl)) (selects 1 refl refl)

-- One of them has released it, the second request has taken its seat, and the other worker comes to
-- it.
abbrev released_twice : System
released_twice =
    after_row fine (call (call (call (after_row fine two_rounds 0 first_hold []) 1) 1) 1) 1
      first_hold []

released_twice-Reach : Reach Counting (start ([] ∷ [] ∷ [])) released_twice
unfolding release_row
released_twice-Reach =
    next
      (Reach-call 1 refl (
        Reach-call 1 refl
          (Reach-call 1 refl (next two_rounds-Reach (releases fine 0 first_hold [] refl refl)))))
      (releases fine 1 first_hold [] refl refl)

-- The hold of the second request lists the seat 10, which is not held.
lost_seat : (claims 10 released_twice.db.holds ≡ 1) × (held_count 10 released_twice.db.seats ≡ 0)
unfolding advance update_status find_hold is_referenced release_row find_sale find_seat claims
lost_seat = (refl, refl)
