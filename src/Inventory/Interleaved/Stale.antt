-- ===== src/Inventory/Interleaved/Stale.antt =====
-- A worker that comes to a hold which another worker has released.
use traffic_backend_queue.Common.{
  true, Option, ◌||◌, ◌==◌, Bool-cases, from_option, ℕ, ◌≡◌, ◌≤◌, refl, sym, false, none, some,
  List, [], ◌∷◌, arith, inl, inr, count, Bool, ap,
}
use mathlib.Core.Path.{subst}
use traffic_backend_queue.Storage.{Hold, Db, Seat, available}
use traffic_backend_queue.Inventory.{
  find_hold, is_referenced, release_tx, remove_hold, update_status, is_held, is_available,
  release_seats,
}
use traffic_backend_queue.Inventory.Seats.{
  find_seat, held_one, held_count, held_count-release_seats,
}
use traffic_backend_queue.Inventory.Claims.{Inv, claims}
use traffic_backend_queue.Inventory.Release.{release_tx-outcome, released}

remove_absent : (i : ℕ) (hs : List Hold) → find_hold i hs ≡ none → remove_hold i hs ≡ hs
unfolding remove_hold find_hold
remove_absent i [] n = refl
remove_absent i (h ∷ hs) n = ground (arith, remove_absent i hs)

-- The seat is in the table, and held or available.
abbrev is_unsold : Option Seat → Bool
is_unsold none = false
is_unsold (some x) = is_held x.status || is_available x.status

is_unsold-release :
    (i j : ℕ) (seats : List Seat)
    → is_unsold (find_seat j seats) ≡ true
    → is_unsold
        (find_seat j (from_option seats (update_status i (λ x. is_held x.status) available seats)))
      ≡ true
unfolding find_seat update_status
is_unsold-release i j [] h = h
is_unsold-release i j (x ∷ xs) h = elim (Bool-cases (x.id == i)) [
  | inl hit ↦ ground arith
  | inr miss ↦ ground (arith, is_unsold-release i j xs)
]

is_unsold-release_seats :
    (j : ℕ) (ids : List ℕ) (seats : List Seat)
    → is_unsold (find_seat j seats) ≡ true
    → is_unsold (find_seat j (release_seats ids seats)) ≡ true
unfolding release_seats
is_unsold-release_seats j [] seats h = h
is_unsold-release_seats j (i ∷ is) seats h =
    is_unsold-release_seats j is
      (from_option seats (update_status i (λ x. is_held x.status) available seats))
      (is_unsold-release i j seats h)

is_unsold-held : (o : Option Seat) → held_one o ≡ 1 → is_unsold o ≡ true
is_unsold-held none h = absurd cc
is_unsold-held (some x) h = ground arith

abbrev IsFree : Option Seat → Type 0
IsFree o = (x : Seat) × (o ≡ some x) × (x.status ≡ available)

is_unsold-IsFree : (o : Option Seat) → is_unsold o ≡ true → held_one o ≡ 0 → IsFree o
is_unsold-IsFree none h z = absurd cc
is_unsold-IsFree (some x) h z = (x, refl, ground arith)

-- A worker that comes to a hold which another worker has released frees seats that are held again.
-- Where the table no longer has the hold, no order refers to it, and a seat that it lists is held, its
-- transaction makes the seat available although a hold of the table still lists it once: the
-- invariant of seats and holds, which held before, is broken.
pub stale_row-breaks :
    (h : Hold) (d : Db) (seat : ℕ)
    → find_hold h.id d.holds ≡ none
    → is_referenced h.id d.orders ≡ false
    → 1 ≤ count seat h.seat_ids
    → held_count seat d.seats ≡ 1
    → Inv d
    → let d' = (release_tx h d).0 in
      (claims seat d'.holds ≡ 1)
      × ((x : Seat) × (find_seat seat d'.seats ≡ some x) × (x.status ≡ available))
      × (¬ Inv d')
stale_row-breaks h d seat gone free listed again v =
    let e : released h d ≡ (release_tx h d).0 = sym (rw (release_tx-outcome h d, free) refl) in
    let same = ap (claims seat) (remove_absent h.id d.holds gone) in
    let still : claims seat (released h d).holds ≡ 1 = omega (arith, same, v.claimed seat, again) in
    let lost = held_count-release_seats seat h.seat_ids d.seats in
    let free_now =
      is_unsold-IsFree (find_seat seat (release_seats h.seat_ids d.seats))
        (is_unsold-release_seats seat h.seat_ids d.seats
          (is_unsold-held (find_seat seat d.seats) again))
        (omega (arith, lost, again, listed)) in
    subst (λ (d' : Db). (claims seat d'.holds ≡ 1) × IsFree (find_seat seat d'.seats) × (¬ Inv d'))
      e (still, free_now, (λ w. omega (arith, still, lost, again, listed, w.claimed seat)))
