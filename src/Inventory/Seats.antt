-- ===== src/Inventory/Seats.antt =====
-- The table `seats` under the UPDATE statements of internal/inventory/service.go.
use traffic_backend_queue.Common.{
  ℕ, ◌+◌, ◌-◌, ◌≡◌, Bool, true, Option, none, some, List, [], ◌∷◌, ◌==◌, if◌then◌else◌, from_option,
  count, arith, All, All-map, Bool-cases, Option-cases, inl, inr,
}
use traffic_backend_queue.Storage.{SeatStatus, available, held, Seat}
use traffic_backend_queue.Inventory.{
  is_held, update_status, available_in, hold_seats, release_seats, ok,
}

unfoldable pub find_seat : ℕ → List Seat → Option Seat
find_seat id [] = none
find_seat id (x ∷ xs) = if x.id == id then some x else find_seat id xs

abbrev pub held_one : Option Seat → ℕ
held_one none = 0
held_one (some x) = if is_held x.status then 1 else 0

-- 1 if the seat is held, and otherwise 0.
abbrev pub held_count : ℕ → List Seat → ℕ
held_count id seats = held_one (find_seat id seats)

abbrev pub Updated : ℕ → (Seat → Bool) → SeatStatus → ℕ → List Seat → List Seat → Type 0
Updated id test status j seats seats' =
    (x : Seat) × (find_seat id seats ≡ some x)
    × (test x ≡ true)
    × (find_seat j seats' ≡ (
        if id == j
        then some (record x { status = status; version = x.version + 1 })
        else find_seat j seats))

-- An UPDATE that affects a row found one that passes the test, gives it the status, and leaves every
-- other row alone.
pub find_seat-update_status :
    (id : ℕ) (test : Seat → Bool) (status : SeatStatus) (j : ℕ) (seats seats' : List Seat)
    → update_status id test status seats ≡ some seats'
    → Updated id test status j seats seats'
unfolding update_status find_seat
find_seat-update_status id test status j [] seats' h = cc
find_seat-update_status id test status j (x ∷ xs) seats' h = elim (Bool-cases (x.id == id)) [
  | inl hit ↦ elim (Bool-cases (test x)) [
    | inl t ↦ (x, ground arith, t, ground arith)
    | inr t ↦ absurd (ground arith)
  ]
  | inr miss ↦ elim (Option-cases (update_status id test status xs)) [
    | inl n ↦ absurd (ground arith)
    | inr (ys, e) ↦
        let (y, found, t, same) = find_seat-update_status id test status j xs ys e in
        (y, ground arith, t, ground arith)
  ]
]

-- A held seat counts once more after the UPDATE of `Hold`.
held_count-hold :
    (sale i j : ℕ) (seats seats' : List Seat)
    → update_status i (available_in sale) held seats ≡ some seats'
    → held_count j seats' ≡ (if i == j then 1 else 0) + held_count j seats
held_count-hold sale i j seats seats' h =
    let (x, found, t, same) = find_seat-update_status i (available_in sale) held j seats seats' h in
    ground (arith, x, found, t, same)

-- After the loop of `Hold` every requested seat is held that many times more than before.
pub held_count-hold_seats :
    (fails : ℕ → Bool) (sale j : ℕ) (ids : List ℕ) (seats seats' : List Seat)
    → hold_seats fails sale ids seats ≡ ok seats'
    → held_count j seats' ≡ count j ids + held_count j seats
unfolding hold_seats
held_count-hold_seats fails sale j [] seats seats' h = ground arith
held_count-hold_seats fails sale j (i ∷ is) seats seats' h = elim (Bool-cases (fails i)) [
  | inl b ↦ absurd (ground arith)
  | inr b ↦ elim (Option-cases (update_status i (available_in sale) held seats)) [
    | inl n ↦ absurd (ground arith)
    | inr (mid, e) ↦ ground (
      arith,
      held_count-hold sale i j seats mid e,
      held_count-hold_seats fails sale j is mid seats' (ground arith),
    )
  ]
]

-- A seat that is held is not held after the UPDATE of `ReleaseExpired`.
held_count-release :
    (i j : ℕ) (seats : List Seat)
    → held_count j (from_option seats (update_status i (λ x. is_held x.status) available seats))
      ≡ held_count j seats - (if i == j then 1 else 0)
unfolding find_seat update_status
held_count-release i j [] = ground arith
held_count-release i j (x ∷ xs) = elim (Bool-cases (x.id == i)) [
  | inl hit ↦ ground arith
  | inr miss ↦ ground (arith, held_count-release i j xs)
]

pub held_count-release_seats :
    (j : ℕ) (ids : List ℕ) (seats : List Seat)
    → held_count j (release_seats ids seats) ≡ held_count j seats - count j ids
unfolding release_seats
held_count-release_seats j [] seats = omega arith
held_count-release_seats j (i ∷ is) seats = ground (
  arith,
  held_count-release i j seats,
  held_count-release_seats j is
      (from_option seats (update_status i (λ x. is_held x.status) available seats)),
)

-- The seat is of the sale and available.
abbrev pub IsAvailable : ℕ → List Seat → ℕ → Type 0
IsAvailable sale seats i = (x : Seat) × (find_seat i seats ≡ some x) × (available_in sale x ≡ true)

IsAvailable-hold :
    (sale i j : ℕ) (seats seats' : List Seat)
    → update_status i (available_in sale) held seats ≡ some seats'
    → IsAvailable sale seats' j
    → IsAvailable sale seats j
IsAvailable-hold sale i j seats seats' h (y, found, free) =
    let (x, f, t, same) = find_seat-update_status i (available_in sale) held j seats seats' h in
    (y, ground (arith, f, t, same, found, free), free)

-- The loop of `Hold` ends well only if every requested seat was of the sale and available.
pub hold_seats-IsAvailable :
    (fails : ℕ → Bool) (sale : ℕ) (ids : List ℕ) (seats seats' : List Seat)
    → hold_seats fails sale ids seats ≡ ok seats'
    → All (IsAvailable sale seats) ids
unfolding hold_seats
hold_seats-IsAvailable fails sale [] seats seats' h = tt
hold_seats-IsAvailable fails sale (i ∷ is) seats seats' h = elim (Bool-cases (fails i)) [
  | inl b ↦ absurd (ground arith)
  | inr b ↦ elim (Option-cases (update_status i (available_in sale) held seats)) [
    | inl n ↦ absurd (ground arith)
    | inr (mid, e) ↦
        let (x, f, t, same) = find_seat-update_status i (available_in sale) held i seats mid e in
        (
          (x, f, t),
          All-map _ _ is (λ j a. IsAvailable-hold sale i j seats mid e a)
              (hold_seats-IsAvailable fails sale is mid seats' (ground arith)),
        )
  ]
]
