-- ===== src/Inventory/Holding.antt =====
-- When `Hold` of internal/inventory/service.go gives a hold.
use traffic_backend_queue.Common.{
  ℕ, ◌+◌, ◌≡◌, ◌≤◌, refl, Bool, false, true, none, some, List, [], ◌∷◌, ◌==◌, arith, All, contains,
  length, is_some, Bool-cases, inl, inr, select, ◌++◌, ℤ, get_elem?, get_elem?-All,
}
use traffic_backend_queue.Storage.{SeatStatus, held, Seat, Db, find_sale}
use traffic_backend_queue.Inventory.{
  no_faults, update_status, available_in, hold_seats, hold, hold_new, hold_tx, can_insert,
  result_of, find_hold, find_hold_by_key, active_holds, ok,
}
use traffic_backend_queue.Inventory.Seats.{find_seat, IsAvailable, find_seat-update_status}
use traffic_backend_queue.Inventory.Claims.{requested}
use traffic_backend_queue.Inventory.Available.{list_available, list_available-Sorted}

-- No seat is listed twice.
abbrev pub AllDifferent : List ℕ → Type 0
AllDifferent [] = Unit
AllDifferent (i ∷ is) = (contains i is ≡ false) × AllDifferent is

update_status_found :
    (id : ℕ) (test : Seat → Bool) (status : SeatStatus) (seats : List Seat) (x : Seat)
    → find_seat id seats ≡ some x
    → test x ≡ true
    → (seats' : List Seat) × (update_status id test status seats ≡ some seats')
unfolding update_status find_seat
update_status_found id test status [] x f t = cc
update_status_found id test status (y ∷ ys) x f t = elim (Bool-cases (y.id == id)) [
  | inl hit ↦
      let e : y ≡ x = ground arith in
      (record y { status = status; version = y.version + 1 } ∷ ys, ground (arith, e))
  | inr miss ↦
      let (zs, q) = update_status_found id test status ys x (ground arith) t in
      (y ∷ zs, ground (arith, q))
]

others-IsAvailable :
    (sale i : ℕ) (is : List ℕ) (seats seats' : List Seat)
    → update_status i (available_in sale) held seats ≡ some seats'
    → contains i is ≡ false
    → All (IsAvailable sale seats) is
    → All (IsAvailable sale seats') is
others-IsAvailable sale i [] seats seats' h n a = tt
others-IsAvailable sale i (j ∷ is) seats seats' h n ((x, found, free), a) =
    let (y, _, _, same) = find_seat-update_status i (available_in sale) held j seats seats' h in
    (
      (x, ground (arith, same, found), free),
      others-IsAvailable sale i is seats seats' h (ground arith) a,
    )

-- The loop over different available seats of the sale ends well.
hold_seats-AllDifferent :
    (sale : ℕ) (ids : List ℕ) (seats : List Seat)
    → All (IsAvailable sale seats) ids
    → AllDifferent ids
    → (seats' : List Seat) × (hold_seats (λ i. false) sale ids seats ≡ ok seats')
unfolding hold_seats
hold_seats-AllDifferent sale [] seats a d = (seats, refl)
hold_seats-AllDifferent sale (i ∷ is) seats ((x, found, free), a) (n, d) =
    let (mid, e) = update_status_found i (available_in sale) held seats x found free in
    let (seats', q) =
      hold_seats-AllDifferent sale is mid (others-IsAvailable sale i is seats mid e n a) d in
    (seats', ground (arith, e, q))

-- Where nothing fails, a user of the program gets a hold on one to four different available seats of
-- a sale under a new key and with a new id, if the user has no active hold there.
pub hold_succeeds :
    (ttl now db_now id sale user key : ℕ) (ids : List ℕ) (d : Db)
    → 1 ≤ length ids
    → length ids ≤ 4
    → AllDifferent ids
    → All (IsAvailable sale d.seats) ids
    → find_hold_by_key sale user key d.holds ≡ none
    → active_holds no_faults db_now sale user d ≡ 0
    → find_hold id d.holds ≡ none
    → contains user d.users ≡ true
    → is_some (find_sale sale d.sales) ≡ true
    → (hold no_faults ttl now db_now id sale user key ids d).1
      ≡ ok (result_of (requested no_faults ttl now db_now id sale user key ids d))
unfolding hold hold_new hold_tx can_insert
hold_succeeds ttl now db_now id sale user key ids d lo hi diff free new active fresh known there =
    let (seats, e) = hold_seats-AllDifferent sale ids d.seats free diff in ground (arith, e)

-- PRIMARY KEY (id)
abbrev pub UniqueSeats : List Seat → Type 0
UniqueSeats [] = Unit
UniqueSeats (x ∷ xs) = (find_seat x.id xs ≡ none) × UniqueSeats xs

found_behind :
    (sale : ℕ) (x : Seat) (seats rows : List Seat)
    → find_seat x.id rows ≡ none
    → All (λ y. IsAvailable sale seats y.id) rows
    → All (λ y. IsAvailable sale (x ∷ seats) y.id) rows
unfolding find_seat
found_behind sale x seats [] n a = tt
found_behind sale x seats (y ∷ rows) n ((z, found, free), a) =
    ((z, ground arith, free), found_behind sale x seats rows (ground arith) a)

find_seat-select-none :
    (p : Seat → Bool) (i : ℕ) (seats : List Seat)
    → find_seat i seats ≡ none
    → find_seat i (select p seats) ≡ none
unfolding find_seat
find_seat-select-none p i [] n = refl
find_seat-select-none p i (x ∷ xs) n = ground (arith, find_seat-select-none p i xs)

select-IsAvailable :
    (sale : ℕ) (seats : List Seat)
    → UniqueSeats seats
    → All (λ x. IsAvailable sale seats x.id) (select (available_in sale) seats)
unfolding find_seat
select-IsAvailable sale [] u = tt
select-IsAvailable sale (x ∷ xs) (n, u) =
    let rest =
      found_behind sale x xs (select (available_in sale) xs)
        (find_seat-select-none (available_in sale) x.id xs n) (select-IsAvailable sale xs u) in
    elim (Bool-cases (available_in sale x)) [
      | inl free ↦ rw free ((x, ground arith, free), rest)
      | inr taken ↦ rw taken rest
    ]

All-before : (P : Seat → Type 0) (xs ys : List Seat) → All P (xs ++ ys) → All P xs
All-before P [] ys a = tt
All-before P (x ∷ xs) ys a = (a.0, All-before P xs ys a.1)

-- Every seat that is listed can be held next: where nothing fails, a user of the program who has no
-- active hold of the sale gets a hold on it under a new key and with a new id.
pub listed_succeeds :
    (fails : Bool) (limit : ℤ) (ttl now db_now id sale user key i : ℕ) (d : Db) (listed : List Seat)
    (x : Seat)
    → UniqueSeats d.seats
    → list_available fails sale limit d.seats ≡ ok listed
    → get_elem? listed i ≡ some x
    → find_hold_by_key sale user key d.holds ≡ none
    → active_holds no_faults db_now sale user d ≡ 0
    → find_hold id d.holds ≡ none
    → contains user d.users ≡ true
    → is_some (find_sale sale d.sales) ≡ true
    → (hold no_faults ttl now db_now id sale user key (x.id ∷ []) d).1
      ≡ ok (result_of (requested no_faults ttl now db_now id sale user key (x.id ∷ []) d))
listed_succeeds fails limit ttl now db_now id sale user key i d listed x unique shown at new active
      fresh known there =
    let (_, _, (rest, _, all, _)) = list_available-Sorted fails sale limit d.seats listed shown in
    let available =
      get_elem?-All (λ y. IsAvailable sale d.seats y.id) listed i x
        (All-before _ listed rest (all _ (select-IsAvailable sale d.seats unique))) at in
    hold_succeeds ttl now db_now id sale user key (x.id ∷ []) d (omega arith) (omega arith)
      (refl, tt) (available, tt) new active fresh known there
