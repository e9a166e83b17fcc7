-- ===== src/Inventory/Claims.antt =====
-- Seats and holds of internal/inventory/service.go together: a seat is held exactly if one hold
-- has it.
use traffic_backend_queue.Common.{
  ℕ, ◌+◌, ◌≡◌, ◌≤◌, sym, Bool, Option, none, some, List, [], ◌∷◌, ◌==◌, count, arith, Bool-cases,
  inl, inr, ◌∙◌, ap, ◌⊎◌, length, All, ◌≢◌,
}
use mathlib.Core.Path.{subst}
use traffic_backend_queue.Storage.{Seat, Hold, Db}
use traffic_backend_queue.Inventory.{
  ok, err, Faults, hold_seats, find_hold, find_hold_by_key, hold, hold_new, hold_tx, can_insert,
  result_of, HoldResult, Error,
}
use traffic_backend_queue.Inventory.Seats.{
  IsAvailable, hold_seats-IsAvailable, held_count, find_seat, held_one, held_count-hold_seats,
}

-- How often a seat is listed by the holds.
unfoldable pub claims : ℕ → List Hold → ℕ
claims seat [] = 0
claims seat (h ∷ hs) = count seat h.seat_ids + claims seat hs

-- PRIMARY KEY (id)
abbrev pub UniqueIds : List Hold → Type 0
UniqueIds [] = Unit
UniqueIds (h ∷ hs) = (find_hold h.id hs ≡ none) × UniqueIds hs

pub record Inv (d : Db) : Type 0 where
  pub claimed : (seat : ℕ) → claims seat d.holds ≡ held_count seat d.seats
  pub unique : UniqueIds d.holds

-- The ways through `hold`: the database is as it was, or the transaction has been committed.
abbrev pub Committed : (ℕ → Bool) → Hold → Db → Db → Type 0
Committed fails h d d' =
    (seats : List Seat) × (hold_seats fails h.sale_id h.seat_ids d.seats ≡ ok seats)
    × (find_hold h.id d.holds ≡ none)
    × (d' ≡ record d { seats = seats; holds = h ∷ d.holds })

pub hold_tx-outcome :
    (f : Faults) (h : Hold) (d : Db)
    → ((hold_tx f h d).0 ≡ d) ⊎ Committed f.seat_update h d (hold_tx f h d).0
unfolding hold_tx can_insert
hold_tx-outcome f h d = ground arith

hold_new-outcome :
    (f : Faults) (db_now : ℕ) (h : Hold) (d : Db)
    → ((hold_new f db_now h d).0 ≡ d) ⊎ Committed f.seat_update h d (hold_new f db_now h d).0
unfolding hold_new
hold_new-outcome f db_now h d = ground (arith, hold_tx-outcome f h d)

pub Committed-Inv :
    (fails : ℕ → Bool) (h : Hold) (d d' : Db) → Inv d → Committed fails h d d' → Inv d'
unfolding claims
Committed-Inv fails h d d' v (seats, e, fresh, q) = rw q (record {
  claimed = λ seat. omega (
    arith,
    held_count-hold_seats fails h.sale_id seat h.seat_ids d.seats seats e,
    v.claimed seat,
  );
  unique = (fresh, v.unique);
})

module _ (f : Faults) (ttl now db_now id sale user key : ℕ) (ids : List ℕ) (d : Db) where
  abbrev pub requested : Hold
  requested = record {
    id = id;
    sale_id = sale;
    user_id = user;
    seat_ids = ids;
    idempotency_key = key;
    expires_at = now + ttl;
  }

  hold-outcome :
      ((hold f ttl now db_now id sale user key ids d).0 ≡ d)
      ⊎ Committed f.seat_update requested d (hold f ttl now db_now id sale user key ids d).0
  unfolding hold
  hold-outcome = ground (arith, hold_new-outcome f db_now requested d)

  -- `hold` keeps the invariant on every branch, whichever calls fail: every seat is listed by the
  -- holds once if it is held, and otherwise by none, and the holds have different ids.
  pub hold-Inv : Inv d → Inv (hold f ttl now db_now id sale user key ids d).0
  hold-Inv v = elim hold-outcome [
    | inl e ↦ subst Inv (sym e) v
    | inr c ↦ Committed-Inv f.seat_update requested d _ v c
  ]

  -- A hold that is refused changes nothing, also where it fails half way through the seats.
  pub hold-err :
      (x : Error)
      → (hold f ttl now db_now id sale user key ids d).1 ≡ err x
      → (hold f ttl now db_now id sale user key ids d).0 ≡ d
  unfolding hold hold_new hold_tx
  hold-err x h = ground arith

  -- The user has a hold with this key that has not expired: the answer is repeated.
  abbrev pub Replayed : HoldResult → Db → Type 0
  Replayed r d' =
      (e : Hold) × (find_hold_by_key sale user key d.holds ≡ some e)
      × (now ≤ e.expires_at)
      × (r ≡ result_of e)
      × (d' ≡ d)

  -- One to four available seats are held by a new hold, and the other seats stay as they were.
  abbrev pub Taken : HoldResult → Db → Type 0
  Taken r d' =
      (r ≡ result_of requested)
      × (d'.holds ≡ requested ∷ d.holds)
      × (1 ≤ length ids)
      × (length ids ≤ 4)
      × All (IsAvailable sale d.seats) ids
      × ((seat : ℕ) → held_count seat d'.seats ≡ count seat ids + held_count seat d.seats)

  hold-ok_cases :
      (r : HoldResult)
      → (hold f ttl now db_now id sale user key ids d).1 ≡ ok r
      → Replayed r (hold f ttl now db_now id sale user key ids d).0
        ⊎ ((r ≡ result_of requested)
            × (1 ≤ length ids)
            × (length ids ≤ 4)
            × Committed f.seat_update requested d (hold f ttl now db_now id sale user key ids d).0)
  unfolding hold hold_new hold_tx can_insert
  hold-ok_cases r h = ground arith

  -- A hold that succeeds either repeats the answer to the user's hold with the same key, which has
  -- not expired, and changes nothing, or was asked for one to four seats of the sale that were all
  -- available: it then records the hold and holds those seats, and no other seat becomes held or
  -- free.
  pub hold-ok :
      (r : HoldResult)
      → (hold f ttl now db_now id sale user key ids d).1 ≡ ok r
      → Replayed r (hold f ttl now db_now id sale user key ids d).0
        ⊎ Taken r (hold f ttl now db_now id sale user key ids d).0
  hold-ok r h = elim (hold-ok_cases r h) [
    | inl x ↦ inl x
    | inr (e, lo, hi, (seats, s, fresh, q)) ↦ inr (
      e,
      ap (λ (x : Db). x.holds) q,
      lo,
      hi,
      hold_seats-IsAvailable f.seat_update sale ids d.seats seats s,
      λ seat.
          ap (λ (x : Db). held_count seat x.seats) q
          ∙ held_count-hold_seats f.seat_update sale seat ids d.seats seats s,
    )
  ]

claims-le :
    (seat i : ℕ) (hs : List Hold) (h : Hold)
    → find_hold i hs ≡ some h
    → count seat h.seat_ids ≤ claims seat hs
unfolding find_hold claims
claims-le seat i [] h e = cc
claims-le seat i (x ∷ hs) h e = elim (Bool-cases (x.id == i)) [
  | inl hit ↦ ground arith
  | inr miss ↦ ground (arith, claims-le seat i hs h (ground arith))
]

claims_two :
    (seat i j : ℕ) (hs : List Hold) (h k : Hold)
    → i ≢ j
    → find_hold i hs ≡ some h
    → find_hold j hs ≡ some k
    → count seat h.seat_ids + count seat k.seat_ids ≤ claims seat hs
unfolding find_hold claims
claims_two seat i j [] h k n e q = cc
claims_two seat i j (x ∷ hs) h k n e q = elim (Bool-cases (x.id == i)) [
  | inl hit ↦ ground (arith, claims-le seat j hs k)
  | inr miss ↦ elim (Bool-cases (x.id == j)) [
    | inl hit ↦ ground (arith, claims-le seat i hs h)
    | inr other ↦ ground (arith, claims_two seat i j hs h k n (ground arith) (ground arith))
  ]
]

held_one-le : (o : Option Seat) → held_one o ≤ 1
held_one-le none = omega arith
held_one-le (some x) = ground arith

-- No seat is in two holds, and no hold has a seat twice.
pub holds_exclusive :
    (d : Db) (seat i j : ℕ) (h k : Hold)
    → Inv d
    → i ≢ j
    → find_hold i d.holds ≡ some h
    → find_hold j d.holds ≡ some k
    → count seat h.seat_ids + count seat k.seat_ids ≤ 1
holds_exclusive d seat i j h k v n e q = omega (
  arith,
  v.claimed seat,
  claims_two seat i j d.holds h k n e q,
  held_one-le (find_seat seat d.seats),
)

-- `hold` writes no order and no ticket.
pub hold-tables :
    (f : Faults) (ttl now db_now id sale user key : ℕ) (ids : List ℕ) (d : Db)
    → let d' = (hold f ttl now db_now id sale user key ids d).0 in
      (d'.orders ≡ d.orders) × (d'.tickets ≡ d.tickets)
unfolding hold hold_new hold_tx
hold-tables f ttl now db_now id sale user key ids d = ground arith
