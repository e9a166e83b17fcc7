-- ===== src/Orders/Checkout.antt =====
-- What `Checkout` of internal/orders/service.go does under the schema of migrations/001_init.sql.
use traffic_backend_queue.Common.{
  ℕ, ◌+◌, ◌≡◌, ◌≤◌, ◌<◌, false, none, some, List, [], ◌∷◌, ◌==◌, if◌then◌else◌, arith, Bool-cases,
  Option-cases, inl, inr, ap, ◌&&◌, ltb, length, ◌≢◌, ==_refl,
}
use traffic_backend_queue.Storage.{Hold, Order, Db}
use traffic_backend_queue.Inventory.{delete_hold}
use traffic_backend_queue.Orders.{
  Error, ticket_cap_reached, Result, ok, err, CheckoutResult, Faults, find_order, find_valid_hold,
  max_per_user, owned, owned_count, new_order, fill_order, checkout_tx, checkout, commit_failed,
}
use traffic_backend_queue.Orders.Filling.{Result-cases, fill_order-ok}

-- The order that the transaction has just written refers to the hold.
delete_hold_refused :
    (order key : ℕ) (h : Hold) (d : Db) (os : List Order)
    → d.orders ≡ new_order order h key ∷ os
    → delete_hold h.id d ≡ none
unfolding delete_hold
delete_hold_refused order key h d os e = rw e (ground (arith, ==_refl h.id))

abbrev Fails : Db → Db × Result CheckoutResult → Type 0
Fails d r = (x : Error) × (r ≡ (d, err x))

checkout_tx-Fails :
    (f : Faults) (draw : ℕ → ℕ) (order owner_hash key : ℕ) (h : Hold) (d : Db)
    → Fails d (checkout_tx f draw order owner_hash key h d)
unfolding checkout_tx
checkout_tx-Fails f draw order owner_hash key h d = elim (Bool-cases f.begin) [
  | inl b ↦ (Error.begin_failed, ground arith)
  | inr b ↦ elim (Result-cases (fill_order f draw order owner_hash key h d)) [
    | inl (x, e) ↦ (x, ground arith)
    | inr ((d', ids), e) ↦
        let (a, _, _, _, _, _) = fill_order-ok f draw order owner_hash key h d d' ids e in
        (commit_failed, ground (arith, e, delete_hold_refused order key h d' d.orders a))
  ]
]

-- A checkout for which the user has no order yet always fails, and changes nothing: the order that
-- it writes refers to the hold that it then deletes, which the foreign key forbids, so the COMMIT
-- rolls back.
pub checkout_fails :
    (f : Faults) (draw : ℕ → ℕ) (owner_hash : ℕ → ℕ) (db_now order sale user key hold_id : ℕ)
    (d : Db)
    → find_order sale user key d.orders ≡ none
    → (x : Error) × (checkout f draw owner_hash db_now order sale user key hold_id d ≡ (d, err x))
unfolding checkout
checkout_fails f draw owner_hash db_now order sale user key hold_id d none_yet =
    elim (Bool-cases f.existing_query) [
      | inl b ↦ (Error.query_failed, ground arith)
      | inr b ↦ elim (Bool-cases f.hold_query) [
        | inl c ↦ (Error.hold_not_found, ground arith)
        | inr c ↦ elim (Option-cases (find_valid_hold db_now hold_id user sale d.holds)) [
          | inl e ↦ (Error.hold_not_found, ground arith)
          | inr (h, e) ↦
              let (x, q) = checkout_tx-Fails f draw order (owner_hash user) key h d in
              (
                if ltb (max_per_user f sale d) (owned f sale user d + length h.seat_ids)
                    then ticket_cap_reached
                    else x,
                ground (arith, q),
              )
        ]
      ]
    ]

checkout_replay :
    (f : Faults) (draw : ℕ → ℕ) (owner_hash : ℕ → ℕ) (db_now order sale user key hold_id : ℕ)
    (d : Db) (o : Order)
    → find_order sale user key d.orders ≡ some o
    → (checkout f draw owner_hash db_now order sale user key hold_id d).0 ≡ d
unfolding checkout
checkout_replay f draw owner_hash db_now order sale user key hold_id d o e = ground arith

-- So no checkout, of a new order or of one that is there, ever changes the database.
pub checkout-db :
    (f : Faults) (draw : ℕ → ℕ) (owner_hash : ℕ → ℕ) (db_now order sale user key hold_id : ℕ)
    (d : Db)
    → (checkout f draw owner_hash db_now order sale user key hold_id d).0 ≡ d
checkout-db f draw owner_hash db_now order sale user key hold_id d =
    elim (Option-cases (find_order sale user key d.orders)) [
      | inl e ↦
          let (x, q) = checkout_fails f draw owner_hash db_now order sale user key hold_id d e in
          ap (λ (r : Db × Result CheckoutResult). r.0) q
      | inr (o, e) ↦ checkout_replay f draw owner_hash db_now order sale user key hold_id d o e
    ]

valid_hold_user :
    (db_now id user sale : ℕ) (hs : List Hold) (h : Hold)
    → find_valid_hold db_now id user sale hs ≡ some h
    → (h.user_id ≡ user) × (h.sale_id ≡ sale) × (h.id ≡ id) × (db_now < h.expires_at)
unfolding find_valid_hold
valid_hold_user db_now id user sale [] h e = cc
valid_hold_user db_now id user sale (x ∷ hs) h e =
    elim (Bool-cases
      (x.id == id && x.user_id == user && x.sale_id == sale && ltb db_now x.expires_at)) [
        | inl hit ↦ ground arith
        | inr miss ↦ valid_hold_user db_now id user sale hs h (ground arith)
      ]

-- The limit per user: where a checkout of a valid hold is not refused for the limit, the tickets
-- that its statements add do not bring the user's active tickets above it.
pub checkout_within_cap :
    (f : Faults) (draw : ℕ → ℕ) (owner_hash : ℕ → ℕ) (db_now order sale user key hold_id : ℕ)
    (d d' : Db) (h : Hold) (ids : List ℕ)
    → f.owned_query ≡ false
    → f.existing_query ≡ false
    → f.hold_query ≡ false
    → find_order sale user key d.orders ≡ none
    → find_valid_hold db_now hold_id user sale d.holds ≡ some h
    → fill_order f draw order (owner_hash user) key h d ≡ ok (d', ids)
    → (checkout f draw owner_hash db_now order sale user key hold_id d).1 ≢ err ticket_cap_reached
    → owned_count sale user d'.tickets ≤ max_per_user f sale d
unfolding checkout owned
checkout_within_cap f draw owner_hash db_now order sale user key hold_id d d' h ids a b c none_yet e
      q ne =
    let (_, _, _, _, more, _) = fill_order-ok f draw order (owner_hash user) key h d d' ids q in
    let (same_user, same_sale, _, _) = valid_hold_user db_now hold_id user sale d.holds h e in
    ground (arith, more, same_user, same_sale, ne)
