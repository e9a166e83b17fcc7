-- ===== src/Inventory/Expiry.antt =====
-- What `ReleaseExpired` of internal/inventory/service.go guarantees.
use traffic_backend_queue.Common.{
  ℕ, zero, suc, ◌+◌, ◌≡◌, ◌≤◌, refl, Bool, true, false, not, Option, none, some, List, [], ◌∷◌,
  ◌==◌, if◌then◌else◌, arith, Bool-cases, inl, inr, ◌∙◌, ap, ◌⊎◌, length, All, take, select,
  All-take,
}
use traffic_backend_queue.Storage.{Hold, Order, Db}
use traffic_backend_queue.Inventory.{
  find_hold, remove_hold, Error, TxFault, fine, release_tx, release_rows, release_expired,
  delete_hold, is_referenced, is_expired,
}
use traffic_backend_queue.Inventory.Claims.{UniqueIds, Inv}
use traffic_backend_queue.Inventory.Release.{
  released, release_tx-outcome, Rows, release_tx-Inv, release_tx-Rows, release_rows_cases,
}

release_rows-Inv :
    (fault : ℕ → TxFault) (rows : List Hold) (n : ℕ) (d : Db)
    → Rows rows d
    → Inv d
    → Inv (release_rows fault rows n d).0
unfolding release_rows
release_rows-Inv fault [] n d r v = v
release_rows-Inv fault (h ∷ rows) n d r v =
    let m = if (release_tx h d).1 then n + 1 else n in
    release_rows_cases (λ x. Inv x.0) fault h rows n d
      (release_rows-Inv fault rows m (release_tx h d).0 (release_tx-Rows h rows d r)
        (release_tx-Inv h d r.0.0 v))
      v (release_rows-Inv fault rows n d (r.0.1, r.1.1) v) (fault h.id) refl

find_hold-select-none :
    (p : Hold → Bool) (i : ℕ) (hs : List Hold)
    → find_hold i hs ≡ none
    → find_hold i (select p hs) ≡ none
unfolding find_hold
find_hold-select-none p i [] e = refl
find_hold-select-none p i (h ∷ hs) e = ground (arith, find_hold-select-none p i hs)

find_hold-take-none :
    (n i : ℕ) (hs : List Hold) → find_hold i hs ≡ none → find_hold i (take n hs) ≡ none
unfolding find_hold
find_hold-take-none zero i hs e = refl
find_hold-take-none (suc n) i [] e = refl
find_hold-take-none (suc n) i (h ∷ hs) e = ground (arith, find_hold-take-none n i hs)

UniqueIds-select : (p : Hold → Bool) (hs : List Hold) → UniqueIds hs → UniqueIds (select p hs)
UniqueIds-select p [] u = tt
UniqueIds-select p (h ∷ hs) u =
    ground (arith, UniqueIds-select p hs u.1, find_hold-select-none p h.id hs u.0)

UniqueIds-take : (n : ℕ) (hs : List Hold) → UniqueIds hs → UniqueIds (take n hs)
UniqueIds-take zero hs u = tt
UniqueIds-take (suc n) [] u = tt
UniqueIds-take (suc n) (h ∷ hs) u = (find_hold-take-none n h.id hs u.0, UniqueIds-take n hs u.1)

-- Rows of a table of which a row is put in front are found in it, if they have other ids.
pub found_under :
    (x : Hold) (hs rows : List Hold)
    → find_hold x.id rows ≡ none
    → All (λ h. find_hold h.id hs ≡ some h) rows
    → All (λ h. find_hold h.id (x ∷ hs) ≡ some h) rows
unfolding find_hold
found_under x hs [] n a = tt
found_under x hs (h ∷ rows) n a = (ground arith, found_under x hs rows (ground arith) a.1)

select_found :
    (p : Hold → Bool) (hs : List Hold)
    → UniqueIds hs
    → All (λ h. find_hold h.id hs ≡ some h) (select p hs)
unfolding find_hold
select_found p [] u = tt
select_found p (h ∷ hs) u =
    let rest =
      found_under h hs (select p hs) (find_hold-select-none p h.id hs u.0)
        (select_found p hs u.1) in
    elim (Bool-cases (p h)) [ inl hit ↦ rw hit (ground arith, rest) | inr miss ↦ rw miss rest ]

-- The rows that the query gives are rows of the table.
pub selected-Rows :
    (db_now : ℕ) (d : Db)
    → UniqueIds d.holds
    → Rows (take 100 (select (is_expired db_now) d.holds)) d
selected-Rows db_now d u =
    let rows = select (is_expired db_now) d.holds in
    (
      All-take _ 100 rows (select_found (is_expired db_now) d.holds u),
      UniqueIds-take 100 rows (UniqueIds-select (is_expired db_now) d.holds u),
    )

-- `release_expired` keeps the invariant, however the transactions for the single holds end.
pub release_expired-Inv :
    (query_fails : Bool) (fault : ℕ → TxFault) (db_now : ℕ) (d : Db)
    → Inv d
    → Inv (release_expired query_fails fault db_now d).0
unfolding release_expired
release_expired-Inv true fault db_now d v = v
release_expired-Inv false fault db_now d v =
    release_rows-Inv fault (take 100 (select (is_expired db_now) d.holds)) 0 d
      (selected-Rows db_now d v.unique) v

unfoldable pub remove_all : List Hold → List Hold → List Hold
remove_all [] hs = hs
remove_all (r ∷ rs) hs = remove_all rs (remove_hold r.id hs)

remove_all-cons :
    (x : Hold) (rows hs : List Hold)
    → find_hold x.id rows ≡ none
    → remove_all rows (x ∷ hs) ≡ x ∷ remove_all rows hs
unfolding remove_all find_hold
remove_all-cons x [] hs n = refl
remove_all-cons x (r ∷ rows) hs n =
    ap (remove_all rows) (skip (Bool-cases (x.id == r.id)))
    ∙ remove_all-cons x rows (remove_hold r.id hs) (ground arith)
  where
    skip :
        ((x.id == r.id) ≡ true) ⊎ ((x.id == r.id) ≡ false)
        → remove_hold r.id (x ∷ hs) ≡ x ∷ remove_hold r.id hs
    skip h = unfold remove_hold in ground arith

pub remove_all-select :
    (p : Hold → Bool) (hs : List Hold)
    → UniqueIds hs
    → remove_all (select p hs) hs ≡ select (λ h. not (p h)) hs
unfolding remove_all remove_hold
remove_all-select p [] u = refl
remove_all-select p (h ∷ hs) u = elim (Bool-cases (p h)) [
  | inl hit ↦ ground (arith, remove_all-select p hs u.1)
  | inr miss ↦ ground (
    arith,
    remove_all-select p hs u.1,
    remove_all-cons h (select p hs) hs (find_hold-select-none p h.id hs u.0),
  )
]

-- No order refers to a row.
abbrev pub Unreferenced : List Order → List Hold → Type 0
Unreferenced os = All λ h. is_referenced h.id os ≡ false

release_tx_free :
    (h : Hold) (d : Db)
    → is_referenced h.id d.orders ≡ false
    → release_tx h d ≡ (released h d, true)
release_tx_free h d r = release_tx-outcome h d ∙ ground arith

pub release_rows_all :
    (rows : List Hold) (n : ℕ) (d : Db)
    → Unreferenced d.orders rows
    → ((release_rows (λ id. fine) rows n d).0.holds ≡ remove_all rows d.holds)
      × ((release_rows (λ id. fine) rows n d).1 ≡ n + length rows)
      × ((release_rows (λ id. fine) rows n d).2 ≡ none)
unfolding release_rows remove_all
release_rows_all [] n d u = (refl, omega arith, refl)
release_rows_all (h ∷ rows) n d u =
    let (a, b, c) = release_rows_all rows (n + 1) (released h d) u.1 in
    rw (release_tx_free h d u.0, release_rows) (a, omega (arith, b), c)

pub take_all {ℓ} : {A : Type ℓ} (n : ℕ) (xs : List A) → length xs ≤ n → take n xs ≡ xs
take_all zero [] h = refl
take_all zero (x ∷ xs) h = absurd (omega arith)
take_all (suc n) [] h = refl
take_all (suc n) (x ∷ xs) h = ap (◌∷◌ x) (take_all n xs (omega arith))

-- Where at most 100 holds have expired and no order refers to one of them, one round without
-- failures removes exactly the expired holds, and counts them.
pub release_expired_all :
    (db_now : ℕ) (d : Db)
    → UniqueIds d.holds
    → length (select (is_expired db_now) d.holds) ≤ 100
    → Unreferenced d.orders (select (is_expired db_now) d.holds)
    → ((release_expired false (λ id. fine) db_now d).0.holds
        ≡ select (λ h. not (is_expired db_now h)) d.holds)
      × ((release_expired false (λ id. fine) db_now d).1
          ≡ length (select (is_expired db_now) d.holds))
unfolding release_expired
release_expired_all db_now d u few free =
    let rows = select (is_expired db_now) d.holds in
    let (a, b, c) = release_rows_all rows 0 d free in
    rw (take_all 100 rows few)
      (a ∙ remove_all-select (is_expired db_now) d.holds u, omega (arith, b))

release_tx-tables :
    (h : Hold) (d : Db)
    → ((release_tx h d).0.orders ≡ d.orders) × ((release_tx h d).0.tickets ≡ d.tickets)
unfolding release_tx delete_hold
release_tx-tables h d = ground arith

abbrev SameTables : Db → Db × ℕ × Option Error → Type 0
SameTables d r = (r.0.orders ≡ d.orders) × (r.0.tickets ≡ d.tickets)

release_rows-tables :
    (fault : ℕ → TxFault) (rows : List Hold) (n : ℕ) (d : Db)
    → SameTables d (release_rows fault rows n d)
unfolding release_rows
release_rows-tables fault [] n d = (refl, refl)
release_rows-tables fault (h ∷ rows) n d =
    let m = if (release_tx h d).1 then n + 1 else n in
    let (a, b) = release_rows-tables fault rows m (release_tx h d).0 in
    let (a', b') = release_tx-tables h d in
    release_rows_cases (SameTables d) fault h rows n d (a ∙ a', b ∙ b') (refl, refl)
      (release_rows-tables fault rows n d) (fault h.id) refl

-- `release_expired` writes no order and no ticket.
pub release_expired-tables :
    (query_fails : Bool) (fault : ℕ → TxFault) (db_now : ℕ) (d : Db)
    → let d' = (release_expired query_fails fault db_now d).0 in
      (d'.orders ≡ d.orders) × (d'.tickets ≡ d.tickets)
unfolding release_expired
release_expired-tables true fault db_now d = (refl, refl)
release_expired-tables false fault db_now d =
    release_rows-tables fault (take 100 (select (is_expired db_now) d.holds)) 0 d
