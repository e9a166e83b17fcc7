-- ===== src/Inventory/Release.antt =====
-- One transaction of `ReleaseExpired` of internal/inventory/service.go.
use traffic_backend_queue.Common.{
  ℕ, ◌+◌, ◌≡◌, refl, true, false, Option, none, some, List, [], ◌∷◌, ◌==◌, if◌then◌else◌, count,
  arith, Bool-cases, inl, inr, ◌∙◌, All, ◌≢◌,
}
use traffic_backend_queue.Storage.{Hold, Db}
use traffic_backend_queue.Inventory.{
  release_seats, find_hold, remove_hold, Error, TxFault, fine, begin_fails, commit_fails,
  release_tx, release_rows, delete_hold, is_referenced,
}
use traffic_backend_queue.Inventory.Seats.{held_count-release_seats}
use traffic_backend_queue.Inventory.Claims.{claims, UniqueIds, Inv}

pub claims-remove_hold :
    (seat i : ℕ) (hs : List Hold) (h : Hold)
    → find_hold i hs ≡ some h
    → claims seat hs ≡ count seat h.seat_ids + claims seat (remove_hold i hs)
unfolding find_hold claims remove_hold
claims-remove_hold seat i [] h e = cc
claims-remove_hold seat i (x ∷ hs) h e = elim (Bool-cases (x.id == i)) [
  | inl hit ↦ ground arith
  | inr miss ↦ ground (arith, claims-remove_hold seat i hs h (ground arith))
]

pub find_hold-remove_hold :
    (i j : ℕ) (hs : List Hold) → i ≢ j → find_hold j (remove_hold i hs) ≡ find_hold j hs
unfolding find_hold remove_hold
find_hold-remove_hold i j [] n = refl
find_hold-remove_hold i j (x ∷ hs) n = elim (Bool-cases (x.id == i)) [
  | inl hit ↦ ground arith
  | inr miss ↦ ground (arith, find_hold-remove_hold i j hs n)
]

pub find_hold-remove_none :
    (i j : ℕ) (hs : List Hold) → find_hold j hs ≡ none → find_hold j (remove_hold i hs) ≡ none
unfolding find_hold remove_hold
find_hold-remove_none i j [] e = refl
find_hold-remove_none i j (x ∷ hs) e = elim (Bool-cases (x.id == i)) [
  | inl hit ↦ ground arith
  | inr miss ↦ ground (arith, find_hold-remove_none i j hs)
]

pub UniqueIds-remove_hold : (i : ℕ) (hs : List Hold) → UniqueIds hs → UniqueIds (remove_hold i hs)
unfolding remove_hold
UniqueIds-remove_hold i [] u = tt
UniqueIds-remove_hold i (x ∷ hs) u = elim (Bool-cases (x.id == i)) [
  | inl hit ↦ ground arith
  | inr miss ↦ ground (arith, find_hold-remove_none i x.id hs u.0, UniqueIds-remove_hold i hs u.1)
]

-- The database after a committed release.
abbrev pub released : Hold → Db → Db
released h d = record d {
  seats = release_seats h.seat_ids d.seats;
  holds = remove_hold h.id d.holds;
}

pub release_tx-outcome :
    (h : Hold) (d : Db)
    → release_tx h d ≡ (if is_referenced h.id d.orders then (d, false) else (released h d, true))
unfolding release_tx delete_hold
release_tx-outcome h d = ground arith

pub released-Inv :
    (h : Hold) (d : Db) → find_hold h.id d.holds ≡ some h → Inv d → Inv (released h d)
released-Inv h d e v = record {
  claimed = λ seat. omega (
    arith,
    v.claimed seat,
    claims-remove_hold seat h.id d.holds h e,
    held_count-release_seats seat h.seat_ids d.seats,
  );
  unique = UniqueIds-remove_hold h.id d.holds v.unique;
}

-- The rows that the query gave and that are still to be released.
abbrev pub Rows : List Hold → Db → Type 0
Rows rows d = All (λ h. find_hold h.id d.holds ≡ some h) rows × UniqueIds rows

pub rows_left :
    (i : ℕ) (hs rows : List Hold)
    → find_hold i rows ≡ none
    → All (λ h. find_hold h.id hs ≡ some h) rows
    → All (λ h. find_hold h.id (remove_hold i hs) ≡ some h) rows
unfolding find_hold
rows_left i hs [] n a = tt
rows_left i hs (h ∷ rows) n a = (
  find_hold-remove_hold i h.id hs (λ e. ground arith) ∙ a.0,
  rows_left i hs rows (ground arith) a.1,
)

pub release_tx-Inv :
    (h : Hold) (d : Db) → find_hold h.id d.holds ≡ some h → Inv d → Inv (release_tx h d).0
release_tx-Inv h d e v =
    rw (release_tx-outcome h d) (elim (Bool-cases (is_referenced h.id d.orders)) [
      | inl r ↦ rw r v
      | inr r ↦ rw r (released-Inv h d e v)
    ])

pub release_tx-Rows :
    (h : Hold) (rows : List Hold) (d : Db) → Rows (h ∷ rows) d → Rows rows (release_tx h d).0
release_tx-Rows h rows d (a, u) =
    rw (release_tx-outcome h d) (elim (Bool-cases (is_referenced h.id d.orders)) [
      | inl r ↦ rw r (a.1, u.1)
      | inr r ↦ rw r (rows_left h.id d.holds rows u.0 a.1, u.1)
    ])

-- The three ways on from the first row.
pub release_rows_cases {ℓ} :
    (P : Db × ℕ × Option Error → Type ℓ) (fault : ℕ → TxFault) (h : Hold) (rows : List Hold) (n : ℕ)
    (d : Db)
    → P (release_rows fault rows (if (release_tx h d).1 then n + 1 else n) (release_tx h d).0)
    → P (d, n, some Error.begin_failed)
    → P (release_rows fault rows n d)
    → (x : TxFault) → fault h.id ≡ x
    → P (release_rows fault (h ∷ rows) n d)
unfolding release_rows
release_rows_cases P fault h rows n d gone stop kept fine e = rw (e, release_rows) gone
release_rows_cases P fault h rows n d gone stop kept begin_fails e = rw (e, release_rows) stop
release_rows_cases P fault h rows n d gone stop kept commit_fails e = rw (e, release_rows) kept
