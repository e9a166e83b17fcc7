-- ===== src/Inventory/Untouched.antt =====
-- The tables that `ReleaseExpired` of internal/inventory/service.go leaves alone: the sales and the
-- queue.
use traffic_backend_queue.Common.{
  ℕ, ◌+◌, ◌≡◌, refl, ◌∙◌, Bool, true, false, List, [], ◌∷◌, if◌then◌else◌, arith, take, select,
}
use traffic_backend_queue.Storage.{Hold, Db}
use traffic_backend_queue.Inventory.{
  TxFault, release_tx, release_rows, release_expired, delete_hold, is_expired,
}
use traffic_backend_queue.Inventory.Release.{release_rows_cases}

abbrev pub SameQueue : Db → Db → Type 0
SameQueue d d' = (d'.sales ≡ d.sales) × (d'.queue_entries ≡ d.queue_entries)

release_tx-SameQueue : (h : Hold) (d : Db) → SameQueue d (release_tx h d).0
unfolding release_tx delete_hold
release_tx-SameQueue h d = ground arith

release_rows-SameQueue :
    (fault : ℕ → TxFault) (rows : List Hold) (n : ℕ) (d : Db)
    → SameQueue d (release_rows fault rows n d).0
unfolding release_rows
release_rows-SameQueue fault [] n d = (refl, refl)
release_rows-SameQueue fault (h ∷ rows) n d =
    let m = if (release_tx h d).1 then n + 1 else n in
    let (a, b) = release_rows-SameQueue fault rows m (release_tx h d).0 in
    let (a', b') = release_tx-SameQueue h d in
    release_rows_cases (λ r. SameQueue d r.0) fault h rows n d (a ∙ a', b ∙ b') (refl, refl)
      (release_rows-SameQueue fault rows n d) (fault h.id) refl

pub release_expired-SameQueue :
    (query_fails : Bool) (fault : ℕ → TxFault) (db_now : ℕ) (d : Db)
    → SameQueue d (release_expired query_fails fault db_now d).0
unfolding release_expired
release_expired-SameQueue true fault db_now d = (refl, refl)
release_expired-SameQueue false fault db_now d =
    release_rows-SameQueue fault (take 100 (select (is_expired db_now) d.holds)) 0 d
