-- ===== src/AssertQueue.antt =====
-- cmd/assert-queue/main.go: the check that the queue of a sale is in the order of arrival. The rows
-- that it prints are left out. `sort_by` does what `sort.Slice` does where no two rows have the same
-- position.
pub mod Sorting
pub mod Fairness
pub mod Examples
use traffic_backend_queue.Common.{
  ℕ, ◌+◌, ◌==◌, Bool, true, false, List, [], ◌∷◌, map, select, if◌then◌else◌, ltb, sort_by,
}
use traffic_backend_queue.Storage.{QueueEntry}

pub record Row : Type 0 where
  pub position : ℕ
  pub joined : ℕ
  pub user_id : ℕ

abbrev pub row_of : QueueEntry → Row
row_of e = record { position = e.position; joined = e.joined_at; user_id = e.user_id }

abbrev pub joined_before : Row → Row → Bool
joined_before a b =
    if a.joined == b.joined then ltb a.position b.position else ltb a.joined b.joined

abbrev pub placed_before : Row → Row → Bool
placed_before a b = ltb a.position b.position

-- How many rows have a smaller key than the row in front of them.
unfoldable pub drops : (Row → ℕ) → List Row → ℕ
drops key [] = 0
drops key (x ∷ []) = 0
drops key (x ∷ (y ∷ ys)) = (if ltb (key y) (key x) then 1 else 0) + drops key (y ∷ ys)

abbrev pub position_of : Row → ℕ
position_of r = r.position

abbrev pub joined_of : Row → ℕ
joined_of r = r.joined

unfoldable pub inversions : List Row → ℕ
unfolding sort_by drops
inversions rows =
    drops position_of (sort_by joined_before rows) + drops joined_of (sort_by placed_before rows)

-- The rows of one sale: `QueueEntriesForAssert` of internal/waitingroom/service.go, up to the order,
-- which the check does not use.
unfoldable pub rows_of : ℕ → List QueueEntry → List Row
rows_of sale es = map row_of (select (λ e. e.sale_id == sale) es)
