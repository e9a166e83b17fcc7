-- ===== src/AssertQueue/Sorting.antt =====
-- Sorted lists of rows, for the check of cmd/assert-queue.
use traffic_backend_queue.Common.{ℕ, ◌≡◌, ◌≤◌, refl, List, [], ◌∷◌, arith, All-map, Sorted}
use traffic_backend_queue.AssertQueue.{Row, drops}

module _ (key : Row → ℕ) where
  abbrev pub NotBelow : Row → Row → Type 0
  NotBelow a b = key a ≤ key b

  pub drops-Sorted : (xs : List Row) → drops key xs ≡ 0 → Sorted NotBelow xs
  unfolding drops
  drops-Sorted [] h = tt
  drops-Sorted (x ∷ []) h = (tt, tt)
  drops-Sorted (x ∷ (y ∷ ys)) h =
      let (first, rest) = drops-Sorted (y ∷ ys) (ground arith) in
      let le : key x ≤ key y = ground arith in
      (
        (le, All-map (NotBelow y) (NotBelow x) ys (λ z k. omega (arith, le, k)) first),
        (first, rest),
      )

  pub Sorted-drops : (xs : List Row) → Sorted NotBelow xs → drops key xs ≡ 0
  unfolding drops
  Sorted-drops [] h = refl
  Sorted-drops (x ∷ []) h = refl
  Sorted-drops (x ∷ (y ∷ ys)) h =
      let le : key x ≤ key y = h.0.0 in ground (arith, le, Sorted-drops (y ∷ ys) h.1)
