-- ===== src/AssertQueue/Fairness.antt =====
-- What the check of cmd/assert-queue finds.
use traffic_backend_queue.Common.{
  sort_by, Sorted, AllPairs, sort_by-Sorted, AllPairs-sort_by, sort_by-AllPairs, Sorted-AllPairs,
  AllPairs-Sorted, ◌≡◌, ◌≤◌, ◌<◌, List, arith,
}
use traffic_backend_queue.AssertQueue.{
  Row, joined_before, placed_before, position_of, joined_of, inversions,
}
use traffic_backend_queue.AssertQueue.Sorting.{NotBelow, drops-Sorted, Sorted-drops}

-- Who comes first does not stand behind.
abbrev pub IsFair : Row → Row → Type 0
IsFair a b = a.joined < b.joined → a.position ≤ b.position

-- Who comes first stands ahead.
abbrev pub IsOrdered : Row → Row → Type 0
IsOrdered a b = a.joined < b.joined → a.position < b.position

-- By the time of joining, and by the position at the same time.
abbrev Arrival : Row → Row → Type 0
Arrival a b = (a.joined ≤ b.joined) × (a.joined ≡ b.joined → a.position ≤ b.position)

sort_by-Arrival : (xs : List Row) → Sorted Arrival (sort_by joined_before xs)
sort_by-Arrival =
    sort_by-Sorted joined_before Arrival (λ a b h. (ground arith, λ e. ground arith))
      (λ a b h. (ground arith, λ e. ground arith))
      (λ a b c p q. (
        omega (arith, p.0, q.0),
        λ e. omega (arith, p.0, q.0, p.1 (omega (arith, p.0, q.0)), q.1 (omega (arith, p.0, q.0))),
      ))

sort_by-NotBelow : (xs : List Row) → Sorted (NotBelow position_of) (sort_by placed_before xs)
sort_by-NotBelow =
    sort_by-Sorted placed_before (NotBelow position_of) (λ a b h. ground arith)
      (λ a b h. ground arith) (λ a b c p q. omega (arith, p, q))

-- If the check finds no inversion, no one stands behind a user who came later.
pub inversions-IsFair : (rows : List Row) → inversions rows ≡ 0 → AllPairs IsFair rows
unfolding inversions
inversions-IsFair rows h =
    let sorted = sort_by joined_before rows in
    let none_below = drops-Sorted position_of sorted (omega (arith, h)) in
    sort_by-AllPairs joined_before IsFair rows (
      AllPairs-Sorted Arrival (NotBelow position_of) IsFair sorted (λ a lt. omega (arith, lt))
        (λ a b p q. ((λ lt. q), λ lt. absurd (omega (arith, lt, p.0)))) (sort_by-Arrival rows)
        none_below)

-- If everyone who came earlier stands further ahead, the check finds no inversion.
pub IsOrdered-inversions : (rows : List Row) → AllPairs IsOrdered rows → inversions rows ≡ 0
unfolding inversions
IsOrdered-inversions rows h =
    let first = Sorted-drops position_of (sort_by joined_before rows) (
      Sorted-AllPairs Arrival (NotBelow position_of) IsOrdered (sort_by joined_before rows)
        (λ a b p q r. ground arith) (sort_by-Arrival rows)
        (AllPairs-sort_by joined_before IsOrdered rows h)) in
    let second = Sorted-drops joined_of (sort_by placed_before rows) (
      Sorted-AllPairs (NotBelow position_of) (NotBelow joined_of) IsOrdered
        (sort_by placed_before rows) (λ a b p q r. ground arith) (sort_by-NotBelow rows)
        (AllPairs-sort_by placed_before IsOrdered rows h)) in
    omega (arith, first, second)
