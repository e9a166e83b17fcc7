-- ===== src/Inventory/Available.antt =====
-- ListAvailable of internal/inventory/service.go. All seats have the section "GA", so the order is
-- that of the rows and the numbers.
use traffic_backend_queue.Common.{
  ℕ, ◌≡◌, ◌≤◌, ◌<◌, sym, ◌∙◌, ap, Bool, false, true, List, ◌++◌, ◌==◌, ◌||◌, arith, All, length,
  if◌then◌else◌, ℤ, pos, negsuc, ltb, take, drop, take-drop, length-take, select, All-select,
  All-take, sort_by, sort_by-Sorted, sort_by-All, All-sort_by, Sorted, ◌⊎◌,
}
use mathlib.Core.Path.{subst}
use traffic_backend_queue.Storage.{Seat}
use traffic_backend_queue.Inventory.{Result, ok, err, query_failed, available_in}

-- How many rows are asked for.
unfoldable pub page_size : ℤ → ℕ
page_size (pos n) = if n == 0 || ltb 500 n then 100 else n
page_size (negsuc n) = 100

-- ORDER BY section, row_num, seat_num
abbrev pub stands_before : Seat → Seat → Bool
stands_before a b =
    if a.row_num == b.row_num then ltb a.seat_num b.seat_num else ltb a.row_num b.row_num

unfoldable pub list_available : Bool → (sale : ℕ) → (limit : ℤ) → List Seat → Result (List Seat)
unfolding page_size
list_available fails sale limit seats =
    if fails
    then err query_failed
    else ok (take (page_size limit) (sort_by stands_before (select (available_in sale) seats)))

-- The seat is in an earlier row, or in the same row at no larger number.
abbrev pub IsNotBehind : Seat → Seat → Type 0
IsNotBehind a b = (a.row_num < b.row_num) ⊎ ((a.row_num ≡ b.row_num) × (a.seat_num ≤ b.seat_num))

before-IsNotBehind : (a b : Seat) → stands_before a b ≡ true → IsNotBehind a b
before-IsNotBehind a b h = ground arith

behind-IsNotBehind : (a b : Seat) → stands_before a b ≡ false → IsNotBehind b a
behind-IsNotBehind a b h = ground arith

IsNotBehind-trans : (a b c : Seat) → IsNotBehind a b → IsNotBehind b c → IsNotBehind a c
IsNotBehind-trans a b c h k = ground arith

page_size-le : (limit : ℤ) → page_size limit ≤ 500
unfolding page_size
page_size-le (pos n) = ground arith
page_size-le (negsuc n) = omega arith

-- A list of seats that is given holds at most 500, all of them available seats of the sale. Together
-- with those that are left out they are the available seats of the sale, in the order of rows and
-- numbers: no seat that is left out stands before one that is listed.
pub list_available-Sorted :
    (fails : Bool) (sale : ℕ) (limit : ℤ) (seats listed : List Seat)
    → list_available fails sale limit seats ≡ ok listed
    → (length listed ≤ 500)
      × All (λ x. available_in sale x ≡ true) listed
      × ((rest : List Seat) × Sorted IsNotBehind (listed ++ rest)
          × ((P : Seat → Type 0)
              → All P (select (available_in sale) seats)
              → All P (listed ++ rest))
          × ((P : Seat → Type 0)
              → All P (listed ++ rest)
              → All P (select (available_in sale) seats)))
unfolding list_available
list_available-Sorted true sale limit seats listed h = cc
list_available-Sorted false sale limit seats listed h =
    let free = select (available_in sale) seats in
    let sorted = sort_by stands_before free in
    let n = page_size limit in
    let same : take n sorted ≡ listed = cc in
    let split : sorted ≡ listed ++ drop n sorted =
      sym (take-drop n sorted) ∙ ap (λ xs. xs ++ drop n sorted) same in
    (
      subst (λ xs. length xs ≤ 500) same (omega (arith, length-take n sorted, page_size-le limit)),
      subst (All (λ x. available_in sale x ≡ true)) same (
          All-take _ n sorted
            (All-sort_by stands_before _ free (All-select (available_in sale) seats))),
      (
        drop n sorted,
        subst (Sorted IsNotBehind) split (
            sort_by-Sorted stands_before IsNotBehind before-IsNotBehind behind-IsNotBehind
              IsNotBehind-trans free),
        (λ P all. subst (All P) split (All-sort_by stands_before P free all)),
        (λ P all. sort_by-All stands_before P free (subst (All P) (sym split) all)),
      ),
    )
