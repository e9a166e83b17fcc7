-- ===== src/Orders/Stats.antt =====
-- Stats of internal/orders/service.go.
use traffic_backend_queue.Common.{
  ℕ, ◌+◌, ◌≡◌, ◌≤◌, refl, Bool, true, false, ◌&&◌, List, [], ◌∷◌, ◌==◌, arith, length,
  if◌then◌else◌, map, select, contains, leb,
}
use traffic_backend_queue.Storage.{Db, OrderStatus, confirmed, Ticket}
use traffic_backend_queue.Orders.History.{Call, run, run-SameSales}

-- COUNT(DISTINCT …)
unfoldable pub distinct_count : List ℕ → ℕ
distinct_count [] = 0
distinct_count (x ∷ xs) = (if contains x xs then 0 else 1) + distinct_count xs

abbrev pub is_confirmed : OrderStatus → Bool
is_confirmed confirmed = true
is_confirmed _ = false

-- Which queries fail: each leaves its number at 0.
pub record StatsFaults : Type 0 where
  pub tickets_query : Bool
  pub orders_query : Bool
  pub buyers_query : Bool

-- The text of the ratio shows `unique_buyers` divided by `ratio_base`.
pub record SaleStats : Type 0 where
  pub tickets_sold : ℕ
  pub orders : ℕ
  pub unique_buyers : ℕ
  pub ratio_base : ℕ

abbrev pub tickets_of : ℕ → Db → List Ticket
tickets_of sale d = select (λ t. t.sale_id == sale) d.tickets

abbrev pub unless_fails : Bool → ℕ → ℕ
unless_fails true n = 0
unless_fails false n = n

-- The three queries are no transaction; they are read here with no statement of others in between.
unfoldable pub stats : StatsFaults → ℕ → Db → SaleStats
unfolding distinct_count
stats f sale d =
    let sold = unless_fails f.tickets_query (length (tickets_of sale d)) in
    let orders =
      unless_fails f.orders_query
        (length (select (λ o. o.sale_id == sale && is_confirmed o.status) d.orders)) in
    let buyers =
      unless_fails f.buyers_query (distinct_count (map (λ t. t.user_id) (tickets_of sale d))) in
    record {
      tickets_sold = sold;
      orders = orders;
      unique_buyers = buyers;
      ratio_base = if leb 1 orders then orders else 1;
    }

pub distinct_count-le : (xs : List ℕ) → distinct_count xs ≤ length xs
unfolding distinct_count
distinct_count-le [] = omega arith
distinct_count-le (x ∷ xs) = ground (arith, distinct_count-le xs)

-- Holds, checkouts and rounds of the worker leave the statistics of every sale as they are: under
-- the foreign key of the schema no checkout is ever counted.
pub stats-run :
    (f : StatsFaults) (sale : ℕ) (d : Db) (cs : List Call)
    → stats f sale (run d cs) ≡ stats f sale d
unfolding stats
stats-run f sale d cs = let (orders, tickets) = run-SameSales d cs in rw (orders, tickets) refl
