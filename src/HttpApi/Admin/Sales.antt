-- ===== src/HttpApi/Admin/Sales.antt =====
-- What the admin routes of internal/httpapi/handlers.go do to the tables.
use traffic_backend_queue.Common.{
  ℕ, ◌≡◌, sym, ◌≢◌, refl, false, true, Bool-cases, Option, some, inl, inr, arith, All,
}
use mathlib.Core.Path.{subst}
use traffic_backend_queue.Storage.{find_sale}
use traffic_backend_queue.Inventory.Layout.{create_seats, IsLaidOut, IsInjective}
use traffic_backend_queue.Inventory.Layout.Rows.{create_seats-IsLaidOut}
use traffic_backend_queue.HttpApi.{admin_auth}
use traffic_backend_queue.HttpApi.Admin.{
  Tables, AdminEnv, SaleRequest, sale_of, sale_created, refuses, route_sale,
}

-- The ids that the database draws for the seats are those of no other seat, and no two are equal;
-- no seat is of the new sale, whose id is new as well.
pub record DrawsNew (env : AdminEnv) (t : Tables) : Type 0 where
  pub injective : IsInjective env.draw
  pub unused : (row num : ℕ) → All (λ x. x.id ≢ env.draw row num) t.db.seats
  pub no_seats : All (λ x. x.sale_id ≢ env.id) t.db.seats

-- A request whose answer is a sale: the key was right, the id of the answer is the one that the
-- database drew, the sale is in the table with the fields of the request or their defaults, and it has
-- as many seats as its row says, in rows of fifty and all available. The ids that the database draws
-- are new, and no INSERT of a seat fails.
pub route_sale-IsLaidOut :
    (key given : Option ℕ) (env : AdminEnv) (req : SaleRequest) (t : Tables) (id : ℕ)
    → DrawsNew env t
    → env.seat_fails ≡ (λ row num. false)
    → (route_sale key given env req t).1 ≡ sale_created 201 id
    → let t' = (route_sale key given env req t).0 in
      (admin_auth key given ≡ true)
      × (id ≡ env.id)
      × (find_sale env.id t'.db.sales ≡ some (sale_of env.id req))
      × IsLaidOut env.id (sale_of env.id req).total_seats t'.db.seats
unfolding route_sale find_sale
route_sale-IsLaidOut key given env req t id new fine h = elim (Bool-cases (admin_auth key given)) [
  | inr no_key ↦ absurd (ground arith)
  | inl has_key ↦ elim (Bool-cases (refuses env req (sale_of env.id req) t)) [
    | inl q ↦ absurd (ground arith)
    | inr q ↦
        let n = (sale_of env.id req).total_seats in
        let laid =
          create_seats-IsLaidOut env.draw env.id n new.injective t.db.seats new.no_seats
            new.unused in
        let same : id ≡ env.id = ground arith in
        rw (has_key, q, route_sale)
          (
            refl,
            same,
            ground arith,
            subst (λ f. IsLaidOut env.id n (create_seats f env.draw env.id n t.db.seats).0)
                (sym fine) laid.1,
          )
  ]
]
