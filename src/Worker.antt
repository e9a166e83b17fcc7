-- ===== src/Worker.antt =====
-- cmd/worker/main.go: one tick of the worker, every five seconds.
pub mod Drip
use traffic_backend_queue.Common.{
  ℕ, ◌/◌, Bool, true, false, ◌&&◌, List, [], ◌∷◌, ltb, if◌then◌else◌, select, Option,
}
use traffic_backend_queue.Storage.{Phase, presale, general_sale, Sale, Db, Store}
use traffic_backend_queue.WaitingRoom.{advance_admission}
use traffic_backend_queue.Inventory.{TxFault, release_expired}

abbrev pub is_selling : Phase → Bool
is_selling general_sale = true
is_selling presale = true
is_selling _ = false

-- WHERE phase IN ('general_sale', 'presale') AND ends_at > NOW()
abbrev pub on_sale : ℕ → Sale → Bool
on_sale db_now s = is_selling s.phase && ltb db_now s.ends_at

unfoldable pub batch : ℕ → ℕ
batch admit_per_min = let b = admit_per_min / 12 in if ltb b 1 then 1 else b

-- The loop over the rows; an INCRBY that fails is logged and skipped.
pub admit_rows : (ℕ → Bool) → List Sale → Store → Store
unfolding batch
admit_rows fails [] s = s
admit_rows fails (r ∷ rs) s =
    admit_rows fails rs
      (if fails r.id then s else advance_admission r.id (batch r.admit_per_minute) s)

unfoldable pub run_admission : Bool → (ℕ → Bool) → ℕ → Store → Store
unfolding admit_rows
run_admission query_fails fails db_now s =
    if query_fails then s else admit_rows fails (select (on_sale db_now) s.db.sales) s

-- The body of the worker's loop.
unfoldable pub tick :
    (query_fails : Bool) (fails : ℕ → Bool) (release_fails : Bool) (fault : ℕ → TxFault)
    (db_now : ℕ)
    → Store
    → Store
unfolding run_admission
tick query_fails fails release_fails fault db_now s =
    let s' = run_admission query_fails fails db_now s in
    record s' { db = (release_expired release_fails fault db_now s'.db).0 }
