-- ===== src/Worker/Drip.antt =====
-- How fast cmd/worker/main.go moves the admission windows.
use traffic_backend_queue.Common.{
  Bool, true, ℕ, ◌+◌, ◌*◌, ◌≤◌, ◌<◌, ◌≡◌, refl, false, List, [], ◌∷◌, ◌==◌, if◌then◌else◌, select,
  none, some, arith, Bool-cases, inl, inr, ◌∙◌, ap, sym, ==_refl, ◌⊎◌,
}
use traffic_backend_queue.Storage.{Sale, Store, find_sale}
use traffic_backend_queue.WaitingRoom.{advance_admission}
use traffic_backend_queue.WaitingRoom.Polls.{window}
use traffic_backend_queue.Worker.{on_sale, batch, admit_rows, run_admission}

-- The twelve ticks of a minute admit the configured number, less at most eleven for the division;
-- below twelve a minute they admit twelve.
pub batch_per_minute :
    (admit : ℕ)
    → ((12 ≤ admit) × (12 * batch admit ≤ admit) × (admit < 12 * batch admit + 12))
      ⊎ ((admit < 12) × (12 * batch admit ≡ 12))
unfolding batch
batch_per_minute admit = ground arith

-- PRIMARY KEY (id)
abbrev pub UniqueSales : List Sale → Type 0
UniqueSales [] = Unit
UniqueSales (s ∷ ss) = (find_sale s.id ss ≡ none) × UniqueSales ss

window-advance_admission :
    (sale j n : ℕ) (s : Store)
    → window (advance_admission sale n s) j ≡ (if sale == j then window s j + n else window s j)
unfolding advance_admission
window-advance_admission sale j n s = ground arith

admit_rows_absent :
    (fails : ℕ → Bool) (db_now j : ℕ) (rows : List Sale) (s : Store)
    → find_sale j rows ≡ none
    → window (admit_rows fails (select (on_sale db_now) rows) s) j ≡ window s j
unfolding admit_rows find_sale
admit_rows_absent fails db_now j [] s h = refl
admit_rows_absent fails db_now j (r ∷ rows) s h =
    let moved = advance_admission r.id (batch r.admit_per_minute) s in
    let left = admit_rows_absent fails db_now j rows s (ground arith) in
    let counted = admit_rows_absent fails db_now j rows moved (ground arith) in
    let same = window-advance_admission r.id j (batch r.admit_per_minute) s in
    elim (Bool-cases (on_sale db_now r)) [
      | inl sell ↦ elim (Bool-cases (fails r.id)) [
        | inl bad ↦ rw (sell, bad, admit_rows) left
        | inr good ↦ rw (sell, good, admit_rows) (counted ∙ ground (arith, same))
      ]
      | inr not_on ↦ rw not_on left
    ]

at_row :
    (fails : ℕ → Bool) (db_now j : ℕ) (r : Sale) (rows : List Sale) (s : Store) (info : Sale)
    → fails j ≡ false
    → r.id ≡ j
    → info ≡ r
    → find_sale r.id rows ≡ none
    → window (admit_rows fails (select (on_sale db_now) (r ∷ rows)) s) j
      ≡ window s j + (if on_sale db_now info then batch info.admit_per_minute else 0)
unfolding admit_rows
at_row fails db_now j r rows s info good same e absent =
    let none_left = ap (λ k. find_sale k rows) (sym same) ∙ absent in
    let moved = advance_admission r.id (batch r.admit_per_minute) s in
    rw e (elim (Bool-cases (on_sale db_now r)) [
      | inl sell ↦
          rw (sell, ap fails same ∙ good, admit_rows)
            (admit_rows_absent fails db_now j rows moved none_left
              ∙ ground
                  (arith, window-advance_admission r.id j (batch r.admit_per_minute) s, ==_refl j))
      | inr not_on ↦ rw not_on (admit_rows_absent fails db_now j rows s none_left ∙ ground arith)
    ])

admit_rows-window :
    (fails : ℕ → Bool) (db_now j : ℕ) (rows : List Sale) (s : Store) (info : Sale)
    → fails j ≡ false
    → UniqueSales rows
    → find_sale j rows ≡ some info
    → window (admit_rows fails (select (on_sale db_now) rows) s) j
      ≡ window s j + (if on_sale db_now info then batch info.admit_per_minute else 0)
unfolding admit_rows find_sale
admit_rows-window fails db_now j [] s info good u h = cc
admit_rows-window fails db_now j (r ∷ rows) s info good u h =
    let moved = advance_admission r.id (batch r.admit_per_minute) s in
    let same = window-advance_admission r.id j (batch r.admit_per_minute) s in
    elim (Bool-cases (r.id == j)) [
      | inl hit ↦ at_row fails db_now j r rows s info good (ground arith) (ground arith) u.0
      | inr miss ↦
          let left = admit_rows-window fails db_now j rows s info good u.1 (ground arith) in
          let counted = admit_rows-window fails db_now j rows moved info good u.1 (ground arith) in
          elim (Bool-cases (on_sale db_now r)) [
            | inl sell ↦ elim (Bool-cases (fails r.id)) [
              | inl bad ↦ rw (sell, bad, admit_rows) left
              | inr sent ↦ rw (sell, sent, admit_rows) (counted ∙ ground (arith, same))
            ]
            | inr not_on ↦ rw not_on left
          ]
    ]

admit_rows-db :
    (fails : ℕ → Bool) (rows : List Sale) (s : Store) → (admit_rows fails rows s).db ≡ s.db
unfolding admit_rows advance_admission
admit_rows-db fails [] s = refl
admit_rows-db fails (r ∷ rows) s = elim (Bool-cases (fails r.id)) [
  | inl bad ↦ rw (bad, admit_rows) (admit_rows-db fails rows s)
  | inr good ↦
      rw (good, admit_rows)
        (admit_rows-db fails rows (advance_admission r.id (batch r.admit_per_minute) s))
]

pub run_admission-db :
    (query_fails : Bool) (fails : ℕ → Bool) (db_now : ℕ) (s : Store)
    → (run_admission query_fails fails db_now s).db ≡ s.db
unfolding run_admission
run_admission-db true fails db_now s = refl
run_admission-db false fails db_now s = admit_rows-db fails (select (on_sale db_now) s.db.sales) s

-- A tick that reads the sales and counts the window of a sale up moves that window by the batch of
-- the sale if it is open for selling and has not ended, and otherwise not at all, however many sales
-- there are and whichever of their windows cannot be counted up.
pub run_admission-window :
    (fails : ℕ → Bool) (db_now j : ℕ) (s : Store) (info : Sale)
    → fails j ≡ false
    → UniqueSales s.db.sales
    → find_sale j s.db.sales ≡ some info
    → window (run_admission false fails db_now s) j
      ≡ window s j + (if on_sale db_now info then batch info.admit_per_minute else 0)
unfolding run_admission
run_admission-window fails db_now j s info good u h =
    admit_rows-window fails db_now j s.db.sales s info good u h
