-- ===== src/Lottery/Calls.antt =====
-- The statements that the calls of internal/lottery/service.go make, in any order: the calls run at
-- once, and no transaction or lock keeps the statements of one together.
use traffic_backend_queue.Common.{
  ℕ, ◌≡◌, refl, sym, ◌∙◌, ap, Bool, true, false, Option, none, some, List, [], ◌∷◌, ◌++◌, arith,
  Bool-cases, Option-cases, ◌⊎◌, inl, inr, take, ℤ, pos, negsuc, from_option,
}
use mathlib.Core.Path.{subst}
use traffic_backend_queue.Storage.{Phase, presale, AccessCode, Db}
use traffic_backend_queue.Lottery.{
  has_code, insert_code, mark_used, Drawn, RowEvent, row_read, scan_fails, insert_fails, broken_off,
  DrawEnd, complete, failed, cut_short, draw_rows, end_draw, draw, pre_register, set_phase,
  update_sale, select_code, spend_code, validate_access_code, open_general_sale,
}

abbrev pub new_code : (id sale user code_hash : ℕ) → AccessCode
new_code id sale user code_hash = record {
  id = id;
  sale_id = sale;
  user_id = user;
  code_hash = code_hash;
  used_at = none;
}

-- What a property of the codes needs to be kept by the draws and the validations.
pub record IsKept (P : List AccessCode → Type 0) : Type 0 where
  pub inserted :
      (id sale user k : ℕ) (cs : List AccessCode)
      → P cs
      → has_code id k cs ≡ false
      → P (new_code id sale user k ∷ cs)
  pub marked : (now id : ℕ) (cs : List AccessCode) → P cs → P (mark_used now id cs)

-- A statement that writes: of `PreRegister`, the INSERT and the last UPDATE of `Draw`, the UPDATE of
-- `ValidateAccessCode`, and that of `OpenGeneralSale`. The SELECTs change nothing.
pub data Statement : Type 0 where
  registers : (fails : Bool) → (sale user : ℕ) → Statement
  inserts : (id sale user code_hash : ℕ) → Statement
  sets_phase : Phase → (sale : ℕ) → Statement
  spends : (fails : Bool) → (db_now id : ℕ) → Statement
  opens : (fails : Bool) → (db_now sale : ℕ) → Statement

abbrev pub step : Db → Statement → Db
step d (registers fails sale user) = (pre_register fails sale user d).0
step d (inserts id sale user code_hash) = from_option d (insert_code id sale user code_hash d)
step d (sets_phase phase sale) = record d { sales = update_sale (set_phase phase) sale d.sales }
step d (spends fails db_now id) = spend_code fails db_now id d
step d (opens fails db_now sale) = (open_general_sale fails db_now sale d).0

unfoldable pub run : Db → List Statement → Db
run d [] = d
run d (c ∷ cs) = run (step d c) cs

run-append : (d : Db) (cs es : List Statement) → run d (cs ++ es) ≡ run (run d cs) es
unfolding run
run-append d [] es = refl
run-append d (c ∷ cs) es = run-append (step d c) cs es

-- What a call does by itself is what some of the statements do.
abbrev IsRun : Db → Db → Type 0
IsRun d d' = (cs : List Statement) × (d' ≡ run d cs)

module _ (hash : ℕ → ℕ) where
  draw_rows-IsRun :
      (drawn : Drawn) (event : ℕ → RowEvent) (sale : ℕ) (us : List ℕ) (d : Db)
      → IsRun d (draw_rows hash drawn event sale us d).0
  unfolding draw_rows run
  draw_rows-IsRun drawn event sale [] d = ([], refl)
  draw_rows-IsRun drawn event sale (u ∷ us) d =
      go (event u) (insert_code (drawn.id u) sale u (hash (drawn.code u)) d) refl refl
        (λ d'. draw_rows-IsRun drawn event sale us d')
    where
      go :
          (ev : RowEvent) (o : Option Db)
          → ev ≡ event u
          → insert_code (drawn.id u) sale u (hash (drawn.code u)) d ≡ o
          → ((d' : Db) → IsRun d' (draw_rows hash drawn event sale us d').0)
          → IsRun d (draw_rows hash drawn event sale (u ∷ us) d).0
      go broken_off o e q rest = ([], rw (← e, draw_rows) refl)
      go scan_fails o e q rest = ([], rw (← e, draw_rows) refl)
      go insert_fails o e q rest = ([], rw (← e, draw_rows) refl)
      go row_read none e q rest = ([], rw (← e, q, draw_rows) refl)
      go row_read (some d') e q rest =
          let (cs, same) = rest d' in
          (inserts (drawn.id u) sale u (hash (drawn.code u)) ∷ cs, rw (← e, q, draw_rows) same)

  end_draw-IsRun :
      (phase_fails : Bool) (sale : ℕ) (d : Db) (r : Db × ℕ × DrawEnd)
      → IsRun d r.0
      → IsRun d (end_draw phase_fails sale r).0
  unfolding end_draw run
  end_draw-IsRun true sale d (d', count, complete) w = w
  end_draw-IsRun true sale d (d', count, cut_short) w = w
  end_draw-IsRun true sale d (d', count, failed) w = w
  end_draw-IsRun false sale d (d', count, failed) w = w
  end_draw-IsRun false sale d (d', count, complete) (cs, e) = (
    cs ++ (sets_phase presale sale ∷ []),
    ap (λ x. step x (sets_phase presale sale)) e
        ∙ sym (run-append d cs (sets_phase presale sale ∷ [])),
  )
  end_draw-IsRun false sale d (d', count, cut_short) (cs, e) = (
    cs ++ (sets_phase presale sale ∷ []),
    ap (λ x. step x (sets_phase presale sale)) e
        ∙ sym (run-append d cs (sets_phase presale sale ∷ [])),
  )

  -- A draw by itself makes INSERTs, and then at most the UPDATE of the phase.
  pub draw-IsRun :
      (query_fails phase_fails : Bool) (drawn : Drawn) (event : ℕ → RowEvent) (sale : ℕ)
      (winners : ℤ) (order : List ℕ) (d : Db)
      → IsRun d (draw hash query_fails phase_fails drawn event sale winners order d).0
  unfolding draw run
  draw-IsRun query_fails phase_fails drawn event sale (negsuc n) order d = ([], refl)
  draw-IsRun true phase_fails drawn event sale (pos n) order d = ([], refl)
  draw-IsRun false phase_fails drawn event sale (pos n) order d =
      end_draw-IsRun phase_fails sale d (draw_rows hash drawn event sale (take n order) d)
        (draw_rows-IsRun drawn event sale (take n order) d)

  -- A validation by itself makes at most its UPDATE.
  pub validate_access_code-IsRun :
      (query_fails update_fails : Bool) (db_now sale user code : ℕ) (d : Db)
      → IsRun d (validate_access_code hash query_fails update_fails db_now sale user code d).0
  unfolding validate_access_code run
  validate_access_code-IsRun query_fails update_fails db_now sale user code d =
      elim (Option-cases (select_code hash query_fails sale user code d)) [
        | inl e ↦ ([], rw (e, validate_access_code) refl)
        | inr (id, e) ↦ (spends update_fails db_now id ∷ [], rw (e, validate_access_code) refl)
      ]

module _ (P : List AccessCode → Type 0) (kept : IsKept P) where
  insert_code_keeps :
      (id sale user k : ℕ) (d : Db)
      → P d.access_codes
      → P (from_option d (insert_code id sale user k d)).access_codes
  insert_code_keeps id sale user k d v =
      go (insert_code id sale user k d) refl (Bool-cases (has_code id k d.access_codes))
    where
      go :
          (o : Option Db)
          → insert_code id sale user k d ≡ o
          → (has_code id k d.access_codes ≡ true) ⊎ (has_code id k d.access_codes ≡ false)
          → P (from_option d o).access_codes
      go none e b = v
      go (some d') e (inl b) =
          let q : d.access_codes ≡ d'.access_codes = unfold insert_code in ground (arith, e, b) in
          subst P q v
      go (some d') e (inr b) =
          let q : new_code id sale user k ∷ d.access_codes ≡ d'.access_codes =
            unfold insert_code in ground (arith, e, b) in
          subst P q (kept.inserted id sale user k d.access_codes v b)

  pre_register-codes :
      (fails : Bool) (sale user : ℕ) (d : Db)
      → (pre_register fails sale user d).0.access_codes ≡ d.access_codes
  unfolding pre_register
  pre_register-codes fails sale user d = ground arith

  open_general_sale-codes :
      (fails : Bool) (db_now sale : ℕ) (d : Db)
      → (open_general_sale fails db_now sale d).0.access_codes ≡ d.access_codes
  unfolding open_general_sale
  open_general_sale-codes fails db_now sale d = ground arith

  spend_code_keeps :
      (fails : Bool) (db_now id : ℕ) (d : Db)
      → P d.access_codes
      → P (spend_code fails db_now id d).access_codes
  unfolding spend_code
  spend_code_keeps true db_now id d v = v
  spend_code_keeps false db_now id d v = kept.marked db_now id d.access_codes v

  step_keeps : (d : Db) (c : Statement) → P d.access_codes → P (step d c).access_codes
  step_keeps d (registers fails sale user) v =
      subst P (sym (pre_register-codes fails sale user d)) v
  step_keeps d (inserts id sale user code_hash) v = insert_code_keeps id sale user code_hash d v
  step_keeps d (sets_phase phase sale) v = v
  step_keeps d (spends fails db_now id) v = spend_code_keeps fails db_now id d v
  step_keeps d (opens fails db_now sale) v =
      subst P (sym (open_general_sale-codes fails db_now sale d)) v

  pub run_keeps : (d : Db) (cs : List Statement) → P d.access_codes → P (run d cs).access_codes
  unfolding run
  run_keeps d [] v = v
  run_keeps d (c ∷ cs) v = run_keeps (step d c) cs (step_keeps d c v)
