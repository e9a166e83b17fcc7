-- ===== src/Lottery/Draws.antt =====
-- What a draw of internal/lottery/service.go gives.
use traffic_backend_queue.Common.{
  ℕ, zero, suc, ◌+◌, ◌≡◌, ◌≢◌, refl, ap, ◌∙◌, sym, true, false, some, List, [], ◌∷◌, ◌==◌, is_some,
  arith, All, Bool-cases, inl, inr, take, contains, length, pos, ==_refl,
}
use traffic_backend_queue.Storage.{Sale, presale, AccessCode, Db, find_sale}
use traffic_backend_queue.Lottery.{
  is_known, has_code, insert_code, find_code, Drawn, row_read, complete, draw_rows, end_draw, draw,
  validate_access_code, set_phase, update_sale,
}
use traffic_backend_queue.Lottery.Calls.{new_code}

abbrev pub Distinct : List ℕ → Type 0
Distinct [] = Unit
Distinct (u ∷ us) = (contains u us ≡ false) × Distinct us

contains-take : (u n : ℕ) (us : List ℕ) → contains u us ≡ false → contains u (take n us) ≡ false
contains-take u zero us h = refl
contains-take u (suc n) [] h = refl
contains-take u (suc n) (x ∷ xs) h = ground (arith, contains-take u n xs)

Distinct-take : (n : ℕ) (us : List ℕ) → Distinct us → Distinct (take n us)
Distinct-take zero us h = tt
Distinct-take (suc n) [] h = tt
Distinct-take (suc n) (x ∷ xs) h = (contains-take x n xs h.0, Distinct-take n xs h.1)

find_sale-set_phase :
    (sale : ℕ) (ss : List Sale) (s : Sale)
    → find_sale sale ss ≡ some s
    → find_sale sale (update_sale (set_phase presale) sale ss) ≡ some (set_phase presale s)
unfolding find_sale update_sale
find_sale-set_phase sale [] s h = absurd (ground arith)
find_sale-set_phase sale (x ∷ xs) s h = elim (Bool-cases (x.id == sale)) [
  | inl b ↦
      let q : x ≡ s = ground (arith, h, b) in rw b (rw b (ap (λ y. some (set_phase presale y)) q))
  | inr b ↦ rw b (rw b (find_sale-set_phase sale xs s (ground (arith, h, b))))
]

module _ (hash : ℕ → ℕ) (drawn : Drawn) (sale : ℕ) where
  -- The code that a user is drawn.
  abbrev pub code_of : ℕ → AccessCode
  code_of u = new_code (drawn.id u) sale u (hash (drawn.code u))

  -- Neither the id nor the hash of the code of a user is in the table.
  abbrev pub IsFresh : ℕ → List AccessCode → Type 0
  IsFresh u = All (λ c. (c.id ≢ drawn.id u) × (c.code_hash ≢ hash (drawn.code u)))

  -- No two users are drawn the same id or hash: the codes are random UUIDs.
  pub record DrawsApart : Type 0 where
    pub ids : (u w : ℕ) → drawn.id u ≡ drawn.id w → u ≡ w
    pub hashes : (u w : ℕ) → hash (drawn.code u) ≡ hash (drawn.code w) → u ≡ w

  new_codes : List ℕ → List AccessCode → List AccessCode
  new_codes [] cs = cs
  new_codes (u ∷ us) cs = new_codes us (code_of u ∷ cs)

  has_code-fresh :
      (u : ℕ) (cs : List AccessCode)
      → IsFresh u cs
      → has_code (drawn.id u) (hash (drawn.code u)) cs ≡ false
  unfolding has_code
  has_code-fresh u [] h = refl
  has_code-fresh u (c ∷ cs) h = let (a, b) = h.0 in ground (arith, has_code-fresh u cs h.1, a, b)

  draw_rows-new_codes :
      (us : List ℕ) (d : Db)
      → DrawsApart
      → Distinct us
      → ((u : ℕ) → contains u us ≡ true → is_known sale u d ≡ true)
      → ((u : ℕ) → contains u us ≡ true → IsFresh u d.access_codes)
      → draw_rows hash drawn (λ u. row_read) sale us d
        ≡ (record d { access_codes = new_codes us d.access_codes }, length us, complete)
  unfolding draw_rows new_codes insert_code
  draw_rows-new_codes [] d apart h known fresh = refl
  draw_rows-new_codes (u ∷ us) d apart h known fresh =
      let d' : Db = record d { access_codes = code_of u ∷ d.access_codes } in
      let first = has_code-fresh u d.access_codes (fresh u (ground arith)) in
      let is_ok = known u (ground arith) in
      let inserted : insert_code (drawn.id u) sale u (hash (drawn.code u)) d ≡ some d' =
        ground (arith, first, is_ok) in
      let other : (w : ℕ) → contains w us ≡ true → u ≢ w =
        λ w m q. ground (arith, h.0, m, ap (λ v. contains v us) q) in
      let rest =
        draw_rows-new_codes us d' apart h.1 (λ w m. known w (ground arith))
          (λ w m. (
            ((λ q. other w m (apart.ids u w q)), (λ q. other w m (apart.hashes u w q))),
            fresh w (ground arith),
          )) in
      rw (inserted, draw_rows)
        (ap (λ r. (r.0, r.1 + 1, r.2)) rest
          ∙ ap (λ k. (record d' { access_codes = new_codes us d'.access_codes }, k, complete))
              (omega arith))

  find_code-new_codes_more :
      (us : List ℕ) (w k : ℕ) (cs : List AccessCode)
      → is_some (find_code sale w k cs) ≡ true
      → is_some (find_code sale w k (new_codes us cs)) ≡ true
  unfolding new_codes find_code
  find_code-new_codes_more [] w k cs h = h
  find_code-new_codes_more (u ∷ us) w k cs h =
      find_code-new_codes_more us w k (code_of u ∷ cs) (ground (arith, h))

  find_code-new_codes_in :
      (us : List ℕ) (w : ℕ) (cs : List AccessCode)
      → contains w us ≡ true
      → is_some (find_code sale w (hash (drawn.code w)) (new_codes us cs)) ≡ true
  unfolding new_codes find_code
  find_code-new_codes_in [] w cs m = absurd (ground arith)
  find_code-new_codes_in (u ∷ us) w cs m = elim (Bool-cases (u == w)) [
    | inl b ↦
        let q : u ≡ w = ground (arith, b) in
        find_code-new_codes_more us w (hash (drawn.code w)) (code_of u ∷ cs)
          (rw q (simp (==_refl, find_code) refl))
    | inr b ↦ find_code-new_codes_in us w (code_of u ∷ cs) (ground (arith, m, b))
  ]

  find_code-new_codes_out :
      (us : List ℕ) (w k : ℕ) (cs : List AccessCode)
      → contains w us ≡ false
      → find_code sale w k (new_codes us cs) ≡ find_code sale w k cs
  unfolding new_codes find_code
  find_code-new_codes_out [] w k cs m = refl
  find_code-new_codes_out (u ∷ us) w k cs m =
      find_code-new_codes_out us w k (code_of u ∷ cs) (ground arith) ∙ ground (arith, m)

  validate_access_code-find_code :
      (now w code : ℕ) (d : Db)
      → (validate_access_code hash false false now sale w code d).1
        ≡ is_some (find_code sale w (hash code) d.access_codes)
  unfolding validate_access_code
  validate_access_code-find_code now w code d = ground arith

  contains-won :
      (u n : ℕ) (order : List ℕ) → contains u (take n order) ≡ true → contains u order ≡ true
  contains-won u n order m = elim (Bool-cases (contains u order)) [
    | inl b ↦ b
    | inr b ↦ absurd (ground (arith, contains-take u n order b, m))
  ]

  is_known-drawn :
      (u n : ℕ) (order : List ℕ) (d : Db) (s : Sale)
      → find_sale sale d.sales ≡ some s
      → ((u : ℕ) → contains u order ≡ true → contains u d.users ≡ true)
      → contains u (take n order) ≡ true
      → is_known sale u d ≡ true
  is_known-drawn u n order d s row known m = ground (arith, row, known u (contains-won u n order m))

  -- A draw without failures draws as many of the registered users, in the order given, as there are
  -- places. It counts them, opens the presale, gives each of them a code that is accepted for the sale,
  -- and changes nothing for the other users of the sale. The ids and the hashes that are drawn are new
  -- and different, the registered users are known and listed once, and the sale exists.
  pub draw-codes :
      (n : ℕ) (order : List ℕ) (d : Db) (s : Sale)
      → DrawsApart
      → Distinct order
      → ((u : ℕ) → contains u order ≡ true → contains u d.users ≡ true)
      → ((u : ℕ) → IsFresh u d.access_codes)
      → find_sale sale d.sales ≡ some s
      → let (d', count, went_well) =
          draw hash false false drawn (λ u. row_read) sale (pos n) order d in
        (went_well ≡ true)
        × (count ≡ length (take n order))
        × (find_sale sale d'.sales ≡ some (set_phase presale s))
        × ((now u : ℕ)
            → contains u (take n order) ≡ true
            → (validate_access_code hash false false now sale u (drawn.code u) d').1 ≡ true)
        × ((now u code : ℕ)
            → contains u (take n order) ≡ false
            → (validate_access_code hash false false now sale u code d').1
              ≡ (validate_access_code hash false false now sale u code d).1)
  unfolding draw
  draw-codes n order d s apart distinct known fresh row =
      let rows =
        draw_rows-new_codes (take n order) d apart (Distinct-take n order distinct)
          (λ u m. is_known-drawn u n order d s row known m) (λ u m. fresh u) in
      let won = take n order in
      let d' : Db = record d {
        access_codes = new_codes won d.access_codes;
        sales = update_sale (set_phase presale) sale d.sales;
      } in
      rw (ap (end_draw false sale) rows, draw)
        (
          refl,
          refl,
          find_sale-set_phase sale d.sales s row,
          (λ now u m.
              validate_access_code-find_code now u (drawn.code u) d'
              ∙ find_code-new_codes_in won u d.access_codes m),
          (λ now u code m.
              validate_access_code-find_code now u code d'
              ∙ ap is_some (find_code-new_codes_out won u (hash code) d.access_codes m)
              ∙ sym (validate_access_code-find_code now u code d)),
        )
