-- ===== src/Inventory/Interleaved/Active.antt =====
-- How many active holds of a sale interleaved calls of `Hold` can give one user.
use traffic_backend_queue.Common.{
  ap, ℕ, ◌+◌, ◌≡◌, ◌≤◌, refl, sym, ◌∙◌, true, false, ◌&&◌, some, List, [], ◌∷◌, ◌==◌, Bool,
  if◌then◌else◌, arith, All, length, select, Bool-cases, inl, inr, ◌⊎◌, get_elem?, set, total,
  total-set, total-le-length, length-set, ltb,
}
use mathlib.Core.Path.{subst}
use traffic_backend_queue.Storage.{Hold, Db}
use traffic_backend_queue.Inventory.{
  Faults, is_active, active_holds, remove_hold, is_referenced, TxFault, fine, begin_fails,
  commit_fails,
}
use traffic_backend_queue.Orders.Checkout.{checkout-db}
use traffic_backend_queue.Inventory.Claims.{Committed}
use traffic_backend_queue.Inventory.Release.{release_tx-outcome}
use traffic_backend_queue.Inventory.Interleaved.{
  Request, hold_of, Pc, reads_key, counts_active, transacts, answered, advance, Slot, System, after,
  Step, ticks, arrives, calls, selects, releases, checks_out, Reach, here, next, release_row,
}
use traffic_backend_queue.Inventory.Interleaved.Exclusive.{advance-outcome}

-- The query for the active holds is answered.
abbrev pub Counting : Faults → Type 0
Counting f = f.count_query ≡ false

module _ (sale user : ℕ) where
  -- The active holds of the user.
  abbrev pub active_count : ℕ → List Hold → ℕ
  active_count clock hs = length (select (is_active clock sale user) hs)

  active_count-later :
      (now later : ℕ) (hs : List Hold) → now ≤ later → active_count later hs ≤ active_count now hs
  active_count-later now later [] h = omega arith
  active_count-later now later (x ∷ hs) h = ground (arith, active_count-later now later hs h)

  active_count-remove_hold :
      (clock i : ℕ) (hs : List Hold) → active_count clock (remove_hold i hs) ≤ active_count clock hs
  unfolding remove_hold
  active_count-remove_hold clock i [] = omega arith
  active_count-remove_hold clock i (x ∷ hs) = elim (Bool-cases (x.id == i)) [
    | inl hit ↦ ground arith
    | inr miss ↦ ground (arith, active_count-remove_hold clock i hs)
  ]

  active_count-release_row :
      (clock : ℕ) (fault : TxFault) (h : Hold) (rows : List Hold) (d : Db)
      → active_count clock (release_row fault h rows d).0.holds ≤ active_count clock d.holds
  unfolding release_row
  active_count-release_row clock fine h rows d =
      rw (release_tx-outcome h d) (elim (Bool-cases (is_referenced h.id d.orders)) [
        | inl r ↦ rw r (omega arith)
        | inr r ↦ rw r (active_count-remove_hold clock h.id d.holds)
      ])
  active_count-release_row clock begin_fails h rows d = omega arith
  active_count-release_row clock commit_fails h rows d = omega arith

  abbrev is_theirs : Request → Bool
  is_theirs r = r.sale == sale && r.user == user

  -- A request of the user has counted no active hold and has not begun its transaction.
  abbrev waits : Request → Pc → ℕ
  waits r transacts = if is_theirs r then 1 else 0
  waits r _ = 0

  abbrev waiting : Slot → ℕ
  waiting x = waits x.request x.pc

  -- A call makes no more of active holds and waiting requests, or has counted no active hold.
  abbrev Bounded : ℕ → Request → Pc → Db → Db × Pc → Type 0
  Bounded clock r pc d t =
      (active_count clock t.0.holds + waits r t.1 ≤ active_count clock d.holds + waits r pc)
      ⊎ (active_count clock t.0.holds ≡ 0)

  transaction-Bounded :
      (fails : ℕ → Bool) (clock expires_at : ℕ) (r : Request) (d d' : Db)
      → Committed fails (hold_of expires_at r) d d'
      → active_count clock d'.holds ≤ active_count clock d.holds + waits r transacts
  transaction-Bounded fails clock expires_at r d d' (seats, e, fresh, q) = rw q (ground arith)

  counted :
      (f : Faults) (clock : ℕ) (r : Request) (d : Db)
      → Counting f
      → is_theirs r ≡ true
      → active_holds f clock r.sale r.user d ≡ active_count clock d.holds
  unfolding active_holds
  counted f clock r d c theirs =
      let s : r.sale ≡ sale = ground arith in
      let u : r.user ≡ user = ground arith in rw (c, s, u) refl

  counts-Bounded :
      (f : Faults)
      → Counting f
      → (ttl now clock : ℕ) (r : Request) (d : Db)
      → Bounded clock r counts_active d (advance f ttl now clock r counts_active d)
  unfolding advance
  counts-Bounded f c ttl now clock r d =
      elim (Bool-cases (ltb 0 (active_holds f clock r.sale r.user d))) [
        | inl some_active ↦ inl (ground arith)
        | inr none_active ↦ elim (Bool-cases (is_theirs r)) [
          | inl theirs ↦ inr (ground (arith, counted f clock r d c theirs))
          | inr other ↦ inl (ground arith)
        ]
      ]

  advance-Bounded :
      (f : Faults)
      → Counting f
      → (ttl now clock : ℕ) (r : Request) (pc : Pc) (d : Db)
      → Bounded clock r pc d (advance f ttl now clock r pc d)
  unfolding advance
  advance-Bounded f c ttl now clock r reads_key d = inl (ground arith)
  advance-Bounded f c ttl now clock r counts_active d = counts-Bounded f c ttl now clock r d
  advance-Bounded f c ttl now clock r transacts d =
      elim (advance-outcome f ttl now clock r transacts d) [
        | inl same ↦ inl (ground (arith, same))
        | inr (at, done) ↦
            inl (omega (arith, transaction-Bounded f.seat_update clock (now + ttl) r d _ done))
      ]
  advance-Bounded f c ttl now clock r (answered a) d = inl (omega arith)

  record Within (n : ℕ) (s : System) : Type 0 where
    slots : length s.slots ≡ n
    bound : active_count s.clock s.db.holds + total waiting s.slots ≤ n

  waiting-le : (x : Slot) → waiting x ≤ 1
  waiting-le x = waits-le x.request x.pc
    where
      waits-le : (r : Request) (pc : Pc) → waits r pc ≤ 1
      waits-le r transacts = ground arith
      waits-le r _ = omega arith

  after-Within :
      (f : Faults) (ttl now n : ℕ) (s : System) (i : ℕ) (x : Slot)
      → Counting f
      → Within n s
      → get_elem? s.slots i ≡ some x
      → Within n (after f ttl now s i x)
  after-Within f ttl now n s i x c v e =
      let t = advance f ttl now s.clock x.request x.pc s.db in
      let y = record x { pc = t.1 } in
      record {
        slots = length-set s.slots i y ∙ v.slots;
        bound =
            let moved = total-set waiting s.slots i x y e in
            let few = total-le-length waiting (set s.slots i y) waiting-le in
            elim (advance-Bounded f c ttl now s.clock x.request x.pc s.db) [
              | inl le ↦ omega (arith, v.bound, moved, le)
              | inr zero_active ↦ omega (arith, few, zero_active, length-set s.slots i y, v.slots)
            ];
      }

  Step-Within : (n : ℕ) (s t : System) → Step Counting s t → Within n s → Within n t
  Step-Within n s t (ticks later le q) v = subst (Within n) (sym q) (record {
    slots = v.slots;
    bound = omega (arith, v.bound, active_count-later s.clock later s.db.holds le);
  })
  Step-Within n s t (arrives i r x e a q) v =
      let y : Slot = record { request = r; pc = reads_key } in
      subst (Within n) (sym q) (record {
        slots = length-set s.slots i y ∙ v.slots;
        bound = omega (arith, v.bound, total-set waiting s.slots i x y e);
      })
  Step-Within n s t (calls f c ttl now i x e q) v =
      subst (Within n) (sym q) (after-Within f ttl now n s i x c v e)
  Step-Within n s t (selects w e q) v =
      subst (Within n) (sym q) (record { slots = v.slots; bound = v.bound })
  Step-Within n s t (releases fault w h rows e q) v = subst (Within n) (sym q) (record {
    slots = v.slots;
    bound = omega (arith, v.bound, active_count-release_row s.clock fault h rows s.db);
  })
  Step-Within n s t (checks_out f draw owner_hash order sale u key hold_id q) v =
      let same = checkout-db f draw owner_hash s.clock order sale u key hold_id s.db in
      let fewer = ap (λ (d : Db). active_count s.clock d.holds + total waiting s.slots) same in
      subst (Within n) (sym q) (record { slots = v.slots; bound = omega (arith, v.bound, fewer) })

  Reach-Within : (n : ℕ) {s t : System} → Within n s → Reach Counting s t → Within n t
  Reach-Within n v here = v
  Reach-Within n v (next {t} {u} r st) = Step-Within n t u st (Reach-Within n v r)

  -- No request is under way.
  abbrev pub Idle : List Slot → Type 0
  Idle = All λ x. x.pc ≡ reads_key

  Idle-total : (xs : List Slot) → Idle xs → total waiting xs ≡ 0
  Idle-total [] h = refl
  Idle-total (x ∷ xs) h =
      let first : waiting x ≡ 0 = rw (h.0) refl in omega (arith, first, Idle-total xs h.1)

  -- However the calls interleave, as long as the counts of active holds are answered, a user has at
  -- most as many active holds of a sale as requests run at once, if it was so when all requests were
  -- at their start; with one request at a time a user has at most one.
  pub active_holds-Reach :
      {s t : System}
      → Idle s.slots
      → active_count s.clock s.db.holds ≤ length s.slots
      → Reach Counting s t
      → active_count t.clock t.db.holds ≤ length s.slots
  active_holds-Reach {s} idle few r =
      let start : Within (length s.slots) s = record {
        slots = refl;
        bound = omega (arith, few, Idle-total s.slots idle);
      } in
      let v = Reach-Within (length s.slots) start r in omega (arith, v.bound)
