-- ===== src/Inventory/Interleaved/Exclusive.antt =====
-- Seats and holds while requests and the worker interleave.
use traffic_backend_queue.Common.{
  ◌≢◌, ℕ, ◌+◌, ◌≡◌, ◌≤◌, refl, sym, none, some, List, [], ◌∷◌, arith, All, inl, inr, count,
  get_elem?, ◌⊎◌, zero, Bool, suc, take, select,
}
use mathlib.Core.Path.{subst}
use traffic_backend_queue.Storage.{Hold, Db}
use traffic_backend_queue.Inventory.{
  Faults, hold, hold_new, find_hold, TxFault, fine, begin_fails, commit_fails, is_expired,
}
use traffic_backend_queue.Orders.Checkout.{checkout-db}
use traffic_backend_queue.Inventory.Claims.{
  Inv, holds_exclusive, Committed, hold_tx-outcome, Committed-Inv,
}
use traffic_backend_queue.Inventory.Release.{Rows, release_tx-Inv, release_tx-Rows}
use traffic_backend_queue.Inventory.Expiry.{selected-Rows, found_under}
use traffic_backend_queue.Inventory.Interleaved.{
  Request, hold_of, Pc, reads_key, counts_active, transacts, answered, advance, run_alone, System,
  Step, ticks, arrives, calls, selects, releases, checks_out, Reach, here, next, release_row,
}

-- A request whose calls are not interrupted does what `hold` does: three calls are enough for it to
-- answer, and its answer and the database are those of `hold`.
pub run_alone-hold :
    (f : Faults) (ttl now db_now : ℕ) (r : Request) (d : Db)
    → run_alone f ttl now db_now r 3 reads_key d ≡ (
      (hold f ttl now db_now r.id r.sale r.user r.key r.seat_ids d).0,
      answered (hold f ttl now db_now r.id r.sale r.user r.key r.seat_ids d).1,
    )
unfolding run_alone hold hold_new
run_alone-hold f ttl now db_now r d = ground arith

-- A call leaves the database as it is, or commits the transaction.
pub advance-outcome :
    (f : Faults) (ttl now db_now : ℕ) (r : Request) (pc : Pc) (d : Db)
    → ((advance f ttl now db_now r pc d).0 ≡ d)
      ⊎ ((pc ≡ transacts)
          × Committed f.seat_update (hold_of (now + ttl) r) d (advance f ttl now db_now r pc d).0)
unfolding advance
advance-outcome f ttl now db_now r reads_key d = inl (ground arith)
advance-outcome f ttl now db_now r counts_active d = inl (ground arith)
advance-outcome f ttl now db_now r transacts d =
    elim (hold_tx-outcome f (hold_of (now + ttl) r) d) [ inl e ↦ inl e | inr c ↦ inr (refl, c) ]
advance-outcome f ttl now db_now r (answered a) d = inl refl

rows_fresh :
    (i : ℕ) (hs rows : List Hold)
    → find_hold i hs ≡ none
    → All (λ h. find_hold h.id hs ≡ some h) rows
    → find_hold i rows ≡ none
unfolding find_hold
rows_fresh i hs [] n a = refl
rows_fresh i hs (h ∷ rows) n a = ground (arith, a.0, rows_fresh i hs rows n a.1)

-- The invariant, and the rows that the one worker has still to come to.
abbrev Kept : List Hold → Db → Type 0
Kept rows d = Inv d × Rows rows d

Committed-Kept :
    (fails : ℕ → Bool) (h : Hold) (rows : List Hold) (d d' : Db)
    → Committed fails h d d'
    → Kept rows d
    → Kept rows d'
Committed-Kept fails h rows d d' c (v, (found, u)) =
    let (seats, e, fresh, q) = c in
    (
      Committed-Inv fails h d d' v c,
      (rw q (found_under h d.holds rows (rows_fresh h.id d.holds rows fresh found) found), u),
    )

advance-Kept :
    (f : Faults) (ttl now db_now : ℕ) (r : Request) (pc : Pc) (rows : List Hold) (d : Db)
    → Kept rows d
    → Kept rows (advance f ttl now db_now r pc d).0
advance-Kept f ttl now db_now r pc rows d k = elim (advance-outcome f ttl now db_now r pc d) [
  | inl e ↦ subst (Kept rows) (sym e) k
  | inr (at, c) ↦ Committed-Kept f.seat_update (hold_of (now + ttl) r) rows d _ c k
]

release_row-Kept :
    (fault : TxFault) (h : Hold) (rows : List Hold) (d : Db)
    → Kept (h ∷ rows) d
    → Kept (release_row fault h rows d).1 (release_row fault h rows d).0
unfolding release_row
release_row-Kept fine h rows d (v, r) = (release_tx-Inv h d r.0.0 v, release_tx-Rows h rows d r)
release_row-Kept begin_fails h rows d (v, r) = (v, (tt, tt))
release_row-Kept commit_fails h rows d (v, r) = (v, (r.0.1, r.1.1))

-- One worker, and what it and the database have.
abbrev Single : System → Type 0
Single s = (rows : List Hold) × (s.workers ≡ rows ∷ []) × Kept rows s.db

only_worker :
    (ws : List (List Hold)) (rows left : List Hold) (w : ℕ)
    → ws ≡ rows ∷ []
    → get_elem? ws w ≡ some left
    → (w ≡ 0) × (rows ≡ left)
only_worker ws rows left zero q e = (refl, cc)
only_worker ws rows left (suc w) q e =
    let none_there : get_elem? (rows ∷ []) (suc w) ≡ some left =
      subst (λ x. get_elem? x (suc w) ≡ some left) q e in
    absurd cc

Step-Single : {May : Faults → Type 0} (s t : System) → Step May s t → Single s → Single t
Step-Single s t (ticks later le q) v = subst Single (sym q) v
Step-Single s t (arrives i r x e a q) v = subst Single (sym q) v
Step-Single s t (calls f may ttl now i x e q) (rows, one, k) =
    subst Single (sym q) (rows, one, advance-Kept f ttl now s.clock x.request x.pc rows s.db k)
Step-Single s t (selects w e q) (rows, one, k) =
    let (first, same) = only_worker s.workers rows [] w one e in
    let picked = take 100 (select (is_expired s.clock) s.db.holds) in
    subst Single (sym q)
      (picked, rw (one, first) refl, (k.0, selected-Rows s.clock s.db k.0.unique))
Step-Single s t (releases fault w h left e q) (rows, one, k) =
    let (first, same) = only_worker s.workers rows (h ∷ left) w one e in
    subst Single (sym q) (
      (release_row fault h left s.db).1,
      rw (one, first) refl,
      release_row-Kept fault h left s.db (subst (λ x. Kept x s.db) same k),
    )
Step-Single s t (checks_out f draw owner_hash order sale user key hold_id q) (rows, one, k) =
    let same = checkout-db f draw owner_hash s.clock order sale user key hold_id s.db in
    subst Single (sym q) (rows, one, subst (Kept rows) (sym same) k)

Reach-Single : {May : Faults → Type 0} {s t : System} → Single s → Reach May s t → Single t
Reach-Single v here = v
Reach-Single v (next {t} {u} r st) = Step-Single t u st (Reach-Single v r)

-- However the calls of any number of requests, the transactions of one worker and any checkouts
-- interleave, and whichever of them fail, every seat is listed by the holds once if it is held, and
-- otherwise by none, and the holds have different ids, if it was so when the worker was between two
-- rounds.
pub one_worker-Inv :
    {May : Faults → Type 0} {s t : System}
    → s.workers ≡ [] ∷ []
    → Inv s.db
    → Reach May s t
    → Inv t.db
one_worker-Inv one v r = let (rows, e, k) = Reach-Single ([], one, (v, (tt, tt))) r in k.0

-- However the calls of any number of requests, the transactions of one worker and any checkouts
-- interleave, no seat is in two holds and no hold has a seat twice, if the holds had different ids and
-- every seat was listed by them as often as it was held when the worker was between two rounds.
pub one_worker_exclusive :
    {May : Faults → Type 0} {s t : System} (seat i j : ℕ) (h k : Hold)
    → s.workers ≡ [] ∷ []
    → Inv s.db
    → Reach May s t
    → i ≢ j
    → find_hold i t.db.holds ≡ some h
    → find_hold j t.db.holds ≡ some k
    → count seat h.seat_ids + count seat k.seat_ids ≤ 1
one_worker_exclusive {t} seat i j h k one v r n a b =
    holds_exclusive t.db seat i j h k (one_worker-Inv one v r) n a b
