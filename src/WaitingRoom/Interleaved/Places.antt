-- ===== src/WaitingRoom/Interleaved/Places.antt =====
-- Positions under interleaved joins: none is given twice, and every answer is true of the table.
use traffic_backend_queue.Common.{
  ℕ, ◌≡◌, ◌≤◌, ◌<◌, refl, sym, Bool, false, some, List, [], ◌∷◌, if◌then◌else◌, arith, All, All-map,
  ap, All-set, get_elem?, get_elem?-All, le-total, total, total-set,
}
use mathlib.Core.Path.{subst}
use traffic_backend_queue.Storage.{QueueEntry, Store}
use traffic_backend_queue.WaitingRoom.{
  ok, Faults, position_taken, update_admitted, advance_admission,
}
use traffic_backend_queue.WaitingRoom.Entries.{Inv, seq, InRange, position_taken-mark_admitted}
use traffic_backend_queue.WaitingRoom.History.{
  HasPlace, update_admitted-Inv, update_admitted-HasPlace,
}
use traffic_backend_queue.WaitingRoom.Interleaved.{
  reads_sale, inserts, answered, advance, Slot, System, Step, arrives, calls, polls, advances,
  Reach, here, next, after,
}
use traffic_backend_queue.WaitingRoom.Interleaved.Calls.{
  Good, advance-Keeps, carried, given, IsTrue,
}

carried_given :
    (s : System) (i : ℕ) (x : Slot) (q : ℕ)
    → Good s
    → get_elem? s.slots i ≡ some x
    → x.pc ≡ inserts q
    → (0 < q) × (q ≤ seq s.store x.sale)
carried_given s i x q v e h =
    let some_use = le-total (carried x.sale q) s.slots i x e in
    let bound = v.once x.sale q in
    let mine : carried x.sale q x ≡ 1 = rw h (ground arith) in ground (arith, some_use, bound, mine)

after-Good :
    (f : Faults) (now db_now : ℕ) (s : System) (i : ℕ) (x : Slot)
    → Good s
    → get_elem? s.slots i ≡ some x
    → Good (after f now db_now s i x)
after-Good f now db_now s i x v e =
    let (table, count, stays, tells) =
      advance-Keeps f now db_now x.sale x.user s.store v.table x.pc (λ q. carried_given s i x q v e)
        (get_elem?-All (IsTrue s.store) s.slots i x v.answers e) in
    let r = advance f now db_now x.sale x.user x.pc s.store in
    record {
      table = table;
      once = λ sale p. omega (
        arith,
        v.once sale p,
        count sale p,
        total-set (carried sale p) s.slots i x (record x { pc = r.1 }) e,
      );
      answers =
          All-set (IsTrue r.0) s.slots i (record x { pc = r.1 })
            (All-map (IsTrue s.store) (IsTrue r.0) s.slots
              (λ y t p b h. stays y.sale y.user p (t p b h)) v.answers)
            tells;
    }

Step-Good : (s t : System) → Step s t → Good s → Good t
unfolding advance_admission
Step-Good s t (calls f now db_now i x e q) v =
    subst Good (sym q) (after-Good f now db_now s i x v e)
Step-Good s t (arrives i sale user x e a q) v =
    let y : Slot = record { sale = sale; user = user; pc = reads_sale } in
    subst Good (sym q) (record {
      table = v.table;
      once = λ j p. omega (arith, v.once j p, total-set (carried j p) s.slots i x y e);
      answers = All-set (IsTrue s.store) s.slots i y v.answers (λ p b h. cc);
    })
Step-Good s t (polls db_now sale user q) v = subst Good (sym q) (record {
  table = update_admitted-Inv db_now sale user s.store v.table;
  once = λ j p. omega (
    arith,
    v.once j p,
    ap {B = ℕ} (λ (b : Bool). if b then 1 else 0)
        (position_taken-mark_admitted db_now sale user j p s.store.db.queue_entries),
  );
  answers =
      All-map (IsTrue s.store) (IsTrue (update_admitted db_now sale user s.store)) s.slots
        (λ y g p b h. update_admitted-HasPlace db_now sale user y.sale y.user p s.store (g p b h))
        v.answers;
})
Step-Good s t (advances sale n q) v = subst Good (sym q) (record {
  table = record { in_range = v.table.in_range; distinct = v.table.distinct };
  once = v.once;
  answers = v.answers;
})

Reach-Good : {s t : System} → Good s → Reach s t → Good t
Reach-Good v here = v
Reach-Good v (next {t} {u} r st) = Step-Good t u st (Reach-Good v r)

-- Each slot has just taken a request.
abbrev pub Fresh : List Slot → Type 0
Fresh = All λ x. x.pc ≡ reads_sale

pub position_taken-given :
    (sale p : ℕ) (s : Store) (es : List QueueEntry)
    → InRange s es
    → (if position_taken sale p es then 1 else 0) ≤ given sale p s
unfolding position_taken
position_taken-given sale p s [] h = omega arith
position_taken-given sale p s (e ∷ es) h =
    let rest = position_taken-given sale p s es h.1 in ground (arith, rest, h.0)

Fresh-total : (sale p : ℕ) (xs : List Slot) → Fresh xs → total (carried sale p) xs ≡ 0
Fresh-total sale p [] h = refl
Fresh-total sale p (x ∷ xs) h =
    let first : carried sale p x ≡ 0 = rw (h.0) refl in
    omega (arith, first, Fresh-total sale p xs h.1)

Fresh-Good : (s : System) → Inv s.store → Fresh s.slots → Good s
Fresh-Good s v h = record {
  table = v;
  once = λ sale p. omega (
    arith,
    Fresh-total sale p s.slots h,
    position_taken-given sale p s.store s.store.db.queue_entries v.in_range,
  );
  answers =
      All-map (λ x. x.pc ≡ reads_sale) (IsTrue s.store) s.slots (λ x q p b a. absurd (ground arith))
        h;
}

-- From a queue in which it holds, and however the calls of any number of joins then interleave, with
-- polls, moves of the window and failures between them: no two entries of a sale share a user or a
-- position, and every position lies between 1 and the counter.
pub Reach-Inv : {s t : System} → Inv s.store → Fresh s.slots → Reach s t → Inv t.store
Reach-Inv {s} {t} v fresh r = (Reach-Good (Fresh-Good s v fresh) r).table

-- From a queue in which the invariant holds, and however the calls then interleave, the position that
-- a request is about to insert is not in the table: an INSERT is never refused for its position.
pub Reach-position_free :
    {s t : System}
    → Inv s.store
    → Fresh s.slots
    → Reach s t
    → (i : ℕ) (x : Slot) (p : ℕ) → get_elem? t.slots i ≡ some x
    → x.pc ≡ inserts p
    → position_taken x.sale p t.store.db.queue_entries ≡ false
Reach-position_free {s} {t} v fresh r i x p e h =
    let good = Reach-Good (Fresh-Good s v fresh) r in
    let some_use = le-total (carried x.sale p) t.slots i x e in
    let bound = good.once x.sale p in
    let mine : carried x.sale p x ≡ 1 = rw h (ground arith) in ground (arith, some_use, bound, mine)

-- From a queue in which the invariant holds, and however the calls then interleave, a request that was
-- answered with a position has that position in the table: a join that lost a race for its user
-- reports the place that the other one took.
pub Reach-HasPlace :
    {s t : System}
    → Inv s.store
    → Fresh s.slots
    → Reach s t
    → (i : ℕ) (x : Slot) (p : ℕ) (b : Bool) → get_elem? t.slots i ≡ some x
    → x.pc ≡ answered (ok (p, b))
    → HasPlace x.sale x.user p t.store
Reach-HasPlace {s} {t} v fresh r i x p b e h =
    let good = Reach-Good (Fresh-Good s v fresh) r in
    get_elem?-All (IsTrue t.store) t.slots i x good.answers e p b h
