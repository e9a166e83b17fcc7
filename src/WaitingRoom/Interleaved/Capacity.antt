-- ===== src/WaitingRoom/Interleaved/Capacity.antt =====
-- By how much interleaved joins can pass the capacity of the waiting room.
use traffic_backend_queue.Common.{
  ℕ, ◌+◌, ◌≡◌, ◌≤◌, ◌<◌, refl, sym, ◌∙◌, ap, false, none, some, List, [], ◌∷◌, ◌==◌, if◌then◌else◌,
  arith, All, All-map, length, Option-cases, Bool-cases, inl, inr, ◌⊎◌, All-set, get_elem?,
  get_elem?-All, length-set, set, total, total-le-length, total-set,
}
use mathlib.Core.Path.{subst}
use traffic_backend_queue.Storage.{Sale, Store, find_sale, find_entry}
use traffic_backend_queue.WaitingRoom.{
  ok, err, query_failed, insert_failed, sale_not_open, Faults, get_sale, sale_open_for_queue,
  check_capacity, can_insert, insert_entry, take_position, advance_admission,
}
use traffic_backend_queue.WaitingRoom.Entries.{seq}
use traffic_backend_queue.WaitingRoom.Interleaved.{
  Pc, reads_sale, reads_entry, reads_counter, takes_position, inserts, reads_again, answered,
  advance, Slot, System, Step, arrives, calls, polls, advances, Reach, here, next, after,
}
use traffic_backend_queue.WaitingRoom.Interleaved.Alone.{Result-cases}
use traffic_backend_queue.WaitingRoom.Interleaved.Places.{Fresh}

-- The request has found room in this sale, and has not taken its position yet.
abbrev waits : ℕ → Pc → ℕ → ℕ
waits sale takes_position j = if j == sale then 1 else 0
waits sale _ j = 0

abbrev pub waiting : ℕ → Slot → ℕ
waiting sale x = waits sale x.pc x.sale

-- The row that a request of the sale has read is the row of the sale.
abbrev HasRead : ℕ → Sale → ℕ → Pc → Type 0
HasRead sale info j (reads_entry i) = j ≡ sale → i ≡ info
HasRead sale info j (reads_counter i) = j ≡ sale → i ≡ info
HasRead sale info j _ = Unit

module _ (sale : ℕ) (info : Sale) (positive : 0 < info.waiting_room_cap) where
  -- A call takes no more than it leaves, or has found the counter below the capacity.
  abbrev Bounded : ℕ → Pc → Store → Store × Pc → Type 0
  Bounded j pc s r =
      (r.0.db.sales ≡ s.db.sales)
      × HasRead sale info j r.1
      × ((seq r.0 sale + waits sale r.1 j ≤ seq s sale + waits sale pc j)
          ⊎ ((seq r.0 sale + 1 ≤ info.waiting_room_cap)
              × (waits sale r.1 j ≤ 1)
              × (waits sale pc j ≡ 0)))

  module _ (f : Faults) (now db_now j u : ℕ) (s : Store)
      (row : find_sale sale s.db.sales ≡ some info) where
    settled :
        (pc pc' : Pc) → HasRead sale info j pc' → waits sale pc' j ≡ 0 → Bounded j pc s (s, pc')
    settled pc pc' h w = (refl, h, inl (omega (arith, w)))

    get_sale-row : (i : Sale) → get_sale f j s ≡ ok i → j ≡ sale → i ≡ info
    unfolding get_sale
    get_sale-row i h e = ground arith

    reads_sale-Bounded : Bounded j reads_sale s (advance f now db_now j u reads_sale s)
    unfolding advance
    reads_sale-Bounded = elim (Result-cases (get_sale f j s)) [
      | inl (e, q) ↦ rw (q, advance) (settled reads_sale (answered (err e)) tt refl)
      | inr (i, q) ↦ elim (Bool-cases (sale_open_for_queue now i)) [
        | inl o ↦ rw (q, o, advance) (settled reads_sale (reads_entry i) (get_sale-row i q) refl)
        | inr o ↦ rw (q, o, advance) (settled reads_sale (answered (err sale_not_open)) tt refl)
      ]
    ]

    reads_entry-Bounded :
        (i : Sale)
        → (j ≡ sale → i ≡ info)
        → Bounded j (reads_entry i) s (advance f now db_now j u (reads_entry i) s)
    unfolding advance
    reads_entry-Bounded i same = elim (Bool-cases f.entry_query) [
      | inl b ↦ rw (b, advance) (settled (reads_entry i) (answered (err query_failed)) tt refl)
      | inr b ↦ elim (Option-cases (find_entry j u s.db.queue_entries)) [
        | inl q ↦ rw (b, q, advance) (settled (reads_entry i) (reads_counter i) same refl)
        | inr (e, q) ↦
            rw (b, q, advance) (settled (reads_entry i) (answered (ok (e.position, false))) tt refl)
      ]
    ]

    has_room :
        (i : Sale)
        → (j ≡ sale → i ≡ info)
        → check_capacity f i j s ≡ none
        → j ≡ sale
        → seq s sale + 1 ≤ info.waiting_room_cap
    unfolding check_capacity
    has_room i same h e = let q = same e in ground arith

    reads_counter-Bounded :
        (i : Sale)
        → (j ≡ sale → i ≡ info)
        → Bounded j (reads_counter i) s (advance f now db_now j u (reads_counter i) s)
    unfolding advance
    reads_counter-Bounded i same = elim (Option-cases (check_capacity f i j s)) [
      | inr (r, q) ↦ rw (q, advance) (settled (reads_counter i) (answered r) tt refl)
      | inl q ↦ elim (Bool-cases (j == sale)) [
        | inl e ↦
            rw (q, advance)
              ((refl, tt, inr ((has_room i same q (ground arith), ground arith, refl))))
        | inr e ↦ rw (q, advance) ((refl, tt, inl (ground arith)))
      ]
    ]

    takes_position-Bounded : Bounded j takes_position s (advance f now db_now j u takes_position s)
    unfolding advance take_position
    takes_position-Bounded = elim (Bool-cases f.redis_incr) [
      | inl b ↦ rw (b, advance) ((refl, tt, inl (ground arith)))
      | inr b ↦ rw (b, advance) ((refl, tt, inl (ground arith)))
    ]

    inserts-Bounded : (p : ℕ) → Bounded j (inserts p) s (advance f now db_now j u (inserts p) s)
    unfolding advance insert_entry
    inserts-Bounded p = elim (Bool-cases (can_insert f j u p s)) [
      | inl b ↦ rw (b, advance) ((refl, tt, inl (omega arith)))
      | inr b ↦ rw (b, advance) ((refl, tt, inl (omega arith)))
    ]

    reads_again-Bounded : Bounded j reads_again s (advance f now db_now j u reads_again s)
    unfolding advance
    reads_again-Bounded = elim (Bool-cases f.retry_query) [
      | inl b ↦ rw (b, advance) (settled reads_again (answered (err insert_failed)) tt refl)
      | inr b ↦ elim (Option-cases (find_entry j u s.db.queue_entries)) [
        | inl q ↦ rw (b, q, advance) (settled reads_again (answered (err insert_failed)) tt refl)
        | inr (e, q) ↦
            rw (b, q, advance) (settled reads_again (answered (ok (e.position, false))) tt refl)
      ]
    ]

    advance-Bounded :
        (pc : Pc) → HasRead sale info j pc → Bounded j pc s (advance f now db_now j u pc s)
    unfolding advance
    advance-Bounded reads_sale h = reads_sale-Bounded
    advance-Bounded (reads_entry i) h = reads_entry-Bounded i h
    advance-Bounded (reads_counter i) h = reads_counter-Bounded i h
    advance-Bounded takes_position h = takes_position-Bounded
    advance-Bounded (inserts p) h = inserts-Bounded p
    advance-Bounded reads_again h = reads_again-Bounded
    advance-Bounded (answered r) h = settled (answered r) (answered r) tt refl

  record Within (n : ℕ) (s : System) : Type 0 where
    row : find_sale sale s.store.db.sales ≡ some info
    slots : length s.slots ≡ n
    has_read : All (λ x. HasRead sale info x.sale x.pc) s.slots
    bound : seq s.store sale + total (waiting sale) s.slots + 1 ≤ info.waiting_room_cap + n

  waiting-le : (x : Slot) → waiting sale x ≤ 1
  waiting-le x = waits-le x.pc x.sale
    where
      waits-le : (pc : Pc) (j : ℕ) → waits sale pc j ≤ 1
      waits-le takes_position j = ground arith
      waits-le _ j = omega arith

  after-Within :
      (f : Faults) (now db_now n : ℕ) (s : System) (i : ℕ) (x : Slot)
      → Within n s
      → get_elem? s.slots i ≡ some x
      → Within n (after f now db_now s i x)
  after-Within f now db_now n s i x v e =
      let (sales, read, bound) =
        advance-Bounded f now db_now x.sale x.user s.store v.row x.pc
          (get_elem?-All (λ y. HasRead sale info y.sale y.pc) s.slots i x v.has_read e) in
      let r = advance f now db_now x.sale x.user x.pc s.store in
      let y = record x { pc = r.1 } in
      record {
        row = ap (find_sale sale) sales ∙ v.row;
        slots = length-set s.slots i y ∙ v.slots;
        has_read = All-set (λ z. HasRead sale info z.sale z.pc) s.slots i y v.has_read read;
        bound =
            let moved = total-set (waiting sale) s.slots i x y e in
            let few = total-le-length (waiting sale) (set s.slots i y) waiting-le in
            elim bound [
              | inl le ↦ omega (arith, v.bound, moved, le)
              | inr (le, one, zero_before) ↦ omega (arith, few, le, length-set s.slots i y, v.slots)
            ];
      }

  Step-Within : (n : ℕ) (s t : System) → Step s t → Within n s → Within n t
  unfolding advance_admission
  Step-Within n s t (calls f now db_now i x e q) v =
      subst (Within n) (sym q) (after-Within f now db_now n s i x v e)
  Step-Within n s t (arrives i j u x e a q) v =
      let y : Slot = record { sale = j; user = u; pc = reads_sale } in
      subst (Within n) (sym q) (record {
        row = v.row;
        slots = length-set s.slots i y ∙ v.slots;
        has_read = All-set (λ z. HasRead sale info z.sale z.pc) s.slots i y v.has_read tt;
        bound = omega (arith, v.bound, total-set (waiting sale) s.slots i x y e);
      })
  Step-Within n s t (polls db_now j u q) v =
      subst (Within n) (sym q)
        (record { row = v.row; slots = v.slots; has_read = v.has_read; bound = v.bound })
  Step-Within n s t (advances j m q) v =
      subst (Within n) (sym q)
        (record { row = v.row; slots = v.slots; has_read = v.has_read; bound = v.bound })

  Reach-Within : (n : ℕ) {s t : System} → Within n s → Reach s t → Within n t
  Reach-Within n v here = v
  Reach-Within n v (next {t} {u} r st) = Step-Within n t u st (Reach-Within n v r)

  Fresh-Within :
      (s : System)
      → find_sale sale s.store.db.sales ≡ some info
      → Fresh s.slots
      → seq s.store sale < info.waiting_room_cap + length s.slots
      → Within (length s.slots) s
  Fresh-Within s row fresh room = record {
    row = row;
    slots = refl;
    has_read =
        All-map (λ x. x.pc ≡ reads_sale) (λ x. HasRead sale info x.sale x.pc) s.slots
          (λ x e. subst (HasRead sale info x.sale) (sym e) tt) fresh;
    bound = omega (arith, room, Fresh-total s.slots fresh);
  }
    where
      Fresh-total : (xs : List Slot) → Fresh xs → total (waiting sale) xs ≡ 0
      Fresh-total [] h = refl
      Fresh-total (x ∷ xs) h =
          let first : waiting sale x ≡ 0 = rw (h.0) refl in omega (arith, first, Fresh-total xs h.1)

  -- However the joins interleave, the counter of a sale whose waiting room has a capacity passes it by
  -- less than the number of requests that run at once, if it did so at the start; with one request at
  -- a time it does not pass it.
  pub Reach-capacity :
      {s t : System}
      → find_sale sale s.store.db.sales ≡ some info
      → Fresh s.slots
      → seq s.store sale < info.waiting_room_cap + length s.slots
      → Reach s t
      → seq t.store sale < info.waiting_room_cap + length s.slots
  Reach-capacity {s} row fresh room r =
      let v = Reach-Within (length s.slots) (Fresh-Within s row fresh room) r in
      omega (arith, v.bound)
