-- ===== src/WaitingRoom/Interleaved/Calls.antt =====
-- What one call of a join keeps of the positions that are in the table or on their way there.
use traffic_backend_queue.Common.{
  ℕ, ◌+◌, ◌≡◌, ◌≤◌, ◌<◌, refl, Bool, true, false, ◌&&◌, none, some, ◌==◌, if◌then◌else◌, leb, arith,
  All, Option-cases, Bool-cases, inl, inr, ap, total,
}
use traffic_backend_queue.Storage.{Sale, QueueEntry, Store, find_entry}
use traffic_backend_queue.WaitingRoom.{
  Error, Result, ok, err, query_failed, redis_failed, insert_failed, sale_not_open,
  waiting_room_full, sale_open_for_queue, Faults, can_insert, insert_entry, take_position,
  next_position, position_taken, check_capacity, get_sale,
}
use traffic_backend_queue.WaitingRoom.Entries.{Inv, seq, find_entry-insert_entry}
use traffic_backend_queue.WaitingRoom.Steps.{take_position-Inv}
use traffic_backend_queue.WaitingRoom.History.{HasPlace}
use traffic_backend_queue.WaitingRoom.Interleaved.{
  Pc, reads_sale, reads_entry, reads_counter, takes_position, inserts, reads_again, answered,
  advance, Slot, System,
}
use traffic_backend_queue.WaitingRoom.Interleaved.Alone.{Result-cases}

-- The slot is about to insert this position of the sale.
abbrev pub carries : ℕ → ℕ → Pc → ℕ → ℕ
carries sale p (inserts q) j = if j == sale && q == p then 1 else 0
carries sale p _ j = 0

abbrev pub carried : ℕ → ℕ → Slot → ℕ
carried sale p x = carries sale p x.pc x.sale

-- How often a position of a sale is in the table or on its way there.
abbrev pub uses : ℕ → ℕ → System → ℕ
uses sale p s =
    total (carried sale p) s.slots
    + (if position_taken sale p s.store.db.queue_entries then 1 else 0)

-- The counter has given the position.
abbrev pub given_by : ℕ → ℕ → ℕ
given_by p n = if leb 1 p && leb p n then 1 else 0

abbrev pub given : ℕ → ℕ → Store → ℕ
given sale p s = given_by p (seq s sale)

-- An answer with a position is true of the table.
abbrev pub IsTrue : Store → Slot → Type 0
IsTrue s x = (p : ℕ) (b : Bool) → x.pc ≡ answered (ok (p, b)) → HasPlace x.sale x.user p s

pub record Good (s : System) : Type 0 where
  pub table : Inv s.store
  pub once : (sale p : ℕ) → uses sale p s ≤ given sale p s.store
  pub answers : All (IsTrue s.store) s.slots

abbrev pub taken : ℕ → ℕ → Store → ℕ
taken sale p s = if position_taken sale p s.db.queue_entries then 1 else 0

-- What an answer says is true.
abbrev pub Tells : ℕ → ℕ → Store → Pc → Type 0
Tells j u s pc = (p : ℕ) (b : Bool) → pc ≡ answered (ok (p, b)) → HasPlace j u p s

-- What a call of one request keeps of the invariant.
abbrev pub Keeps : ℕ → ℕ → Pc → Store → Store × Pc → Type 0
Keeps j u pc s r =
    Inv r.0
    × ((sale p : ℕ)
        → carries sale p r.1 j + taken sale p r.0 + given sale p s
          ≤ carries sale p pc j + taken sale p s + given sale p r.0)
    × ((k v p : ℕ) → HasPlace k v p s → HasPlace k v p r.0)
    × Tells j u r.0 r.1

module _ (f : Faults) (now db_now j u : ℕ) (s : Store) (v : Inv s) where
  -- A call that leaves the store alone and carries no position away.
  quiet :
      (pc pc' : Pc)
      → ((sale p : ℕ) → carries sale p pc' j ≡ 0)
      → Tells j u s pc'
      → Keeps j u pc s (s, pc')
  quiet pc pc' none_carried tells =
      (v, (λ sale p. omega (arith, none_carried sale p)), (λ k w p h. h), tells)

  reads_sale-Keeps : Keeps j u reads_sale s (advance f now db_now j u reads_sale s)
  unfolding advance
  reads_sale-Keeps = elim (Result-cases (get_sale f j s)) [
    | inl (e, q) ↦
        rw (q, advance) (quiet reads_sale (answered (err e)) (λ sale p. refl) (λ p b h. cc))
    | inr (info, q) ↦ elim (Bool-cases (sale_open_for_queue now info)) [
      | inl o ↦
          rw (q, o, advance) (quiet reads_sale (reads_entry info) (λ sale p. refl) (λ p b h. cc))
      | inr o ↦
          rw (q, o, advance)
            (quiet reads_sale (answered (err sale_not_open)) (λ sale p. refl) (λ p b h. cc))
    ]
  ]

  -- The answer that an entry gives.
  found-Tells :
      (e : QueueEntry)
      → find_entry j u s.db.queue_entries ≡ some e
      → Tells j u s (answered (ok (e.position, false)))
  found-Tells e q p b h = (e, q, ground arith)

  reads_entry-Keeps :
      (info : Sale) → Keeps j u (reads_entry info) s (advance f now db_now j u (reads_entry info) s)
  unfolding advance
  reads_entry-Keeps info = elim (Bool-cases f.entry_query) [
    | inl b ↦
        rw (b, advance)
          (quiet (reads_entry info) (answered (err query_failed)) (λ sale p. refl) (λ p b h. cc))
    | inr b ↦ elim (Option-cases (find_entry j u s.db.queue_entries)) [
      | inl q ↦
          rw (b, q, advance)
            (quiet (reads_entry info) (reads_counter info) (λ sale p. refl) (λ p b h. cc))
      | inr (e, q) ↦
          rw (b, q, advance)
            (quiet (reads_entry info) (answered (ok (e.position, false))) (λ sale p. refl)
              (found-Tells e q))
    ]
  ]

  reads_again-Keeps : Keeps j u reads_again s (advance f now db_now j u reads_again s)
  unfolding advance
  reads_again-Keeps = elim (Bool-cases f.retry_query) [
    | inl b ↦
        rw (b, advance)
          (quiet reads_again (answered (err insert_failed)) (λ sale p. refl) (λ p b h. cc))
    | inr b ↦ elim (Option-cases (find_entry j u s.db.queue_entries)) [
      | inl q ↦
          rw (b, q, advance)
            (quiet reads_again (answered (err insert_failed)) (λ sale p. refl) (λ p b h. cc))
      | inr (e, q) ↦
          rw (b, q, advance)
            (quiet reads_again (answered (ok (e.position, false))) (λ sale p. refl)
              (found-Tells e q))
    ]
  ]

  check_capacity_err :
      (info : Sale) (r : Result (ℕ × Bool))
      → check_capacity f info j s ≡ some r
      → (e : Error) × (r ≡ err e)
  unfolding check_capacity
  check_capacity_err info r h = elim (Bool-cases f.redis_get) [
    | inl b ↦ (redis_failed, ground arith)
    | inr b ↦ (waiting_room_full, ground arith)
  ]

  reads_counter-Keeps :
      (info : Sale)
      → Keeps j u (reads_counter info) s (advance f now db_now j u (reads_counter info) s)
  unfolding advance
  reads_counter-Keeps info = elim (Option-cases (check_capacity f info j s)) [
    | inl q ↦
        rw (q, advance) (quiet (reads_counter info) takes_position (λ sale p. refl) (λ p b h. cc))
    | inr (r, q) ↦
        let (e, w) = check_capacity_err info r q in
        rw (q, advance) (quiet (reads_counter info) (answered r) (λ sale p. refl) (λ p b h. cc))
  ]

  takes_position-Keeps : Keeps j u takes_position s (advance f now db_now j u takes_position s)
  unfolding advance take_position next_position
  takes_position-Keeps = elim (Bool-cases f.redis_incr) [
    | inl b ↦
        rw (b, advance)
          (quiet takes_position (answered (err redis_failed)) (λ sale p. refl) (λ p b h. cc))
    | inr b ↦
        rw (b, advance)
          ((take_position-Inv j s v, (λ sale p. ground arith), (λ k w p h. h), (λ p b h. cc)))
  ]

  insert_entry-HasPlace :
      (q k w p : ℕ)
      → can_insert f j u q s ≡ true
      → HasPlace k w p s
      → HasPlace k w p (insert_entry db_now j u q s)
  unfolding can_insert
  insert_entry-HasPlace q k w p c (e, h, r) =
      (e, ground (arith, find_entry-insert_entry db_now j u q k w s), r)

  insert_entry_place : (q p : ℕ) → q ≡ p → HasPlace j u p (insert_entry db_now j u q s)
  insert_entry_place q p same = (
    record { sale_id = j; user_id = u; position = q; joined_at = db_now; admitted_at = none },
    ground (arith, find_entry-insert_entry db_now j u q j u s),
    same,
  )

  insert_entry-taken :
      (q sale p : ℕ)
      → can_insert f j u q s ≡ true
      → taken sale p (insert_entry db_now j u q s) ≡ carries sale p (inserts q) j + taken sale p s
  unfolding can_insert insert_entry position_taken
  insert_entry-taken q sale p c = ground arith

  insert_entry-seq : (q k : ℕ) → seq (insert_entry db_now j u q s) k ≡ seq s k
  unfolding insert_entry
  insert_entry-seq q k = refl

  insert_entry-range :
      (p : ℕ)
      → 0 < p
      → p ≤ seq s j
      → can_insert f j u p s ≡ true
      → Inv (insert_entry db_now j u p s)
  unfolding insert_entry can_insert
  insert_entry-range p pos le h = record {
    in_range = ground (arith, v.in_range);
    distinct = ground (arith, v.distinct);
  }

  inserts-Keeps :
      (q : ℕ)
      → 0 < q
      → q ≤ seq s j
      → Keeps j u (inserts q) s (advance f now db_now j u (inserts q) s)
  unfolding advance
  inserts-Keeps q pos le = elim (Bool-cases (can_insert f j u q s)) [
    | inr b ↦ rw (b, advance) (quiet (inserts q) reads_again (λ sale p. refl) (λ p b h. cc))
    | inl b ↦
        rw (b, advance)
          ((
            insert_entry-range q pos le b,
            (λ sale p.
                omega (
                  arith,
                  insert_entry-taken q sale p b,
                  ap (given_by p) (insert_entry-seq q sale),
                )),
            (λ k w p h. insert_entry-HasPlace q k w p b h),
            (λ p c h. insert_entry_place q p (ground arith)),
          ))
  ]

  -- One call of a request in any state keeps the invariant, if a position that it carries was given.
  pub advance-Keeps :
      (pc : Pc)
      → ((q : ℕ) → pc ≡ inserts q → (0 < q) × (q ≤ seq s j))
      → Tells j u s pc
      → Keeps j u pc s (advance f now db_now j u pc s)
  unfolding advance
  advance-Keeps reads_sale g t = reads_sale-Keeps
  advance-Keeps (reads_entry info) g t = reads_entry-Keeps info
  advance-Keeps (reads_counter info) g t = reads_counter-Keeps info
  advance-Keeps takes_position g t = takes_position-Keeps
  advance-Keeps (inserts q) g t = let (pos, le) = g q refl in inserts-Keeps q pos le
  advance-Keeps reads_again g t = reads_again-Keeps
  advance-Keeps (answered r) g t = quiet (answered r) (answered r) (λ sale p. refl) t
