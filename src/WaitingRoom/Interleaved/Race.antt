-- ===== src/WaitingRoom/Interleaved/Race.antt =====
-- What two joins at once can do that two joins one after the other cannot.
use traffic_backend_queue.Common.{
  AllPairs, ℕ, ◌+◌, ◌≡◌, ◌≢◌, ◌<◌, refl, sym, ap, true, false, none, some, [], ◌∷◌, arith, contains,
  ==_refl, get_elem?, set,
}
use mathlib.Core.Path.{subst}
use traffic_backend_queue.Storage.{Sale, Store, find_sale, find_entry}
use traffic_backend_queue.WaitingRoom.{
  ok, no_faults, sale_open_for_queue, insert_entry, take_position, next_position, position_taken,
  can_insert, get_sale, check_capacity,
}
use traffic_backend_queue.WaitingRoom.Entries.{Inv, seq}
use traffic_backend_queue.WaitingRoom.Interleaved.{
  Pc, reads_sale, reads_entry, reads_counter, takes_position, inserts, answered, advance, Slot,
  System, calls, Reach, here, next,
}
use traffic_backend_queue.WaitingRoom.Interleaved.Places.{position_taken-given}
use traffic_backend_queue.AssertQueue.{inversions, rows_of}
use traffic_backend_queue.AssertQueue.Fairness.{inversions-IsFair, IsFair}

-- One more call of a slot, without failures.
call :
    (now d i : ℕ) (x : Slot) {s z : System} (w : Store) (pc : Pc)
    → Reach s z
    → get_elem? z.slots i ≡ some x
    → advance no_faults now d x.sale x.user x.pc z.store ≡ (w, pc)
    → Reach s (record { store = w; slots = set z.slots i (record x { pc = pc }) })
call now d i x {s} {z} w pc r e q = next r (
    calls no_faults now d i x e (
      ap (λ (o : Store × Pc). record { store = o.0; slots = set z.slots i (record x { pc = o.1 }) })
        (sym q)))

-- Two requests for one sale that arrive at once.
abbrev pub two : Store → (sale first second : ℕ) → System
two s sale first second = record {
  store = s;
  slots =
      record { sale = sale; user = first; pc = reads_sale }
      ∷ record { sale = sale; user = second; pc = reads_sale }
      ∷ [];
}

module _ (now t u j a b n : ℕ) (s : Store) (info : Sale) (v : Inv s)
    (row : find_sale j s.db.sales ≡ some info) (is_open : sale_open_for_queue now info ≡ true)
    (ne : a ≢ b) (known_a : contains a s.db.users ≡ true) (known_b : contains b s.db.users ≡ true)
    (new_a : find_entry j a s.db.queue_entries ≡ none)
    (new_b : find_entry j b s.db.queue_entries ≡ none) (counter : s.redis.queue_seq j ≡ some n)
    (room : n < info.waiting_room_cap) where
  finds_sale : (d w : ℕ) → advance no_faults now d j w reads_sale s ≡ (s, reads_entry info)
  unfolding advance get_sale
  finds_sale d w = ground arith

  finds_no_entry :
      (d w : ℕ)
      → find_entry j w s.db.queue_entries ≡ none
      → advance no_faults now d j w (reads_entry info) s ≡ (s, reads_counter info)
  unfolding advance
  finds_no_entry d w h = ground arith

  finds_room : (d w : ℕ) → advance no_faults now d j w (reads_counter info) s ≡ (s, takes_position)
  unfolding advance check_capacity
  finds_room d w = ground arith

  abbrev one_taken : Store
  one_taken = take_position j s

  abbrev both_taken : Store
  both_taken = take_position j one_taken

  abbrev second_in : Store
  second_in = insert_entry t j b (n + 2) both_taken

  abbrev both_in : Store
  both_in = insert_entry u j a (n + 1) second_in

  first_takes :
      (d : ℕ) → advance no_faults now d j a takes_position s ≡ (one_taken, inserts (n + 1))
  unfolding advance next_position
  first_takes d = ground arith

  second_takes :
      (d : ℕ) → advance no_faults now d j b takes_position one_taken ≡ (both_taken, inserts (n + 2))
  unfolding advance next_position take_position
  second_takes d = ground arith

  free : (p : ℕ) → n < p → position_taken j p s.db.queue_entries ≡ false
  free p lt =
      let h = position_taken-given j p s s.db.queue_entries v.in_range in ground (arith, h, counter)

  second_inserts :
      advance no_faults now t j b (inserts (n + 2)) both_taken
      ≡ (second_in, answered (ok (n + 2, true)))
  unfolding advance can_insert take_position
  second_inserts = ground (arith, free (n + 2))

  first_inserts :
      advance no_faults now u j a (inserts (n + 1)) second_in
      ≡ (both_in, answered (ok (n + 1, true)))
  unfolding advance can_insert take_position insert_entry position_taken find_entry
  first_inserts = ground (arith, free (n + 1))

  abbrev first_at : Pc → Slot
  first_at pc = record { sale = j; user = a; pc = pc }

  abbrev second_at : Pc → Slot
  second_at pc = record { sale = j; user = b; pc = pc }

  abbrev final : System
  final = record {
    store = both_in;
    slots = first_at (answered (ok (n + 1, true))) ∷ second_at (answered (ok (n + 2, true))) ∷ [];
  }

  both_look :
      Reach
        (two s j a b)
        (record { store = s; slots = first_at takes_position ∷ second_at takes_position ∷ [] })
  both_look =
      call now t 1 (second_at (reads_counter info)) s takes_position
        (call now t 1 (second_at (reads_entry info)) s (reads_counter info)
          (call now t 1 (second_at reads_sale) s (reads_entry info)
            (call now t 0 (first_at (reads_counter info)) s takes_position
              (call now t 0 (first_at (reads_entry info)) s (reads_counter info)
                (call now t 0 (first_at reads_sale) s (reads_entry info) here refl (finds_sale t a))
                refl (finds_no_entry t a new_a))
              refl (finds_room t a))
            refl (finds_sale t b))
          refl (finds_no_entry t b new_b))
        refl (finds_room t b)

  Reach-final : Reach (two s j a b) final
  Reach-final =
      call now u 0 (first_at (inserts (n + 1))) both_in (answered (ok (n + 1, true)))
        (call now t 1 (second_at (inserts (n + 2))) second_in (answered (ok (n + 2, true)))
          (call now t 1 (second_at takes_position) both_taken (inserts (n + 2))
            (call now t 0 (first_at takes_position) one_taken (inserts (n + 1)) both_look refl
              (first_takes t))
            refl (second_takes t))
          refl second_inserts)
        refl first_inserts

  final-seq : seq both_in j ≡ n + 2
  unfolding insert_entry take_position next_position
  final-seq = ground arith

  final-rows :
      rows_of j both_in.db.queue_entries
      ≡ record { position = n + 1; joined = u; user_id = a }
        ∷ record { position = n + 2; joined = t; user_id = b }
        ∷ rows_of j s.db.queue_entries
  unfolding rows_of insert_entry take_position
  final-rows = rw (==_refl j) refl

  final-inversions : t < u → inversions (rows_of j both_in.db.queue_entries) ≢ 0
  final-inversions lt h =
      let pairs =
        subst (AllPairs IsFair) final-rows
          (inversions-IsFair (rows_of j both_in.db.queue_entries) h) in
      omega (arith, pairs.1.0.0 lt)

  -- Two users who are known and not in the queue, and who join an open sale at once while its counter
  -- is below the capacity, can both pass the check before either takes a position: both are answered
  -- as new, also where there was room for one, and the counter ends two higher. The one with the
  -- smaller position may be inserted later, and then the check of cmd/assert-queue reports an
  -- inversion.
  pub two_joins_race :
      t < u
      → (z : System) × Reach (two s j a b) z
        × (z.slots
            ≡ first_at (answered (ok (n + 1, true))) ∷ second_at (answered (ok (n + 2, true))) ∷ [])
        × (seq z.store j ≡ n + 2)
        × (inversions (rows_of j z.store.db.queue_entries) ≢ 0)
  two_joins_race lt = (final, Reach-final, refl, final-seq, final-inversions lt)
