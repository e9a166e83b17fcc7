-- ===== src/WaitingRoom/Fairness.antt =====
-- That the waiting room of internal/waitingroom/service.go passes the check of cmd/assert-queue.
use traffic_backend_queue.Common.{
  AllPairs, AllPairs-cons, ℕ, ◌≡◌, ◌≤◌, ◌<◌, refl, sym, List, [], ◌∷◌, ◌==◌, arith, All, All-map,
  Bool-cases, inl, inr,
}
use mathlib.Core.Path.{subst}
use traffic_backend_queue.Storage.{QueueEntry, Store}
use traffic_backend_queue.Auth.{Jwt}
use traffic_backend_queue.WaitingRoom.{
  insert_entry, take_position, mark_admitted, advance_admission,
}
use traffic_backend_queue.WaitingRoom.Entries.{Inv}
use traffic_backend_queue.WaitingRoom.Join.{Behind, InRange-Behind}
use traffic_backend_queue.WaitingRoom.History.{
  Call, joins, polls, advances, join_keeps, status_keeps, step, run, step-Inv,
}
use traffic_backend_queue.AssertQueue.{Row, row_of, inversions, rows_of}
use traffic_backend_queue.AssertQueue.Fairness.{IsOrdered, IsOrdered-inversions}

rows_of-All :
    (P : Row → Type 0) (sale : ℕ) (es : List QueueEntry)
    → All (λ e. e.sale_id ≡ sale → P (row_of e)) es
    → All P (rows_of sale es)
unfolding rows_of
rows_of-All P sale [] h = tt
rows_of-All P sale (e ∷ es) h = elim (Bool-cases (e.sale_id == sale)) [
  | inl q ↦ rw (q, rows_of) (h.0 (ground arith), rows_of-All P sale es h.1)
  | inr q ↦ rw (q, rows_of) (rows_of-All P sale es h.1)
]

-- Everyone joined by the time `t`, and who came earlier to the sale stands further ahead.
abbrev pub IsOrderedBy : ℕ → ℕ → List QueueEntry → Type 0
IsOrderedBy sale t es = All (λ e. e.joined_at ≤ t) es × AllPairs IsOrdered (rows_of sale es)

later :
    (sale t u : ℕ) (es : List QueueEntry) → t ≤ u → IsOrderedBy sale t es → IsOrderedBy sale u es
later sale t u es le (a, b) =
    (All-map (λ e. e.joined_at ≤ t) (λ e. e.joined_at ≤ u) es (λ e h. omega (arith, le, h)) a, b)

cons-IsOrderedBy :
    (sale t : ℕ) (e : QueueEntry) (es : List QueueEntry)
    → e.joined_at ≡ t
    → Behind e.sale_id e.position es
    → IsOrderedBy sale t es
    → IsOrderedBy sale t (e ∷ es)
unfolding rows_of
cons-IsOrderedBy sale t e es q behind (a, b) = elim (Bool-cases (e.sale_id == sale)) [
  | inr c ↦ ((omega (arith, q), a), rw (c, rows_of) b)
  | inl c ↦ (
    (omega (arith, q), a),
    rw (c, rows_of)
        (AllPairs-cons IsOrdered (row_of e) (rows_of sale es) (λ lt. omega (arith, lt))
          (rows_of-All (IsOrdered (row_of e)) sale es (
            All-map (λ x. x.joined_at ≤ t) (λ x. x.sale_id ≡ sale → IsOrdered (row_of e) (row_of x))
              es (λ x h w lt. absurd (omega (arith, q, h, lt))) a))
          (rows_of-All (λ x. IsOrdered x (row_of e)) sale es
            (All-map (λ x. x.sale_id ≡ e.sale_id → x.position < e.position)
              (λ x. x.sale_id ≡ sale → IsOrdered (row_of x) (row_of e)) es
              (λ x h w lt. h (ground (arith, w, c))) behind))
          b),
  )
]

rows_of-mark_admitted :
    (db_now j k sale : ℕ) (es : List QueueEntry)
    → rows_of sale (mark_admitted db_now j k es) ≡ rows_of sale es
unfolding rows_of mark_admitted
rows_of-mark_admitted db_now j k sale [] = refl
rows_of-mark_admitted db_now j k sale (e ∷ es) =
    ground (arith, rows_of-mark_admitted db_now j k sale es)

mark_admitted-joined :
    (db_now j k t : ℕ) (es : List QueueEntry)
    → All (λ e. e.joined_at ≤ t) es
    → All (λ e. e.joined_at ≤ t) (mark_admitted db_now j k es)
unfolding mark_admitted
mark_admitted-joined db_now j k t [] h = tt
mark_admitted-joined db_now j k t (e ∷ es) h =
    (ground (arith, h.0), mark_admitted-joined db_now j k t es h.1)

-- The database's clock after a call; only joins write its time into the queue.
abbrev pub clock : ℕ → Call → ℕ
clock t (joins f now db_now sale user) = db_now
clock t (polls f secret ttl now db_now jti sale user) = t
clock t (advances sale n) = t

-- The clock of the database does not go back from one join to the next.
abbrev pub Ascending : ℕ → List Call → Type 0
Ascending t [] = Unit
Ascending t (c ∷ cs) = (t ≤ clock t c) × Ascending (clock t c) cs

module _ (jwt : Jwt) (sale : ℕ) where
  step-IsOrderedBy :
      (t : ℕ) (s : Store) (c : Call)
      → Inv s
      → t ≤ clock t c
      → IsOrderedBy sale t s.db.queue_entries
      → IsOrderedBy sale (clock t c) (step jwt s c).db.queue_entries
  unfolding step advance_admission
  step-IsOrderedBy t s (joins f now db_now j k) v le h =
      let h' = later sale t db_now s.db.queue_entries le h in
      join_keeps (λ s'. IsOrderedBy sale db_now s'.db.queue_entries) f now db_now j k s h'
        (unfold take_position in h')
        (λ c.
          unfold insert_entry take_position in
          cons-IsOrderedBy sale db_now _ s.db.queue_entries refl
            (InRange-Behind j s s.db.queue_entries v.in_range) h')
  step-IsOrderedBy t s (polls f secret ttl now db_now jti j k) v le h =
      status_keeps jwt (λ s'. IsOrderedBy sale t s'.db.queue_entries) f secret ttl now db_now jti j
        k s h
        (
          mark_admitted-joined db_now j k t s.db.queue_entries h.0,
          subst (AllPairs IsOrdered)
              (sym (rows_of-mark_admitted db_now j k sale s.db.queue_entries)) h.1,
        )
  step-IsOrderedBy t s (advances j n) v le h = h

  run-IsOrderedBy :
      (t : ℕ) (s : Store) (cs : List Call)
      → Inv s
      → Ascending t cs
      → IsOrderedBy sale t s.db.queue_entries
      → AllPairs IsOrdered (rows_of sale (run jwt s cs).db.queue_entries)
  unfolding run
  run-IsOrderedBy t s [] v a h = h.1
  run-IsOrderedBy t s (c ∷ cs) v a h =
      run-IsOrderedBy (clock t c) (step jwt s c) cs (step-Inv jwt s c v) a.1
        (step-IsOrderedBy t s c v a.0 h)

  -- While the clock of the database does not go back, and starting from a queue in order, the check
  -- of cmd/assert-queue finds no inversion after any joins, polls and moves of the window.
  pub run-inversions :
      (t : ℕ) (s : Store) (cs : List Call)
      → Inv s
      → Ascending t cs
      → IsOrderedBy sale t s.db.queue_entries
      → inversions (rows_of sale (run jwt s cs).db.queue_entries) ≡ 0
  run-inversions t s cs v a h =
      IsOrdered-inversions (rows_of sale (run jwt s cs).db.queue_entries)
        (run-IsOrderedBy t s cs v a h)
