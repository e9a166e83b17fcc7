-- ===== src/WaitingRoom/Steps.antt =====
-- The branches of `Join` of internal/waitingroom/service.go, and the invariant on each.
use traffic_backend_queue.Common.{
  ℕ, ◌≡◌, Bool, true, false, none, some, arith, Bool-cases, Option-cases, inl, inr,
}
use traffic_backend_queue.Storage.{QueueEntry, Store, find_entry}
use traffic_backend_queue.WaitingRoom.{
  Error, insert_failed, Result, ok, err, Faults, before_join, next_position, take_position,
  record_entry, insert_entry, can_insert, join,
}
use traffic_backend_queue.WaitingRoom.Entries.{Inv, InRange-take_position}

-- The three ways through `join`.
pub join_cases {ℓ} :
    (P : Store × Result (ℕ × Bool) → Type ℓ) (f : Faults) (now db_now sale user : ℕ) (s : Store)
    → ((r : Result (ℕ × Bool)) → before_join f now sale user s ≡ some r → P (s, r))
    → (before_join f now sale user s ≡ none → P (s, err Error.redis_failed))
    → (before_join f now sale user s ≡ none
        → P (record_entry f db_now sale user (next_position sale s) (take_position sale s)))
    → P (join f now db_now sale user s)
unfolding join
join_cases P f now db_now sale user s early broken go =
    elim (Option-cases (before_join f now sale user s)) [
      | inr (r, e) ↦ rw (e, join) (early r e)
      | inl e ↦ elim (Bool-cases f.redis_incr) [
        | inl b ↦ rw (e, b, join) (broken e)
        | inr b ↦ rw (e, b, join) (go e)
      ]
    ]

pub insert_entry-Inv :
    (f : Faults) (now sale user : ℕ) (s : Store)
    → Inv s
    → can_insert f sale user (next_position sale s) (take_position sale s) ≡ true
    → Inv (insert_entry now sale user (next_position sale s) (take_position sale s))
unfolding insert_entry can_insert next_position take_position
insert_entry-Inv f now sale user s v h =
    let kept = InRange-take_position sale s s.db.queue_entries v.in_range in
    record { in_range = ground (arith, kept); distinct = ground (arith, v.distinct) }

pub take_position-Inv : (sale : ℕ) (s : Store) → Inv s → Inv (take_position sale s)
unfolding take_position
take_position-Inv sale s v = record {
  in_range = InRange-take_position sale s s.db.queue_entries v.in_range;
  distinct = v.distinct;
}

pub record_entry_cases {ℓ} :
    (P : Store × Result (ℕ × Bool) → Type ℓ) (f : Faults) (now sale user p : ℕ) (s : Store)
    → (can_insert f sale user p s ≡ true → P (insert_entry now sale user p s, ok (p, true)))
    → P (s, err insert_failed)
    → ((e : QueueEntry)
        → find_entry sale user s.db.queue_entries ≡ some e
        → P (s, ok (e.position, false)))
    → P (record_entry f now sale user p s)
unfolding record_entry
record_entry_cases P f now sale user p s new failed old =
    elim (Bool-cases (can_insert f sale user p s)) [
      | inl b ↦ rw (b, record_entry) (new b)
      | inr b ↦ elim (Bool-cases f.retry_query) [
        | inl c ↦ rw (b, c, record_entry) failed
        | inr c ↦ elim (Option-cases (find_entry sale user s.db.queue_entries)) [
          | inl n ↦ rw (b, c, n, record_entry) failed
          | inr (e, q) ↦ rw (b, c, q, record_entry) (old e q)
        ]
      ]
    ]

-- `join` keeps the invariant on every branch, whichever calls fail: within a sale no two entries
-- have one user or one position, and every position lies between 1 and the counter.
pub join-Inv :
    (f : Faults) (now db_now sale user : ℕ) (s : Store)
    → Inv s
    → Inv (join f now db_now sale user s).0
join-Inv f now db_now sale user s v =
    join_cases (λ r. Inv r.0) f now db_now sale user s (λ r e. v) (λ e. v)
      λ e.
        record_entry_cases (λ r. Inv r.0) f db_now sale user (next_position sale s)
          (take_position sale s) (insert_entry-Inv f db_now sale user s v)
          (take_position-Inv sale s v) (λ x q. take_position-Inv sale s v)
