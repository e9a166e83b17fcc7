-- ===== src/WaitingRoom/Join.antt =====
-- What `Join` of internal/waitingroom/service.go guarantees.
use traffic_backend_queue.Common.{
  ℕ, ◌≤◌, ◌<◌, ◌≡◌, refl, ◌≢◌, Bool, true, false, none, some, List, [], ◌∷◌, if◌then◌else◌, All,
  arith, inl, inr, ◌⊎◌, ◌∙◌, ap,
}
use traffic_backend_queue.Storage.{QueueEntry, Store, Sale, find_sale, find_entry}
use traffic_backend_queue.WaitingRoom.{
  Error, insert_failed, waiting_room_full, sale_not_open, Result, ok, err, Faults, no_faults,
  sale_open_for_queue, before_join, next_position, take_position, insert_entry, join,
  check_existing,
}
use traffic_backend_queue.WaitingRoom.Entries.{seq, InRange, Inv}
use traffic_backend_queue.WaitingRoom.Steps.{join_cases, record_entry_cases}

-- A result of `before_join` that is no error is the position that the user has.
pub before_join-ok :
    (f : Faults) (now sale user p : ℕ) (b : Bool) (s : Store)
    → before_join f now sale user s ≡ some (ok (p, b))
    → (e : QueueEntry) × (find_entry sale user s.db.queue_entries ≡ some e)
      × (e.position ≡ p)
      × (b ≡ false)
unfolding before_join
before_join-ok f now sale user p b s h = ground arith

abbrev pub Has : ℕ → ℕ → Store × Result (ℕ × Bool) → Type 0
Has sale user r =
    (p : ℕ) (b : Bool)
    → r.1 ≡ ok (p, b)
    → (e : QueueEntry) × (find_entry sale user r.0.db.queue_entries ≡ some e) × (e.position ≡ p)

insert_entry-Has :
    (now sale user p : ℕ) (s : Store) → Has sale user (insert_entry now sale user p s, ok (p, true))
unfolding insert_entry find_entry
insert_entry-Has now sale user p s q b h = (new, ground arith, ground arith)
  where
    new : QueueEntry
    new = record {
      sale_id = sale;
      user_id = user;
      position = p;
      joined_at = now;
      admitted_at = none;
    }

-- What `join` reports is what the table holds afterwards.
pub join-find_entry :
    (f : Faults) (now db_now sale user : ℕ) (s : Store)
    → Has sale user (join f now db_now sale user s)
join-find_entry f now db_now sale user s =
    join_cases (Has sale user) f now db_now sale user s
      (λ r e p b h.
        let (x, q, y, _) = before_join-ok f now sale user p b s (rw (← h) e) in (x, q, y))
      (λ e p b h. cc)
      λ e.
        record_entry_cases (Has sale user) f db_now sale user (next_position sale s)
          (take_position sale s)
          (λ c. insert_entry-Has db_now sale user (next_position sale s) (take_position sale s))
          (λ p b h. cc) (λ x q p b h. (x, q, ground arith))

join-sales :
    (f : Faults) (now db_now sale user : ℕ) (s : Store)
    → (join f now db_now sale user s).0.db.sales ≡ s.db.sales
join-sales f now db_now sale user s =
    join_cases (λ r. r.0.db.sales ≡ s.db.sales) f now db_now sale user s (λ r e. refl) (λ e. refl)
      λ e.
        record_entry_cases (λ r. r.0.db.sales ≡ s.db.sales) f db_now sale user
          (next_position sale s) (take_position sale s)
          (λ c. unfold insert_entry take_position in refl) (unfold take_position in refl)
          (λ x q. unfold take_position in refl)

-- A user who is in the queue of an open sale is told the position of their entry, and nothing
-- changes.
join_present :
    (now db_now sale user : ℕ) (s : Store) (info : Sale) (e : QueueEntry)
    → find_sale sale s.db.sales ≡ some info
    → sale_open_for_queue now info ≡ true
    → find_entry sale user s.db.queue_entries ≡ some e
    → join no_faults now db_now sale user s ≡ (s, ok (e.position, false))
unfolding join check_existing
join_present now db_now sale user s info e p o q = ground arith

-- Once a join has answered with a position, every later join of that user while the sale is open
-- answers with the same position, and changes nothing.
pub join_again :
    (f : Faults) (now db_now later db_later sale user p : ℕ) (b : Bool) (s : Store) (info : Sale)
    → (join f now db_now sale user s).1 ≡ ok (p, b)
    → find_sale sale s.db.sales ≡ some info
    → sale_open_for_queue later info ≡ true
    → join no_faults later db_later sale user (join f now db_now sale user s).0
      ≡ ((join f now db_now sale user s).0, ok (p, false))
join_again f now db_now later db_later sale user p b s info h q o =
    let (e, found, same) = join-find_entry f now db_now sale user s p b h in
    join_present later db_later sale user (join f now db_now sale user s).0 info e
      (ap (find_sale sale) (join-sales f now db_now sale user s) ∙ q) o found
    ∙ ap (λ n. ((join f now db_now sale user s).0, ok (n, false))) same

-- A position in the sale's queue is below `p`.
abbrev pub Behind : ℕ → ℕ → List QueueEntry → Type 0
Behind sale p = All λ e. e.sale_id ≡ sale → e.position < p

pub InRange-Behind :
    (sale : ℕ) (s : Store) (es : List QueueEntry)
    → InRange s es
    → Behind sale (next_position sale s) es
unfolding next_position
InRange-Behind sale s [] h = tt
InRange-Behind sale s (e ∷ es) h = (λ q. ground arith, InRange-Behind sale s es h.1)

before_join-ne_new :
    (f : Faults) (now sale user p : ℕ) (s : Store)
    → before_join f now sale user s ≢ some (ok (p, true))
before_join-ne_new f now sale user p s h = ground (arith, before_join-ok f now sale user p true s)

-- A new position is the counter's next value, and is given only if the checks before it passed.
abbrev FromCounter : Faults → ℕ → ℕ → ℕ → Store → Store × Result (ℕ × Bool) → Type 0
FromCounter f now sale user s r =
    (p : ℕ)
    → r.1 ≡ ok (p, true)
    → (p ≡ next_position sale s) × (before_join f now sale user s ≡ none)

join_new :
    (f : Faults) (now db_now sale user : ℕ) (s : Store)
    → FromCounter f now sale user s (join f now db_now sale user s)
join_new f now db_now sale user s =
    join_cases (FromCounter f now sale user s) f now db_now sale user s
      (λ r e p h. absurd (before_join-ne_new f now sale user p s (e ∙ ap some h))) (λ e p h. cc)
      (λ e.
        record_entry_cases (FromCounter f now sale user s) f db_now sale user (next_position sale s)
          (take_position sale s) (λ c p h. (ground arith, e)) (λ p h. cc) (λ x q p h. cc))

-- First come, first served: a user who joins anew gets a position behind every entry that the sale
-- has.
pub join_new_last :
    (f : Faults) (now db_now sale user p : ℕ) (s : Store)
    → Inv s
    → (join f now db_now sale user s).1 ≡ ok (p, true)
    → Behind sale p s.db.queue_entries
join_new_last f now db_now sale user p s v h =
    rw (join_new f now db_now sale user s p h).0
      (InRange-Behind sale s s.db.queue_entries v.in_range)

before_join-capacity :
    (f : Faults) (now sale user : ℕ) (s : Store) (info : Sale)
    → find_sale sale s.db.sales ≡ some info
    → before_join f now sale user s ≡ none
    → (sale_open_for_queue now info ≡ true)
      × (find_entry sale user s.db.queue_entries ≡ none)
      × ((seq s sale ≡ 0) ⊎ (seq s sale < info.waiting_room_cap))
unfolding before_join
before_join-capacity f now sale user s info p h = ground arith

-- Joins that run one after the other do not pass the capacity of the waiting room, and enter only an
-- open sale, and only users that were not in its queue.
pub join_new_allowed :
    (f : Faults) (now db_now sale user p : ℕ) (s : Store) (info : Sale)
    → find_sale sale s.db.sales ≡ some info
    → 0 < info.waiting_room_cap
    → (join f now db_now sale user s).1 ≡ ok (p, true)
    → (sale_open_for_queue now info ≡ true)
      × (find_entry sale user s.db.queue_entries ≡ none)
      × (p ≤ info.waiting_room_cap)
unfolding next_position
join_new_allowed f now db_now sale user p s info q c h =
    let (e, b) = join_new f now db_now sale user s p h in
    ground (arith, before_join-capacity f now sale user s info q b)

abbrev Refused : Store → Store × Result (ℕ × Bool) → Type 0
Refused s r = (x : Error) → r.1 ≡ err x → (r.0.db ≡ s.db) × ((r.0 ≡ s) ⊎ (x ≡ insert_failed))

-- A join that fails leaves the tables as they were, and the whole store as it was, unless the
-- INSERT was what failed.
pub join-err :
    (f : Faults) (now db_now sale user : ℕ) (x : Error) (s : Store)
    → (join f now db_now sale user s).1 ≡ err x
    → ((join f now db_now sale user s).0.db ≡ s.db)
      × (((join f now db_now sale user s).0 ≡ s) ⊎ (x ≡ insert_failed))
join-err f now db_now sale user x s =
    join_cases (Refused s) f now db_now sale user s (λ r e y h. (refl, inl refl))
      (λ e y h. (refl, inl refl))
      (λ e.
        record_entry_cases (Refused s) f db_now sale user (next_position sale s)
          (take_position sale s) (λ c y h. cc)
          (λ y h. (unfold take_position in refl, inr (ground arith))) (λ z q y h. cc))
      x

-- The counter has reached the capacity.
abbrev pub IsFull : Sale → Store → Type 0
IsFull info s = (n : ℕ) × (s.redis.queue_seq info.id ≡ some n) × (info.waiting_room_cap ≤ n)

-- A closed sale turns every caller away, and a full waiting room those who are not in the queue yet;
-- nothing changes, and the closed sale is reported first.
pub join_refused :
    (now db_now user : ℕ) (s : Store) (info : Sale)
    → find_sale info.id s.db.sales ≡ some info
    → (sale_open_for_queue now info ≡ false)
      ⊎ ((find_entry info.id user s.db.queue_entries ≡ none) × IsFull info s)
    → join no_faults now db_now info.id user s
      ≡ (s, err (if sale_open_for_queue now info then waiting_room_full else sale_not_open))
unfolding join check_existing
join_refused now db_now user s info p (inl c) = ground arith
join_refused now db_now user s info p (inr (e, (n, q, h))) = ground arith
