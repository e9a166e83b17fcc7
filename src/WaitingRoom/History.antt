-- ===== src/WaitingRoom/History.antt =====
-- Any sequence of the calls of internal/waitingroom/service.go: joins, polls, and the worker's
-- moves of the admission window.
use Prim.Native.String.{String}
use traffic_backend_queue.Common.{
  ℕ, ◌≡◌, sym, true, ◌||◌, some, List, [], ◌∷◌, is_some, arith, inl, inr, ◌∙◌, ap, leb,
}
use mathlib.Core.Path.{subst}
use traffic_backend_queue.Storage.{QueueEntry, Store, find_entry}
use traffic_backend_queue.Auth.{Jwt}
use traffic_backend_queue.WaitingRoom.{
  Faults, status, advance_admission, update_admitted, join, insert_entry, take_position,
  next_position, can_insert,
}
use traffic_backend_queue.WaitingRoom.Entries.{
  Inv, find_entry-mark_admitted, mark_found, marked, Distinct-mark_admitted, InRange-mark_admitted,
  find_entry-insert_entry,
}
use traffic_backend_queue.WaitingRoom.Steps.{join_cases, record_entry_cases, join-Inv}
use traffic_backend_queue.WaitingRoom.Polls.{window, status_store}

pub data Call : Type 0 where
  joins : Faults → (now db_now sale user : ℕ) → Call
  polls : Faults → String → (ttl now db_now jti sale user : ℕ) → Call
  advances : (sale n : ℕ) → Call

-- The user has an entry for the sale, with this position.
abbrev pub HasPlace : ℕ → ℕ → ℕ → Store → Type 0
HasPlace sale user p s =
    (e : QueueEntry) × (find_entry sale user s.db.queue_entries ≡ some e) × (e.position ≡ p)

-- The user has an entry for the sale, and it may go to the checkout.
abbrev pub IsAdmitted : ℕ → ℕ → Store → Type 0
IsAdmitted sale user s =
    (e : QueueEntry) × (find_entry sale user s.db.queue_entries ≡ some e)
    × ((is_some e.admitted_at || leb e.position (window s sale)) ≡ true)

insert_entry-HasPlace :
    (f : Faults) (now j k q sale user p : ℕ) (s : Store)
    → can_insert f j k q (take_position j s) ≡ true
    → HasPlace sale user p s
    → HasPlace sale user p (insert_entry now j k q (take_position j s))
unfolding can_insert take_position
insert_entry-HasPlace f now j k q sale user p s c (e, h, r) =
    (e, ground (arith, find_entry-insert_entry now j k q sale user (take_position j s)), r)

insert_entry-IsAdmitted :
    (f : Faults) (now j k q sale user : ℕ) (s : Store)
    → can_insert f j k q (take_position j s) ≡ true
    → IsAdmitted sale user s
    → IsAdmitted sale user (insert_entry now j k q (take_position j s))
unfolding can_insert take_position insert_entry
insert_entry-IsAdmitted f now j k q sale user s c (e, h, r) =
    (e, ground (arith, find_entry-insert_entry now j k q sale user (take_position j s)), r)

pub update_admitted-HasPlace :
    (now j k sale user p : ℕ) (s : Store)
    → HasPlace sale user p s
    → HasPlace sale user p (update_admitted now j k s)
update_admitted-HasPlace now j k sale user p s (e, h, r) = (
  marked now j k e,
  find_entry-mark_admitted now j k sale user s.db.queue_entries ∙ ap (mark_found now j k) h,
  ground arith,
)

update_admitted-IsAdmitted :
    (now j k sale user : ℕ) (s : Store)
    → IsAdmitted sale user s
    → IsAdmitted sale user (update_admitted now j k s)
update_admitted-IsAdmitted now j k sale user s (e, h, r) = (
  marked now j k e,
  find_entry-mark_admitted now j k sale user s.db.queue_entries ∙ ap (mark_found now j k) h,
  ground arith,
)

pub update_admitted-Inv : (now j k : ℕ) (s : Store) → Inv s → Inv (update_admitted now j k s)
update_admitted-Inv now j k s v = record {
  in_range = InRange-mark_admitted now j k s s.db.queue_entries v.in_range;
  distinct = Distinct-mark_admitted now j k s.db.queue_entries v.distinct;
}

-- A property that a new number, a new entry and an admission keep is kept by `join`.
pub join_keeps {ℓ} :
    (P : Store → Type ℓ) (f : Faults) (now db_now sale user : ℕ) (s : Store)
    → P s
    → P (take_position sale s)
    → (can_insert f sale user (next_position sale s) (take_position sale s) ≡ true
        → P (insert_entry db_now sale user (next_position sale s) (take_position sale s)))
    → P (join f now db_now sale user s).0
join_keeps P f now db_now sale user s same took added =
    join_cases (λ r. P r.0) f now db_now sale user s (λ r e. same) (λ e. same)
      (λ e.
        record_entry_cases (λ r. P r.0) f db_now sale user (next_position sale s)
          (take_position sale s) added took (λ x q. took))

pub status_keeps {ℓ} :
    (jwt : Jwt) (P : Store → Type ℓ) (f : Faults) (secret : String)
    (ttl now db_now jti sale user : ℕ) (s : Store)
    → P s
    → P (update_admitted db_now sale user s)
    → P (status jwt f secret ttl now db_now jti sale user s).0
status_keeps jwt P f secret ttl now db_now jti sale user s same marks =
    elim (status_store jwt f secret ttl now db_now jti sale user s) [
      | inl e ↦ subst P (sym e) same
      | inr e ↦ subst P (sym e) marks
    ]

module _ (jwt : Jwt) where
  unfoldable pub step : Store → Call → Store
  step s (joins f now db_now sale user) = (join f now db_now sale user s).0
  step s (polls f secret ttl now db_now jti sale user) =
      (status jwt f secret ttl now db_now jti sale user s).0
  step s (advances sale n) = advance_admission sale n s

  unfoldable pub run : Store → List Call → Store
  run s [] = s
  run s (c ∷ cs) = run (step s c) cs

  pub step-Inv : (s : Store) (c : Call) → Inv s → Inv (step s c)
  unfolding step advance_admission
  step-Inv s (joins f now db_now sale user) v = join-Inv f now db_now sale user s v
  step-Inv s (polls f secret ttl now db_now jti sale user) v =
      status_keeps jwt Inv f secret ttl now db_now jti sale user s v
        (update_admitted-Inv db_now sale user s v)
  step-Inv s (advances sale n) v = record { in_range = v.in_range; distinct = v.distinct }

  step-HasPlace :
      (s : Store) (c : Call) (sale user p : ℕ)
      → HasPlace sale user p s
      → HasPlace sale user p (step s c)
  unfolding step advance_admission
  step-HasPlace s (joins f now db_now j k) sale user p h =
      join_keeps (HasPlace sale user p) f now db_now j k s h (unfold take_position in h)
        (λ c. insert_entry-HasPlace f db_now j k (next_position j s) sale user p s c h)
  step-HasPlace s (polls f secret ttl now db_now jti j k) sale user p h =
      status_keeps jwt (HasPlace sale user p) f secret ttl now db_now jti j k s h
        (update_admitted-HasPlace db_now j k sale user p s h)
  step-HasPlace s (advances j n) sale user p h = h

  step-IsAdmitted :
      (s : Store) (c : Call) (sale user : ℕ)
      → IsAdmitted sale user s
      → IsAdmitted sale user (step s c)
  unfolding step advance_admission
  step-IsAdmitted s (joins f now db_now j k) sale user h =
      join_keeps (IsAdmitted sale user) f now db_now j k s h (unfold take_position in h)
        (λ c. insert_entry-IsAdmitted f db_now j k (next_position j s) sale user s c h)
  step-IsAdmitted s (polls f secret ttl now db_now jti j k) sale user h =
      status_keeps jwt (IsAdmitted sale user) f secret ttl now db_now jti j k s h
        (update_admitted-IsAdmitted db_now j k sale user s h)
  step-IsAdmitted s (advances j n) sale user (e, h, r) = (e, h, ground arith)

  -- After any calls, in any order and with any failures, no two entries of a sale share a user or a
  -- position, and every position lies between 1 and the counter.
  pub run-Inv : (s : Store) (cs : List Call) → Inv s → Inv (run s cs)
  unfolding run
  run-Inv s [] v = v
  run-Inv s (c ∷ cs) v = run-Inv (step s c) cs (step-Inv s c v)

  -- Whatever is called afterwards, a user keeps the place in the queue: refreshing, joining again
  -- and the joins of others do not move it.
  pub run-HasPlace :
      (s : Store) (cs : List Call) (sale user p : ℕ)
      → HasPlace sale user p s
      → HasPlace sale user p (run s cs)
  unfolding run
  run-HasPlace s [] sale user p h = h
  run-HasPlace s (c ∷ cs) sale user p h =
      run-HasPlace (step s c) cs sale user p (step-HasPlace s c sale user p h)

  -- Whatever is called afterwards, a user who may go to the checkout may still do so.
  pub run-IsAdmitted :
      (s : Store) (cs : List Call) (sale user : ℕ)
      → IsAdmitted sale user s
      → IsAdmitted sale user (run s cs)
  unfolding run
  run-IsAdmitted s [] sale user h = h
  run-IsAdmitted s (c ∷ cs) sale user h =
      run-IsAdmitted (step s c) cs sale user (step-IsAdmitted s c sale user h)
