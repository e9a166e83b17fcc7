-- ===== src/WaitingRoom/Line.antt =====
-- The queue of a sale as an abstract line of users, which internal/waitingroom/service.go implements
-- by numbered rows.
use traffic_backend_queue.Common.{
  ℕ, ◌≡◌, refl, sym, ap, ◌∙◌, Bool, true, false, ◌&&◌, ◌||◌, some, List, [], ◌∷◌, ◌++◌, ◌==◌,
  if◌then◌else◌, arith, Bool-cases, inl, inr, contains, is_some, not,
}
use Prim.Native.String.{String}
use traffic_backend_queue.Storage.{QueueEntry, Store, find_entry, entry_of}
use traffic_backend_queue.Auth.{Jwt}
use traffic_backend_queue.WaitingRoom.{
  Error, Result, ok, err, Faults, join, before_join, insert_entry, take_position, next_position,
  can_insert, mark_admitted, advance_admission,
}
use traffic_backend_queue.WaitingRoom.Steps.{join_cases, record_entry_cases}
use traffic_backend_queue.WaitingRoom.Entries.{Inv}
use traffic_backend_queue.WaitingRoom.Join.{before_join-ok, Behind, InRange-Behind}
use traffic_backend_queue.WaitingRoom.History.{
  Call, joins, polls, advances, join_keeps, status_keeps, step, run, step-Inv,
}

-- The users of a sale, from the front: the rows are kept with the newest first.
pub line : ℕ → List QueueEntry → List ℕ
line j [] = []
line j (e ∷ es) = line j es ++ (if e.sale_id == j then e.user_id ∷ [] else [])

-- The line that the service promises: who is not in it yet goes to the end, and no one else moves.
unfoldable pub enqueue : List ℕ → ℕ → List ℕ
enqueue q u = if contains u q then q else q ++ (u ∷ [])

unfoldable pub enqueue_all : List ℕ → List ℕ → List ℕ
unfolding enqueue
enqueue_all q [] = q
enqueue_all q (u ∷ us) = enqueue_all (enqueue q u) us

abbrev pub is_ok {ℓ} : {A : Type ℓ} → Result A → Bool
is_ok (ok a) = true
is_ok (err e) = false

append_nil : (xs : List ℕ) → xs ++ [] ≡ xs
append_nil [] = refl
append_nil (x ∷ xs) = ap (λ ys. x ∷ ys) (append_nil xs)

contains-append :
    (u : ℕ) (xs ys : List ℕ) → contains u (xs ++ ys) ≡ (contains u xs || contains u ys)
contains-append u [] ys = refl
contains-append u (x ∷ xs) ys = ground (arith, contains-append u xs ys)

contains-line :
    (j u : ℕ) (es : List QueueEntry) → contains u (line j es) ≡ is_some (find_entry j u es)
unfolding line find_entry
contains-line j u [] = refl
contains-line j u (e ∷ es) = ground (
  arith,
  contains-append u (line j es) (if e.sale_id == j then e.user_id ∷ [] else []),
  contains-line j u es,
)

line-mark_admitted :
    (d j k u : ℕ) (es : List QueueEntry) → line j (mark_admitted d k u es) ≡ line j es
unfolding line mark_admitted
line-mark_admitted d j k u [] = refl
line-mark_admitted d j k u (e ∷ es) = ground (arith, line-mark_admitted d j k u es)

abbrev of_sale : ℕ → Store → List ℕ
of_sale j s = line j s.db.queue_entries

-- What a join does to the line of sale `j`.
abbrev Refines : (j sale user : ℕ) → Store → Store × Result (ℕ × Bool) → Type 0
Refines j sale user s r =
    of_sale j r.0 ≡ (if sale == j && is_ok r.1 then enqueue (of_sale j s) user else of_sale j s)

-- A join that finds its user leaves the line alone, and so does the line's own operation.
found-Refines :
    (j sale user : ℕ) (s : Store) (r : Store × Result (ℕ × Bool)) (e : QueueEntry)
    → of_sale j r.0 ≡ of_sale j s
    → find_entry sale user s.db.queue_entries ≡ some e
    → Refines j sale user s r
unfolding enqueue
found-Refines j sale user s r e same h = ground (arith, contains-line j user s.db.queue_entries)

err-Refines :
    (j sale user : ℕ) (s t : Store) (e : Error)
    → of_sale j t ≡ of_sale j s
    → Refines j sale user s (t, err e)
err-Refines j sale user s t e h = ground arith

early-Refines :
    (f : Faults) (now j sale user : ℕ) (s : Store) (r : Result (ℕ × Bool))
    → before_join f now sale user s ≡ some r
    → Refines j sale user s (s, r)
early-Refines f now j sale user s (err e) h = err-Refines j sale user s s e refl
early-Refines f now j sale user s (ok (p, b)) h =
    let (e, q, _, _) = before_join-ok f now sale user p b s h in
    found-Refines j sale user s (s, ok (p, b)) e refl q

insert-Refines :
    (f : Faults) (d j sale user p : ℕ) (s : Store)
    → can_insert f sale user p (take_position sale s) ≡ true
    → Refines j sale user s (insert_entry d sale user p (take_position sale s), ok (p, true))
unfolding can_insert insert_entry take_position line enqueue
insert-Refines f d j sale user p s h = elim (Bool-cases (sale == j)) [
  | inl e ↦ ground (arith, contains-line j user s.db.queue_entries)
  | inr e ↦ rw e (append_nil (of_sale j s))
]

join-Refines :
    (f : Faults) (now d j sale user : ℕ) (s : Store)
    → Refines j sale user s (join f now d sale user s)
unfolding take_position
join-Refines f now d j sale user s =
    join_cases (Refines j sale user s) f now d sale user s
      (λ r e. early-Refines f now j sale user s r e)
      (λ e. err-Refines j sale user s s Error.redis_failed refl)
      (λ e.
        record_entry_cases (Refines j sale user s) f d sale user (next_position sale s)
          (take_position sale s) (λ c. insert-Refines f d j sale user (next_position sale s) s c)
          (err-Refines j sale user s (take_position sale s) Error.insert_failed refl)
          (λ x q.
            found-Refines j sale user s (take_position sale s, ok (x.position, false)) x refl q))

-- Newer rows of a sale have larger positions, so the line is in the order of the positions.
abbrev pub InOrder : List QueueEntry → Type 0
InOrder [] = Unit
InOrder (e ∷ es) = Behind e.sale_id e.position es × InOrder es

Behind-mark_admitted :
    (d k u j p : ℕ) (es : List QueueEntry) → Behind j p es → Behind j p (mark_admitted d k u es)
unfolding mark_admitted
Behind-mark_admitted d k u j p [] h = tt
Behind-mark_admitted d k u j p (e ∷ es) h = (
  (λ q. let first = h.0 in ground (arith, first (ground arith))),
  Behind-mark_admitted d k u j p es h.1,
)

mark_admitted-InOrder :
    (d k u : ℕ) (es : List QueueEntry) → InOrder es → InOrder (mark_admitted d k u es)
unfolding mark_admitted
mark_admitted-InOrder d k u [] h = tt
mark_admitted-InOrder d k u (e ∷ es) h =
    let rest = Behind-mark_admitted d k u e.sale_id e.position es h.0 in
    (
      elim (Bool-cases (entry_of k u e && not (is_some e.admitted_at))) [
        | inl b ↦ rw b rest
        | inr b ↦ rw b rest
      ],
      mark_admitted-InOrder d k u es h.1,
    )

join-InOrder :
    (f : Faults) (now d sale user : ℕ) (s : Store)
    → Inv s
    → InOrder s.db.queue_entries
    → InOrder (join f now d sale user s).0.db.queue_entries
join-InOrder f now d sale user s v h =
    join_keeps (λ s'. InOrder s'.db.queue_entries) f now d sale user s h (unfold take_position in h)
      (λ c.
        unfold insert_entry take_position in
        (InRange-Behind sale s s.db.queue_entries v.in_range, h))

module _ (jwt : Jwt) (j : ℕ) where
  -- The users of sale `j` whose joins were answered with a position, in the order of the answers.
  unfoldable pub accepted : Store → List Call → List ℕ
  accepted s [] = []
  accepted s (joins f now d sale user ∷ cs) =
      (if sale == j && is_ok (join f now d sale user s).1 then user ∷ [] else [])
      ++ accepted (step jwt s (joins f now d sale user)) cs
  accepted s (c ∷ cs) = accepted (step jwt s c) cs

  enqueue_all-if :
      (b : Bool) (q us : List ℕ) (u : ℕ)
      → enqueue_all q ((if b then u ∷ [] else []) ++ us)
        ≡ enqueue_all (if b then enqueue q u else q) us
  unfolding enqueue_all
  enqueue_all-if true q us u = refl
  enqueue_all-if false q us u = refl

  polls-line :
      (s : Store) (f : Faults) (secret : String) (ttl now d jti k u : ℕ)
      → of_sale j (step jwt s (polls f secret ttl now d jti k u)) ≡ of_sale j s
  unfolding step
  polls-line s f secret ttl now d jti k u =
      status_keeps jwt (λ s'. of_sale j s' ≡ of_sale j s) f secret ttl now d jti k u s refl
        (line-mark_admitted d j k u s.db.queue_entries)

  run-line_rows :
      (s : Store) (cs : List Call)
      → line j (run jwt s cs).db.queue_entries
        ≡ enqueue_all (line j s.db.queue_entries) (accepted s cs)
  unfolding run step accepted advance_admission enqueue_all
  run-line_rows s [] = refl
  run-line_rows s (joins f now d sale user ∷ cs) =
      let s' = (join f now d sale user s).0 in
      run-line_rows s' cs
      ∙ ap (λ q. enqueue_all q (accepted s' cs)) (join-Refines f now d j sale user s)
      ∙ sym (
          enqueue_all-if (sale == j && is_ok (join f now d sale user s).1) (of_sale j s)
            (accepted s' cs) user)
  run-line_rows s (polls f secret ttl now d jti k u ∷ cs) =
      let s' = step jwt s (polls f secret ttl now d jti k u) in
      run-line_rows s' cs
      ∙ ap (λ q. enqueue_all q (accepted s' cs)) (polls-line s f secret ttl now d jti k u)
  run-line_rows s (advances k n ∷ cs) = run-line_rows (advance_admission k n s) cs

  run-InOrder :
      (s : Store) (cs : List Call)
      → Inv s
      → InOrder s.db.queue_entries
      → InOrder (run jwt s cs).db.queue_entries
  unfolding run step advance_admission
  run-InOrder s [] v h = h
  run-InOrder s (joins f now d sale user ∷ cs) v h =
      run-InOrder (join f now d sale user s).0 cs (step-Inv jwt s (joins f now d sale user) v)
        (join-InOrder f now d sale user s v h)
  run-InOrder s (polls f secret ttl now d jti k u ∷ cs) v h =
      run-InOrder (step jwt s (polls f secret ttl now d jti k u)) cs
        (step-Inv jwt s (polls f secret ttl now d jti k u) v)
        (status_keeps jwt (λ s'. InOrder s'.db.queue_entries) f secret ttl now d jti k u s h
          (mark_admitted-InOrder d k u s.db.queue_entries h))
  run-InOrder s (advances k n ∷ cs) v h =
      run-InOrder (advance_admission k n s) cs (step-Inv jwt s (advances k n) v) h

  -- From a queue in order in which the invariant holds, the rows implement the line, if the calls run
  -- one at a time, each to its end before the next begins: after any such sequence of calls, the users
  -- of a sale in the order of their rows are what the line becomes when the accepted joins enter it in
  -- the order in which they were answered, each user once and at the end; refused joins, polls and
  -- moves of the window leave it alone. And the order of the rows is that of the positions.
  pub run-line :
      (s : Store) (cs : List Call)
      → Inv s
      → InOrder s.db.queue_entries
      → (line j (run jwt s cs).db.queue_entries
          ≡ enqueue_all (line j s.db.queue_entries) (accepted s cs))
        × InOrder (run jwt s cs).db.queue_entries
  run-line s cs v h = (run-line_rows s cs, run-InOrder s cs v h)
