-- ===== src/WaitingRoom/Entries.antt =====
-- The table `queue_entries` of internal/waitingroom/service.go: its invariant, and what an INSERT
-- and an UPDATE do to a lookup.
use traffic_backend_queue.Common.{
  ℕ, ◌+◌, ◌≤◌, ◌<◌, ◌≡◌, refl, false, ◌&&◌, not, Option, none, some, List, [], ◌∷◌, ◌==◌,
  if◌then◌else◌, from_option, is_some, All, All-map, arith, Bool-cases, inl, inr,
}
use traffic_backend_queue.Storage.{QueueEntry, Store, find_entry, entry_of}
use traffic_backend_queue.WaitingRoom.{
  insert_entry, mark_admitted, take_position, next_position, position_taken,
}

-- The value of the counter `queue_seq` of a sale.
abbrev pub seq : Store → ℕ → ℕ
seq s sale = from_option 0 (s.redis.queue_seq sale)

abbrev pub InRange : Store → List QueueEntry → Type 0
InRange s = All λ e. (0 < e.position) × (e.position ≤ seq s e.sale_id)

-- UNIQUE (sale_id, user_id) and UNIQUE (sale_id, position)
abbrev pub Distinct : List QueueEntry → Type 0
Distinct [] = Unit
Distinct (e ∷ es) =
    (find_entry e.sale_id e.user_id es ≡ none)
    × (position_taken e.sale_id e.position es ≡ false)
    × Distinct es

pub record Inv (s : Store) : Type 0 where
  pub in_range : InRange s s.db.queue_entries
  pub distinct : Distinct s.db.queue_entries

pub next_position-seq : (sale : ℕ) (s : Store) → next_position sale s ≡ seq s sale + 1
unfolding next_position
next_position-seq sale s = refl

pub seq-take_position :
    (sale j : ℕ) (s : Store)
    → seq (take_position sale s) j ≡ (if sale == j then seq s sale + 1 else seq s j)
unfolding take_position
seq-take_position sale j s = ground arith

-- The counter never falls, so what was in range stays so.
pub InRange-take_position :
    (sale : ℕ) (s : Store) (es : List QueueEntry) → InRange s es → InRange (take_position sale s) es
InRange-take_position sale s es =
    All-map _ _ es (λ e h. ground (arith, h, seq-take_position sale e.sale_id s))

-- No row in range has the number that the counter gives next.
pub position_taken-next :
    (sale : ℕ) (s : Store) (es : List QueueEntry)
    → InRange s es
    → position_taken sale (next_position sale s) es ≡ false
unfolding position_taken next_position
position_taken-next sale s [] h = refl
position_taken-next sale s (e ∷ es) h = ground (arith, position_taken-next sale s es h.1)

pub find_entry_position-le :
    (sale user : ℕ) (s : Store) (es : List QueueEntry) (e : QueueEntry)
    → InRange s es
    → find_entry sale user es ≡ some e
    → (0 < e.position) × (e.position ≤ seq s sale)
unfolding find_entry
find_entry_position-le sale user s [] e h p = ground arith
find_entry_position-le sale user s (x ∷ es) e h p = elim (Bool-cases (entry_of sale user x)) [
  | inl hit ↦ ground arith
  | inr miss ↦ find_entry_position-le sale user s es e h.1 (ground arith)
]

pub find_entry-insert_entry :
    (now sale user position j k : ℕ) (s : Store)
    → find_entry j k (insert_entry now sale user position s).db.queue_entries ≡ (
        if sale == j && user == k
        then some (record {
          sale_id = sale;
          user_id = user;
          position = position;
          joined_at = now;
          admitted_at = none;
        })
        else find_entry j k s.db.queue_entries)
unfolding find_entry insert_entry
find_entry-insert_entry now sale user position j k s = refl

-- A row after `mark_admitted`.
abbrev pub marked : ℕ → ℕ → ℕ → QueueEntry → QueueEntry
marked now sale user e =
    if entry_of sale user e && not (is_some e.admitted_at)
    then record e { admitted_at = some now }
    else e

abbrev pub mark_found : ℕ → ℕ → ℕ → Option QueueEntry → Option QueueEntry
mark_found now sale user none = none
mark_found now sale user (some e) = some (marked now sale user e)

pub find_entry-mark_admitted :
    (now sale user j k : ℕ) (es : List QueueEntry)
    → find_entry j k (mark_admitted now sale user es) ≡ mark_found now sale user (find_entry j k es)
unfolding find_entry mark_admitted
find_entry-mark_admitted now sale user j k [] = refl
find_entry-mark_admitted now sale user j k (e ∷ es) =
    ground (arith, find_entry-mark_admitted now sale user j k es)

pub position_taken-mark_admitted :
    (now sale user j p : ℕ) (es : List QueueEntry)
    → position_taken j p (mark_admitted now sale user es) ≡ position_taken j p es
unfolding position_taken mark_admitted
position_taken-mark_admitted now sale user j p [] = refl
position_taken-mark_admitted now sale user j p (e ∷ es) =
    ground (arith, position_taken-mark_admitted now sale user j p es)

pub Distinct-mark_admitted :
    (now sale user : ℕ) (es : List QueueEntry)
    → Distinct es
    → Distinct (mark_admitted now sale user es)
unfolding mark_admitted
Distinct-mark_admitted now sale user [] h = tt
Distinct-mark_admitted now sale user (e ∷ es) h = ground (
  arith,
  find_entry-mark_admitted now sale user e.sale_id e.user_id es,
  position_taken-mark_admitted now sale user e.sale_id e.position es,
  Distinct-mark_admitted now sale user es h.2,
)

pub InRange-mark_admitted :
    (now sale user : ℕ) (s : Store) (es : List QueueEntry)
    → InRange s es
    → InRange s (mark_admitted now sale user es)
unfolding mark_admitted
InRange-mark_admitted now sale user s [] h = tt
InRange-mark_admitted now sale user s (e ∷ es) h =
    ground (arith, InRange-mark_admitted now sale user s es h.1)
