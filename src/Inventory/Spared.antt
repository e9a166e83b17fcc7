-- ===== src/Inventory/Spared.antt =====
-- A hold that the rounds of ReleaseExpired in internal/inventory/service.go spare stays in the table
-- under its id and its key.
use traffic_backend_queue.Common.{
  All-take, All-select, none, ◌⊎◌, ℕ, ◌+◌, ◌≡◌, ◌≢◌, ◌≤◌, refl, sym, ◌∙◌, ap, Bool, true, false,
  some, List, [], ◌∷◌, arith, inl, inr, ◌==◌, ◌&&◌, if◌then◌else◌, All, Bool-cases, take, select,
}
use mathlib.Core.Path.{subst}
use traffic_backend_queue.Storage.{Hold, Db}
use traffic_backend_queue.Inventory.{
  Faults, hold, find_hold, find_hold_by_key, hold_tx, hold_new, can_insert, remove_hold, release_tx,
  release_rows, release_expired, TxFault, is_expired, is_referenced,
}
use traffic_backend_queue.Inventory.Claims.{requested, UniqueIds, Inv}
use traffic_backend_queue.Inventory.Release.{release_tx-outcome, release_rows_cases}
use traffic_backend_queue.Inventory.Expiry.{selected-Rows}
use traffic_backend_queue.Orders.Checkout.{checkout-db}
use traffic_backend_queue.Orders.History.{
  Call, holds_seats, checks_out, releases, step, run, step-Inv,
}

-- A hold has been put in front of the others, none of which has its id or its key.
abbrev Added : Hold → Db → Db → Type 0
Added h d d' =
    (find_hold h.id d.holds ≡ none)
    × (find_hold_by_key h.sale_id h.user_id h.idempotency_key d.holds ≡ none)
    × (d'.holds ≡ h ∷ d.holds)

hold_tx_adds :
    (f : Faults) (h : Hold) (d : Db) → ((hold_tx f h d).0 ≡ d) ⊎ Added h d (hold_tx f h d).0
unfolding hold_tx can_insert
hold_tx_adds f h d = ground arith

hold_adds :
    (f : Faults) (ttl now db_now id sale user key : ℕ) (ids : List ℕ) (d : Db)
    → ((hold f ttl now db_now id sale user key ids d).0 ≡ d)
      ⊎ Added
          (requested f ttl now db_now id sale user key ids d)
          d
          (hold f ttl now db_now id sale user key ids d).0
unfolding hold hold_new
hold_adds f ttl now db_now id sale user key ids d =
    ground (arith, hold_tx_adds f (requested f ttl now db_now id sale user key ids d) d)

some_injective : {h k : Hold} → some h ≡ some k → h ≡ k
some_injective e = cc

-- No round of the worker comes after the time.
abbrev pub Spares : ℕ → Call → Type 0
Spares expires_at (releases query_fails fault db_now) = db_now ≤ expires_at
Spares expires_at _ = Unit

module _ (sale user key : ℕ) (e : Hold) where
  -- The hold is in the table, and the key has it.
  unfoldable pub Kept : Db → Type 0
  Kept d = (find_hold_by_key sale user key d.holds ≡ some e) × (find_hold e.id d.holds ≡ some e)

  key_left :
      (h : Hold) (hs : List Hold)
      → h ≢ e
      → find_hold_by_key sale user key (h ∷ hs) ≡ some e
      → find_hold_by_key sale user key hs ≡ some e
  unfolding find_hold_by_key
  key_left h hs n k =
      elim (Bool-cases (h.sale_id == sale && h.user_id == user && h.idempotency_key == key)) [
        | inl hit ↦ absurd (n (ground (arith, hit, k)))
        | inr miss ↦ ground (arith, miss, k)
      ]

  key_remains :
      (i : ℕ) (hs : List Hold)
      → e.id ≢ i
      → find_hold_by_key sale user key hs ≡ some e
      → find_hold_by_key sale user key (remove_hold i hs) ≡ some e
  unfolding find_hold_by_key remove_hold
  key_remains i [] n k = absurd cc
  key_remains i (h ∷ hs) n k = elim (Bool-cases (h.id == i)) [
    | inl hit ↦
        let same : h.id ≡ i = ground (arith, hit) in
        let left = key_left h hs (λ y. n (sym (ap (λ (z : Hold). z.id) y) ∙ same)) k in
        ground (arith, hit, left)
    | inr miss ↦ ground (arith, miss, k, key_remains i hs n)
  ]

  id_remains :
      (i : ℕ) (hs : List Hold)
      → e.id ≢ i
      → find_hold e.id hs ≡ some e
      → find_hold e.id (remove_hold i hs) ≡ some e
  unfolding find_hold remove_hold
  id_remains i [] n q = absurd cc
  id_remains i (h ∷ hs) n q = ground (arith, n, q, id_remains i hs n)

  key_over :
      (h : Hold) (hs : List Hold)
      → find_hold_by_key h.sale_id h.user_id h.idempotency_key hs ≡ none
      → find_hold_by_key sale user key hs ≡ some e
      → find_hold_by_key sale user key (h ∷ hs) ≡ some e
  unfolding find_hold_by_key
  key_over h hs free k =
      elim (Bool-cases (h.sale_id == sale && h.user_id == user && h.idempotency_key == key)) [
        | inl hit ↦ absurd (ground (arith, hit, free, k))
        | inr miss ↦ ground (arith, miss, k)
      ]

  Kept-Added : (h : Hold) (d d' : Db) → Added h d d' → Kept d → Kept d'
  unfolding Kept find_hold find_hold_by_key
  Kept-Added h d d' (id_free, key_free, q) (k, found) =
      rw q (key_over h d.holds key_free k, ground (arith, id_free, found))

  Kept-hold :
      (f : Faults) (ttl now db_now id sale' user' key' : ℕ) (ids : List ℕ) (d : Db)
      → Kept d
      → Kept (hold f ttl now db_now id sale' user' key' ids d).0
  Kept-hold f ttl now db_now id sale' user' key' ids d k =
      elim (hold_adds f ttl now db_now id sale' user' key' ids d) [
        | inl same ↦ subst Kept (sym same) k
        | inr added ↦ Kept-Added (requested f ttl now db_now id sale' user' key' ids d) d _ added k
      ]

  Kept-release_tx : (h : Hold) (d : Db) → h.id ≢ e.id → Kept d → Kept (release_tx h d).0
  unfolding Kept
  Kept-release_tx h d n (k, q) =
      rw (release_tx-outcome h d) (elim (Bool-cases (is_referenced h.id d.orders)) [
        | inl r ↦ rw r (k, q)
        | inr r ↦ rw r (
          key_remains h.id d.holds (λ x. n (sym x)) k,
          id_remains h.id d.holds (λ x. n (sym x)) q,
        )
      ])

  -- The hold itself is not among the rows.
  Kept-release_rows :
      (fault : ℕ → TxFault) (rows : List Hold) (n : ℕ) (d : Db)
      → All (λ h. h.id ≢ e.id) rows
      → Kept d
      → Kept (release_rows fault rows n d).0
  unfolding release_rows
  Kept-release_rows fault [] n d a k = k
  Kept-release_rows fault (h ∷ rows) n d a k =
      let m = if (release_tx h d).1 then n + 1 else n in
      release_rows_cases (λ x. Kept x.0) fault h rows n d
        (Kept-release_rows fault rows m (release_tx h d).0 a.1 (Kept-release_tx h d a.0 k)) k
        (Kept-release_rows fault rows n d a.1 k) (fault h.id) refl

  -- A hold that has not expired is not among the rows that a round reads.
  spared :
      (db_now : ℕ) (hs rows : List Hold)
      → db_now ≤ e.expires_at
      → find_hold e.id hs ≡ some e
      → All (λ h. find_hold h.id hs ≡ some h) rows
      → All (λ h. is_expired db_now h ≡ true) rows
      → All (λ h. h.id ≢ e.id) rows
  spared db_now hs [] le q a b = tt
  spared db_now hs (h ∷ rows) le q a b =
      let differ : h ≢ e = λ y. ground (arith, ap (λ (z : Hold). z.expires_at) y, b.0, le) in
      (
        (λ x. differ (some_injective (sym a.0 ∙ ap (λ i. find_hold i hs) x ∙ q))),
        spared db_now hs rows le q a.1 b.1,
      )

  Kept-release_expired :
      (query_fails : Bool) (fault : ℕ → TxFault) (db_now : ℕ) (d : Db)
      → db_now ≤ e.expires_at
      → UniqueIds d.holds
      → Kept d
      → Kept (release_expired query_fails fault db_now d).0
  unfolding release_expired
  Kept-release_expired true fault db_now d le u k = k
  Kept-release_expired false fault db_now d le u k =
      let rows = select (is_expired db_now) d.holds in
      Kept-release_rows fault (take 100 rows) 0 d
        (spared db_now d.holds (take 100 rows) le (unfold Kept in k.1) (selected-Rows db_now d u).0
          (All-take _ 100 rows (All-select (is_expired db_now) d.holds)))
        k

  pub Kept-run :
      (cs : List Call) (d : Db) → All (Spares e.expires_at) cs → Inv d → Kept d → Kept (run d cs)
  unfolding run step
  Kept-run [] d a v k = k
  Kept-run (c ∷ cs) d a v k = Kept-run cs (step d c) a.1 (step-Inv d c v) (first c a.0)
    where
      first : (c : Call) → Spares e.expires_at c → Kept (step d c)
      first (holds_seats f ttl now db_now id sale' user' key' ids) x =
          Kept-hold f ttl now db_now id sale' user' key' ids d k
      first (checks_out f draw owner_hash db_now order sale' user' key' hold_id) x =
          subst Kept (sym (checkout-db f draw owner_hash db_now order sale' user' key' hold_id d)) k
      first (releases query_fails fault db_now) x =
          Kept-release_expired query_fails fault db_now d x v.unique k

pub found-id :
    (sale user key : ℕ) (hs : List Hold) (e : Hold)
    → UniqueIds hs
    → find_hold_by_key sale user key hs ≡ some e
    → find_hold e.id hs ≡ some e
unfolding find_hold_by_key find_hold
found-id sale user key [] e u k = absurd cc
found-id sale user key (h ∷ hs) e u k =
    elim (Bool-cases (h.sale_id == sale && h.user_id == user && h.idempotency_key == key)) [
      | inl hit ↦
          let same : h ≡ e = ground (arith, hit, k) in
          ground (arith, same, ap (λ (z : Hold). z.id) same)
      | inr miss ↦
          let left = found-id sale user key hs e u.1 (ground (arith, miss, k)) in
          let differ : h.id ≢ e.id = λ x. ground (arith, u.0, left, ap (λ i. find_hold i hs) x) in
          ground (arith, left, differ)
    ]
