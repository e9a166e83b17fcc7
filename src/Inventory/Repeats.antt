-- ===== src/Inventory/Repeats.antt =====
-- The second of two calls of `Hold` in internal/inventory/service.go with one idempotency key.
use traffic_backend_queue.Common.{
  ℕ, ◌≡◌, ◌≤◌, refl, sym, ◌∙◌, ap, false, some, List, ◌∷◌, arith, inl, inr, ltb, length,
  if◌then◌else◌, All,
}
use mathlib.Core.Path.{subst}
use traffic_backend_queue.Storage.{Hold, Db}
use traffic_backend_queue.Inventory.{
  Faults, hold, HoldResult, ok, err, hold_expired, find_hold_by_key, result_of, Result,
}
use traffic_backend_queue.Inventory.Claims.{hold-ok, requested, Inv, hold-Inv}
use traffic_backend_queue.Orders.History.{Call, run}
use traffic_backend_queue.Inventory.Spared.{Spares, Kept, Kept-run, found-id}

-- The answer to a request whose key has a hold.
abbrev pub repeated : ℕ → HoldResult → Result HoldResult
repeated now r = if ltb r.expires_at now then err hold_expired else ok r

hold_found :
    (f : Faults) (ttl now db_now id sale user key : ℕ) (ids : List ℕ) (d : Db) (e : Hold)
    → 1 ≤ length ids
    → length ids ≤ 4
    → f.existing_query ≡ false
    → find_hold_by_key sale user key d.holds ≡ some e
    → hold f ttl now db_now id sale user key ids d ≡ (d, repeated now (result_of e))
unfolding hold
hold_found f ttl now db_now id sale user key ids d e lo hi q found = ground arith

first_found :
    (sale user key : ℕ) (h : Hold) (hs : List Hold)
    → h.sale_id ≡ sale
    → h.user_id ≡ user
    → h.idempotency_key ≡ key
    → find_hold_by_key sale user key (h ∷ hs) ≡ some h
unfolding find_hold_by_key
first_found sale user key h hs s u k = ground arith

-- A hold that succeeds is found by its key.
found_after :
    (f : Faults) (ttl now db_now id sale user key : ℕ) (ids : List ℕ) (d : Db) (r : HoldResult)
    → (hold f ttl now db_now id sale user key ids d).1 ≡ ok r
    → (e : Hold) × (find_hold_by_key sale user key
          (hold f ttl now db_now id sale user key ids d).0.holds
        ≡ some e)
      × (r ≡ result_of e)
found_after f ttl now db_now id sale user key ids d r h =
    elim (hold-ok f ttl now db_now id sale user key ids d r h) [
      | inl (e, found, _, same, unchanged) ↦ (e, rw unchanged found, same)
      | inr (same, holds, _, _, _, _) ↦
          let new = requested f ttl now db_now id sale user key ids d in
          (new, rw holds (first_found sale user key new d.holds refl refl refl), same)
    ]

-- After a hold that succeeds, a request of the same user for the same sale with the same key, for
-- whatever one to four seats, is answered with the first hold until that expires and refused as
-- expired from then on, and changes nothing, whatever holds, checkouts and rounds of the worker run
-- in between, one at a time: as long as no round has come after the expiry of the hold, which could
-- have deleted it. The query for the key does not fail, every seat was listed by the holds as often as
-- it was held, and the holds had different ids.
pub hold_again :
    (f g : Faults) (ttl now db_now id ttl' later db_later id' sale user key : ℕ) (ids ids' : List ℕ)
    (d : Db) (r : HoldResult) (cs : List Call)
    → Inv d
    → (hold f ttl now db_now id sale user key ids d).1 ≡ ok r
    → All (Spares r.expires_at) cs
    → 1 ≤ length ids'
    → length ids' ≤ 4
    → g.existing_query ≡ false
    → let d' = run (hold f ttl now db_now id sale user key ids d).0 cs in
      hold g ttl' later db_later id' sale user key ids' d' ≡ (d', repeated later r)
hold_again f g ttl now db_now id ttl' later db_later id' sale user key ids ids' d r cs v h spare lo
      hi q =
    let held = (hold f ttl now db_now id sale user key ids d).0 in
    let (e, found, same) = found_after f ttl now db_now id sale user key ids d r h in
    let v' = hold-Inv f ttl now db_now id sale user key ids d v in
    let k =
      Kept-run sale user key e cs held (subst (λ x. All (Spares x.expires_at) cs) same spare) v'
        (unfold Kept in (found, found-id sale user key held.holds e v'.unique found)) in
    let d' = run held cs in
    hold_found g ttl' later db_later id' sale user key ids' d' e lo hi q (unfold Kept in k.0)
    ∙ ap (λ x. (d', repeated later x)) (sym same)
