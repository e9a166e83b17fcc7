-- ===== src/Startup/Unreadable.antt =====
-- Variables whose text `Atoi` refuses, where `Load` of internal/config/config.go ignores the error.
use traffic_backend_queue.Common.{
  All, ℕ, ◌+◌, ◌≡◌, ◌<◌, ◌≤◌, sym, if◌then◌else◌, length, ◌≢◌, refl, ap, ◌∙◌, false, none, List, [],
  ◌∷◌, pos, arith, inl, inr, ltb, true, ℤ,
}
use mathlib.Core.Path.{subst}
use traffic_backend_queue.Storage.{Db}
use traffic_backend_queue.Config.{
  Text, Environment, Variable, hold_ttl_minutes, load, atoi, bad_syntax, get_env, text_or, value_of,
  codes, duration,
}
use traffic_backend_queue.Loadtest.{RunRequest, Duration, apply}
use traffic_backend_queue.Startup.{limits_of}
use traffic_backend_queue.Inventory.{
  Faults, hold, HoldResult, ok, err, hold_expired, find_hold_by_key,
}
use traffic_backend_queue.Inventory.Repeats.{hold_again}
use traffic_backend_queue.Inventory.Spared.{Spares}
use traffic_backend_queue.Orders.History.{Call, run}
use traffic_backend_queue.Inventory.Claims.{hold-ok, Inv}

value_unreadable :
    (s default : Text) → s ≢ [] → atoi s ≡ bad_syntax → value_of (atoi (text_or default s)) ≡ pos 0
value_unreadable [] default n e = absurd (n refl)
value_unreadable (c ∷ cs) default n e = ap value_of e

hold_ttl_zero :
    (env : Environment)
    → env hold_ttl_minutes ≢ []
    → atoi (env hold_ttl_minutes) ≡ bad_syntax
    → (load env).hold_ttl ≡ pos 0
unfolding load get_env duration
hold_ttl_zero env n e = rw (value_unreadable (env hold_ttl_minutes) (codes "12") n e) refl

steady_zero :
    (env : Environment)
    → env Variable.loadtest_max_steady_sec ≢ []
    → atoi (env Variable.loadtest_max_steady_sec) ≡ bad_syntax
    → (limits_of (load env)).max_steady ≡ pos 0
unfolding load limits_of get_env duration
steady_zero env n e =
    rw (value_unreadable (env Variable.loadtest_max_steady_sec) (codes "90") n e) refl

-- Where LOADTEST_MAX_STEADY_SEC is set to a text that is no number, no load test is held to any
-- duration: the limits keep whatever steady phase a request asks for.
pub unreadable_steady_uncapped :
    (env : Environment) (req : RunRequest) (n : ℤ)
    → env Variable.loadtest_max_steady_sec ≢ []
    → atoi (env Variable.loadtest_max_steady_sec) ≡ bad_syntax
    → req.steady ≡ Duration.nanoseconds n
    → (apply (limits_of (load env)) req).steady ≡ req.steady
unfolding apply
unreadable_steady_uncapped env req n there e steady = rw (steady_zero env there e, steady) refl

pos_injective : {m n : ℕ} → pos m ≡ pos n → m ≡ n
pos_injective e = cc

new_expires_at :
    (f : Faults) (ttl now db_now id sale user key : ℕ) (ids : List ℕ) (d : Db) (r : HoldResult)
    → find_hold_by_key sale user key d.holds ≡ none
    → (hold f ttl now db_now id sale user key ids d).1 ≡ ok r
    → r.expires_at ≡ now + ttl
new_expires_at f ttl now db_now id sale user key ids d r new h =
    elim (hold-ok f ttl now db_now id sale user key ids d r h) [
      | inl (e, found, _, same, unchanged) ↦ absurd cc
      | inr (same, _, _, _, _, _) ↦ ap (λ (x : HoldResult). x.expires_at) same
    ]

-- Where HOLD_TTL_MINUTES is set to a text that is no number, a hold of one to four seats that the
-- server gives for a new key has expired at any later time: the same request is then refused as
-- expired and changes nothing, whatever holds, checkouts and rounds of the worker run in between, one
-- at a time, as long as no round has come after the time of the hold, which could have deleted it.
-- The second query for the key does not fail, every seat was listed by the holds as often as it was
-- held, and the holds had different ids.
pub unreadable_ttl_expires :
    (env : Environment) (f g : Faults) (ttl now db_now later db_later id id' sale user key : ℕ)
    (ids : List ℕ) (d : Db) (r : HoldResult) (cs : List Call)
    → env hold_ttl_minutes ≢ []
    → atoi (env hold_ttl_minutes) ≡ bad_syntax
    → (load env).hold_ttl ≡ pos ttl
    → Inv d
    → find_hold_by_key sale user key d.holds ≡ none
    → (hold f ttl now db_now id sale user key ids d).1 ≡ ok r
    → All (Spares now) cs
    → 1 ≤ length ids
    → length ids ≤ 4
    → g.existing_query ≡ false
    → now < later
    → let d' = run (hold f ttl now db_now id sale user key ids d).0 cs in
      hold g ttl later db_later id' sale user key ids d' ≡ (d', err hold_expired)
unreadable_ttl_expires env f g ttl now db_now later db_later id id' sale user key ids d r cs there
      bad loaded v new h spare lo hi q lt =
    let zero_ttl : ttl ≡ 0 = pos_injective (sym loaded ∙ hold_ttl_zero env there bad) in
    let expires = new_expires_at f ttl now db_now id sale user key ids d r new h in
    let at_once : now ≡ r.expires_at = omega (arith, zero_ttl, expires) in
    let again =
      hold_again f g ttl now db_now id ttl later db_later id' sale user key ids ids d r cs v h
        (subst (λ t. All (Spares t) cs) at_once spare) lo hi q in
    let past : ltb r.expires_at later ≡ true = ground (arith, zero_ttl, expires) in
    again
    ∙ ap
        (λ b. (
          run (hold f ttl now db_now id sale user key ids d).0 cs,
          if b then err hold_expired else ok r,
        ))
        past
