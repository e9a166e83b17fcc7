-- ===== src/Antibot/Windows.antt =====
-- What the limiter of internal/antibot/limiter.go lets through over time.
use traffic_backend_queue.Common.{
  ℕ, ◌+◌, ◌-◌, ◌<◌, ◌≡◌, refl, true, false, ◌&&◌, some, leb, if◌then◌else◌, List, [], ◌∷◌, length,
  arith, ◌∙◌, ==_refl,
}
use traffic_backend_queue.Antibot.{
  Kind, ip_join, user_join, ip_checkout, user_checkout, same_kind, Counters, live_count, allow,
  minute, allow_join,
}

same_kind_refl : (k : Kind) → same_kind k k ≡ true
same_kind_refl ip_join = refl
same_kind_refl user_join = refl
same_kind_refl ip_checkout = refl
same_kind_refl user_checkout = refl

-- How many of the attempts of one key, at the given times, are let through.
pub allowed : Kind → (id limit window : ℕ) → List ℕ → Counters → ℕ
allowed kind id limit window [] c = 0
allowed kind id limit window (t ∷ ts) c =
    let (c', r) = allow false t kind id limit window c in
    (elim r [ some true ↦ 1 | _ ↦ 0 ]) + allowed kind id limit window ts c'

-- Each attempt comes before the window of the one before it has passed.
abbrev pub Steady : (window now : ℕ) → List ℕ → Type 0
Steady window now [] = Unit
Steady window now (t ∷ ts) = (t < now + window) × Steady window t ts

allow-count :
    (now : ℕ) (kind : Kind) (id limit window : ℕ) (c : Counters)
    → (allow false now kind id limit window c).0 kind id
      ≡ some (live_count now (c kind id) + 1, now + window)
unfolding allow
allow-count now kind id limit window c = ground (arith, same_kind_refl kind, ==_refl id)

allow-result :
    (now : ℕ) (kind : Kind) (id limit window : ℕ) (c : Counters)
    → (allow false now kind id limit window c).1 ≡ some (leb (live_count now (c kind id) + 1) limit)
unfolding allow
allow-result now kind id limit window c = refl

allowed_from :
    (kind : Kind) (id limit window n now : ℕ) (ts : List ℕ) (c : Counters)
    → c kind id ≡ some (n, now + window)
    → Steady window now ts
    → allowed kind id limit window ts c
      ≡ (if leb (length ts) (limit - n) then length ts else limit - n)
unfolding allowed
allowed_from kind id limit window n now [] c h s = ground arith
allowed_from kind id limit window n now (t ∷ ts) c h s = ground (
  arith,
  allow-result t kind id limit window c,
  allowed_from kind id limit window (n + 1) t ts (allow false t kind id limit window c).0
      (allow-count t kind id limit window c ∙ ground (arith, s.0)) s.1,
)

-- A caller whose key is not counted yet, and who then tries again and again with less than a window
-- between two attempts, gets exactly the first `limit` attempts through, however long it goes on:
-- an attempt that is turned away renews the window too.
pub allowed-Steady :
    (kind : Kind) (id limit window t : ℕ) (ts : List ℕ) (c : Counters)
    → live_count t (c kind id) ≡ 0
    → 0 < limit
    → Steady window t ts
    → allowed kind id limit window (t ∷ ts) c
      ≡ (if leb (length (t ∷ ts)) limit then length (t ∷ ts) else limit)
unfolding allowed
allowed-Steady kind id limit window t ts c h pos s = ground (
  arith,
  allow-result t kind id limit window c,
  allowed_from kind id limit window 1 t ts (allow false t kind id limit window c).0
      (allow-count t kind id limit window c ∙ ground (arith, h)) s,
)

-- `allow_join` lets a user through exactly if both counters are within their limits; an address that
-- is over its limit is not counted against the user.
pub allow_join_lem :
    (now user ip : ℕ) (c : Counters)
    → let (c', r) = allow_join (record { ip = false; user = false }) now user ip c in
      (r
        ≡ some (
            leb (live_count now (c ip_join ip) + 1) 30
            && leb (live_count now (c user_join user) + 1) 10))
      × (c' ip_join ip ≡ some (live_count now (c ip_join ip) + 1, now + minute))
      × (c' user_join user ≡ (
          if leb (live_count now (c ip_join ip) + 1) 30
          then some (live_count now (c user_join user) + 1, now + minute)
          else c user_join user))
unfolding allow_join
allow_join_lem now user ip c = ground (arith, ==_refl ip, ==_refl user)
