-- ===== src/Antibot.antt =====
-- internal/antibot/limiter.go: counters in Redis that expire.
pub mod Windows
pub mod Examples
use traffic_backend_queue.Common.{
  ℕ, ◌+◌, ◌*◌, Bool, true, false, ◌&&◌, Option, none, some, ◌==◌, ltb, leb, if◌then◌else◌,
}

pub data Kind : Type 0 where
  ip_join user_join ip_checkout user_checkout : Kind

abbrev pub same_kind : Kind → Kind → Bool
same_kind ip_join ip_join = true
same_kind user_join user_join = true
same_kind ip_checkout ip_checkout = true
same_kind user_checkout user_checkout = true
same_kind _ _ = false

-- The keys `ratelimit:<kind>:<id>`: the count, and the time at which the key expires.
abbrev pub Counters : Type 0
Counters = Kind → ℕ → Option (ℕ × ℕ)

abbrev pub live_count : ℕ → Option (ℕ × ℕ) → ℕ
live_count now none = 0
live_count now (some (n, expires)) = if ltb now expires then n else 0

-- `INCR` and `EXPIRE` in one pipeline; `none` is an error. A pipeline that fails is taken to have
-- changed nothing.
unfoldable pub allow :
    Bool → (now : ℕ) → Kind → (id limit window : ℕ) → Counters → Counters × Option Bool
allow fails now kind id limit window c =
    if fails
    then (c, none)
    else let n = live_count now (c kind id) + 1 in
      (
        λ kind' id'.
            if same_kind kind kind' && id == id' then some (n, now + window) else c kind' id',
        some (leb n limit),
      )

abbrev pub minute : ℕ
minute = 60 * 1000000000

-- Which of the two pipelines fail.
pub record Faults : Type 0 where
  pub ip : Bool
  pub user : Bool

unfoldable pub allow_join : Faults → (now user_id ip : ℕ) → Counters → Counters × Option Bool
unfolding allow
allow_join f now user_id ip c =
    let (c', ok_ip) = allow f.ip now ip_join ip 30 minute c in
    elim ok_ip [
      | some true ↦
          let (c'', ok_user) = allow f.user now user_join user_id 10 minute c' in
          elim ok_user [
            | some true ↦ (c'', some true)
            | some false ↦ (c'', some false)
            | none ↦ (c'', none)
          ]
      | some false ↦ (c', some false)
      | none ↦ (c', none)
    ]

unfoldable pub allow_checkout : Faults → (now user_id ip : ℕ) → Counters → Counters × Option Bool
unfolding allow
allow_checkout f now user_id ip c =
    let (c', ok_ip) = allow f.ip now ip_checkout ip 3 minute c in
    elim ok_ip [
      | some true ↦ allow f.user now user_checkout user_id 5 minute c'
      | some false ↦ (c', some false)
      | none ↦ (c', none)
    ]
