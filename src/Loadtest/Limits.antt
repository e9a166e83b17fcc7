-- ===== src/Loadtest/Limits.antt =====
-- The limits that internal/loadtest/limits.go puts on a request.
use traffic_backend_queue.Common.{
  ℕ, ◌≡◌, ◌*◌, true, false, arith, ℤ, pos, negsuc, is_positive, less,
}
use traffic_backend_queue.Loadtest.{
  Duration, empty, nanoseconds, malformed, RunRequest, Caps, apply, capped, cap_steady, positive_or,
  or_default,
}

less_irrefl : (n : ℤ) → less n n ≡ false
less_irrefl (pos n) = ground arith
less_irrefl (negsuc n) = ground arith

-- A duration that can be read is at most the maximum.
abbrev pub IsWithin : ℤ → Duration → Type 0
IsWithin m (nanoseconds n) = less m n ≡ false
IsWithin m empty = ⊥
IsWithin m (malformed s) = Unit

capped_within : (m n : ℤ) → is_positive m ≡ true → less m (capped m n) ≡ false
capped_within m n h = ground (arith, less_irrefl m)

cap_steady-IsWithin :
    (m : ℤ) (t : Duration) (d : ℕ)
    → is_positive m ≡ true
    → IsWithin m (cap_steady m (or_default t d))
cap_steady-IsWithin m empty d h = capped_within m (pos (d * 1000000000)) h
cap_steady-IsWithin m (nanoseconds n) d h = capped_within m n h
cap_steady-IsWithin m (malformed s) d h = tt

-- With positive maxima and a positive default, every request leaves with a positive number of users
-- that is at most the maximum, with a steady phase that is at most the maximum where it can be
-- read, and with a positive rate, room and number of seats.
pub apply-IsWithin :
    (l : Caps) (req : RunRequest)
    → is_positive l.max_vus ≡ true
    → is_positive l.default_vus ≡ true
    → is_positive l.max_steady ≡ true
    → (is_positive (apply l req).vus_max ≡ true)
      × (less l.max_vus (apply l req).vus_max ≡ false)
      × IsWithin l.max_steady (apply l req).steady
      × (is_positive (apply l req).admit_per_minute ≡ true)
      × (is_positive (apply l req).waiting_room_cap ≡ true)
      × (is_positive (apply l req).total_seats ≡ true)
unfolding apply
apply-IsWithin l req a b c = (
  ground arith,
  capped_within l.max_vus (positive_or req.vus_max l.default_vus) a,
  cap_steady-IsWithin l.max_steady req.steady 30 c,
  ground arith,
  ground arith,
  ground arith,
)
