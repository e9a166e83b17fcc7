-- ===== src/Inventory/Rounds.antt =====
-- Many rounds of `ReleaseExpired` in internal/inventory/service.go, of which each takes 100 holds.
use traffic_backend_queue.Common.{
  ℕ, zero, suc, ◌+◌, ◌*◌, ◌≡◌, ◌≤◌, refl, ap, Bool, true, false, some, List, [], ◌∷◌, ◌==◌, arith,
  All, All-map, All-take, All-select, length, take, select, Bool-cases, inl, inr, ltb,
}
use traffic_backend_queue.Storage.{Hold, Db}
use traffic_backend_queue.Inventory.{find_hold, remove_hold, fine, release_expired, is_expired}
use traffic_backend_queue.Inventory.Claims.{UniqueIds}
use traffic_backend_queue.Inventory.Release.{UniqueIds-remove_hold, rows_left}
use traffic_backend_queue.Inventory.Expiry.{
  remove_all, release_rows_all, selected-Rows, Unreferenced, take_all, release_expired-tables,
}

-- How many holds have expired at a time.
abbrev pub expired_count : ℕ → List Hold → ℕ
expired_count t hs = length (select (is_expired t) hs)

expired_count-remove_hold :
    (t : ℕ) (h : Hold) (hs : List Hold)
    → find_hold h.id hs ≡ some h
    → is_expired t h ≡ true
    → expired_count t (remove_hold h.id hs) + 1 ≡ expired_count t hs
unfolding find_hold remove_hold
expired_count-remove_hold t h [] e x = cc
expired_count-remove_hold t h (y ∷ ys) e x = elim (Bool-cases (y.id == h.id)) [
  | inl hit ↦ let same : y ≡ h = ground arith in ground (arith, same)
  | inr miss ↦ ground (arith, expired_count-remove_hold t h ys (ground arith) x)
]

-- The rows are rows of the table.
abbrev pub Found : List Hold → List Hold → Type 0
Found rows hs = All (λ h. find_hold h.id hs ≡ some h) rows × UniqueIds rows

expired_count-remove_all :
    (t : ℕ) (rows hs : List Hold)
    → Found rows hs
    → All (λ h. is_expired t h ≡ true) rows
    → expired_count t (remove_all rows hs) + length rows ≡ expired_count t hs
unfolding remove_all
expired_count-remove_all t [] hs f x = omega arith
expired_count-remove_all t (h ∷ rows) hs ((found, rest), (new, u)) (x, xs) = omega (
  arith,
  expired_count-remove_all t rows (remove_hold h.id hs) (rows_left h.id hs rows new rest, u) xs,
  expired_count-remove_hold t h hs found x,
)

expired_count-remove_le :
    (t i : ℕ) (hs : List Hold) → expired_count t (remove_hold i hs) ≤ expired_count t hs
unfolding remove_hold
expired_count-remove_le t i [] = omega arith
expired_count-remove_le t i (x ∷ xs) = elim (Bool-cases (x.id == i)) [
  | inl hit ↦ ground arith
  | inr miss ↦ ground (arith, expired_count-remove_le t i xs)
]

expired_count-remove_all_le :
    (t : ℕ) (rows hs : List Hold) → expired_count t (remove_all rows hs) ≤ expired_count t hs
unfolding remove_all
expired_count-remove_all_le t [] hs = omega arith
expired_count-remove_all_le t (r ∷ rows) hs = omega (
  arith,
  expired_count-remove_all_le t rows (remove_hold r.id hs),
  expired_count-remove_le t r.id hs,
)

UniqueIds-remove_all : (rows hs : List Hold) → UniqueIds hs → UniqueIds (remove_all rows hs)
unfolding remove_all
UniqueIds-remove_all [] hs u = u
UniqueIds-remove_all (r ∷ rows) hs u =
    UniqueIds-remove_all rows (remove_hold r.id hs) (UniqueIds-remove_hold r.id hs u)

remove_hold-All : (P : Hold → Type 0) (i : ℕ) (hs : List Hold) → All P hs → All P (remove_hold i hs)
unfolding remove_hold
remove_hold-All P i [] a = tt
remove_hold-All P i (x ∷ xs) a = elim (Bool-cases (x.id == i)) [
  | inl hit ↦ ground (arith, a.1)
  | inr miss ↦ ground (arith, a.0, remove_hold-All P i xs a.1)
]

remove_all-All : (P : Hold → Type 0) (rows hs : List Hold) → All P hs → All P (remove_all rows hs)
unfolding remove_all
remove_all-All P [] hs a = a
remove_all-All P (r ∷ rows) hs a =
    remove_all-All P rows (remove_hold r.id hs) (remove_hold-All P r.id hs a)

expired_count_mono : (t u : ℕ) (hs : List Hold) → t ≤ u → expired_count t hs ≤ expired_count u hs
expired_count_mono t u [] le = omega arith
expired_count_mono t u (x ∷ xs) le = ground (arith, expired_count_mono t u xs le)

select-All : (P : Hold → Type 0) (p : Hold → Bool) (hs : List Hold) → All P hs → All P (select p hs)
select-All P p [] a = tt
select-All P p (x ∷ xs) a = elim (Bool-cases (p x)) [
  | inl hit ↦ rw hit (a.0, select-All P p xs a.1)
  | inr miss ↦ rw miss (select-All P p xs a.1)
]

length-take_full : (n : ℕ) (hs : List Hold) → n ≤ length hs → length (take n hs) ≡ n
length-take_full zero hs h = refl
length-take_full (suc n) [] h = absurd (omega arith)
length-take_full (suc n) (x ∷ xs) h = omega (arith, length-take_full n xs (omega arith))

-- A round in which nothing fails.
pub round : ℕ → Db → Db
unfolding release_expired
round t d = (release_expired false (λ id. fine) t d).0

pub rounds : List ℕ → Db → Db
rounds [] d = d
rounds (t ∷ ts) d = rounds ts (round t d)

abbrev taken : ℕ → Db → List Hold
taken t d = take 100 (select (is_expired t) d.holds)

-- The ids are different, and no order refers to a hold.
abbrev pub Releasable : Db → Type 0
Releasable d = UniqueIds d.holds × Unreferenced d.orders d.holds

taken-Unreferenced : (t : ℕ) (d : Db) → Releasable d → Unreferenced d.orders (taken t d)
taken-Unreferenced t d (u, free) =
    All-take _ 100 (select (is_expired t) d.holds) (select-All _ (is_expired t) d.holds free)

round-holds : (t : ℕ) (d : Db) → Releasable d → (round t d).holds ≡ remove_all (taken t d) d.holds
unfolding round
round-holds t d r = (release_rows_all (taken t d) 0 d (taken-Unreferenced t d r)).0

round-orders : (t : ℕ) (d : Db) → (round t d).orders ≡ d.orders
unfolding round
round-orders t d = (release_expired-tables false (λ id. fine) t d).0

round-Releasable : (t : ℕ) (d : Db) → Releasable d → Releasable (round t d)
round-Releasable t d r =
    rw (round-holds t d r, round-orders t d)
      (UniqueIds-remove_all (taken t d) d.holds r.0, remove_all-All _ (taken t d) d.holds r.1)

-- What a round takes, counted at a later time.
round-count :
    (t u : ℕ) (d : Db)
    → t ≤ u
    → Releasable d
    → expired_count u (round t d).holds + length (taken t d) ≡ expired_count u d.holds
round-count t u d le r =
    let all_expired =
      All-take _ 100 (select (is_expired t) d.holds) (All-select (is_expired t) d.holds) in
    let expired_later =
      All-map _ (λ h. is_expired u h ≡ true) (taken t d) (λ h e. ground arith) all_expired in
    rw (round-holds t d r)
      (expired_count-remove_all u (taken t d) d.holds (selected-Rows t d r.0) expired_later)

rounds-le :
    (t : ℕ) (ts : List ℕ) (d : Db)
    → Releasable d
    → expired_count t (rounds ts d).holds ≤ expired_count t d.holds
unfolding rounds
rounds-le t [] d r = omega arith
rounds-le t (u ∷ ts) d r =
    let fewer : expired_count t (round u d).holds ≤ expired_count t d.holds =
      rw (round-holds u d r) (expired_count-remove_all_le t (taken u d) d.holds) in
    omega (arith, rounds-le t ts (round u d) (round-Releasable u d r), fewer)

-- The worker catches up: where no order refers to a hold and nothing fails, after one round for each
-- 100 holds that will have expired at the last round, every hold that had expired at the first is
-- gone, in whatever order the rounds take them.
pub rounds_release_all :
    (first last : ℕ) (ts : List ℕ) (d : Db)
    → Releasable d
    → first ≤ last
    → All (λ t. (first ≤ t) × (t ≤ last)) ts
    → expired_count last d.holds ≤ 100 * length ts
    → expired_count first (rounds ts d).holds ≡ 0
unfolding rounds
rounds_release_all first last [] d r le within few =
    omega (arith, few, expired_count_mono first last d.holds le)
rounds_release_all first last (t ∷ ts) d r le ((lo, hi), within) few =
    let next = round-Releasable t d r in
    elim (Bool-cases (ltb 100 (expired_count t d.holds))) [
      | inl many ↦
          let full = length-take_full 100 (select (is_expired t) d.holds) (ground arith) in
          rounds_release_all first last ts (round t d) next le within
            (omega (arith, few, full, round-count t last d hi r))
      | inr all ↦
          let same : length (taken t d) ≡ expired_count t d.holds =
            ap length (take_all 100 (select (is_expired t) d.holds) (ground arith)) in
          omega (
            arith,
            same,
            round-count t t d (omega arith) r,
            expired_count_mono first t (round t d).holds lo,
            rounds-le first ts (round t d) next,
          )
    ]
