-- ===== src/Loadtest/Listing.antt =====
-- ListResults of internal/loadtest/store.go, and ListRuns of service.go.
use traffic_backend_queue.Common.{
  ℕ, ◌≡◌, ◌≤◌, ap, sym, ◌∙◌, ◌≤ℤ◌, Bool, true, false, ◌&&◌, Option, none, some, List, [], ◌∷◌, ◌++◌,
  ltb, if◌then◌else◌, length, take, ℤ, pos, negsuc, is_positive, arith, All, Sorted, sort_by,
  sort_by-Sorted, All-sort_by, sort_by-All, length-sort_by, Bool-cases, inl, inr, drop, append_nil,
  take-drop, length-take,
}
use mathlib.Core.Path.{subst}
use traffic_backend_queue.Loadtest.{Store, Dir, ResultFile, RunResult, read_result}

-- The results of the entries that can be read.
unfoldable pub readable : Store → Dir ResultFile → List RunResult
readable s [] = []
readable s ((id, file) ∷ d) =
    let rest = readable s d in elim (read_result s id) [ none ↦ rest | some r ↦ r ∷ rest ]

-- The comparison by the times of finishing, and by the ids where neither has finished.
abbrev pub finished_later : (ids : Bool) → Option ℕ → Option ℕ → Bool
finished_later ids none none = ids
finished_later ids none (some u) = true
finished_later ids (some t) none = false
finished_later ids (some t) (some u) = ltb u t

-- `greater` is the order of the texts of two ids.
abbrev pub is_listed_before : (ℕ → ℕ → Bool) → RunResult → RunResult → Bool
is_listed_before greater a b =
    finished_later (greater a.run_id b.run_id) a.finished_at b.finished_at

abbrev pub limited : ℤ → List RunResult → List RunResult
limited (pos n) rs = if ltb 0 n && ltb n (length rs) then take n rs else rs
limited (negsuc n) rs = rs

unfoldable pub list_results :
    (dir_fails : Bool) → (ℕ → ℕ → Bool) → (limit : ℤ) → Store → Option (List RunResult)
unfolding readable sort_by
list_results dir_fails greater limit s =
    if dir_fails
    then none
    else some (limited limit (sort_by (is_listed_before greater) (readable s s.results)))

unfoldable pub list_runs :
    (dir_fails : Bool) → (ℕ → ℕ → Bool) → (limit : ℤ) → Store → Option (List RunResult)
unfolding list_results
list_runs dir_fails greater limit s =
    list_results dir_fails greater (if is_positive limit then limit else pos 20) s

-- What has not finished comes first, and then what finished last.
abbrev IsNewer : Option ℕ → Option ℕ → Type 0
IsNewer none o = Unit
IsNewer (some t) none = ⊥
IsNewer (some t) (some u) = u ≤ t

abbrev pub IsNotOlder : RunResult → RunResult → Type 0
IsNotOlder a b = IsNewer a.finished_at b.finished_at

IsNewer-trans : (a b c : Option ℕ) → IsNewer a b → IsNewer b c → IsNewer a c
IsNewer-trans none b c h k = tt
IsNewer-trans (some t) none c h k = absurd h
IsNewer-trans (some t) (some u) none h k = k
IsNewer-trans (some t) (some u) (some v) h k = omega (arith, h, k)

finished_later-IsNewer : (ids : Bool) (a b : Option ℕ) → finished_later ids a b ≡ true → IsNewer a b
finished_later-IsNewer ids none b h = tt
finished_later-IsNewer ids (some t) none h = absurd (ground arith)
finished_later-IsNewer ids (some t) (some u) h = ground arith

IsNewer-finished_later :
    (ids : Bool) (a b : Option ℕ) → finished_later ids a b ≡ false → IsNewer b a
IsNewer-finished_later ids a none h = tt
IsNewer-finished_later ids none (some u) h = absurd (ground arith)
IsNewer-finished_later ids (some t) (some u) h = ground arith

limited-split :
    (limit : ℤ) (rs : List RunResult)
    → (rest : List RunResult) × (limited limit rs ++ rest ≡ rs)
      × (is_positive limit ≡ true → pos (length (limited limit rs)) ≤ℤ limit)
limited-split (negsuc n) rs = ([], append_nil rs, λ h. absurd (ground arith))
limited-split (pos n) rs = elim (Bool-cases (ltb 0 n && ltb n (length rs))) [
  | inl b ↦ rw b (drop n rs, take-drop n rs, λ h. length-take n rs)
  | inr b ↦ rw b ([], append_nil rs, λ h. ground (arith, b, h))
]

-- A list of results that is given holds at most as many as its limit, if that is positive. Together
-- with those that are left out, there are as many as can be read, and the same ones. Among all of these
-- the runs that go on come first, then those that finished last: no run that is left out finished
-- later than one that is listed.
pub list_results-Sorted :
    (dir_fails : Bool) (greater : ℕ → ℕ → Bool) (limit : ℤ) (s : Store) (rs : List RunResult)
    → list_results dir_fails greater limit s ≡ some rs
    → (rest : List RunResult) × Sorted IsNotOlder (rs ++ rest)
      × (length (rs ++ rest) ≡ length (readable s s.results))
      × ((P : RunResult → Type 0) → All P (readable s s.results) → All P (rs ++ rest))
      × ((P : RunResult → Type 0) → All P (rs ++ rest) → All P (readable s s.results))
      × (is_positive limit ≡ true → pos (length rs) ≤ℤ limit)
unfolding list_results
list_results-Sorted dir_fails greater limit s rs h =
    let before = is_listed_before greater in
    let found = readable s s.results in
    let sorted = sort_by before found in
    let same : limited limit sorted ≡ rs = ground (arith, h) in
    let (rest, joined, few) = limited-split limit sorted in
    let split : sorted ≡ rs ++ rest = sym joined ∙ ap (λ xs. xs ++ rest) same in
    (
      rest,
      subst (Sorted IsNotOlder) split (
          sort_by-Sorted before IsNotOlder
            (λ a b. finished_later-IsNewer (greater a.run_id b.run_id) a.finished_at b.finished_at)
            (λ a b. IsNewer-finished_later (greater a.run_id b.run_id) a.finished_at b.finished_at)
            (λ a b c. IsNewer-trans a.finished_at b.finished_at c.finished_at) found),
      ap length (sym split) ∙ length-sort_by before found,
      (λ P all. subst (All P) split (All-sort_by before P found all)),
      (λ P all. sort_by-All before P found (subst (All P) (sym split) all)),
      (λ p. subst (λ xs. pos (length xs) ≤ℤ limit) same (few p)),
    )
