-- ===== src/Lottery/Codes.antt =====
-- The access codes of internal/lottery/service.go. The SELECT and the UPDATE of a validation are
-- separate statements, so validations that run at once can accept one code together; see `both_accept`
-- in Lottery/Examples.
use traffic_backend_queue.Common.{
  ℕ, ◌+◌, ◌≡◌, ◌≢◌, ◌≤◌, ◌<◌, refl, ap, Bool, true, false, ◌&&◌, none, some, List, [], ◌∷◌, ◌==◌,
  if◌then◌else◌, is_some, arith, All, Option-cases, Bool-cases, inl, inr, not,
}
use mathlib.Core.Path.{subst}
use traffic_backend_queue.Storage.{AccessCode, Db}
use traffic_backend_queue.Lottery.{has_code, find_code, mark_used, select_code, spend_code}
use traffic_backend_queue.Lottery.Calls.{IsKept, Statement, run, run_keeps}

-- How many rows have a hash: UNIQUE (code_hash) allows one.
unfoldable pub hash_count : ℕ → List AccessCode → ℕ
hash_count h [] = 0
hash_count h (c ∷ cs) = (if c.code_hash == h then 1 else 0) + hash_count h cs

-- A row has the hash, and every row that has it is used.
pub record Spent (h : ℕ) (cs : List AccessCode) : Type 0 where
  pub listed : 0 < hash_count h cs
  pub used : All (λ c. c.code_hash ≡ h → is_some c.used_at ≡ true) cs

-- A row has the hash, and every row that has it has the id.
pub record Reserved (h id : ℕ) (cs : List AccessCode) : Type 0 where
  pub listed : 0 < hash_count h cs
  pub same_id : All (λ c. c.code_hash ≡ h → c.id ≡ id) cs

none_has :
    (h : ℕ) (P : AccessCode → Type 0) (cs : List AccessCode)
    → hash_count h cs ≡ 0
    → All (λ c. c.code_hash ≡ h → P c) cs
unfolding hash_count
none_has h P [] z = tt
none_has h P (c ∷ cs) z = ((λ e. absurd (ground arith)), none_has h P cs (ground arith))

hash_count-mark_used :
    (now id h : ℕ) (cs : List AccessCode) → hash_count h (mark_used now id cs) ≡ hash_count h cs
unfolding hash_count mark_used
hash_count-mark_used now id h [] = refl
hash_count-mark_used now id h (c ∷ cs) = ground (arith, hash_count-mark_used now id h cs)

find_code-listed :
    (sale user h : ℕ) (cs : List AccessCode) (c : AccessCode)
    → find_code sale user h cs ≡ some c
    → 0 < hash_count h cs
unfolding find_code hash_count
find_code-listed sale user h [] c e = absurd (ground arith)
find_code-listed sale user h (x ∷ xs) c e = ground (arith, find_code-listed sale user h xs c)

-- The row that the query finds is the only one with its hash.
find_code-Reserved :
    (sale user h : ℕ) (cs : List AccessCode) (c : AccessCode)
    → hash_count h cs ≤ 1
    → find_code sale user h cs ≡ some c
    → All (λ x. x.code_hash ≡ h → x.id ≡ c.id) cs
unfolding find_code hash_count
find_code-Reserved sale user h [] c one e = tt
find_code-Reserved sale user h (x ∷ xs) c one e =
    let rest = find_code-listed sale user h xs c in
    elim (Bool-cases
      (x.sale_id == sale && (x.user_id == user && (x.code_hash == h && not (is_some x.used_at))))) [
        | inl b ↦
            let same : x ≡ c = ground (arith, e, b) in
            (
              (λ q. ap (λ (y : AccessCode). y.id) same),
              none_has h (λ x. x.id ≡ c.id) xs (ground (arith, one, b)),
            )
        | inr b ↦
            let later : find_code sale user h xs ≡ some c = ground (arith, e, b) in
            (
              (λ q. absurd (ground (arith, one, rest later, q))),
              find_code-Reserved sale user h xs c (omega (arith, one)) later,
            )
      ]

has_code-hash :
    (h id k : ℕ) (cs : List AccessCode) → has_code id k cs ≡ false → 0 < hash_count h cs → k ≢ h
unfolding has_code hash_count
has_code-hash h id k [] b lt = absurd (omega (arith, lt))
has_code-hash h id k (c ∷ cs) b lt =
    let rest = has_code-hash h id k cs in λ e. ground (arith, rest, b, lt, e)

used-mark_used :
    (now id h : ℕ) (cs : List AccessCode)
    → All (λ c. c.code_hash ≡ h → is_some c.used_at ≡ true) cs
    → All (λ c. c.code_hash ≡ h → is_some c.used_at ≡ true) (mark_used now id cs)
unfolding mark_used
used-mark_used now id h [] v = tt
used-mark_used now id h (c ∷ cs) v =
    let first = v.0 in ((λ e. ground (arith, first)), used-mark_used now id h cs v.1)

same_id-mark_used :
    (now id i h : ℕ) (cs : List AccessCode)
    → All (λ c. c.code_hash ≡ h → c.id ≡ i) cs
    → All (λ c. c.code_hash ≡ h → c.id ≡ i) (mark_used now id cs)
unfolding mark_used
same_id-mark_used now id i h [] v = tt
same_id-mark_used now id i h (c ∷ cs) v =
    let first = v.0 in ((λ e. ground (arith, first)), same_id-mark_used now id i h cs v.1)

IsKept-Spent : (h : ℕ) → IsKept (Spent h)
unfolding hash_count
IsKept-Spent h = record {
  inserted = λ id sale user k cs v b.
      let ne = has_code-hash h id k cs b v.listed in
      record { listed = omega (arith, v.listed); used = ((λ e. absurd (ne e)), v.used) };
  marked = λ now id cs v. record {
    listed = omega (arith, v.listed, hash_count-mark_used now id h cs);
    used = used-mark_used now id h cs v.used;
  };
}

IsKept-Reserved : (h i : ℕ) → IsKept (Reserved h i)
unfolding hash_count
IsKept-Reserved h i = record {
  inserted = λ id sale user k cs v b.
      let ne = has_code-hash h id k cs b v.listed in
      record { listed = omega (arith, v.listed); same_id = ((λ e. absurd (ne e)), v.same_id) };
  marked = λ now id cs v. record {
    listed = omega (arith, v.listed, hash_count-mark_used now id h cs);
    same_id = same_id-mark_used now id i h cs v.same_id;
  };
}

-- The UPDATE of the row marks every row that has its hash.
mark_used_all :
    (now h i : ℕ) (cs : List AccessCode)
    → All (λ c. c.code_hash ≡ h → c.id ≡ i) cs
    → All (λ c. c.code_hash ≡ h → is_some c.used_at ≡ true) (mark_used now i cs)
unfolding mark_used
mark_used_all now h i [] v = tt
mark_used_all now h i (c ∷ cs) v =
    let first = v.0 in ((λ e. ground (arith, first)), mark_used_all now h i cs v.1)

Reserved-Spent :
    (now h i : ℕ) (d : Db)
    → Reserved h i d.access_codes
    → Spent h (spend_code false now i d).access_codes
unfolding spend_code
Reserved-Spent now h i d v = record {
  listed = omega (arith, v.listed, hash_count-mark_used now i h d.access_codes);
  used = mark_used_all now h i d.access_codes v.same_id;
}

find_code-Spent :
    (sale user h : ℕ) (cs : List AccessCode)
    → All (λ c. c.code_hash ≡ h → is_some c.used_at ≡ true) cs
    → find_code sale user h cs ≡ none
unfolding find_code
find_code-Spent sale user h [] v = refl
find_code-Spent sale user h (c ∷ cs) v =
    let first = v.0 in ground (arith, first, find_code-Spent sale user h cs v.1)

select_code-Reserved :
    (hash : ℕ → ℕ) (sale user code id : ℕ) (d : Db)
    → hash_count (hash code) d.access_codes ≤ 1
    → select_code hash false sale user code d ≡ some id
    → Reserved (hash code) id d.access_codes
unfolding select_code
select_code-Reserved hash sale user code id d one h =
    elim (Option-cases (find_code sale user (hash code) d.access_codes)) [
      | inl e ↦ absurd (ground arith)
      | inr (c, e) ↦
          let same : c.id ≡ id = ground (arith, h, e) in
          subst (λ i. Reserved (hash code) i d.access_codes) same
            (record {
              listed = find_code-listed sale user (hash code) d.access_codes c e;
              same_id = find_code-Reserved sale user (hash code) d.access_codes c one e;
            })
    ]

select_code_refuses :
    (hash : ℕ → ℕ) (query_fails : Bool) (sale user code : ℕ) (d : Db)
    → Spent (hash code) d.access_codes
    → select_code hash query_fails sale user code d ≡ none
unfolding select_code
select_code_refuses hash query_fails sale user code d v =
    ground (arith, find_code-Spent sale user (hash code) d.access_codes v.used)

-- An access code that has been spent is not accepted again. After a SELECT accepts a code and, later,
-- the UPDATE of that validation is made, no SELECT accepts the code any more, for any sale and user,
-- whatever statements of other calls come between these two and after them. No two rows have the hash
-- of the code at the first SELECT, which the schema says.
pub select_code_once :
    (hash : ℕ → ℕ) (sale user code id db_now : ℕ) (d : Db)
    → hash_count (hash code) d.access_codes ≤ 1
    → select_code hash false sale user code d ≡ some id
    → (between after : List Statement) (query_fails : Bool) (sale' user' : ℕ)
    → select_code hash query_fails sale' user' code
        (run (spend_code false db_now id (run d between)) after)
      ≡ none
select_code_once hash sale user code id db_now d one h between after query_fails sale' user' =
    let reserved =
      run_keeps (Reserved (hash code) id) (IsKept-Reserved (hash code) id) d between
        (select_code-Reserved hash sale user code id d one h) in
    let spent = spend_code false db_now id (run d between) in
    select_code_refuses hash query_fails sale' user' code (run spent after) (
      run_keeps (Spent (hash code)) (IsKept-Spent (hash code)) spent after
        (Reserved-Spent db_now (hash code) id (run d between) reserved))
