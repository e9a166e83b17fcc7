-- ===== src/Common/Sorting.antt =====
-- Sorting by insertion, and lists in order.
use mathlib.Core.Path.{◌≡◌}
use mathlib.Core.Logic.{inl, inr}
use mathlib.Core.Bool.{Bool, true, false}
use mathlib.Core.List.{List, [], ◌∷◌}
use Prim.Native.Nat.{suc}
use mathlib.Core.Path.{refl, ap, ◌∙◌}
use native.Mathlib.Omega.{arith}
use traffic_backend_queue.Common.Tests.{if◌then◌else◌, Bool-cases}
use traffic_backend_queue.Common.Lists.{All, All-map, length}

module _ {ℓ} {A : Type ℓ} where
  unfoldable pub insert_by : (A → A → Bool) → A → List A → List A
  insert_by before r [] = r ∷ []
  insert_by before r (x ∷ xs) = if before x r then x ∷ insert_by before r xs else r ∷ (x ∷ xs)

  -- What `sort.Slice` does, which may also change the order of items that are not before each other.
  unfoldable pub sort_by : (A → A → Bool) → List A → List A
  unfolding insert_by
  sort_by before [] = []
  sort_by before (x ∷ xs) = insert_by before x (sort_by before xs)

  length-insert_by :
      (before : A → A → Bool) (x : A) (xs : List A)
      → length (insert_by before x xs) ≡ suc (length xs)
  unfolding insert_by
  length-insert_by before x [] = refl
  length-insert_by before x (y ∷ ys) = ground (arith, length-insert_by before x ys)

  pub length-sort_by :
      (before : A → A → Bool) (xs : List A) → length (sort_by before xs) ≡ length xs
  unfolding sort_by
  length-sort_by before [] = refl
  length-sort_by before (x ∷ xs) =
      length-insert_by before x (sort_by before xs) ∙ ap suc (length-sort_by before xs)

module _ {ℓ κ} {A : Type ℓ} where
  -- Every item stands in the relation to each item behind it.
  abbrev pub Sorted : (A → A → Type κ) → List A → Type κ
  Sorted R [] = Unit
  Sorted R (x ∷ xs) = All (R x) xs × Sorted R xs

  abbrev pub AllPairs : (A → A → Type κ) → List A → Type κ
  AllPairs R xs = All (λ a. All (R a) xs) xs

  module _ (before : A → A → Bool) where
    pub All-insert_by :
        (P : A → Type κ) (r : A) (xs : List A) → P r → All P xs → All P (insert_by before r xs)
    unfolding insert_by
    All-insert_by P r [] p h = (p, tt)
    All-insert_by P r (x ∷ xs) p h = elim (Bool-cases (before x r)) [
      | inl e ↦ rw (e, insert_by) (h.0, All-insert_by P r xs p h.1)
      | inr e ↦ rw (e, insert_by) (p, h)
    ]

    insert_by-All :
        (P : A → Type κ) (r : A) (xs : List A) → All P (insert_by before r xs) → P r × All P xs
    unfolding insert_by
    insert_by-All P r [] h = h
    insert_by-All P r (x ∷ xs) h = undo (before x r) (insert_by-All P r xs) h
      where
        undo :
            (b : Bool)
            → (All P (insert_by before r xs) → P r × All P xs)
            → All P (if b then x ∷ insert_by before r xs else r ∷ (x ∷ xs))
            → P r × All P (x ∷ xs)
        undo true f k = let (p, q) = f k.1 in (p, (k.0, q))
        undo false f k = k

    pub All-sort_by : (P : A → Type κ) (xs : List A) → All P xs → All P (sort_by before xs)
    unfolding sort_by
    All-sort_by P [] h = tt
    All-sort_by P (x ∷ xs) h = All-insert_by P x (sort_by before xs) h.0 (All-sort_by P xs h.1)

    pub sort_by-All : (P : A → Type κ) (xs : List A) → All P (sort_by before xs) → All P xs
    unfolding sort_by
    sort_by-All P [] h = tt
    sort_by-All P (x ∷ xs) h =
        let (p, q) = insert_by-All P x (sort_by before xs) h in (p, sort_by-All P xs q)

    module _ (R : A → A → Type κ) (ahead : (a b : A) → before a b ≡ true → R a b)
        (behind : (a b : A) → before a b ≡ false → R b a)
        (trans : (a b c : A) → R a b → R b c → R a c) where
      insert_by-Sorted : (r : A) (xs : List A) → Sorted R xs → Sorted R (insert_by before r xs)
      unfolding insert_by
      insert_by-Sorted r [] h = (tt, tt)
      insert_by-Sorted r (x ∷ xs) h = elim (Bool-cases (before x r)) [
        | inl e ↦
            rw (e, insert_by)
              (All-insert_by (R x) r xs (ahead x r e) h.0, insert_by-Sorted r xs h.1)
        | inr e ↦
            rw (e, insert_by)
              ((behind x r e, All-map (R x) (R r) xs (λ y. trans r x y (behind x r e)) h.0), h)
      ]

      pub sort_by-Sorted : (xs : List A) → Sorted R (sort_by before xs)
      unfolding sort_by
      sort_by-Sorted [] = tt
      sort_by-Sorted (x ∷ xs) = insert_by-Sorted x (sort_by before xs) (sort_by-Sorted xs)

    pub AllPairs-sort_by :
        (R : A → A → Type κ) (xs : List A) → AllPairs R xs → AllPairs R (sort_by before xs)
    AllPairs-sort_by R xs h =
        All-map (λ a. All (R a) xs) (λ a. All (R a) (sort_by before xs)) (sort_by before xs)
          (λ a. All-sort_by (R a) xs) (All-sort_by (λ a. All (R a) xs) xs h)

    pub sort_by-AllPairs :
        (R : A → A → Type κ) (xs : List A) → AllPairs R (sort_by before xs) → AllPairs R xs
    sort_by-AllPairs R xs h =
        All-map (λ a. All (R a) (sort_by before xs)) (λ a. All (R a) xs) xs
          (λ a. sort_by-All (R a) xs) (sort_by-All (λ a. All (R a) (sort_by before xs)) xs h)

  pub AllPairs-cons :
      (R : A → A → Type κ) (x : A) (xs : List A)
      → R x x
      → All (R x) xs
      → All (λ a. R a x) xs
      → AllPairs R xs
      → AllPairs R (x ∷ xs)
  AllPairs-cons R x xs same to from rest = ((same, to), join_first xs xs from rest)
    where
      join_first :
          (zs ys : List A)
          → All (λ a. R a x) ys
          → All (λ a. All (R a) zs) ys
          → All (λ a. All (R a) (x ∷ zs)) ys
      join_first zs [] a b = tt
      join_first zs (y ∷ ys) a b = ((a.0, b.0), join_first zs ys a.1 b.1)

  module _ (R S P : A → A → Type κ) where
    -- A relation that holds in order, joined with what holds of all pairs.
    pub Sorted-AllPairs :
        (xs : List A)
        → ((a b : A) → R a b → P a b → P b a → S a b)
        → Sorted R xs
        → AllPairs P xs
        → Sorted S xs
    Sorted-AllPairs [] f h p = tt
    Sorted-AllPairs (x ∷ xs) f h p = (
      zip xs h.0 p.0.1 (All-map (λ a. All (P a) (x ∷ xs)) (λ a. P a x) xs (λ a q. q.0) p.1),
      Sorted-AllPairs xs f h.1
          (All-map (λ a. All (P a) (x ∷ xs)) (λ a. All (P a) xs) xs (λ a q. q.1) p.1),
    )
      where
        zip : (ys : List A) → All (R x) ys → All (P x) ys → All (λ a. P a x) ys → All (S x) ys
        zip [] a b c = tt
        zip (y ∷ ys) a b c = (f x y a.0 b.0 c.0, zip ys a.1 b.1 c.1)

    -- All pairs of a list in order.
    pub AllPairs-Sorted :
        (xs : List A)
        → ((a : A) → P a a)
        → ((a b : A) → R a b → S a b → P a b × P b a)
        → Sorted R xs
        → Sorted S xs
        → AllPairs P xs
    AllPairs-Sorted [] same f h k = tt
    AllPairs-Sorted (x ∷ xs) same f h k =
        AllPairs-cons P x xs (same x) (both xs h.0 k.0).0 (both xs h.0 k.0).1
          (AllPairs-Sorted xs same f h.1 k.1)
      where
        both : (ys : List A) → All (R x) ys → All (S x) ys → All (P x) ys × All (λ a. P a x) ys
        both [] a b = (tt, tt)
        both (y ∷ ys) a b =
            let (p, q) = both ys a.1 b.1 in let (u, v) = f x y a.0 b.0 in ((u, p), (v, q))
