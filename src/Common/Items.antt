-- ===== src/Common/Items.antt =====
-- Items of a list by their position: reading, writing and summing them.
use Prim.Native.Nat.{ℕ, zero, suc, ◌+◌, ◌≤◌}
use mathlib.Core.Path.{◌≡◌, refl}
use mathlib.Core.Option.{Option, none, some}
use mathlib.Core.List.{List, [], ◌∷◌}
use native.Mathlib.Omega.{arith}
use traffic_backend_queue.Common.Lists.{length, All}

module _ {ℓ} {A : Type ℓ} where
  abbrev pub get_elem? : List A → ℕ → Option A
  get_elem? [] i = none
  get_elem? (x ∷ xs) zero = some x
  get_elem? (x ∷ xs) (suc i) = get_elem? xs i

  abbrev pub set : List A → ℕ → A → List A
  set [] i v = []
  set (x ∷ xs) zero v = v ∷ xs
  set (x ∷ xs) (suc i) v = x ∷ set xs i v

  abbrev pub total : (A → ℕ) → List A → ℕ
  total g [] = 0
  total g (x ∷ xs) = g x + total g xs

  pub total-set :
      (g : A → ℕ) (xs : List A) (i : ℕ) (x y : A)
      → get_elem? xs i ≡ some x
      → total g (set xs i y) + g x ≡ total g xs + g y
  total-set g [] i x y h = cc
  total-set g (z ∷ zs) zero x y h = let e : z ≡ x = cc in ground (arith, e)
  total-set g (z ∷ zs) (suc i) x y h = omega (arith, total-set g zs i x y h)

  pub le-total :
      (g : A → ℕ) (xs : List A) (i : ℕ) (x : A) → get_elem? xs i ≡ some x → g x ≤ total g xs
  le-total g [] i x h = cc
  le-total g (z ∷ zs) zero x h = let e : z ≡ x = cc in ground (arith, e)
  le-total g (z ∷ zs) (suc i) x h = omega (arith, le-total g zs i x h)

  pub length-set : (xs : List A) (i : ℕ) (y : A) → length (set xs i y) ≡ length xs
  length-set [] i y = refl
  length-set (z ∷ zs) zero y = refl
  length-set (z ∷ zs) (suc i) y = omega (arith, length-set zs i y)

  pub All-set {κ} :
      (P : A → Type κ) (xs : List A) (i : ℕ) (y : A) → All P xs → P y → All P (set xs i y)
  All-set P [] i y h p = tt
  All-set P (z ∷ zs) zero y h p = (p, h.1)
  All-set P (z ∷ zs) (suc i) y h p = (h.0, All-set P zs i y h.1 p)

  pub get_elem?-All {κ} :
      (P : A → Type κ) (xs : List A) (i : ℕ) (x : A) → All P xs → get_elem? xs i ≡ some x → P x
  get_elem?-All P [] i x h e = cc
  get_elem?-All P (z ∷ zs) zero x h e = let q : z ≡ x = cc in rw (← q) h.0
  get_elem?-All P (z ∷ zs) (suc i) x h e = get_elem?-All P zs i x h.1 e

  pub total-le-length : (g : A → ℕ) (xs : List A) → ((x : A) → g x ≤ 1) → total g xs ≤ length xs
  total-le-length g [] h = omega arith
  total-le-length g (x ∷ xs) h = omega (arith, h x, total-le-length g xs h)
