-- ===== src/Base/Forall.antt =====
-- What holds of every element of a list.
use mathlib.Core.List.{List, [], ◌∷◌, ◌++◌}
use Prim.Native.Nat.{ℕ, zero, suc}
use star_bridge.Base.Lists.{get_or, set}

module _ {ℓ} {A : Type ℓ} where
  abbrev pub All : (A → Type 0) → List A → Type 0
  All P [] = Unit {0}
  All P (x ∷ xs) = P x × All P xs

module _ {ℓ} {A : Type ℓ} (P : A → Type 0) where
  pub All-append : (xs ys : List A) → All P xs → All P ys → All P (xs ++ ys)
  All-append [] ys a b = b
  All-append (x ∷ xs) ys (p, a) b = (p, All-append xs ys a b)

  pub All-set : (xs : List A) (i : ℕ) (v : A) → All P xs → P v → All P (set xs i v)
  All-set [] i v a p = tt
  All-set (x ∷ xs) zero v (q, a) p = (p, a)
  All-set (x ∷ xs) (suc i) v (q, a) p = (q, All-set xs i v a p)

  pub All-get_or : (xs : List A) (i : ℕ) (d : A) → All P xs → P d → P (get_or xs i d)
  All-get_or [] i d a p = p
  All-get_or (x ∷ xs) zero d (q, a) p = q
  All-get_or (x ∷ xs) (suc i) d (q, a) p = All-get_or xs i d a p
