-- ===== src/Base/Sums.antt =====
-- Sums over lists.
use Prim.Native.Nat.{ℕ, zero, suc, ◌+◌, ◌*◌, ◌≤◌}
use mathlib.Core.Path.{◌≡◌, refl, subst}
use mathlib.Core.List.{List, [], ◌∷◌}
use mathlib.Core.Option.{some, some-injective}
use native.Mathlib.Omega.{arith}
use native.Mathlib.Nat.{mul-add}
use way_balancer.Base.Lists.{get_elem?}

module _ {ℓ} {A : Type ℓ} where
  abbrev pub sum_of : (A → ℕ) → List A → ℕ
  sum_of f [] = 0
  sum_of f (x ∷ xs) = f x + sum_of f xs

  -- What holds of each element, by its index.
  abbrev pub Each {κ} : List A → (A → Type κ) → Type (ℓ ⊔ κ)
  Each xs P = (i : ℕ) (x : A) → get_elem? xs i ≡ some x → P x

  pub sum_of-le : (f g : A → ℕ) (xs : List A) → Each xs (λ x. f x ≤ g x) → sum_of f xs ≤ sum_of g xs
  sum_of-le f g [] h = omega arith
  sum_of-le f g (x ∷ xs) h = omega (arith, h 0 x refl, sum_of-le f g xs (λ i y e. h (suc i) y e))

  pub sum_of-add :
      (f g : A → ℕ) (xs : List A) → sum_of (λ x. f x + g x) xs ≡ sum_of f xs + sum_of g xs
  sum_of-add f g [] = refl
  sum_of-add f g (x ∷ xs) = omega (arith, sum_of-add f g xs)

  pub sum_of-mul : (k : ℕ) (f : A → ℕ) (xs : List A) → sum_of (λ x. k * f x) xs ≡ k * sum_of f xs
  sum_of-mul k f [] = omega arith
  sum_of-mul k f (x ∷ xs) = omega (arith, sum_of-mul k f xs, mul-add k (f x) (sum_of f xs))

  pub in_sum : (f : A → ℕ) (xs : List A) → Each xs (λ x. f x ≤ sum_of f xs)
  in_sum f [] i x e = ground (arith, e)
  in_sum f (y ∷ xs) zero x e =
      subst (λ z. f z ≤ f y + sum_of f xs) (some-injective y x e) (omega arith)
  in_sum f (y ∷ xs) (suc i) x e = omega (arith, in_sum f xs i x e)

  -- Summands that are not greater, with the same sum, are the same.
  pub sum_of-tight :
      (f g : A → ℕ) (xs : List A)
      → Each xs (λ x. f x ≤ g x)
      → sum_of g xs ≤ sum_of f xs
      → Each xs (λ x. f x ≡ g x)
  sum_of-tight f g [] h s i x e = ground (arith, e)
  sum_of-tight f g (y ∷ xs) h s zero x e =
      subst (λ z. f z ≡ g z) (some-injective y x e)
        (omega (arith, h 0 y refl, sum_of-le f g xs (λ j z k. h (suc j) z k)))
  sum_of-tight f g (y ∷ xs) h s (suc i) x e =
      sum_of-tight f g xs (λ j z k. h (suc j) z k) (omega (arith, h 0 y refl)) i x e

  pub sum_of-zero : (xs : List A) → sum_of (λ x. 0) xs ≡ 0
  sum_of-zero [] = refl
  sum_of-zero (x ∷ xs) = omega (arith, sum_of-zero xs)
