-- ===== src/Base/Order.antt =====
-- `Ord`: keys of ordered maps, compared by `cmp`.
use Prim.Native.Nat.{ℕ, compare, Ordering}
use mathlib.Core.Path.{◌≡◌, refl}
use mathlib.Core.Logic.{◌↔◌}
use mathlib.Core.Bool.{Bool, true, false}
use mathlib.Core.List.{List, [], ◌∷◌}
use native.Mathlib.Omega.{arith}

pub record Ord {ℓ} (A : Type ℓ) : Type ℓ where
  pub cmp : A → A → Ordering
  pub cmp_iff : (a b : A) → (cmp a b ≡ Ordering.eq) ↔ (a ≡ b)

abbrev pub is_eq : Ordering → Bool
is_eq Ordering.eq = true
is_eq _ = false

abbrev pub is_lt : Ordering → Bool
is_lt Ordering.lt = true
is_lt _ = false

-- `Ordering::then_with`
abbrev pub then_with : Ordering → Ordering → Ordering
then_with Ordering.eq o = o
then_with Ordering.lt o = Ordering.lt
then_with Ordering.gt o = Ordering.gt

module _ {ℓ} {A : Type ℓ} ⦃o : Ord A⦄ where
  abbrev pub same : A → A → Bool
  same a b = is_eq (o.cmp a b)

  abbrev pub below : A → A → Bool
  below a b = is_lt (o.cmp a b)

  pub same_iff : (a b : A) → (same a b ≡ true) ↔ (a ≡ b)
  same_iff a b = ground (arith, o.cmp_iff a b)

  pub same_refl : (a : A) → same a a ≡ true
  same_refl a = (same_iff a a).1 refl

pub compare_iff : (a b : ℕ) → (compare a b ≡ Ordering.eq) ↔ (a ≡ b)
compare_iff a b = ground arith

instance abbrev pub nat_ord : Ord ℕ
nat_ord = record { cmp = compare; cmp_iff = compare_iff }

-- The derived order of a pair of fields: the first, then the second.
pub pair_iff {ℓ κ} :
    {A : Type ℓ} {B : Type κ} (o : Ord A) (p : Ord B) (x y : A × B)
    → (then_with (o.cmp x.0 y.0) (p.cmp x.1 y.1) ≡ Ordering.eq) ↔ (x ≡ y)
pair_iff o p x y = ground (arith, o.cmp_iff x.0 y.0, p.cmp_iff x.1 y.1)

instance abbrev pub pair_ord {ℓ κ} : {A : Type ℓ} {B : Type κ} ⦃o : Ord A⦄ ⦃p : Ord B⦄ → Ord (A × B)
pair_ord ⦃o⦄ ⦃p⦄ = record {
  cmp = λ x y. then_with (o.cmp x.0 y.0) (p.cmp x.1 y.1);
  cmp_iff = pair_iff o p;
}

module _ {ℓ} {A : Type ℓ} ⦃o : Ord A⦄ where
  -- Lexicographic order, as of strings.
  abbrev pub list_cmp : List A → List A → Ordering
  list_cmp [] [] = Ordering.eq
  list_cmp [] (y ∷ ys) = Ordering.lt
  list_cmp (x ∷ xs) [] = Ordering.gt
  list_cmp (x ∷ xs) (y ∷ ys) = then_with (o.cmp x y) (list_cmp xs ys)

  pub list_cmp_iff : (xs ys : List A) → (list_cmp xs ys ≡ Ordering.eq) ↔ (xs ≡ ys)
  list_cmp_iff [] [] = ground arith
  list_cmp_iff [] (y ∷ ys) = ground arith
  list_cmp_iff (x ∷ xs) [] = ground arith
  list_cmp_iff (x ∷ xs) (y ∷ ys) = ground (arith, o.cmp_iff x y, list_cmp_iff xs ys)

  instance abbrev pub list_ord : Ord (List A)
  list_ord = record { cmp = list_cmp; cmp_iff = list_cmp_iff }

pub compare-flip : (a b : ℕ) → compare a b ≡ Ordering.lt → compare b a ≡ Ordering.gt
compare-flip a b h = ground (arith, h)

-- The order of texts is antisymmetric.
pub list_cmp-flip : (xs ys : List ℕ) → list_cmp xs ys ≡ Ordering.lt → list_cmp ys xs ≡ Ordering.gt
list_cmp-flip [] [] h = ground (arith, h)
list_cmp-flip [] (y ∷ ys) h = refl
list_cmp-flip (x ∷ xs) [] h = ground (arith, h)
list_cmp-flip (x ∷ xs) (y ∷ ys) h =
    ground (arith, h, list_cmp-flip xs ys, compare-flip x y, compare_iff x y, compare_iff y x)
