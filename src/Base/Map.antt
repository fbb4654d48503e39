-- ===== src/Base/Map.antt =====
-- `BTreeMap` as an association list in the order of its keys. An insertion replaces the value of a
-- key that is there, and puts a new key before the first greater one.
use Prim.Native.Nat.{ℕ, ◌+◌, suc, ◌≤◌, ◌<◌}
use mathlib.Core.Path.{◌≡◌, refl, ap}
use mathlib.Core.Bool.{Bool, true, false, not}
use mathlib.Core.List.{List, [], ◌∷◌}
use mathlib.Core.Option.{Option, none, some}
use native.Mathlib.Omega.{arith}
use mathlib.Core.Logic.{inl, inr}
use way_balancer.Base.Test.{Option-cases, Bool-cases, if◌then◌else◌, is_some}
use way_balancer.Base.Order.{Ord, same, below, same_iff}
use way_balancer.Base.Lists.{length, filter}

abbrev pub Map {ℓ κ} : Type ℓ → Type κ → Type (ℓ ⊔ κ)
Map K V = List (K × V)

abbrev pub value_or {κ} : {V : Type κ} → (V → ℕ) → Option V → ℕ
value_or f none = 0
value_or f (some v) = f v

module _ {ℓ κ} {K : Type ℓ} {V : Type κ} ⦃o : Ord K⦄ where
  unfoldable pub lookup : K → Map K V → Option V
  lookup k [] = none
  lookup k ((j, v) ∷ m) = if same j k then some v else lookup k m

  abbrev pub contains_key : K → Map K V → Bool
  contains_key k m = is_some (lookup k m)

  -- Writing through `get_mut`: the value of `k`, if there is one, becomes `v`.
  unfoldable pub replace : K → V → Map K V → Map K V
  replace k v [] = []
  replace k v ((j, w) ∷ m) = if same j k then (j, v) ∷ m else (j, w) ∷ replace k v m

  place : K → V → Map K V → Map K V
  place k v [] = (k, v) ∷ []
  place k v ((j, w) ∷ m) = if below k j then (k, v) ∷ (j, w) ∷ m else (j, w) ∷ place k v m

  pub insert : K → V → Map K V → Map K V
  unfolding lookup replace place
  insert k v m = if contains_key k m then replace k v m else place k v m

  pub remove : K → Map K V → Map K V
  remove k m = filter (λ e. not (same e.0 k)) m

  -- No key has two entries.
  abbrev pub IsUnique : Map K V → Type 0
  IsUnique [] = Unit {0}
  IsUnique ((j, v) ∷ m) = (contains_key j m ≡ false) × IsUnique m

module _ {ℓ κ} {K : Type ℓ} {V : Type κ} ⦃o : Ord K⦄ where
  lookup-replace :
      (k i : K) (v : V) (m : Map K V)
      → lookup i (replace k v m)
        ≡ (if same k i then (if contains_key k m then some v else none) else lookup i m)
  unfolding lookup replace
  lookup-replace k i v [] = ground arith
  lookup-replace k i v ((j, w) ∷ m) =
      ground (arith, same_iff j k, same_iff j i, same_iff k i, lookup-replace k i v m)

  lookup-place :
      (k i : K) (v : V) (m : Map K V)
      → lookup k m ≡ none
      → lookup i (place k v m) ≡ (if same k i then some v else lookup i m)
  unfolding lookup place
  lookup-place k i v [] h = ground arith
  lookup-place k i v ((j, w) ∷ m) h =
      ground (arith, same_iff j k, same_iff j i, same_iff k i, lookup-place k i v m)

  pub lookup-insert :
      (k i : K) (v : V) (m : Map K V)
      → lookup i (insert k v m) ≡ (if same k i then some v else lookup i m)
  unfolding insert
  lookup-insert k i v m = ground (arith, lookup-replace k i v m, lookup-place k i v m)

  pub lookup-replace_at :
      (k i : K) (v w : V) (m : Map K V)
      → lookup k m ≡ some w
      → lookup i (replace k v m) ≡ (if same k i then some v else lookup i m)
  lookup-replace_at k i v w m h = ground (arith, lookup-replace k i v m)

  pub lookup-remove :
      (k i : K) (m : Map K V) → lookup i (remove k m) ≡ (if same k i then none else lookup i m)
  unfolding lookup remove
  lookup-remove k i [] = ground arith
  lookup-remove k i ((j, w) ∷ m) =
      ground (arith, same_iff j k, same_iff j i, same_iff k i, lookup-remove k i m)

  pub lookup-filter :
      (p : K × V → Bool) (k : K) (m : Map K V)
      → ((v : V) → p (k, v) ≡ true)
      → lookup k (filter p m) ≡ lookup k m
  unfolding lookup
  lookup-filter p k [] f = refl
  lookup-filter p k ((j, w) ∷ m) f = elim (Bool-cases (same j k)) [
    | inl h ↦
        let e : j ≡ k = (same_iff j k).0 h in
        ground (arith, h, f w, ap (λ i. p (i, w)) e, lookup-filter p k m f)
    | inr h ↦ ground (arith, h, lookup-filter p k m f)
  ]

  pub length-replace : (k : K) (v : V) (m : Map K V) → length (replace k v m) ≡ length m
  unfolding replace
  length-replace k v [] = refl
  length-replace k v ((j, w) ∷ m) = ground (arith, length-replace k v m)

  length-place : (k : K) (v : V) (m : Map K V) → length (place k v m) ≡ suc (length m)
  unfolding place
  length-place k v [] = refl
  length-place k v ((j, w) ∷ m) = ground (arith, length-place k v m)

  pub length-insert :
      (k : K) (v : V) (m : Map K V)
      → length (insert k v m) ≡ (if contains_key k m then length m else suc (length m))
  unfolding insert
  length-insert k v m = ground (arith, length-replace k v m, length-place k v m)

  pub length-remove-le : (k : K) (m : Map K V) → length (remove k m) ≤ length m
  unfolding remove
  length-remove-le k [] = omega arith
  length-remove-le k ((j, w) ∷ m) = ground (arith, length-remove-le k m)

  pub length-remove-lt :
      (k : K) (m : Map K V) → contains_key k m ≡ true → length (remove k m) < length m
  unfolding lookup remove
  length-remove-lt k [] h = ground arith
  length-remove-lt k ((j, w) ∷ m) h = ground (arith, length-remove-lt k m, length-remove-le k m)

  -- What the values add up to under `f`.
  abbrev pub sum_by : (V → ℕ) → Map K V → ℕ
  sum_by f [] = 0
  sum_by f ((j, v) ∷ m) = f v + sum_by f m

  sum_by-replace :
      (f : V → ℕ) (k : K) (v w : V) (m : Map K V)
      → lookup k m ≡ some w
      → sum_by f (replace k v m) + f w ≡ sum_by f m + f v
  unfolding lookup replace
  sum_by-replace f k v w [] h = ground (arith, h)
  sum_by-replace f k v w ((j, u) ∷ m) h = ground (arith, sum_by-replace f k v w m)

  sum_by-place :
      (f : V → ℕ) (k : K) (v : V) (m : Map K V) → sum_by f (place k v m) ≡ sum_by f m + f v
  unfolding place
  sum_by-place f k v [] = omega arith
  sum_by-place f k v ((j, u) ∷ m) = ground (arith, sum_by-place f k v m)

  pub sum_by-insert :
      (f : V → ℕ) (k : K) (v : V) (m : Map K V)
      → sum_by f (insert k v m) + value_or f (lookup k m) ≡ sum_by f m + f v
  unfolding insert
  sum_by-insert f k v m = elim (Option-cases (lookup k m)) [
    | inl e ↦ ground (arith, e, sum_by-place f k v m)
    | inr (w, e) ↦ ground (arith, e, sum_by-replace f k v w m e)
  ]

  pub value_or-le : (f : V → ℕ) (k : K) (m : Map K V) → value_or f (lookup k m) ≤ sum_by f m
  unfolding lookup
  value_or-le f k [] = omega arith
  value_or-le f k ((j, u) ∷ m) = ground (arith, value_or-le f k m)

  pub sum_by-remove-le : (f : V → ℕ) (k : K) (m : Map K V) → sum_by f (remove k m) ≤ sum_by f m
  unfolding remove
  sum_by-remove-le f k [] = omega arith
  sum_by-remove-le f k ((j, u) ∷ m) = ground (arith, sum_by-remove-le f k m)

  replace-IsUnique : (k : K) (v : V) (m : Map K V) → IsUnique m → IsUnique (replace k v m)
  unfolding replace
  replace-IsUnique k v [] u = tt
  replace-IsUnique k v ((j, w) ∷ m) u =
      ground (arith, same_iff k j, lookup-replace k j v m, replace-IsUnique k v m u.1)

  place-IsUnique :
      (k : K) (v : V) (m : Map K V) → lookup k m ≡ none → IsUnique m → IsUnique (place k v m)
  unfolding lookup place
  place-IsUnique k v [] h u = ground arith
  place-IsUnique k v ((j, w) ∷ m) h u =
      ground (arith, same_iff k j, same_iff j k, lookup-place k j v m, place-IsUnique k v m)

  pub insert-IsUnique : (k : K) (v : V) (m : Map K V) → IsUnique m → IsUnique (insert k v m)
  unfolding insert
  insert-IsUnique k v m u = ground (arith, replace-IsUnique k v m u, place-IsUnique k v m)

  pub remove-IsUnique : (k : K) (m : Map K V) → IsUnique m → IsUnique (remove k m)
  unfolding remove
  remove-IsUnique k [] u = tt
  remove-IsUnique k ((j, w) ∷ m) u = ground (arith, lookup-remove k j m, remove-IsUnique k m u.1)

  pub lookup-nil : (k : K) → lookup {V = V} k [] ≡ none
  unfolding lookup
  lookup-nil k = refl
