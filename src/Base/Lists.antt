-- ===== src/Base/Lists.antt =====
-- Lists measured by native numbers, with Boolean filters, and the bounded event queues.
use Prim.Native.Nat.{ℕ, zero, suc, ◌+◌, ◌-◌, ◌≤◌, ◌<◌}
use mathlib.Core.Path.{◌≡◌, refl, subst}
use mathlib.Core.Bool.{Bool, true, false, ◌||◌}
use mathlib.Core.List.{List, [], ◌∷◌, ◌++◌}
use mathlib.Core.Option.{Option, none, some, some-injective}
use native.Mathlib.Omega.{arith}
use mathlib.Core.Logic.{inl, inr}
use way_balancer.Base.Test.{Bool-cases, if◌then◌else◌, ◌==◌}

module _ {ℓ} {A : Type ℓ} where
  abbrev pub length : List A → ℕ
  length [] = 0
  length (x ∷ xs) = suc (length xs)

  abbrev pub get_elem? : List A → ℕ → Option A
  get_elem? [] i = none
  get_elem? (x ∷ xs) zero = some x
  get_elem? (x ∷ xs) (suc i) = get_elem? xs i

  -- `iter().filter(p).collect()`, and `retain`.
  abbrev pub filter : (A → Bool) → List A → List A
  filter p [] = []
  filter p (x ∷ xs) = if p x then x ∷ filter p xs else filter p xs

  -- `iter().any(p)`
  abbrev pub any : (A → Bool) → List A → Bool
  any p [] = false
  any p (x ∷ xs) = p x || any p xs

  -- `iter().find(p)`
  abbrev pub find : (A → Bool) → List A → Option A
  find p [] = none
  find p (x ∷ xs) = if p x then some x else find p xs

  -- `iter().filter(p).count()`
  abbrev pub count : (A → Bool) → List A → ℕ
  count p [] = 0
  count p (x ∷ xs) = (if p x then 1 else 0) + count p xs

  unfoldable pub remove_at : ℕ → List A → List A
  remove_at i [] = []
  remove_at zero (x ∷ xs) = xs
  remove_at (suc i) (x ∷ xs) = x ∷ remove_at i xs

  unfoldable pub set_at : ℕ → A → List A → List A
  set_at i y [] = []
  set_at zero y (x ∷ xs) = y ∷ xs
  set_at (suc i) y (x ∷ xs) = x ∷ set_at i y xs

  abbrev pub is_empty : List A → Bool
  is_empty [] = true
  is_empty (x ∷ xs) = false

  -- `VecDeque::pop_front`
  abbrev pub pop_front : List A → List A
  pop_front [] = []
  pop_front (x ∷ xs) = xs

  -- A bounded event queue: the oldest event leaves when the queue is full.
  pub push_bounded : ℕ → A → List A → List A
  push_bounded cap e events = (if length events == cap then pop_front events else events) ++ e ∷ []

  abbrev pub All {κ} : (A → Type κ) → List A → Type κ
  All P [] = Unit
  All P (x ∷ xs) = P x × All P xs

module _ {ℓ} {A : Type ℓ} where
  pub length-append : (xs ys : List A) → length (xs ++ ys) ≡ length xs + length ys
  length-append [] ys = omega arith
  length-append (x ∷ xs) ys = omega (arith, length-append xs ys)

  length-pop_front : (xs : List A) → length (pop_front xs) ≡ length xs - 1
  length-pop_front [] = omega arith
  length-pop_front (x ∷ xs) = omega arith

  pub count-le-length : (p : A → Bool) (xs : List A) → count p xs ≤ length xs
  count-le-length p [] = omega arith
  count-le-length p (x ∷ xs) = ground (arith, count-le-length p xs)

  pub length-filter : (p : A → Bool) (xs : List A) → length (filter p xs) ≡ count p xs
  length-filter p [] = refl
  length-filter p (x ∷ xs) = ground (arith, length-filter p xs)

  -- A queue within its bound stays within it.
  pub length-push_bounded :
      (cap : ℕ) (e : A) (events : List A)
      → 0 < cap
      → length events ≤ cap
      → length (push_bounded cap e events) ≤ cap
  unfolding push_bounded
  length-push_bounded cap e events pos h = ground (
    arith,
    length-append (pop_front events) (e ∷ []),
    length-append events (e ∷ []),
    length-pop_front events,
  )

  pub All-append {κ} : (P : A → Type κ) (xs ys : List A) → All P xs → All P ys → All P (xs ++ ys)
  All-append P [] ys hx hy = hy
  All-append P (x ∷ xs) ys hx hy = (hx.0, All-append P xs ys hx.1 hy)

  pub filter-append :
      (p : A → Bool) (xs ys : List A) → filter p (xs ++ ys) ≡ filter p xs ++ filter p ys
  filter-append p [] ys = refl
  filter-append p (x ∷ xs) ys = ground (arith, filter-append p xs ys)

  pub filter-All : (p : A → Bool) (xs : List A) → All (λ x. p x ≡ true) xs → filter p xs ≡ xs
  filter-All p [] h = refl
  filter-All p (x ∷ xs) h = ground (arith, h.0, filter-All p xs h.1)

  pub All-filter {κ} :
      (P : A → Type κ) (p : A → Bool) (xs : List A) → All P xs → All P (filter p xs)
  All-filter P p [] a = a
  All-filter P p (x ∷ xs) a = elim (Bool-cases (p x)) [
    | inl h ↦ rw h (a.0, All-filter P p xs a.1)
    | inr h ↦ rw h (All-filter P p xs a.1)
  ]

  pub All-map {κ μ} :
      (P : A → Type κ) (Q : A → Type μ) (xs : List A) → ((x : A) → P x → Q x) → All P xs → All Q xs
  All-map P Q [] f a = tt
  All-map P Q (x ∷ xs) f a = (f x a.0, All-map P Q xs f a.1)

  pub All-get_elem? {κ} :
      (P : A → Type κ) (i : ℕ) (y : A) (xs : List A) → get_elem? xs i ≡ some y → All P xs → P y
  All-get_elem? P i y [] e a = ground (arith, e)
  All-get_elem? P zero y (x ∷ xs) e a = subst P (some-injective x y e) a.0
  All-get_elem? P (suc i) y (x ∷ xs) e a = All-get_elem? P i y xs e a.1

  pub All-find {κ} :
      (P : A → Type κ) (p : A → Bool) (y : A) (xs : List A) → find p xs ≡ some y → All P xs → P y
  All-find P p y [] e a = ground (arith, e)
  All-find P p y (x ∷ xs) e a = elim (Bool-cases (p x)) [
    | inl h ↦ subst P (some-injective x y (ground (arith, h, e))) a.0
    | inr h ↦ All-find P p y xs (ground (arith, h, e)) a.1
  ]

  -- A list has its own elements.
  abbrev pub Has : List A → A → Type ℓ
  Has xs x = (i : ℕ) × (get_elem? xs i ≡ some x)

  pub All-Has : (xs : List A) → All (Has xs) xs
  All-Has [] = tt
  All-Has (x ∷ xs) =
      ((0, refl), All-map (Has xs) (Has (x ∷ xs)) xs (λ y h. (suc h.0, h.1)) (All-Has xs))

  pub get_elem?-within : (xs : List A) (i : ℕ) → i < length xs → (x : A) × (get_elem? xs i ≡ some x)
  get_elem?-within [] i h = ground (arith, h)
  get_elem?-within (x ∷ xs) zero h = (x, refl)
  get_elem?-within (x ∷ xs) (suc i) h = get_elem?-within xs i (omega arith)

  -- What there is and has a property.
  abbrev pub IsSomeWith {κ} : (A → Type κ) → Option A → Type (ℓ ⊔ κ)
  IsSomeWith P o = (x : A) × (o ≡ some x) × P x

  -- An element that is removed is counted no longer.
  pub count-remove_at :
      (p : A → Bool) (i : ℕ) (x : A) (xs : List A)
      → get_elem? xs i ≡ some x
      → (count p (remove_at i xs) + (if p x then 1 else 0) ≡ count p xs)
        × (length (remove_at i xs) + 1 ≡ length xs)
  unfolding remove_at
  count-remove_at p i x [] h = ground (arith, h)
  count-remove_at p zero x (y ∷ ys) h = rw (some-injective y x h) (omega arith, omega arith)
  count-remove_at p (suc i) x (y ∷ ys) h = ground (arith, h, count-remove_at p i x ys h)

  pub count-set_at :
      (p : A → Bool) (i : ℕ) (x y : A) (xs : List A)
      → get_elem? xs i ≡ some x
      → count p (set_at i y xs) + (if p x then 1 else 0) ≡ count p xs + (if p y then 1 else 0)
  unfolding set_at
  count-set_at p i x y [] h = ground (arith, h)
  count-set_at p zero x y (z ∷ zs) h = rw (some-injective z x h) (omega arith)
  count-set_at p (suc i) x y (z ∷ zs) h = ground (arith, h, count-set_at p i x y zs h)

  pub any-get_elem? :
      (p : A → Bool) (i : ℕ) (x : A) (xs : List A)
      → p x ≡ true
      → get_elem? xs i ≡ some x
      → any p xs ≡ true
  any-get_elem? p i x [] h e = ground (arith, e)
  any-get_elem? p zero x (y ∷ ys) h e = rw (some-injective y x e, h) refl
  any-get_elem? p (suc i) x (y ∷ ys) h e = ground (arith, any-get_elem? p i x ys h e)

  pub any-implied :
      (p q : A → Bool) (xs : List A)
      → ((x : A) → p x ≡ true → q x ≡ true)
      → any p xs ≡ true
      → any q xs ≡ true
  any-implied p q [] f h = h
  any-implied p q (x ∷ xs) f h = ground (arith, h, f x, any-implied p q xs f)
