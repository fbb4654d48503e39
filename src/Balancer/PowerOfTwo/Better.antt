-- ===== src/Balancer/PowerOfTwo/Better.antt =====
-- What power of two choices (crates/runtime/src/upstream_balancer.rs) guarantees.
use native.Mathlib.Nat.{mod-lt, mod-eq_of_lt, mod_self}
use Prim.Native.Nat.{Ordering, bit_xor}
use way_balancer.Base.{
  ℕ, ◌+◌, ◌%◌, ◌≤◌, ◌<◌, ◌≡◌, ◌≢◌, refl, sym, ◌⊎◌, inl, inr, ap, ◌∙◌, true, false, List, length,
  get_elem?, get_elem?-within, some, arith, Bool-cases,
}
use way_balancer.Base.Order.{is_lt}
use way_balancer.Health.Queries.{EndpointSelectionCandidate}
use way_balancer.Balancer.PowerOfTwo.Preferred.{IsPreferred, preferred-lt, compare_candidates-flip}
use way_balancer.Balancer.PowerOfTwo.{
  compare_candidates, mix64, indices, better, select_power_of_two,
}

wrapped : (a n : ℕ) → a < n → (a + 1 ≡ n) ⊎ (a + 1 < n)
wrapped a n h = omega arith

next_differs : (a n : ℕ) → a < n → 2 ≤ n → ((a + 1) % n ≢ a) × ((a + 1) % n < n)
next_differs a n h two = elim (wrapped a n h) [
  | inl e ↦ ground (arith, e, ap (λ k. k % n) e, mod_self n)
  | inr l ↦ ground (arith, l, mod-eq_of_lt l)
]

-- For at least two candidates the two indices are in range and differ.
indices_differ :
    (n hash : ℕ)
    → 2 ≤ n
    → ((indices n hash).0 < n)
      × ((indices n hash).1 < n)
      × ((indices n hash).0 ≢ (indices n hash).1)
unfolding indices
indices_differ n hash two =
    let a = mix64 hash in
    let b = mix64 (bit_xor hash 0x9e3779b97f4a7c15) in
    let a_in = mod-lt a {m = n} (omega arith) in
    let b_in = mod-lt b {m = n} (omega arith) in
    ground (arith, a_in, b_in, next_differs (b % n) n b_in two)

better_first :
    (x y : EndpointSelectionCandidate)
    → is_lt (compare_candidates x y) ≡ false
    → (better (some x) (some y) ≡ some x) × (compare_candidates x y ≢ Ordering.lt)
unfolding better
better_first x y h = (rw h refl, λ e. ground (arith, h, e))

better_second :
    (x y : EndpointSelectionCandidate)
    → is_lt (compare_candidates x y) ≡ true
    → (better (some x) (some y) ≡ some y) × (compare_candidates x y ≡ Ordering.lt)
unfolding better
better_second x y h = (rw h refl, ground (arith, h))

choice :
    (ds : List EndpointSelectionCandidate) (hash : ℕ)
    → 2 ≤ length ds
    → select_power_of_two ds hash
      ≡ better
          (get_elem? ds (indices (length ds) hash).0)
          (get_elem? ds (indices (length ds) hash).1)
unfolding select_power_of_two
choice ds hash two = ground (arith, two)

-- The first is chosen where it does not compare as less, and the second otherwise.
not-IsPreferred_first :
    (x y : EndpointSelectionCandidate) → compare_candidates x y ≢ Ordering.lt → ¬ IsPreferred y x
not-IsPreferred_first x y h p = h (preferred-lt x y p)

not-IsPreferred_second :
    (x y : EndpointSelectionCandidate) → compare_candidates x y ≡ Ordering.lt → ¬ IsPreferred x y
not-IsPreferred_second x y h p = ground (arith, preferred-lt y x p, compare_candidates-flip x y h)

-- Of at least two candidates the choice is one of two at different indices, and the other of them is
-- not preferred to it: that one is not healthier, nor as healthy with more effective weight, nor with
-- as much of it and more nominal weight, nor with as much of both and a lower identifier.
pub better_of_two :
    (ds : List EndpointSelectionCandidate) (hash : ℕ)
    → 2 ≤ length ds
    → (i : ℕ) × (j : ℕ) × (x : EndpointSelectionCandidate) × (y : EndpointSelectionCandidate) × (i
        ≢ j)
      × (get_elem? ds i ≡ some x)
      × (get_elem? ds j ≡ some y)
      × (select_power_of_two ds hash ≡ some x)
      × (¬ IsPreferred y x)
better_of_two ds hash two =
    let (i, j) = indices (length ds) hash in
    let (i_in, j_in, differ) = indices_differ (length ds) hash two in
    let (x, at_i) = get_elem?-within ds i i_in in
    let (y, at_j) = get_elem?-within ds j j_in in
    let chosen : select_power_of_two ds hash ≡ better (some x) (some y) =
      rw (← at_i, ← at_j) (choice ds hash two) in
    elim (Bool-cases (is_lt (compare_candidates x y))) [
      | inl h ↦
          let (is, less) = better_second x y h in
          (
            j,
            i,
            y,
            x,
            λ e. differ (sym e),
            at_j,
            at_i,
            chosen ∙ is,
            not-IsPreferred_second x y less,
          )
      | inr h ↦
          let (is, not_less) = better_first x y h in
          (i, j, x, y, differ, at_i, at_j, chosen ∙ is, not-IsPreferred_first x y not_less)
    ]
