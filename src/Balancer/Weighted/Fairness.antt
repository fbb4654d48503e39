-- ===== src/Balancer/Weighted/Fairness.antt =====
-- The balance that turns of weighted round robin (crates/runtime/src/upstream_balancer.rs) keep.
use native.Mathlib.Nat.{mul-le-mul, mul-suc, mul_comm}
use mathlib.Core.Path.{subst}
use way_balancer.Base.{
  ℕ, zero, suc, ◌+◌, ◌*◌, ◌≤◌, ◌<◌, ◌≡◌, refl, sym, ap, ◌∙◌, ◌⊎◌, inl, inr, true, false,
  if◌then◌else◌, [], ◌∷◌, get_elem?, Option, none, some, arith, some-injective, sum_of, Each,
  sum_of-le, sum_of-mul, in_sum,
}
use way_balancer.Base.Order.{same, same_iff, same_refl, list_ord, nat_ord}
use way_balancer.Upstream.{UpstreamEndpointId}
use way_balancer.Health.Queries.{EndpointSelectionCandidate}
use way_balancer.Balancer.Weighted.{Credits, credit_of, weight_of, total_of}
use way_balancer.Balancer.Weighted.Turns.{Candidates, named, IsDistinct, named_not}
use way_balancer.Balancer.Weighted.Charges.{raised}

-- One, if the pick is the endpoint.
abbrev pub hit : Option EndpointSelectionCandidate → UpstreamEndpointId → ℕ
hit none id = 0
hit (some c) id = if same c.endpoint_id id then 1 else 0

-- What every candidate was given and what it paid, `n` times the total, balance after `t` turns.
pub record IsFair (ds : Candidates) (t : ℕ) (n : UpstreamEndpointId → ℕ) (m : Credits)
    : Type 0 where
  pub balanced : Each ds (λ d.
      credit_of d.endpoint_id m + total_of ds * n d.endpoint_id
      ≡ 9223372036854775808 + t * weight_of d)
  pub above : Each ds (λ d. 9223372036854775808 < credit_of d.endpoint_id m + total_of ds)
  pub counted : sum_of (λ (d : EndpointSelectionCandidate). n d.endpoint_id) ds ≡ t

pub total_of-sum_of : (ds : Candidates) → total_of ds ≡ sum_of weight_of ds
unfolding total_of
total_of-sum_of [] = refl
total_of-sum_of (d ∷ ds) = ap (λ k. weight_of d + k) (total_of-sum_of ds)

pub weight_in : (ds : Candidates) → Each ds (λ d. weight_of d ≤ total_of ds)
weight_in ds i d h = omega (arith, in_sum weight_of ds i d h, total_of-sum_of ds)

pub distinct_same :
    (ds : Candidates) (i j : ℕ) (d c : EndpointSelectionCandidate)
    → IsDistinct ds
    → get_elem? ds i ≡ some d
    → get_elem? ds j ≡ some c
    → same c.endpoint_id d.endpoint_id ≡ true
    → c ≡ d
distinct_same [] i j d c u h k e = ground (arith, h)
distinct_same (x ∷ ds) zero zero d c u h k e = sym (some-injective x c k) ∙ some-injective x d h
distinct_same (x ∷ ds) zero (suc j) d c u h k e = ground (
  arith,
  e,
  ap (λ (y : EndpointSelectionCandidate). y.endpoint_id) (some-injective x d h),
  named_not ds x.endpoint_id j c u.0 k,
)
distinct_same (x ∷ ds) (suc i) zero d c u h k e = ground (
  arith,
  e,
  ap (λ (y : EndpointSelectionCandidate). y.endpoint_id) (some-injective x c k),
  named_not ds x.endpoint_id i d u.0 h,
  same_iff c.endpoint_id d.endpoint_id,
  same_iff d.endpoint_id x.endpoint_id,
)
distinct_same (x ∷ ds) (suc i) (suc j) d c u h k e = distinct_same ds i j d c u.1 h k e

no_hits :
    (ds : Candidates) (c : EndpointSelectionCandidate)
    → named ds c.endpoint_id ≡ false
    → sum_of (λ (d : EndpointSelectionCandidate). hit (some c) d.endpoint_id) ds ≡ 0
no_hits [] c n = refl
no_hits (d ∷ ds) c n = ground (
  arith,
  n,
  no_hits ds c (ground (arith, n)),
  same_iff c.endpoint_id d.endpoint_id,
  same_iff d.endpoint_id c.endpoint_id,
)

pub one_hit :
    (ds : Candidates) (j : ℕ) (c : EndpointSelectionCandidate)
    → IsDistinct ds
    → get_elem? ds j ≡ some c
    → sum_of (λ (d : EndpointSelectionCandidate). hit (some c) d.endpoint_id) ds ≡ 1
one_hit [] j c u k = ground (arith, k)
one_hit (d ∷ ds) zero c u k =
    subst
      (λ (x : EndpointSelectionCandidate).
        sum_of (λ (e : EndpointSelectionCandidate). hit (some x) e.endpoint_id) (d ∷ ds) ≡ 1)
      (some-injective d c k) (ground (arith, same_refl d.endpoint_id, no_hits ds d u.0))
one_hit (d ∷ ds) (suc j) c u k =
    ground (arith, named_not ds d.endpoint_id j c u.0 k, one_hit ds j c u.1 k)

-- Credits stay far from overflow for a round.
product_bound :
    (t w total : ℕ) → t ≤ total → w ≤ total → total < 2147483648 → t * w ≤ 4611686018427387904
product_bound t w total p q r =
    let step =
      mul-le-mul {n₁ = t} {m₁ = w} {n₂ = 2147483648} {m₂ = 2147483648} (omega arith)
        (omega arith) in
    omega (arith, step)

pub suc_times : (t w : ℕ) → (t + 1) * w ≡ t * w + w
suc_times t w = omega (arith, mul_comm (t + 1) w, mul-suc w t, mul_comm w t)

lt_or_le : (a b : ℕ) → (a < b) ⊎ (b ≤ a)
lt_or_le a b = omega arith

module _ (ds : Candidates) (t : ℕ) (n : UpstreamEndpointId → ℕ) (m : Credits) (u : IsDistinct ds)
    (small : total_of ds < 2147483648) (early : t < total_of ds) (v : IsFair ds t n m) where
  pub unwrapped : Each ds (λ d. raised m d ≡ credit_of d.endpoint_id m + weight_of d)
  unwrapped i d h =
      let bound =
        product_bound t (weight_of d) (total_of ds) (omega arith) (weight_in ds i d h) small in
      omega (arith, bound, v.balanced i d h, weight_in ds i d h)

  pub raised-balanced : Each ds (λ d.
      raised m d + total_of ds * n d.endpoint_id ≡ 9223372036854775808 + (t + 1) * weight_of d)
  raised-balanced i d h =
      omega (arith, unwrapped i d h, v.balanced i d h, suc_times t (weight_of d))

  -- The candidate with the most credit has more than nothing.
  pub most_above :
      (c : EndpointSelectionCandidate)
      → Each ds (λ d. raised m d ≤ raised m c)
      → 9223372036854775808 < raised m c
  most_above c most = elim (lt_or_le 9223372036854775808 (raised m c)) [
    | inl h ↦ h
    | inr low ↦
        let w : EndpointSelectionCandidate → ℕ = λ d. (t + 1) * weight_of d in
        let paid : EndpointSelectionCandidate → ℕ = λ d. total_of ds * n d.endpoint_id in
        let sums : sum_of w ds ≤ sum_of paid ds =
          sum_of-le w paid ds (λ i d h. omega (arith, raised-balanced i d h, most i d h, low)) in
        let given : sum_of w ds ≡ (t + 1) * total_of ds =
          sum_of-mul (t + 1) weight_of ds ∙ ap (λ k. (t + 1) * k) (sym (total_of-sum_of ds)) in
        let taken : sum_of paid ds ≡ total_of ds * t =
          sum_of-mul (total_of ds) (λ d. n d.endpoint_id) ds
          ∙ ap (λ k. total_of ds * k) v.counted in
        omega
          (arith, early, sums, given, taken, suc_times t (total_of ds), mul_comm t (total_of ds))
  ]
