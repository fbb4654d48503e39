-- ===== src/Balancer/Weighted/Balance.antt =====
-- A turn of weighted round robin (crates/runtime/src/upstream_balancer.rs) keeps the balance.
use native.Mathlib.Nat.{mul-suc}
use way_balancer.Base.{
  ℕ, ◌+◌, ◌-◌, ◌*◌, ◌<◌, ◌≡◌, refl, ap, ◌∙◌, inl, inr, false, get_elem?, some, arith, Bool-cases,
  wrap64, sum_of-add,
}
use way_balancer.Base.Order.{same, same_refl, list_ord, nat_ord, pair_ord}
use way_balancer.Upstream.{UpstreamEndpointId}
use way_balancer.Health.Queries.{EndpointSelectionCandidate}
use way_balancer.Balancer.{flag_ord}
use way_balancer.Balancer.Weighted.{Credits, credit_of, weight_of, total_of, turn}
use way_balancer.Balancer.Weighted.Turns.{Candidates, IsDistinct}
use way_balancer.Balancer.Weighted.Charges.{raised, Serves}
use way_balancer.Balancer.Weighted.Fairness.{
  hit, IsFair, distinct_same, one_hit, unwrapped, raised-balanced, most_above,
}

module _ (ds : Candidates) (t : ℕ) (n : UpstreamEndpointId → ℕ) (m : Credits) (u : IsDistinct ds)
    (small : total_of ds < 2147483648) (early : t < total_of ds) (v : IsFair ds t n m)
    (c : EndpointSelectionCandidate) (o : Serves ds m c) where
  -- The picks with this one.
  abbrev n' : UpstreamEndpointId → ℕ
  n' id = n id + hit (some c) id

  other-balanced :
      (i : ℕ) (d : EndpointSelectionCandidate)
      → get_elem? ds i ≡ some d
      → same c.endpoint_id d.endpoint_id ≡ false
      → (credit_of d.endpoint_id (turn ds m).0 + total_of ds * n' d.endpoint_id
          ≡ 9223372036854775808 + (t + 1) * weight_of d)
        × (9223372036854775808 < credit_of d.endpoint_id (turn ds m).0 + total_of ds)
  other-balanced i d h e =
      let now : credit_of d.endpoint_id (turn ds m).0 ≡ raised m d =
        o.credits_after i d h ∙ rw e refl in
      let same_count : n' d.endpoint_id ≡ n d.endpoint_id = ground (arith, e) in
      let product = ap (λ k. total_of ds * k) same_count in
      (
        omega (arith, now, product, raised-balanced ds t n m u small early v i d h),
        omega (arith, now, unwrapped ds t n m u small early v i d h, v.above i d h),
      )

  picked-balanced :
      (credit_of c.endpoint_id (turn ds m).0 + total_of ds * n' c.endpoint_id
        ≡ 9223372036854775808 + (t + 1) * weight_of c)
      × (9223372036854775808 < credit_of c.endpoint_id (turn ds m).0 + total_of ds)
  picked-balanced =
      let (j, at_j) = o.one_of in
      let now : credit_of c.endpoint_id (turn ds m).0
          ≡ wrap64 (raised m c + (18446744073709551616 - total_of ds)) =
        o.credits_after j c at_j ∙ rw (same_refl c.endpoint_id) refl in
      let top = most_above ds t n m u small early v c o.most in
      let one_more : n' c.endpoint_id ≡ n c.endpoint_id + 1 =
        ground (arith, same_refl c.endpoint_id) in
      let product = ap (λ k. total_of ds * k) one_more in
      let spread = mul-suc (total_of ds) (n c.endpoint_id) in
      (
        omega (
          arith,
          now,
          top,
          product,
          spread,
          small,
          raised-balanced ds t n m u small early v j c at_j,
        ),
        omega (arith, now, top, small),
      )

  each-balanced :
      (i : ℕ) (d : EndpointSelectionCandidate)
      → get_elem? ds i ≡ some d
      → (credit_of d.endpoint_id (turn ds m).0 + total_of ds * n' d.endpoint_id
          ≡ 9223372036854775808 + (t + 1) * weight_of d)
        × (9223372036854775808 < credit_of d.endpoint_id (turn ds m).0 + total_of ds)
  each-balanced i d h = elim (Bool-cases (same c.endpoint_id d.endpoint_id)) [
    | inr e ↦ other-balanced i d h e
    | inl e ↦ rw (← distinct_same ds i o.one_of.0 d c u h o.one_of.1 e) picked-balanced
  ]

  pub turn-IsFair : IsFair ds (t + 1) n' (turn ds m).0
  turn-IsFair = record {
    balanced = λ i d h. (each-balanced i d h).0;
    above = λ i d h. (each-balanced i d h).1;
    counted =
        sum_of-add (λ (d : EndpointSelectionCandidate). n d.endpoint_id)
          (λ d. hit (some c) d.endpoint_id) ds
        ∙ omega (arith, v.counted, one_hit ds o.one_of.0 c u o.one_of.1);
  }
