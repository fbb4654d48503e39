-- ===== src/Balancer/Weighted/Charges.antt =====
-- A whole turn of weighted round robin (crates/runtime/src/upstream_balancer.rs): who is picked,
-- and the credits after it.
use way_balancer.Base.{
  ℕ, ◌+◌, ◌-◌, ◌≤◌, ◌<◌, ◌≡◌, ap, ◌∙◌, if◌then◌else◌, length, none, some, unwrap_or, arith, Has,
  wrap64, Each,
}
use way_balancer.Base.Order.{same, list_ord, nat_ord}
use way_balancer.Base.Map.{lookup, lookup-replace_at, lookup-filter}
use way_balancer.Upstream.{UpstreamEndpointId}
use way_balancer.Health.Queries.{EndpointSelectionCandidate}
use way_balancer.Balancer.Weighted.{
  Credits, credit_of, weight_of, total_of, retain_candidates, credit_all, charge, turn,
}
use way_balancer.Balancer.Weighted.Turns.{
  Candidates, named, IsDistinct, has-named, credit_all-credits,
}
use way_balancer.Balancer.Weighted.Most.{credit_all-IsMost}

-- What a candidate has after it was given its weight.
abbrev pub raised : Credits → EndpointSelectionCandidate → ℕ
raised m d = wrap64 (credit_of d.endpoint_id m + weight_of d)

retained :
    (ds : Candidates) (m : Credits)
    → Each ds (λ d. credit_of d.endpoint_id (retain_candidates ds m) ≡ credit_of d.endpoint_id m)
retained ds m i d h =
    ap (λ v. unwrap_or v 9223372036854775808)
      (lookup-filter (λ (x : UpstreamEndpointId × ℕ). named ds x.0) d.endpoint_id m
        (λ v. has-named ds i d h))

charged :
    (c : EndpointSelectionCandidate) (total v : ℕ) (m : Credits) (id : UpstreamEndpointId)
    → lookup c.endpoint_id m ≡ some v
    → credit_of id (charge c total m) ≡ (
        if same c.endpoint_id id
        then wrap64 (v + (18446744073709551616 - total))
        else credit_of id m)
unfolding charge
charged c total v m id e =
    ground (
      arith,
      e,
      lookup-replace_at c.endpoint_id id (wrap64 (v + (18446744073709551616 - total))) v m,
    )

-- A turn picks a candidate that has the most after all were given their weights, and takes the
-- total from it.
pub record Serves (ds : Candidates) (m : Credits) (c : EndpointSelectionCandidate) : Type 0 where
  pub one_of : Has ds c
  pub picked : (turn ds m).1 ≡ some c
  pub most : Each ds (λ d. raised m d ≤ raised m c)
  pub credits_after : Each ds (λ d. credit_of d.endpoint_id (turn ds m).0 ≡ (
      if same c.endpoint_id d.endpoint_id
      then wrap64 (raised m c + (18446744073709551616 - total_of ds))
      else raised m d))

pub turn-Serves :
    (ds : Candidates) (m : Credits)
    → IsDistinct ds
    → 0 < length ds
    → (c : EndpointSelectionCandidate) × Serves ds m c
unfolding turn
turn-Serves ds m u p =
    let kept = retain_candidates ds m in
    let (c, w, is, (most, (j, at_j), credit)) = credit_all-IsMost ds kept u p in
    let final = (credit_all ds kept none).0 in
    let given : Each ds (λ d. lookup d.endpoint_id final ≡ some (raised m d)) = λ i d h.
      credit_all-credits ds kept none i d u h
      ∙ ap (λ k. some (wrap64 (k + weight_of d))) (retained ds m i d h) in
    (
      c,
      record {
        one_of = (j, at_j);
        picked = ground (arith, is);
        most = λ i d h. ground (arith, most i d h, credit, given i d h, given j c at_j);
        credits_after = λ i d h. ground (
          arith,
          is,
          charged c (total_of ds) (raised m c) final d.endpoint_id (given j c at_j),
          given i d h,
        );
      },
    )
