-- ===== src/Balancer/PowerOfTwo/Preferred.antt =====
-- When a candidate is preferred to another (crates/runtime/src/upstream_balancer.rs), said without
-- the scores of the source.
use Prim.Native.Nat.{Ordering}
use way_balancer.Base.{◌≡◌, ◌<◌, true, arith}
use way_balancer.Base.Order.{below, list_cmp-flip, list_ord, nat_ord}
use way_balancer.Health.{EndpointHealthStatus, healthy, degraded, unhealthy, ejected, warming}
use way_balancer.Health.Queries.{EndpointSelectionCandidate}
use way_balancer.Balancer.PowerOfTwo.{health_rank, compare_candidates}

-- One status is better for traffic than another.
pub data IsHealthier : EndpointHealthStatus → EndpointHealthStatus → Type 0 where
  healthy_warming : IsHealthier healthy warming
  warming_degraded : IsHealthier warming degraded
  degraded_unhealthy : IsHealthier degraded unhealthy
  unhealthy_ejected : IsHealthier unhealthy ejected
  chain : {r s t : EndpointHealthStatus} → IsHealthier r s → IsHealthier s t → IsHealthier r t

-- The first candidate is preferred to the second: it is healthier, or as healthy and has more
-- effective weight, or as much and more nominal weight, or as much of this too and the lower
-- identifier.
pub data IsPreferred (x y : EndpointSelectionCandidate) : Type 0 where
  by_health : IsHealthier x.health.status y.health.status → IsPreferred x y
  by_effective_weight :
      x.health.status ≡ y.health.status
      → y.health.effective_weight < x.health.effective_weight
      → IsPreferred x y
  by_nominal_weight :
      x.health.status ≡ y.health.status
      → x.health.effective_weight ≡ y.health.effective_weight
      → y.metadata.weight < x.metadata.weight
      → IsPreferred x y
  by_identifier :
      x.health.status ≡ y.health.status
      → x.health.effective_weight ≡ y.health.effective_weight
      → x.metadata.weight ≡ y.metadata.weight
      → below x.endpoint_id y.endpoint_id ≡ true
      → IsPreferred x y

healthier-rank : (s t : EndpointHealthStatus) → IsHealthier s t → health_rank t < health_rank s
unfolding health_rank
healthier-rank s t healthy_warming = omega arith
healthier-rank s t warming_degraded = omega arith
healthier-rank s t degraded_unhealthy = omega arith
healthier-rank s t unhealthy_ejected = omega arith
healthier-rank s t (chain {s = r} a b) = omega (arith, healthier-rank s r a, healthier-rank r t b)

-- What is preferred compares as greater.
pub preferred-lt :
    (x y : EndpointSelectionCandidate) → IsPreferred y x → compare_candidates x y ≡ Ordering.lt
unfolding compare_candidates
preferred-lt x y (by_health h) = ground (arith, healthier-rank y.health.status x.health.status h)
preferred-lt x y (by_effective_weight e h) = ground (arith, e, h)
preferred-lt x y (by_nominal_weight e f h) = ground (arith, e, f, h)
preferred-lt x y (by_identifier e f g h) = ground (arith, e, f, g, h)

-- Two candidates are not each less than the other.
pub compare_candidates-flip :
    (x y : EndpointSelectionCandidate)
    → compare_candidates x y ≡ Ordering.lt
    → compare_candidates y x ≡ Ordering.gt
unfolding compare_candidates
compare_candidates-flip x y h = ground (arith, h, list_cmp-flip y.endpoint_id x.endpoint_id)
