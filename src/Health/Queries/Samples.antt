-- ===== src/Health/Queries/Samples.antt =====
-- A registry with a cluster for the tests.
use way_balancer.Base.{ℕ, ◌≡◌, refl, some, arith, List, [], ◌∷◌}
use way_balancer.Base.Order.{same_iff, list_ord, nat_ord, pair_ord}
use way_balancer.Base.Map.{lookup}
use way_balancer.Upstream.Clusters.{endpoint-find}
use way_balancer.Registry
use way_balancer.Health.Tracking.Agreement.{IsAgreed}
use way_balancer.Upstream.Samples.{first, second, pair}
use way_balancer.Health.Samples.{policy, in_traffic, out}
use way_balancer.Health.Tracking.{UpstreamHealthRegistry}

abbrev pub name : List ℕ
name = 112 ∷ []

abbrev pub tracking : UpstreamHealthRegistry
tracking = record {
  registry = record { clusters = (name, pair) ∷ []; invalid_definition_count = 0 };
  policy = policy;
  records = ((name, first.id), in_traffic) ∷ ((name, second.id), out) ∷ [];
  events = [];
  counters = record {
    active_success_count = 0;
    active_failure_count = 0;
    passive_success_count = 0;
    passive_failure_count = 0;
    state_change_count = 0;
    ejection_count = 0;
  };
}

pub pair_found : Registry.cluster tracking.registry name ≡ some pair
unfolding Registry.cluster lookup
pair_found = refl

pub agrees : IsAgreed tracking
unfolding Registry.cluster lookup
agrees = record { recorded = λ i j t. ground (arith, t, same_iff name i, endpoint-find pair j) }
