-- ===== src/Balancer/Eligible.antt =====
-- `select_endpoint` of crates/runtime/src/upstream_balancer.rs: its results and counters, and its
-- first part, which finds the candidates.
pub mod Found
use way_balancer.Base.{
  ℕ, ◌+◌, Bool, true, false, if◌then◌else◌, List, [], ◌∷◌, find, is_empty, Option, none, some,
  Result, ok, err, wrap64,
}
use way_balancer.Base.Order.{same, list_ord, nat_ord}
use way_balancer.Base.Map.{Map}
use way_balancer.Base.Text.{Text}
use way_balancer.Address.{SocketAddr}
use way_balancer.Upstream.{UpstreamClusterName, UpstreamEndpointId}
use way_balancer.Health.{EndpointHealthStatus, UpstreamHealthError}
use way_balancer.Health.Tracking.{UpstreamHealthRegistry}
use way_balancer.Health.Queries.{EndpointSelectionCandidate, selection_candidates}
use way_balancer.Balancer.{
  LoadBalancingAlgorithm, round_robin, weighted_round_robin, power_of_two_choices,
  NoHealthyFallback, fail, include_unhealthy, AffinityPolicy, header_hash, cookie_hash,
  balance_healthy, UpstreamSelectionPolicy, SelectionContext,
}
use way_balancer.Balancer.RoundRobin.{Cursors, select_round_robin}
use way_balancer.Balancer.Weighted.{WeightedStates, select_weighted_round_robin}
use way_balancer.Balancer.PowerOfTwo.{select_power_of_two}
use way_balancer.Balancer.Locality.{apply_locality_preference}
use way_balancer.Balancer.Affinity.{Score, select_affinity_candidate}

pub record SelectedEndpoint : Type 0 where
  pub cluster_name : UpstreamClusterName
  pub endpoint_id : UpstreamEndpointId
  pub address : SocketAddr
  pub effective_weight : ℕ  -- u16
  pub health_status : EndpointHealthStatus
  pub locality_matched : Bool

pub data UpstreamSelectionError : Type 0 where
  health : UpstreamHealthError → UpstreamSelectionError
  no_eligible_endpoints : UpstreamClusterName → UpstreamSelectionError

pub record SelectionCounters : Type 0 where
  pub round_robin_selection_count : ℕ
  pub weighted_round_robin_selection_count : ℕ
  pub power_of_two_selection_count : ℕ
  pub locality_preference_hit_count : ℕ
  pub no_healthy_endpoint_count : ℕ
  pub unhealthy_fallback_selection_count : ℕ
  pub affinity_hit_count : ℕ
  pub affinity_fallback_count : ℕ

pub record UpstreamSelectionMetrics : Type 0 where
  pub counters : SelectionCounters
  pub weighted_route_selection_count : ℕ
  pub route_destination_fallback_count : ℕ
  pub route_destination_selection_counts : Map Text ℕ

-- What the registry holds at each of the three queries: other calls may change it in between.
pub record Views : Type 0 where
  pub healthy_view : UpstreamHealthRegistry
  pub fallback_view : UpstreamHealthRegistry
  pub affinity_view : UpstreamHealthRegistry

abbrev pub Candidates : Type 0
Candidates = List EndpointSelectionCandidate

-- The candidates of the fallback, if the policy has one.
pub fallback_candidates :
    UpstreamHealthRegistry
    → UpstreamClusterName
    → NoHealthyFallback
    → Result (Candidates × Bool) UpstreamSelectionError
fallback_candidates h name fail = err (no_eligible_endpoints name)
fallback_candidates h name include_unhealthy = elim (selection_candidates h name true) [
  | err e ↦ err (health e)
  | ok ds ↦ if is_empty ds then err (no_eligible_endpoints name) else ok (ds, true)
]

-- The first part of `select_endpoint`: the candidates, and whether they are those of the fallback.
pub eligible :
    SelectionCounters
    → Views
    → UpstreamClusterName
    → UpstreamSelectionPolicy
    → SelectionCounters × Result (Candidates × Bool) UpstreamSelectionError
eligible m v name policy = elim (selection_candidates v.healthy_view name false) [
  | err e ↦ (m, err (health e))
  | ok ds ↦
      if is_empty ds
      then (
        record m { no_healthy_endpoint_count = wrap64 (m.no_healthy_endpoint_count + 1) },
        fallback_candidates v.fallback_view name policy.no_healthy_fallback,
      )
      else (m, ok (ds, false))
]
