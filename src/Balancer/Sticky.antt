-- ===== src/Balancer/Sticky.antt =====
-- `try_select_affinity_candidate` of crates/runtime/src/upstream_balancer.rs: the preferred
-- endpoint of a request that carries a key.
pub mod Preferred
use way_balancer.Base.{
  ℕ, ◌+◌, Bool, true, false, if◌then◌else◌, List, [], ◌∷◌, find, is_empty, Option, none, some,
  Result, ok, err, wrap64,
}
use way_balancer.Base.Order.{same, list_ord, nat_ord}
use way_balancer.Base.Map.{Map}
use way_balancer.Base.Text.{Text}
use way_balancer.Address.{SocketAddr}
use way_balancer.Upstream.{UpstreamClusterName, UpstreamEndpointId}
use way_balancer.Health.{EndpointHealthStatus, UpstreamHealthError}
use way_balancer.Health.Tracking.{UpstreamHealthRegistry}
use way_balancer.Health.Queries.{EndpointSelectionCandidate, selection_candidates}
use way_balancer.Balancer.{
  LoadBalancingAlgorithm, round_robin, weighted_round_robin, power_of_two_choices,
  NoHealthyFallback, fail, include_unhealthy, AffinityPolicy, header_hash, cookie_hash,
  balance_healthy, UpstreamSelectionPolicy, SelectionContext,
}
use way_balancer.Balancer.RoundRobin.{Cursors, select_round_robin}
use way_balancer.Balancer.Weighted.{WeightedStates, select_weighted_round_robin}
use way_balancer.Balancer.PowerOfTwo.{select_power_of_two}
use way_balancer.Balancer.Locality.{apply_locality_preference}
use way_balancer.Balancer.Affinity.{Score, select_affinity_candidate}
use way_balancer.Balancer.Eligible.{Candidates, SelectionCounters, UpstreamSelectionError, health}

-- What the policy does where the preferred endpoint is not eligible.
pub after_miss : AffinityPolicy → Option EndpointSelectionCandidate
after_miss (header_hash name balance_healthy) = none
after_miss (cookie_hash name balance_healthy) = none

-- Whether the preferred candidate is eligible.
pub settle_affinity :
    SelectionCounters
    → AffinityPolicy
    → EndpointSelectionCandidate
    → Candidates
    → SelectionCounters × Option EndpointSelectionCandidate
settle_affinity m policy preferred eligible_candidates =
    elim (find (λ (c : EndpointSelectionCandidate). same c.endpoint_id preferred.endpoint_id)
      eligible_candidates) [
        | some selected ↦
            (record m { affinity_hit_count = wrap64 (m.affinity_hit_count + 1) }, some selected)
        | none ↦ (
          record m { affinity_fallback_count = wrap64 (m.affinity_fallback_count + 1) },
          after_miss policy,
        )
      ]

-- `try_select_affinity_candidate` for a policy and a key.
pub select_by_affinity :
    Score
    → SelectionCounters
    → UpstreamHealthRegistry
    → UpstreamClusterName
    → UpstreamSelectionPolicy
    → SelectionContext
    → Candidates
    → AffinityPolicy
    → Text
    → SelectionCounters × Result (Option EndpointSelectionCandidate) UpstreamSelectionError
select_by_affinity score m h name policy context eligible_candidates affinity key =
    elim (selection_candidates h name true) [
      | err e ↦ (m, err (health e))
      | ok all ↦
          elim (select_affinity_candidate score (apply_locality_preference all policy context).0
            key) [
              | none ↦ (m, ok none)
              | some preferred ↦
                  let (m', pick) = settle_affinity m affinity preferred eligible_candidates in
                  (m', ok pick)
            ]
    ]

pub try_select_affinity_candidate :
    Score
    → SelectionCounters
    → UpstreamHealthRegistry
    → UpstreamClusterName
    → UpstreamSelectionPolicy
    → SelectionContext
    → Candidates
    → SelectionCounters × Result (Option EndpointSelectionCandidate) UpstreamSelectionError
try_select_affinity_candidate score m h name policy context eligible_candidates =
    elim policy.affinity [
      | none ↦ (m, ok none)
      | some affinity ↦ elim context.affinity_key [
        | none ↦ (m, ok none)
        | some key ↦
            select_by_affinity score m h name policy context eligible_candidates affinity key
      ]
    ]
