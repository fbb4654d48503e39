-- ===== src/Balancer/Selection.antt =====
-- `UpstreamBalancer::select_endpoint` of crates/runtime/src/upstream_balancer.rs, with the
-- counters. The result is none where the source would index out of range.
pub mod Picks
pub mod Soundness
pub mod Servable
mod Tests
use way_balancer.Base.{
  ℕ, ◌+◌, Bool, true, false, if◌then◌else◌, List, [], ◌∷◌, find, is_empty, Option, none, some,
  Result, ok, err, wrap64,
}
use way_balancer.Base.Order.{same, list_ord, nat_ord}
use way_balancer.Base.Map.{Map}
use way_balancer.Base.Text.{Text}
use way_balancer.Address.{SocketAddr}
use way_balancer.Upstream.{UpstreamClusterName, UpstreamEndpointId}
use way_balancer.Health.{EndpointHealthStatus, UpstreamHealthError}
use way_balancer.Health.Tracking.{UpstreamHealthRegistry}
use way_balancer.Health.Queries.{EndpointSelectionCandidate, selection_candidates}
use way_balancer.Balancer.{
  LoadBalancingAlgorithm, round_robin, weighted_round_robin, power_of_two_choices,
  NoHealthyFallback, fail, include_unhealthy, AffinityPolicy, header_hash, cookie_hash,
  balance_healthy, UpstreamSelectionPolicy, SelectionContext,
}
use way_balancer.Balancer.RoundRobin.{Cursors, select_round_robin}
use way_balancer.Balancer.Weighted.{WeightedStates, select_weighted_round_robin}
use way_balancer.Balancer.PowerOfTwo.{select_power_of_two}
use way_balancer.Balancer.Locality.{apply_locality_preference}
use way_balancer.Balancer.Affinity.{Score, select_affinity_candidate}
use way_balancer.Balancer.Sticky.{try_select_affinity_candidate}
use way_balancer.Balancer.Eligible.{
  Candidates, SelectionCounters, UpstreamSelectionMetrics, UpstreamSelectionError, SelectedEndpoint,
  Views, eligible,
}

pub record UpstreamBalancer : Type 0 where
  pub round_robin_cursors : Cursors
  pub weighted_states : WeightedStates
  pub metrics : SelectionCounters

pub new : UpstreamBalancer
new = record {
  round_robin_cursors = [];
  weighted_states = [];
  metrics = record {
    round_robin_selection_count = 0;
    weighted_round_robin_selection_count = 0;
    power_of_two_selection_count = 0;
    locality_preference_hit_count = 0;
    no_healthy_endpoint_count = 0;
    unhealthy_fallback_selection_count = 0;
    affinity_hit_count = 0;
    affinity_fallback_count = 0;
  };
}

-- The algorithm of the policy, with its counter.
pub balance :
    UpstreamBalancer
    → LoadBalancingAlgorithm
    → UpstreamClusterName
    → Candidates
    → Bool
    → ℕ
    → UpstreamBalancer × Option EndpointSelectionCandidate
balance b round_robin name ds fallback_used hash =
    let (cursors, pick) = select_round_robin b.round_robin_cursors name ds fallback_used in
    let m = b.metrics in
    (
      record b {
        round_robin_cursors = cursors;
        metrics = record m {
          round_robin_selection_count = wrap64 (m.round_robin_selection_count + 1);
        };
      },
      pick,
    )
balance b weighted_round_robin name ds fallback_used hash =
    let (states, pick) = select_weighted_round_robin b.weighted_states name ds fallback_used in
    let m = b.metrics in
    (
      record b {
        weighted_states = states;
        metrics = record m {
          weighted_round_robin_selection_count =
              wrap64 (m.weighted_round_robin_selection_count + 1);
        };
      },
      pick,
    )
balance b power_of_two_choices name ds fallback_used hash =
    let m = b.metrics in
    (
      record b {
        metrics = record m {
          power_of_two_selection_count = wrap64 (m.power_of_two_selection_count + 1);
        };
      },
      select_power_of_two ds hash,
    )

-- The last part of `select_endpoint`.
pub finish :
    UpstreamBalancer
    → Bool
    → Bool
    → EndpointSelectionCandidate
    → UpstreamBalancer × SelectedEndpoint
finish b fallback_used locality_matched c =
    let m = b.metrics in
    (
      if fallback_used
          then record b {
            metrics = record m {
              unhealthy_fallback_selection_count =
                  wrap64 (m.unhealthy_fallback_selection_count + 1);
            };
          }
          else b,
      record {
        cluster_name = c.cluster_name;
        endpoint_id = c.endpoint_id;
        address = c.address;
        effective_weight = c.health.effective_weight;
        health_status = c.health.status;
        locality_matched = locality_matched;
      },
    )

abbrev pub count_locality : UpstreamBalancer → Bool → UpstreamBalancer
count_locality b matched =
    let m = b.metrics in
    if matched
    then record b {
      metrics = record m {
        locality_preference_hit_count = wrap64 (m.locality_preference_hit_count + 1);
      };
    }
    else b

-- What follows from the answer of the affinity.
pub deliver :
    UpstreamBalancer
    → UpstreamClusterName
    → LoadBalancingAlgorithm
    → ℕ
    → Candidates
    → Bool
    → Bool
    → Result (Option EndpointSelectionCandidate) UpstreamSelectionError
    → UpstreamBalancer × Option (Result SelectedEndpoint UpstreamSelectionError)
deliver b name algorithm hash ds matched fallback_used (err e) = (b, some (err e))
deliver b name algorithm hash ds matched fallback_used (ok (some c)) =
    let (b', selected) = finish b fallback_used matched c in (b', some (ok selected))
deliver b name algorithm hash ds matched fallback_used (ok none) =
    let (b', pick) = balance b algorithm name ds fallback_used hash in
    elim pick [
      | none ↦ (b', none)
      | some c ↦
          let (b'', selected) = finish b' fallback_used matched c in (b'', some (ok selected))
    ]

-- The part of `select_endpoint` that follows when there are candidates.
pub select_among :
    Score
    → UpstreamBalancer
    → UpstreamHealthRegistry
    → UpstreamClusterName
    → UpstreamSelectionPolicy
    → SelectionContext
    → Candidates
    → Bool
    → UpstreamBalancer × Option (Result SelectedEndpoint UpstreamSelectionError)
select_among score b h name policy context candidates fallback_used =
    let (ds, matched) = apply_locality_preference candidates policy context in
    let b1 = count_locality b matched in
    let (m, sticky) = try_select_affinity_candidate score b1.metrics h name policy context ds in
    deliver (record b1 { metrics = m }) name policy.algorithm context.request_hash ds matched
      fallback_used sticky

pub select_endpoint :
    Score
    → UpstreamBalancer
    → Views
    → UpstreamClusterName
    → UpstreamSelectionPolicy
    → SelectionContext
    → UpstreamBalancer × Option (Result SelectedEndpoint UpstreamSelectionError)
select_endpoint score b v name policy context =
    let (m, found) = eligible b.metrics v name policy in
    let b1 = record b { metrics = m } in
    elim found [
      | err e ↦ (b1, some (err e))
      | ok (candidates, fallback_used) ↦
          select_among score b1 v.affinity_view name policy context candidates fallback_used
    ]

pub metrics : UpstreamBalancer → UpstreamSelectionMetrics
metrics b = record {
  counters = b.metrics;
  weighted_route_selection_count = 0;
  route_destination_fallback_count = 0;
  route_destination_selection_counts = [];
}
