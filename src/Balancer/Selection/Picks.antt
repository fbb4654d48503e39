-- ===== src/Balancer/Selection/Picks.antt =====
-- What the algorithm of a policy (crates/runtime/src/upstream_balancer.rs) picks: one of the
-- candidates.
use way_balancer.Base.{ℕ, ◌<◌, Bool, length, All, IsSomeWith}
use way_balancer.Base.Order.{list_ord, nat_ord, pair_ord}
use way_balancer.Upstream.{UpstreamClusterName}
use way_balancer.Health.Queries.{EndpointSelectionCandidate}
use way_balancer.Balancer.{
  LoadBalancingAlgorithm, round_robin, weighted_round_robin, power_of_two_choices, flag_ord,
}
use way_balancer.Balancer.RoundRobin.Picks.{round_robin_picks}
use way_balancer.Balancer.Weighted.Picks.{weighted_picks}
use way_balancer.Balancer.PowerOfTwo.Picks.{power_of_two_picks}
use way_balancer.Balancer.Selection.{UpstreamBalancer, balance}
use way_balancer.Balancer.Eligible.{Candidates}

module _ (P : EndpointSelectionCandidate → Type 0) where
  -- Every algorithm picks one of the candidates, where there are any.
  pub balance_picks :
      (b : UpstreamBalancer) (l : LoadBalancingAlgorithm) (name : UpstreamClusterName)
      (ds : Candidates) (fallback_used : Bool) (hash : ℕ)
      → 0 < length ds
      → All P ds
      → IsSomeWith P (balance b l name ds fallback_used hash).1
  unfolding balance
  balance_picks b round_robin name ds f hash p a =
      round_robin_picks P b.round_robin_cursors name ds f p a
  balance_picks b weighted_round_robin name ds f hash p a =
      weighted_picks P b.weighted_states name ds f p a
  balance_picks b power_of_two_choices name ds f hash p a = power_of_two_picks P ds hash p a
