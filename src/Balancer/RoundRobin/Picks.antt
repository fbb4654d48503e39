-- ===== src/Balancer/RoundRobin/Picks.antt =====
-- What round robin (crates/runtime/src/upstream_balancer.rs) picks: one of the candidates.
use native.Mathlib.Nat.{mod-lt}
use way_balancer.Base.{
  ◌%◌, ◌<◌, Bool, List, length, unwrap_or, All, All-get_elem?, IsSomeWith, get_elem?-within,
}
use way_balancer.Base.Order.{list_ord, nat_ord, pair_ord}
use way_balancer.Base.Map.{lookup}
use way_balancer.Upstream.{UpstreamClusterName}
use way_balancer.Health.Queries.{EndpointSelectionCandidate}
use way_balancer.Balancer.{flag_ord}
use way_balancer.Balancer.RoundRobin.{Cursors, select_round_robin}

module _ (P : EndpointSelectionCandidate → Type 0) where
  pub round_robin_picks :
      (m : Cursors) (name : UpstreamClusterName) (ds : List EndpointSelectionCandidate) (b : Bool)
      → 0 < length ds
      → All P ds
      → IsSomeWith P (select_round_robin m name ds b).1
  unfolding select_round_robin
  round_robin_picks m name ds b p a =
      let i = unwrap_or (lookup (name, b) m) 0 % length ds in
      let (c, e) = get_elem?-within ds i (mod-lt (unwrap_or (lookup (name, b) m) 0) p) in
      (c, e, All-get_elem? P i c ds e a)
