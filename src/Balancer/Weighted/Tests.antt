-- ===== src/Balancer/Weighted/Tests.antt =====
-- A round of weighted round robin over two candidates.
use way_balancer.Base.{◌≡◌, refl, false, List, [], ◌∷◌, none, arith}
use way_balancer.Base.Order.{list_ord, nat_ord, pair_ord}
use way_balancer.Base.Map.{lookup}
use way_balancer.Health.Queries.{EndpointSelectionCandidate}
use way_balancer.Balancer.{flag_ord}
use way_balancer.Balancer.Samples.{candidate_in}
use way_balancer.Balancer.Weighted.{total_of, weight_of}
use way_balancer.Balancer.Weighted.Turns.{IsDistinct}
use way_balancer.Balancer.Weighted.Rounds.{served, served_by_weight}

abbrev heavy : EndpointSelectionCandidate
heavy = record (candidate_in 97 none) {
  health = record ((candidate_in 97 none).health) { effective_weight = 3 };
}

abbrev uneven : List EndpointSelectionCandidate
uneven = heavy ∷ candidate_in 98 none ∷ []

uneven-IsDistinct : IsDistinct uneven
uneven-IsDistinct = (refl, (refl, tt))

uneven_total : total_of uneven ≡ 4
unfolding total_of
uneven_total = refl

served_by_weight_example :
    served heavy.endpoint_id (total_of uneven) [] heavy.cluster_name uneven false ≡ weight_of heavy
unfolding lookup
served_by_weight_example =
    served_by_weight [] heavy.cluster_name uneven false uneven-IsDistinct
      (omega (arith, uneven_total)) refl 0 heavy refl
