-- ===== src/Upstream/Tests.antt =====
-- The laws of clusters at a concrete one.
use way_balancer.Base.{◌≡◌, ◌↔◌, [], ◌∷◌, ok}
use way_balancer.Base.Order.{list_ord, nat_ord}
use way_balancer.Upstream.{new_cluster}
use way_balancer.Upstream.Validation.{IsValidCluster, new_cluster_iff}
use way_balancer.Upstream.Samples.{first, second, pair}

new_cluster_iff_example :
    (new_cluster (112 ∷ []) (first ∷ second ∷ []) ≡ ok pair)
    ↔ (IsValidCluster pair × (pair.name ≡ 112 ∷ []) × (pair.endpoints ≡ first ∷ second ∷ []))
new_cluster_iff_example = new_cluster_iff (112 ∷ []) (first ∷ second ∷ []) pair
