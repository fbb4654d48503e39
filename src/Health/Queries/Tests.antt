-- ===== src/Health/Queries/Tests.antt =====
-- What the queries of the health registry return for a concrete one.
use way_balancer.Base.{◌≡◌, true, ◌&&◌, List, some, ok, any, All}
use way_balancer.Base.Order.{same, list_ord, nat_ord, pair_ord}
use way_balancer.Base.Map.{lookup}
use way_balancer.Upstream.{UpstreamEndpointId}
use way_balancer.Upstream.Clusters.{endpoint-find}
use way_balancer.Upstream.Samples.{first, pair}
use way_balancer.Registry
use way_balancer.Registry.Lookup.{tracked}
use way_balancer.Health.Queries.Samples.{name, tracking, pair_found, agrees}
use way_balancer.Health.Queries.{EndpointSelectionCandidate, selection_candidates}
use way_balancer.Health.Queries.Candidates.{is_selectable, names, IsCandidate, candidates_exact}

first-tracked : tracked tracking.registry name first.id ≡ some first
unfolding Registry.cluster lookup
first-tracked = endpoint-find pair first.id

candidates_exact_example :
    (cs : List EndpointSelectionCandidate) × (selection_candidates tracking name true ≡ ok cs)
    × All (IsCandidate tracking name true) cs
    × ((id : UpstreamEndpointId)
        → names cs id
          ≡ any (λ e. same e.id id && is_selectable tracking name true e) pair.endpoints)
candidates_exact_example = candidates_exact tracking name pair true agrees pair_found
