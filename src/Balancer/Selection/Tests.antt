-- ===== src/Balancer/Selection/Tests.antt =====
-- Selections from a concrete registry.
use way_balancer.Base.{◌≡◌, Bool, true, false, none, some, Result}
use way_balancer.Base.Text.{codes}
use way_balancer.Upstream.{UpstreamCluster}
use way_balancer.Upstream.Samples.{pair}
use way_balancer.Registry
use way_balancer.Health.Queries.Samples.{name, tracking, pair_found, agrees}
use way_balancer.Health.Tracking.Agreement.{IsAgreed}
use way_balancer.Balancer.{
  UpstreamSelectionPolicy, SelectionContext, weighted_round_robin, prefer_zone, include_unhealthy,
  header_hash, balance_healthy,
}
use way_balancer.Balancer.Affinity.{Score}
use way_balancer.Balancer.Eligible.{Views, SelectedEndpoint, UpstreamSelectionError}
use way_balancer.Balancer.Eligible.Found.{IsExplained}
use way_balancer.Balancer.Selection.{new, select_endpoint}
use way_balancer.Balancer.Selection.Soundness.{selection-IsExplained}
use way_balancer.Balancer.Selection.Servable.{view_of, IsOutcome, selected-IsServable}

abbrev views : Views
views = record { healthy_view = tracking; fallback_view = tracking; affinity_view = tracking }

abbrev policy : UpstreamSelectionPolicy
policy = record {
  algorithm = weighted_round_robin;
  locality = prefer_zone;
  no_healthy_fallback = include_unhealthy;
  affinity = some (header_hash (codes "x-user") balance_healthy);
}

abbrev context : SelectionContext
context = record {
  preferred_locality = none;
  preferred_zone = some (codes "z");
  affinity_key = some (codes "ann");
  request_hash = 7;
}

-- A score that knows only the weights.
abbrev by_weight : Score
by_weight key c = c.health.effective_weight

selection-IsExplained_example :
    (r : Result SelectedEndpoint UpstreamSelectionError) × ((select_endpoint by_weight new views
        name policy context).1
      ≡ some r)
    × IsExplained views name policy context r
selection-IsExplained_example = selection-IsExplained by_weight new views name policy context

views_agree : (u : Bool) → IsAgreed (view_of views u)
views_agree false = agrees
views_agree true = agrees

views_know :
    (u : Bool) → (c : UpstreamCluster) × (Registry.cluster (view_of views u).registry name ≡ some c)
views_know false = (pair, pair_found)
views_know true = (pair, pair_found)

selected-IsServable_example :
    (r : Result SelectedEndpoint UpstreamSelectionError) × ((select_endpoint by_weight new views
        name policy context).1
      ≡ some r)
    × IsOutcome views name policy context r
selected-IsServable_example =
    selected-IsServable by_weight new views name policy context views_agree views_know
