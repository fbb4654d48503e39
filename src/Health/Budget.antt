-- ===== src/Health/Budget.antt =====
-- The ejection budget of a cluster in crates/runtime/src/upstream_health.rs.
pub mod Counting
use way_balancer.Base.{
  ℕ, ◌+◌, ◌*◌, ◌/◌, Bool, true, false, ltb, leb, ◌==◌, if◌then◌else◌, List, [], ◌∷◌, Option, none,
  some, sat_add64, sat_mul64,
}
use way_balancer.Base.Order.{same, list_ord, nat_ord, pair_ord}
use way_balancer.Base.Map.{Map, lookup}
use way_balancer.Upstream.{UpstreamClusterName, UpstreamEndpointId}
use way_balancer.Health.{EndpointHealthPolicy, is_ejected}
use way_balancer.Health.Record.{EndpointHealthRecord}

-- The derived order compares the cluster first.
abbrev pub EndpointKey : Type 0
EndpointKey = UpstreamClusterName × UpstreamEndpointId

abbrev pub Records : Type 0
Records = Map EndpointKey EndpointHealthRecord

-- The loop over the records: those of the cluster, and the ejected ones among them.
pub tally : UpstreamClusterName → ℕ → ℕ → Records → ℕ × ℕ
tally cluster total out [] = (total, out)
tally cluster total out ((key, r) ∷ m) =
    let mine = same key.0 cluster in
    tally cluster (if mine then sat_add64 total 1 else total)
      (if mine then (if is_ejected r.status then sat_add64 out 1 else out) else out) m

-- `(total * percent + 99) / 100`, saturating.
pub allowed_ejections : EndpointHealthPolicy → ℕ → ℕ
allowed_ejections p total = sat_add64 (sat_mul64 total p.cluster_ejection_budget_percent) 99 / 100

abbrev pub is_out : Option EndpointHealthRecord → Bool
is_out none = false
is_out (some r) = is_ejected r.status

pub can_apply_ejection_budget :
    Records → UpstreamClusterName → UpstreamEndpointId → EndpointHealthPolicy → Bool
can_apply_ejection_budget m cluster id p =
    let (total, out) = tally cluster 0 0 m in
    let allowed = allowed_ejections p total in
    if leb 100 p.cluster_ejection_budget_percent
    then true
    else if total == 0
    then false
    else if allowed == 0
    then false
    else if is_out (lookup (cluster, id) m)
    then leb out allowed
    else ltb out allowed
