-- ===== src/Health/Budget/Counting.antt =====
-- Counting the ejected endpoints of a cluster (crates/runtime/src/upstream_health.rs).
use way_balancer.Base.{
  ℕ, ◌+◌, ◌*◌, ◌/◌, ◌≤◌, ◌≡◌, true, false, ◌&&◌, if◌then◌else◌, [], ◌∷◌, some, arith, length,
  u64_max, sat_add64,
}
use way_balancer.Base.Order.{same, same_iff, list_ord, nat_ord, pair_ord}
use way_balancer.Base.Map.{lookup, replace}
use way_balancer.Upstream.{UpstreamClusterName, UpstreamEndpointId}
use way_balancer.Health.{EndpointHealthPolicy, is_ejected}
use way_balancer.Health.Record.{EndpointHealthRecord}
use way_balancer.Health.Budget.{
  Records, tally, allowed_ejections, can_apply_ejection_budget, is_out,
}

-- The endpoints tracked in a cluster, and the ejected ones among them.
pub tracked_count : UpstreamClusterName → Records → ℕ
tracked_count cluster [] = 0
tracked_count cluster ((key, r) ∷ m) =
    (if same key.0 cluster then 1 else 0) + tracked_count cluster m

pub ejected_count : UpstreamClusterName → Records → ℕ
ejected_count cluster [] = 0
ejected_count cluster ((key, r) ∷ m) =
    (if same key.0 cluster && is_ejected r.status then 1 else 0) + ejected_count cluster m

-- The budget with no machine arithmetic: the percentage of the endpoints, rounded up.
abbrev pub budget : EndpointHealthPolicy → ℕ → ℕ
budget p total = (total * p.cluster_ejection_budget_percent + 99) / 100

-- So many records that the products stay below 2^64.
abbrev pub max_records : ℕ
max_records = 72057594037927936

tracked_count-le :
    (cluster : UpstreamClusterName) (m : Records) → tracked_count cluster m ≤ length m
unfolding tracked_count
tracked_count-le cluster [] = omega arith
tracked_count-le cluster ((key, r) ∷ m) = ground (arith, tracked_count-le cluster m)

ejected_count-le :
    (cluster : UpstreamClusterName) (m : Records)
    → ejected_count cluster m ≤ tracked_count cluster m
unfolding tracked_count ejected_count
ejected_count-le cluster [] = omega arith
ejected_count-le cluster ((key, r) ∷ m) = ground (arith, ejected_count-le cluster m)

tally_counts :
    (cluster : UpstreamClusterName) (total out : ℕ) (m : Records)
    → total + length m ≤ u64_max
    → out + length m ≤ u64_max
    → tally cluster total out m ≡ (total + tracked_count cluster m, out + ejected_count cluster m)
unfolding tally tracked_count ejected_count
tally_counts cluster total out [] h k = ground arith
tally_counts cluster total out ((key, r) ∷ m) h k =
    let mine = same key.0 cluster in
    let total' = if mine then sat_add64 total 1 else total in
    let out' = if mine then (if is_ejected r.status then sat_add64 out 1 else out) else out in
    let ih = tally_counts cluster total' out' m (ground arith) (ground arith) in ground (arith, ih)

pub replace_counts :
    (cluster : UpstreamClusterName) (id : UpstreamEndpointId) (r old : EndpointHealthRecord)
    (m : Records)
    → lookup (cluster, id) m ≡ some old
    → (ejected_count cluster (replace (cluster, id) r m) + (if is_ejected old.status then 1 else 0)
        ≡ ejected_count cluster m + (if is_ejected r.status then 1 else 0))
      × (tracked_count cluster (replace (cluster, id) r m) ≡ tracked_count cluster m)
unfolding lookup replace tracked_count ejected_count
replace_counts cluster id r old [] h = ground arith
replace_counts cluster id r old ((key, x) ∷ m) h =
    ground
      (arith, replace_counts cluster id r old m, same_iff key (cluster, id), same_iff key.0 cluster)

-- Writing a record leaves the counts of another cluster.
pub replace_counts_other :
    (cluster other : UpstreamClusterName) (id : UpstreamEndpointId) (r : EndpointHealthRecord)
    (m : Records)
    → same cluster other ≡ false
    → (ejected_count other (replace (cluster, id) r m) ≡ ejected_count other m)
      × (tracked_count other (replace (cluster, id) r m) ≡ tracked_count other m)
unfolding replace tracked_count ejected_count
replace_counts_other cluster other id r [] h = ground arith
replace_counts_other cluster other id r ((key, x) ∷ m) h = ground (
  arith,
  replace_counts_other cluster other id r m h,
  same_iff key (cluster, id),
  same_iff cluster other,
  same_iff key.0 other,
)

product_bound : (a b : ℕ) → a ≤ max_records → b ≤ 99 → a * b ≤ 7133701809754865664
product_bound a b h k = grind arith

allowed-budget :
    (p : EndpointHealthPolicy) (total : ℕ)
    → p.cluster_ejection_budget_percent ≤ 99
    → total ≤ max_records
    → allowed_ejections p total ≡ budget p total
unfolding allowed_ejections
allowed-budget p total h k =
    omega (arith, product_bound total p.cluster_ejection_budget_percent k h)

-- Where the budget lets an ejected endpoint stay ejected, the ejected ones of its cluster are within
-- the percentage, rounded up.
pub can_apply-budget :
    (m : Records) (cluster : UpstreamClusterName) (id : UpstreamEndpointId)
    (p : EndpointHealthPolicy)
    → p.cluster_ejection_budget_percent ≤ 99
    → length m ≤ max_records
    → is_out (lookup (cluster, id) m) ≡ true
    → can_apply_ejection_budget m cluster id p ≡ true
    → ejected_count cluster m ≤ budget p (tracked_count cluster m)
unfolding can_apply_ejection_budget
can_apply-budget m cluster id p h k out fits = ground (
  arith,
  tally_counts cluster 0 0 m (omega arith) (omega arith),
  tracked_count-le cluster m,
  allowed-budget p (tracked_count cluster m) h (omega (arith, tracked_count-le cluster m)),
)
