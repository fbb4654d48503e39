-- ===== src/Balancer/RoundRobin.antt =====
-- `select_round_robin` of crates/runtime/src/upstream_balancer.rs: one cursor for each cluster and
-- each kind of candidates, under one lock.
pub mod Rounds
pub mod Picks
mod Tests
use way_balancer.Base.{ℕ, ◌+◌, ◌%◌, Bool, List, length, get_elem?, Option, unwrap_or}
use way_balancer.Base.Order.{list_ord, nat_ord, pair_ord}
use way_balancer.Base.Map.{Map, lookup, insert}
use way_balancer.Upstream.{UpstreamClusterName}
use way_balancer.Health.Queries.{EndpointSelectionCandidate}
use way_balancer.Balancer.{ClusterCursorKey, flag_ord}

abbrev pub Cursors : Type 0
Cursors = Map ClusterCursorKey ℕ

-- The pick is none where the source would index out of range.
pub select_round_robin :
    Cursors
    → UpstreamClusterName
    → List EndpointSelectionCandidate
    → Bool
    → Cursors × Option EndpointSelectionCandidate
select_round_robin cursors name candidates fallback_used =
    let key : ClusterCursorKey = (name, fallback_used) in
    let cursor = unwrap_or (lookup key cursors) 0 in
    let index = cursor % length candidates in
    (insert key ((cursor + 1) % length candidates) cursors, get_elem? candidates index)
