-- ===== src/Balancer.antt =====
-- crates/runtime/src/upstream_balancer.rs: the policy and context of a selection. RoundRobin has the
-- cursors, Locality the preference for near candidates.
pub mod RoundRobin
pub mod Locality
pub mod PowerOfTwo
pub mod Weighted
pub mod Affinity
pub mod Eligible
pub mod Sticky
pub mod Selection
pub mod Samples
use Prim.Native.Nat.{compare, Ordering}
use way_balancer.Base.{ℕ, Bool, true, false, Option, arith, ◌≡◌, ◌↔◌}
use way_balancer.Base.Order.{Ord, pair_ord}
use way_balancer.Base.Text.{Text}
use way_balancer.Upstream.{UpstreamClusterName}

pub data LoadBalancingAlgorithm : Type 0 where
  round_robin weighted_round_robin power_of_two_choices : LoadBalancingAlgorithm

pub data LocalityRoutingPolicy : Type 0 where
  disabled prefer_locality prefer_zone prefer_locality_then_zone : LocalityRoutingPolicy

pub data NoHealthyFallback : Type 0 where
  fail include_unhealthy : NoHealthyFallback

pub data AffinityFallbackPolicy : Type 0 where
  balance_healthy : AffinityFallbackPolicy

pub data AffinityPolicy : Type 0 where
  header_hash cookie_hash : Text → AffinityFallbackPolicy → AffinityPolicy

pub record UpstreamSelectionPolicy : Type 0 where
  pub algorithm : LoadBalancingAlgorithm
  pub locality : LocalityRoutingPolicy
  pub no_healthy_fallback : NoHealthyFallback
  pub affinity : Option AffinityPolicy

pub record SelectionContext : Type 0 where
  pub preferred_locality : Option Text
  pub preferred_zone : Option Text
  pub affinity_key : Option Text
  pub request_hash : ℕ  -- u64

abbrev pub flag : Bool → ℕ
flag false = 0
flag true = 1

pub flag_iff : (a b : Bool) → (compare (flag a) (flag b) ≡ Ordering.eq) ↔ (a ≡ b)
flag_iff a b = ground arith

instance abbrev pub flag_ord : Ord Bool
flag_ord = record { cmp = λ a b. compare (flag a) (flag b); cmp_iff = flag_iff }

-- The cluster, and whether unhealthy endpoints are included.
abbrev pub ClusterCursorKey : Type 0
ClusterCursorKey = UpstreamClusterName × Bool
