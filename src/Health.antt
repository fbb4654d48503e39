-- ===== src/Health.antt =====
-- crates/runtime/src/upstream_health.rs: the policy, statuses and errors of endpoint health. Record
-- has the health of one endpoint, and Tracking the registry that combines it with the topology.
pub mod Events
pub mod Warmup
pub mod Record
pub mod Budget
pub mod Tracking
pub mod Queries
pub mod Samples
use Prim.Native.Nat.{compare, Ordering}
use way_balancer.Base.{ℕ, Bool, true, false, ◌≡◌, ◌↔◌, Option, none, some, arith}
use way_balancer.Base.Order.{Ord}
use way_balancer.Base.Map.{Map}
use way_balancer.Upstream.{UpstreamClusterName, UpstreamEndpointId}
use way_balancer.Registry.{EndpointRegistryError}

pub record EndpointHealthPolicy : Type 0 where
  pub degraded_failure_threshold : ℕ  -- u32
  pub unhealthy_failure_threshold : ℕ  -- u32
  pub ejection_failure_threshold : ℕ  -- u32
  pub recovery_success_threshold : ℕ  -- u32
  pub ejection_duration : ℕ
  pub warmup_duration : ℕ
  pub consecutive_passive_failure_ejection_threshold : ℕ  -- u32
  pub outlier_window_size : ℕ  -- usize
  pub success_rate_ejection_threshold_percent : ℕ  -- u8
  pub cluster_ejection_budget_percent : ℕ  -- u8
  pub slow_start_min_weight_percent : ℕ  -- u8

pub data ProtocolHealthClass : Type 0 where
  generic http1 http2 grpc tcp : ProtocolHealthClass

abbrev pub ordinal : ProtocolHealthClass → ℕ
ordinal generic = 0
ordinal http1 = 1
ordinal http2 = 2
ordinal grpc = 3
ordinal tcp = 4

pub ordinal_iff :
    (a b : ProtocolHealthClass) → (compare (ordinal a) (ordinal b) ≡ Ordering.eq) ↔ (a ≡ b)
ordinal_iff a b = ground arith

instance abbrev pub protocol_ord : Ord ProtocolHealthClass
protocol_ord = record { cmp = λ a b. compare (ordinal a) (ordinal b); cmp_iff = ordinal_iff }

pub data EndpointHealthStatus : Type 0 where
  healthy degraded unhealthy ejected warming : EndpointHealthStatus

abbrev pub is_available : EndpointHealthStatus → Bool
is_available healthy = true
is_available degraded = true
is_available warming = true
is_available _ = false

abbrev pub same_status : EndpointHealthStatus → EndpointHealthStatus → Bool
same_status healthy healthy = true
same_status degraded degraded = true
same_status unhealthy unhealthy = true
same_status ejected ejected = true
same_status warming warming = true
same_status _ _ = false

abbrev pub is_ejected : EndpointHealthStatus → Bool
is_ejected ejected = true
is_ejected _ = false

abbrev pub is_warming : EndpointHealthStatus → Bool
is_warming warming = true
is_warming _ = false

pub record EndpointHealthSnapshot : Type 0 where
  pub status : EndpointHealthStatus
  pub active_failures : ℕ
  pub passive_failures : ℕ
  pub recovery_successes : ℕ
  pub effective_weight : ℕ
  pub remaining_ejection : Option ℕ
  pub remaining_warmup : Option ℕ
  pub passive_failures_by_protocol : Map ProtocolHealthClass ℕ

pub data UpstreamHealthError : Type 0 where
  registry_error : EndpointRegistryError → UpstreamHealthError
  inconsistent_state endpoint_not_tracked :
      UpstreamClusterName → UpstreamEndpointId → UpstreamHealthError
