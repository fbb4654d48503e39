-- ===== src/Health/Events.antt =====
-- The health events of crates/observability/src/lib.rs, and their bounded queue in
-- crates/runtime/src/upstream_health.rs.
use Prim.Native.String.{String}
use way_balancer.Base.{ℕ, List, push_bounded}
use way_balancer.Upstream.{UpstreamClusterName, UpstreamEndpointId}

pub data UpstreamHealthEventKind : Type 0 where
  degraded unhealthy ejected warmup_started : UpstreamHealthEventKind
  warmup_completed recovery_started recovered : UpstreamHealthEventKind

pub record UpstreamHealthEvent : Type 0 where
  pub kind : UpstreamHealthEventKind
  pub cluster_name : UpstreamClusterName
  pub endpoint_id : UpstreamEndpointId
  pub detail : String

abbrev pub max_health_events : ℕ
max_health_events = 64

pub push_event :
    UpstreamHealthEventKind
    → UpstreamClusterName
    → UpstreamEndpointId
    → String
    → List UpstreamHealthEvent
    → List UpstreamHealthEvent
push_event kind cluster id detail events =
    push_bounded max_health_events
      (record { kind = kind; cluster_name = cluster; endpoint_id = id; detail = detail }) events
