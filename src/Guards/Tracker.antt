-- ===== src/Guards/Tracker.antt =====
-- `SourceQuotaTracker` of crates/runtime/src/source_guards.rs: how many connections each source
-- has, with leases that give them back when they are dropped.
pub mod Leases
use way_balancer.Base.{
  ℕ, ◌+◌, ◌-◌, Bool, leb, ◌==◌, if◌then◌else◌, List, [], length, Option, none, some, Result, ok,
  err,
}
use way_balancer.Base.Order.{list_ord, nat_ord}
use way_balancer.Base.Map.{Map, lookup, insert, replace, remove}
use way_balancer.Base.Text.{Text}
use way_balancer.Address.{IpAddr, SocketAddr}
use way_balancer.Guards.{
  SourceQuotaPolicy, AbuseRejectionReason, source_quota_exceeded, tracked_source_limit_reached,
  normalize_source_key,
}

pub record SourceQuotaTracker : Type 0 where
  pub policy : SourceQuotaPolicy
  pub active_by_source : Map Text ℕ

pub new : SourceQuotaPolicy → SourceQuotaTracker
new p = record { policy = p; active_by_source = [] }

pub record SourceQuotaLease : Type 0 where
  pub key : Text

-- The count is below its limit, a usize, where it is incremented.
pub acquire_key :
    SourceQuotaTracker → Text → SourceQuotaTracker × Result SourceQuotaLease AbuseRejectionReason
acquire_key t key = elim (lookup key t.active_by_source) [
  | some active ↦
      if leb t.policy.max_active_per_source active then (t, err source_quota_exceeded) else (
        record t { active_by_source = replace key (active + 1) t.active_by_source },
        ok (record { key = key }),
      )
  | none ↦
      if leb t.policy.max_tracked_sources (length t.active_by_source)
      then (t, err tracked_source_limit_reached)
      else (
        record t { active_by_source = insert key 1 t.active_by_source },
        ok (record { key = key }),
      )
]

pub try_acquire :
    (IpAddr → Text)
    → SourceQuotaTracker
    → SocketAddr
    → SourceQuotaTracker × Result SourceQuotaLease AbuseRejectionReason
try_acquire show_ip t peer_addr =
    acquire_key t (normalize_source_key show_ip peer_addr.ip t.policy.aggregation)

pub tracked_sources : SourceQuotaTracker → ℕ
tracked_sources t = length t.active_by_source

-- `release`, which a lease calls when it is dropped.
pub release : SourceQuotaTracker → Text → SourceQuotaTracker
release t key = elim (lookup key t.active_by_source) [
  | none ↦ t
  | some active ↦ record t {
    active_by_source =
        if active - 1 == 0
        then remove key t.active_by_source
        else replace key (active - 1) t.active_by_source;
  }
]

pub drop_lease : SourceQuotaTracker → SourceQuotaLease → SourceQuotaTracker
drop_lease t lease = release t lease.key
