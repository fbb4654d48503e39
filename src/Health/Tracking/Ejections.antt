-- ===== src/Health/Tracking/Ejections.antt =====
-- The ejection budget over the signals of a registry (crates/runtime/src/upstream_health.rs).
use way_balancer.Base.{
  Bool-cases, false, ◌≤◌, ◌≡◌, if◌then◌else◌, Option-cases, inl, inr, some, length, arith, max,
}
use way_balancer.Base.Map.{lookup, replace, lookup-replace_at, length-replace}
use way_balancer.Base.Order.{same, same_iff, same_refl, list_ord, nat_ord, pair_ord}
use way_balancer.Upstream.{UpstreamClusterName, UpstreamEndpointId}
use way_balancer.Health.Record.{EndpointHealthRecord, HealthSignal, cap_ejection, receive}
use way_balancer.Health.Record.Invariant.{cap_ejection-free}
use way_balancer.Health.Budget.{EndpointKey}
use way_balancer.Health.Budget.Counting.{
  tracked_count, ejected_count, budget, max_records, replace_counts, replace_counts_other,
  can_apply-budget,
}
use way_balancer.Health.Tracking.{UpstreamHealthRegistry, settle, apply_signal, count_signal, note}

-- The record that is written never takes the cluster over its budget.
settle-budget :
    (h : UpstreamHealthRegistry) (name : UpstreamClusterName) (id : UpstreamEndpointId)
    (s : HealthSignal) (r : EndpointHealthRecord)
    → h.policy.cluster_ejection_budget_percent ≤ 99
    → length h.records ≤ max_records
    → lookup (name, id) h.records ≡ some r
    → let m = replace (name, id) (settle h (name, id) s r) h.records in
      (ejected_count name m
        ≤ max (ejected_count name h.records) (budget h.policy (tracked_count name h.records)))
      × (tracked_count name m ≡ tracked_count name h.records)
unfolding settle
settle-budget h name id s r percent size e =
    let received = receive s r h.policy in
    let written = replace (name, id) received h.records in
    ground (
      arith,
      e,
      replace_counts name id received r h.records e,
      replace_counts name id (cap_ejection received) r h.records e,
      cap_ejection-free received,
      length-replace (name, id) received h.records,
      lookup-replace_at (name, id) (name, id) received r h.records e,
      same_refl {A = EndpointKey} (name, id),
      can_apply-budget written name id h.policy,
    )

-- What a signal to the cluster `name` may do to the ejections of `other`: of its own cluster, as many
-- are ejected as there were, or as the budget allows; of another one, exactly as many as there were.
abbrev pub IsBudgeted :
    UpstreamHealthRegistry
    → UpstreamHealthRegistry
    → UpstreamClusterName
    → UpstreamClusterName
    → Type 0
IsBudgeted h q name other =
    (if same name other
      then ejected_count other q.records
        ≤ max (ejected_count name h.records) (budget h.policy (tracked_count name h.records))
      else ejected_count other q.records ≡ ejected_count other h.records)
    × (tracked_count other q.records ≡ tracked_count other h.records)

signal-budget_own :
    (h : UpstreamHealthRegistry) (name : UpstreamClusterName) (id : UpstreamEndpointId)
    (s : HealthSignal)
    → h.policy.cluster_ejection_budget_percent ≤ 99
    → length h.records ≤ max_records
    → let q = (apply_signal h name id s).0 in
      (ejected_count name q.records
        ≤ max (ejected_count name h.records) (budget h.policy (tracked_count name h.records)))
      × (tracked_count name q.records ≡ tracked_count name h.records)
unfolding apply_signal
signal-budget_own h name id s percent size = elim (Option-cases (lookup (name, id) h.records)) [
  | inl e ↦ ground (arith, e)
  | inr (r, e) ↦ ground (arith, e, settle-budget h name id s r percent size e)
]

signal-budget_other :
    (h : UpstreamHealthRegistry) (name other : UpstreamClusterName) (id : UpstreamEndpointId)
    (s : HealthSignal)
    → same name other ≡ false
    → let q = (apply_signal h name id s).0 in
      (ejected_count other q.records ≡ ejected_count other h.records)
      × (tracked_count other q.records ≡ tracked_count other h.records)
unfolding apply_signal
signal-budget_other h name other id s d = elim (Option-cases (lookup (name, id) h.records)) [
  | inl e ↦ ground (arith, e)
  | inr (r, e) ↦
      ground (arith, e, replace_counts_other name other id (settle h (name, id) s r) h.records d)
]

signal-IsBudgeted :
    (h : UpstreamHealthRegistry) (name other : UpstreamClusterName) (id : UpstreamEndpointId)
    (s : HealthSignal)
    → h.policy.cluster_ejection_budget_percent ≤ 99
    → length h.records ≤ max_records
    → IsBudgeted h (apply_signal h name id s).0 name other
signal-IsBudgeted h name other id s percent size = elim (Bool-cases (same name other)) [
  | inl e ↦ rw (e, ← (same_iff name other).0 e) (signal-budget_own h name id s percent size)
  | inr d ↦ rw d (signal-budget_other h name other id s d)
]

-- For a budget of at most 99 percent and at most 2^56 records, a signal leaves at most as many
-- endpoints of its cluster ejected as there were, or as the budget allows for the endpoints tracked
-- in it. In every other cluster exactly as many are ejected as before, and every cluster has as
-- many records as before.
pub note-IsBudgeted :
    (h : UpstreamHealthRegistry) (name other : UpstreamClusterName) (id : UpstreamEndpointId)
    (s : HealthSignal)
    → h.policy.cluster_ejection_budget_percent ≤ 99
    → length h.records ≤ max_records
    → IsBudgeted h (note h name id s).0 name other
unfolding note
note-IsBudgeted h name other id s percent size =
    signal-IsBudgeted (record h { counters = count_signal s h.counters }) name other id s percent
      size
