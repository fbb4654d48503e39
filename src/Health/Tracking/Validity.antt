-- ===== src/Health/Tracking/Validity.antt =====
-- The validity of the records of the health registry (crates/runtime/src/upstream_health.rs).
use way_balancer.Base.{
  ℕ, ◌≤◌, ◌<◌, ◌≡◌, refl, inl, inr, Bool, true, false, ◌==◌, if◌then◌else◌, List, [], ◌∷◌, none,
  some, arith, Option-cases, Bool-cases, Result-cases, All, u16_max,
}
use mathlib.Core.Path.{subst}
use way_balancer.Base.Order.{same, list_ord, nat_ord, pair_ord}
use way_balancer.Base.Map.{
  lookup, insert, replace, remove, lookup-insert, lookup-replace_at, lookup-remove,
}
use way_balancer.Upstream.{
  UpstreamCluster, UpstreamClusterName, UpstreamEndpoint, UpstreamEndpointId,
}
use way_balancer.Upstream.Validation.{IsValidCluster, IsValidEndpoint}
use way_balancer.Registry
use way_balancer.Health.{EndpointHealthPolicy}
use way_balancer.Health.Record.{EndpointHealthRecord, HealthSignal, advance, receive}
use way_balancer.Health.Record.Invariant
use way_balancer.Health.Record.Invariant.{new-Inv, receive-Inv, cap_ejection-Inv, advance-Inv}
use way_balancer.Health.Budget.{EndpointKey, Records}
use way_balancer.Health.Tracking.{
  UpstreamHealthRegistry, admit, admit_all, insert_cluster, remove_cluster, insert_endpoint,
  remove_endpoint, settle, apply_signal, note, count_signal, advance_records, advance_time,
}
use way_balancer.Health.Tracking.Agreement.{lookup-dropped, lookup-drop_cluster}
use way_balancer.Registry.Lookup.{accepted-IsValidEndpoint}

-- Every record is a valid one of the policy.
pub AllInv : EndpointHealthPolicy → Records → Type 0
AllInv p m =
    (key : EndpointKey) (r : EndpointHealthRecord) → lookup key m ≡ some r → Invariant.Inv p r

insert-AllInv :
    (p : EndpointHealthPolicy) (key : EndpointKey) (r : EndpointHealthRecord) (m : Records)
    → Invariant.Inv p r
    → AllInv p m
    → AllInv p (insert key r m)
unfolding AllInv
insert-AllInv p key r m v a i x e = elim (Bool-cases (same key i)) [
  | inl h ↦ subst (Invariant.Inv p) (ground (arith, h, e, lookup-insert key i r m)) v
  | inr h ↦ a i x (ground (arith, h, e, lookup-insert key i r m))
]

replace-AllInv :
    (p : EndpointHealthPolicy) (key : EndpointKey) (r old : EndpointHealthRecord) (m : Records)
    → lookup key m ≡ some old
    → Invariant.Inv p r
    → AllInv p m
    → AllInv p (replace key r m)
unfolding AllInv
replace-AllInv p key r old m k v a i x e = elim (Bool-cases (same key i)) [
  | inl h ↦ subst (Invariant.Inv p) (ground (arith, h, e, lookup-replace_at key i r old m k)) v
  | inr h ↦ a i x (ground (arith, h, e, lookup-replace_at key i r old m k))
]

remove-AllInv :
    (p : EndpointHealthPolicy) (key : EndpointKey) (m : Records)
    → AllInv p m
    → AllInv p (remove key m)
unfolding AllInv
remove-AllInv p key m a i x e = a i x (ground (arith, e, lookup-remove key i m))

record_at :
    (p : EndpointHealthPolicy) (m : Records) (key : EndpointKey) (r : EndpointHealthRecord)
    → AllInv p m
    → lookup key m ≡ some r
    → Invariant.Inv p r
unfolding AllInv
record_at p m key r a e = a key r e

ite-Inv :
    (b : Bool) (x y : EndpointHealthRecord) (p : EndpointHealthPolicy)
    → Invariant.Inv p x
    → Invariant.Inv p y
    → Invariant.Inv p (if b then x else y)
ite-Inv true x y p v w = v
ite-Inv false x y p v w = w

admit-AllInv :
    (h : UpstreamHealthRegistry) (name : UpstreamClusterName) (e : UpstreamEndpoint)
    → 0 < e.metadata.weight
    → e.metadata.weight ≤ u16_max
    → AllInv h.policy h.records
    → AllInv h.policy (admit h name e).records
unfolding admit
admit-AllInv h name e pos range a =
    insert-AllInv h.policy (name, e.id) _ h.records (new-Inv e h.policy pos range) a

admit_all-AllInv :
    (h : UpstreamHealthRegistry) (name : UpstreamClusterName) (es : List UpstreamEndpoint)
    → All IsValidEndpoint es
    → All (λ (e : UpstreamEndpoint). e.metadata.weight ≤ u16_max) es
    → AllInv h.policy h.records
    → AllInv h.policy (admit_all name es h).records × ((admit_all name es h).policy ≡ h.policy)
unfolding admit_all admit
admit_all-AllInv h name [] v w a = (a, refl)
admit_all-AllInv h name (e ∷ es) v w a =
    admit_all-AllInv (admit h name e) name es v.1 w.1
      (admit-AllInv h name e v.0.weight_positive w.0 a)

settle-Inv :
    (h : UpstreamHealthRegistry) (key : EndpointKey) (s : HealthSignal) (r : EndpointHealthRecord)
    → Invariant.Inv h.policy r
    → Invariant.Inv h.policy (settle h key s r)
unfolding settle
settle-Inv h key s r v =
    let received = receive-Inv s h.policy r v in
    ite-Inv _ _ _ h.policy (cap_ejection-Inv h.policy (receive s r h.policy) received) received

pub signal-AllInv :
    (h : UpstreamHealthRegistry) (name : UpstreamClusterName) (id : UpstreamEndpointId)
    (s : HealthSignal)
    → AllInv h.policy h.records
    → AllInv h.policy (apply_signal h name id s).0.records
      × ((apply_signal h name id s).0.policy ≡ h.policy)
unfolding apply_signal
signal-AllInv h name id s a = elim (Option-cases (lookup (name, id) h.records)) [
  | inl k ↦ rw (k, apply_signal) (a, refl)
  | inr (r, k) ↦
      rw (k, apply_signal)
        (
          replace-AllInv h.policy (name, id) _ r h.records k
              (settle-Inv h (name, id) s r (record_at h.policy h.records (name, id) r a k)) a,
          refl,
        )
]

lookup-advance_records :
    (p : EndpointHealthPolicy) (elapsed : ℕ) (key : EndpointKey) (m : Records)
    → lookup key (advance_records p elapsed m).0
      ≡ elim (lookup key m) [ none ↦ none | some r ↦ some (advance p elapsed r).0 ]
unfolding advance_records lookup
lookup-advance_records p elapsed key [] = refl
lookup-advance_records p elapsed key ((i, r) ∷ m) =
    ground (arith, lookup-advance_records p elapsed key m)

advance-AllInv :
    (p : EndpointHealthPolicy) (elapsed : ℕ) (m : Records)
    → p.slow_start_min_weight_percent ≤ 100
    → AllInv p m
    → AllInv p (advance_records p elapsed m).0
unfolding AllInv
advance-AllInv p elapsed m h a i x e = elim (Option-cases (lookup i m)) [
  | inl k ↦ ground (arith, k, e, lookup-advance_records p elapsed i m)
  | inr (r, k) ↦
      subst (Invariant.Inv p) (ground (arith, k, e, lookup-advance_records p elapsed i m))
        (advance-Inv p elapsed r h (a i r k))
]

pub insert_cluster-AllInv :
    (h : UpstreamHealthRegistry) (c : UpstreamCluster)
    → IsValidCluster c
    → All (λ (e : UpstreamEndpoint). e.metadata.weight ≤ u16_max) c.endpoints
    → AllInv h.policy h.records
    → AllInv (insert_cluster h c).0.policy (insert_cluster h c).0.records
unfolding insert_cluster
insert_cluster-AllInv h c v w a =
    let (q, result) = Registry.insert_cluster h.registry c in
    elim (Result-cases result) [
      | inl (u, k) ↦
          let (all, kept) =
            admit_all-AllInv (record h { registry = q }) c.name c.endpoints v.endpoints_valid w a in
          rw (k, insert_cluster) (rw kept all)
      | inr (x, k) ↦ rw (k, insert_cluster) a
    ]

pub remove_cluster-AllInv :
    (h : UpstreamHealthRegistry) (name : UpstreamClusterName)
    → AllInv h.policy h.records
    → AllInv (remove_cluster h name).0.policy (remove_cluster h name).0.records
unfolding remove_cluster AllInv
remove_cluster-AllInv h name a i x e = a i x (
    ground
      (arith, e, lookup-dropped name i.0 i.1 h.records, lookup-drop_cluster name i.0 i.1 h.records))

pub insert_endpoint-AllInv :
    (h : UpstreamHealthRegistry) (name : UpstreamClusterName) (e : UpstreamEndpoint)
    → e.metadata.weight ≤ u16_max
    → AllInv h.policy h.records
    → AllInv (insert_endpoint h name e).0.policy (insert_endpoint h name e).0.records
unfolding insert_endpoint admit
insert_endpoint-AllInv h name e w a =
    let (q, result) = Registry.insert_endpoint h.registry name e in
    elim (Result-cases result) [
      | inl (u, k) ↦
          let pos = (accepted-IsValidEndpoint h.registry name e k).weight_positive in
          rw (k, insert_endpoint) (admit-AllInv (record h { registry = q }) name e pos w a)
      | inr (x, k) ↦ rw (k, insert_endpoint) a
    ]

pub remove_endpoint-AllInv :
    (h : UpstreamHealthRegistry) (name : UpstreamClusterName) (id : UpstreamEndpointId)
    → AllInv h.policy h.records
    → AllInv (remove_endpoint h name id).0.policy (remove_endpoint h name id).0.records
unfolding remove_endpoint
remove_endpoint-AllInv h name id a =
    elim (Result-cases (Registry.remove_endpoint h.registry name id).1) [
      | inl (u, k) ↦ rw (k, remove_endpoint) (remove-AllInv h.policy (name, id) h.records a)
      | inr (x, k) ↦ rw (k, remove_endpoint) a
    ]

pub time-AllInv :
    (h : UpstreamHealthRegistry) (elapsed : ℕ)
    → h.policy.slow_start_min_weight_percent ≤ 100
    → AllInv h.policy h.records
    → AllInv (advance_time h elapsed).policy (advance_time h elapsed).records
unfolding advance_time
time-AllInv h elapsed p a = elim (Bool-cases (elapsed == 0)) [
  | inl k ↦ rw (k, advance_time) a
  | inr k ↦ rw (k, advance_time) (advance-AllInv h.policy elapsed h.records p a)
]

pub note-AllInv :
    (h : UpstreamHealthRegistry) (name : UpstreamClusterName) (id : UpstreamEndpointId)
    (s : HealthSignal)
    → AllInv h.policy h.records
    → AllInv (note h name id s).0.policy (note h name id s).0.records
unfolding note
note-AllInv h name id s a =
    let (all, kept) =
      signal-AllInv (record h { counters = count_signal s h.counters }) name id s a in
    rw kept all

pub new-AllInv : (p : EndpointHealthPolicy) → AllInv p []
unfolding AllInv lookup
new-AllInv p key r e = ground (arith, e)
