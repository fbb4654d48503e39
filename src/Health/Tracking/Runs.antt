-- ===== src/Health/Tracking/Runs.antt =====
-- The health registry (crates/runtime/src/upstream_health.rs) over any sequence of calls.
use way_balancer.Base.{
  ℕ, ◌≤◌, ◌≡◌, refl, List, [], ◌∷◌, arith, Option-cases, Result-cases, All, u16_max,
}
use way_balancer.Base.Order.{list_ord, nat_ord, pair_ord}
use way_balancer.Base.Map.{lookup}
use way_balancer.Upstream.{
  UpstreamCluster, UpstreamClusterName, UpstreamEndpoint, UpstreamEndpointId, EndpointState,
}
use way_balancer.Upstream.Validation.{IsValidCluster}
use way_balancer.Registry
use way_balancer.Registry.Consistency
use way_balancer.Health.{EndpointHealthPolicy}
use way_balancer.Health.Record.{HealthSignal}
use way_balancer.Health.Tracking.{
  UpstreamHealthRegistry, new, admit, admit_all, insert_cluster, remove_cluster, insert_endpoint,
  remove_endpoint, set_endpoint_state, apply_signal, note, advance_time,
}
use way_balancer.Health.Tracking.Agreement.{
  IsAgreed, insert_cluster-IsAgreed, remove_cluster-IsAgreed, insert_endpoint-IsAgreed,
  remove_endpoint-IsAgreed, set_endpoint_state-IsAgreed, signal-IsAgreed, time-IsAgreed,
  insert_cluster-parts,
}
use way_balancer.Registry.Lookup.{nothing_tracked}
use way_balancer.Registry.Consistency.{
  insert_cluster-Inv, remove_cluster-Inv, insert_endpoint-Inv, remove_endpoint-Inv,
  set_endpoint_state-Inv, empty-Inv,
}
use way_balancer.Health.Tracking.Validity.{
  AllInv, insert_cluster-AllInv, remove_cluster-AllInv, insert_endpoint-AllInv,
  remove_endpoint-AllInv, time-AllInv, note-AllInv, new-AllInv,
}

pub data Call : Type 0 where
  add_cluster : UpstreamCluster → Call
  drop_cluster : UpstreamClusterName → Call
  add_endpoint : UpstreamClusterName → UpstreamEndpoint → Call
  drop_endpoint : UpstreamClusterName → UpstreamEndpointId → Call
  change_state : UpstreamClusterName → UpstreamEndpointId → EndpointState → Call
  signal : UpstreamClusterName → UpstreamEndpointId → HealthSignal → Call
  tick : ℕ → Call

pub step : UpstreamHealthRegistry → Call → UpstreamHealthRegistry
step h (add_cluster c) = (insert_cluster h c).0
step h (drop_cluster name) = (remove_cluster h name).0
step h (add_endpoint name e) = (insert_endpoint h name e).0
step h (drop_endpoint name id) = (remove_endpoint h name id).0
step h (change_state name id s) = (set_endpoint_state h name id s).0
step h (signal name id s) = (note h name id s).0
step h (tick elapsed) = advance_time h elapsed

pub run : UpstreamHealthRegistry → List Call → UpstreamHealthRegistry
run h [] = h
run h (c ∷ cs) = run (step h c) cs

-- The clusters handed in are valid, and the weights are u16.
abbrev pub IsSound : Call → Type 0
IsSound (add_cluster c) =
    IsValidCluster c × All (λ (e : UpstreamEndpoint). e.metadata.weight ≤ u16_max) c.endpoints
IsSound (add_endpoint name e) = e.metadata.weight ≤ u16_max
IsSound _ = Unit {0}

-- The topology is valid, every endpoint of it has a record, and every record is valid.
pub record Inv (h : UpstreamHealthRegistry) : Type 0 where
  pub topology : Consistency.Inv h.registry
  pub agreed : IsAgreed h
  pub records_valid : AllInv h.policy h.records

insert_endpoint-registry :
    (h : UpstreamHealthRegistry) (name : UpstreamClusterName) (e : UpstreamEndpoint)
    → (insert_endpoint h name e).0.registry ≡ (Registry.insert_endpoint h.registry name e).0
unfolding insert_endpoint admit
insert_endpoint-registry h name e =
    ground (arith, Result-cases (Registry.insert_endpoint h.registry name e).1)

remove_endpoint-registry :
    (h : UpstreamHealthRegistry) (name : UpstreamClusterName) (id : UpstreamEndpointId)
    → (remove_endpoint h name id).0.registry ≡ (Registry.remove_endpoint h.registry name id).0
unfolding remove_endpoint
remove_endpoint-registry h name id =
    ground (arith, Result-cases (Registry.remove_endpoint h.registry name id).1)

note-registry :
    (h : UpstreamHealthRegistry) (name : UpstreamClusterName) (id : UpstreamEndpointId)
    (s : HealthSignal)
    → (note h name id s).0.registry ≡ h.registry
unfolding note apply_signal
note-registry h name id s = ground (arith, Option-cases (lookup (name, id) h.records))

time-registry :
    (h : UpstreamHealthRegistry) (elapsed : ℕ) → (advance_time h elapsed).registry ≡ h.registry
unfolding advance_time
time-registry h elapsed = ground arith

remove_cluster-topology :
    (h : UpstreamHealthRegistry) (name : UpstreamClusterName)
    → Consistency.Inv h.registry
    → Consistency.Inv (remove_cluster h name).0.registry
unfolding remove_cluster
remove_cluster-topology h name v = remove_cluster-Inv h.registry name v

set_endpoint_state-parts :
    (h : UpstreamHealthRegistry) (name : UpstreamClusterName) (id : UpstreamEndpointId)
    (s : EndpointState)
    → Inv h
    → Consistency.Inv (set_endpoint_state h name id s).0.registry
      × AllInv (set_endpoint_state h name id s).0.policy (set_endpoint_state h name id s).0.records
unfolding set_endpoint_state
set_endpoint_state-parts h name id s v =
    (set_endpoint_state-Inv h.registry name id s v.topology, v.records_valid)

step-Inv :
    (h : UpstreamHealthRegistry) (c : Call)
    → h.policy.slow_start_min_weight_percent ≤ 100
    → IsSound c
    → Inv h
    → Inv (step h c)
unfolding step
step-Inv h (add_cluster c) p w v = record {
  topology = rw (insert_cluster-parts h c).0 (insert_cluster-Inv h.registry c w.0 v.topology);
  agreed = insert_cluster-IsAgreed h c v.agreed;
  records_valid = insert_cluster-AllInv h c w.0 w.1 v.records_valid;
}
step-Inv h (drop_cluster name) p w v = record {
  topology = remove_cluster-topology h name v.topology;
  agreed = remove_cluster-IsAgreed h name v.agreed;
  records_valid = remove_cluster-AllInv h name v.records_valid;
}
step-Inv h (add_endpoint name e) p w v = record {
  topology =
      rw (insert_endpoint-registry h name e) (insert_endpoint-Inv h.registry name e v.topology);
  agreed = insert_endpoint-IsAgreed h name e v.agreed;
  records_valid = insert_endpoint-AllInv h name e w v.records_valid;
}
step-Inv h (drop_endpoint name id) p w v = record {
  topology =
      rw (remove_endpoint-registry h name id) (remove_endpoint-Inv h.registry name id v.topology);
  agreed = remove_endpoint-IsAgreed h name id v.topology v.agreed;
  records_valid = remove_endpoint-AllInv h name id v.records_valid;
}
step-Inv h (change_state name id s) p w v = record {
  topology = (set_endpoint_state-parts h name id s v).0;
  agreed = set_endpoint_state-IsAgreed h name id s v.agreed;
  records_valid = (set_endpoint_state-parts h name id s v).1;
}
step-Inv h (signal name id s) p w v = record {
  topology = rw (note-registry h name id s) v.topology;
  agreed = signal-IsAgreed h name id s v.agreed;
  records_valid = note-AllInv h name id s v.records_valid;
}
step-Inv h (tick elapsed) p w v = record {
  topology = rw (time-registry h elapsed) v.topology;
  agreed = time-IsAgreed h elapsed v.agreed;
  records_valid = time-AllInv h elapsed p v.records_valid;
}

admit_all-policy :
    (h : UpstreamHealthRegistry) (name : UpstreamClusterName) (es : List UpstreamEndpoint)
    → (admit_all name es h).policy ≡ h.policy
unfolding admit_all admit
admit_all-policy h name [] = refl
admit_all-policy h name (e ∷ es) = admit_all-policy (admit h name e) name es

step-policy : (h : UpstreamHealthRegistry) (c : Call) → (step h c).policy ≡ h.policy
unfolding step insert_cluster remove_cluster insert_endpoint remove_endpoint set_endpoint_state note
    apply_signal advance_time admit
step-policy h (add_cluster c) =
    let (q, result) = Registry.insert_cluster h.registry c in
    ground
      (arith, Result-cases result, admit_all-policy (record h { registry = q }) c.name c.endpoints)
step-policy h (drop_cluster name) = refl
step-policy h (add_endpoint name e) =
    ground (arith, Result-cases (Registry.insert_endpoint h.registry name e).1)
step-policy h (drop_endpoint name id) =
    ground (arith, Result-cases (Registry.remove_endpoint h.registry name id).1)
step-policy h (change_state name id s) = refl
step-policy h (signal name id s) = ground (arith, Option-cases (lookup (name, id) h.records))
step-policy h (tick elapsed) = ground arith

run-Inv :
    (h : UpstreamHealthRegistry) (cs : List Call)
    → h.policy.slow_start_min_weight_percent ≤ 100
    → All IsSound cs
    → Inv h
    → Inv (run h cs)
unfolding run
run-Inv h [] p w v = v
run-Inv h (c ∷ cs) p w v = run-Inv (step h c) cs (rw (step-policy h c) p) w.1 (step-Inv h c p w.0 v)

new-IsAgreed : (p : EndpointHealthPolicy) → IsAgreed (new p)
unfolding new lookup
new-IsAgreed p = record { recorded = λ i j t. ground (arith, t, nothing_tracked i j) }

-- Starting with a new registry and a slow-start percentage of at most 100, any calls that hand in
-- only valid clusters and weights in the range of u16 leave a valid topology, of which every endpoint
-- has a health record, and only valid records.
pub health_stays_valid :
    (p : EndpointHealthPolicy) (cs : List Call)
    → p.slow_start_min_weight_percent ≤ 100
    → All IsSound cs
    → Inv (run (new p) cs)
unfolding new
health_stays_valid p cs h w =
    run-Inv (new p) cs h w
      (record { topology = empty-Inv; agreed = new-IsAgreed p; records_valid = new-AllInv p })
