-- ===== src/Health/Tracking/Agreement.antt =====
-- The agreement of the two halves of `UpstreamHealthRegistry`
-- (crates/runtime/src/upstream_health.rs): the endpoints of the topology and the health records.
use way_balancer.Base.{
  ℕ, ◌≡◌, refl, ◌≢◌, ap, ◌⊎◌, inl, inr, Bool, true, false, not, List, [], ◌∷◌, none, ok, arith,
  is_some, Option-cases, Result-cases, find, filter,
}
use way_balancer.Base.Order.{same, same_iff, same_refl, list_ord, nat_ord, pair_ord}
use way_balancer.Base.Map.{lookup, lookup-insert, lookup-replace_at, lookup-remove}
use way_balancer.Upstream.{
  UpstreamCluster, UpstreamClusterName, UpstreamEndpoint, UpstreamEndpointId, EndpointState,
}
use way_balancer.Upstream.Clusters.{endpoint-find}
use way_balancer.Registry
use way_balancer.Registry.{EndpointRegistry}
use way_balancer.Registry.Lookup.{
  tracked, tracked-insert_cluster, tracked-remove_cluster, tracked-insert_endpoint,
  tracked-remove_endpoint, tracked-set_endpoint_state,
}
use way_balancer.Registry.Consistency
use way_balancer.Health.{EndpointHealthPolicy}
use way_balancer.Health.Record
use way_balancer.Health.Record.{EndpointHealthRecord, HealthSignal, advance}
use way_balancer.Health.Budget.{EndpointKey, Records}
use way_balancer.Health.Tracking.{
  UpstreamHealthRegistry, admit, admit_all, insert_cluster, remove_cluster, insert_endpoint,
  remove_endpoint, set_endpoint_state, settle, apply_signal, note, count_signal, advance_records,
  advance_time,
}

-- Whether the records have the endpoint.
abbrev pub has_record : Records → UpstreamClusterName → UpstreamEndpointId → Bool
has_record m name id = is_some (lookup (name, id) m)

pub record IsAgreed (h : UpstreamHealthRegistry) : Type 0 where
  pub recorded :
      (name : UpstreamClusterName) (id : UpstreamEndpointId)
      → is_some (tracked h.registry name id) ≡ true
      → has_record h.records name id ≡ true

admit_all-keeps :
    (c name : UpstreamClusterName) (id : UpstreamEndpointId) (es : List UpstreamEndpoint)
    (h : UpstreamHealthRegistry)
    → has_record h.records name id ≡ true
    → has_record (admit_all c es h).records name id ≡ true
unfolding admit_all admit
admit_all-keeps c name id [] h k = k
admit_all-keeps c name id (e ∷ es) h k =
    admit_all-keeps c name id es (admit h c e)
      (ground (arith, lookup-insert (c, e.id) (name, id) (Record.new e h.policy) h.records))

admit_all-adds :
    (c : UpstreamClusterName) (id : UpstreamEndpointId) (es : List UpstreamEndpoint)
    (h : UpstreamHealthRegistry)
    → is_some (find (λ (e : UpstreamEndpoint). same e.id id) es) ≡ true
    → has_record (admit_all c es h).records c id ≡ true
unfolding admit_all admit
admit_all-adds c id [] h k = ground arith
admit_all-adds c id (e ∷ es) h k = ground (
  arith,
  same_iff e.id id,
  same_iff {A = EndpointKey} (c, e.id) (c, id),
  admit_all-adds c id es (admit h c e),
  admit_all-keeps c c id es (admit h c e),
  lookup-insert (c, e.id) (c, id) (Record.new e h.policy) h.records,
)

admit_all-registry :
    (c : UpstreamClusterName) (es : List UpstreamEndpoint) (h : UpstreamHealthRegistry)
    → (admit_all c es h).registry ≡ h.registry
unfolding admit_all admit
admit_all-registry c [] h = refl
admit_all-registry c (e ∷ es) h = admit_all-registry c es (admit h c e)

-- The two halves after an insertion.
pub insert_cluster-parts :
    (h : UpstreamHealthRegistry) (c : UpstreamCluster)
    → let (q, result) = Registry.insert_cluster h.registry c in
      ((insert_cluster h c).0.registry ≡ q)
      × (((result ≡ ok tt)
            × ((insert_cluster h c).0.records
                ≡ (admit_all c.name c.endpoints (record h { registry = q })).records))
          ⊎ ((result ≢ ok tt) × ((insert_cluster h c).0.records ≡ h.records)))
unfolding insert_cluster
insert_cluster-parts h c =
    let (q, result) = Registry.insert_cluster h.registry c in
    ground (
      arith,
      Result-cases result,
      admit_all-registry c.name c.endpoints (record h { registry = q }),
    )

pub insert_cluster-IsAgreed :
    (h : UpstreamHealthRegistry) (c : UpstreamCluster)
    → IsAgreed h
    → IsAgreed (insert_cluster h c).0
insert_cluster-IsAgreed h c v = record {
  recorded = λ i j t.
      let (q, result) = Registry.insert_cluster h.registry c in
      let h' = record h { registry = q } in
      let (accepted, after) = tracked-insert_cluster h.registry c i j in
      let (topology, records) = insert_cluster-parts h c in
      let found = ap (λ g. tracked g i j) topology in
      ground (
        arith,
        accepted,
        found,
        after,
        records,
        same_iff c.name i,
        v.recorded i j,
        admit_all-keeps c.name i j c.endpoints h',
        admit_all-adds c.name j c.endpoints h',
        endpoint-find c j,
      );
}

-- Dropping the records of one cluster.
pub lookup-dropped :
    (name i : UpstreamClusterName) (j : UpstreamEndpointId) (m : Records)
    → same name i ≡ true
    → lookup (i, j) (filter (λ (x : EndpointKey × EndpointHealthRecord). not (same x.0.0 name)) m)
      ≡ none
unfolding lookup
lookup-dropped name i j [] h = refl
lookup-dropped name i j ((key, r) ∷ m) h = ground (
  arith,
  lookup-dropped name i j m h,
  same_iff key.0 name,
  same_iff name i,
  same_iff {A = EndpointKey} key (i, j),
)

pub lookup-drop_cluster :
    (name i : UpstreamClusterName) (j : UpstreamEndpointId) (m : Records)
    → same name i ≡ false
    → lookup (i, j) (filter (λ (x : EndpointKey × EndpointHealthRecord). not (same x.0.0 name)) m)
      ≡ lookup (i, j) m
unfolding lookup
lookup-drop_cluster name i j [] h = refl
lookup-drop_cluster name i j ((key, r) ∷ m) h = ground (
  arith,
  lookup-drop_cluster name i j m h,
  same_iff key.0 name,
  same_iff name i,
  same_iff key.0 i,
  same_iff {A = EndpointKey} key (i, j),
)

pub remove_cluster-IsAgreed :
    (h : UpstreamHealthRegistry) (name : UpstreamClusterName)
    → IsAgreed h
    → IsAgreed (remove_cluster h name).0
unfolding remove_cluster
remove_cluster-IsAgreed h name v = record {
  recorded = λ i j t.
      let (removed, after) = tracked-remove_cluster h.registry name i j in
      ground (arith, after, v.recorded i j, lookup-drop_cluster name i j h.records);
}

pub insert_endpoint-IsAgreed :
    (h : UpstreamHealthRegistry) (name : UpstreamClusterName) (e : UpstreamEndpoint)
    → IsAgreed h
    → IsAgreed (insert_endpoint h name e).0
unfolding insert_endpoint admit
insert_endpoint-IsAgreed h name e v = record {
  recorded = λ i j t. ground (
    arith,
    tracked-insert_endpoint h.registry name i e j,
    Result-cases (Registry.insert_endpoint h.registry name e).1,
    same_iff name i,
    same_iff e.id j,
    same_refl {A = EndpointKey} (name, e.id),
    v.recorded i j,
    lookup-insert (name, e.id) (i, j) (Record.new e h.policy) h.records,
  );
}

pub remove_endpoint-IsAgreed :
    (h : UpstreamHealthRegistry) (name : UpstreamClusterName) (id : UpstreamEndpointId)
    → Consistency.Inv h.registry
    → IsAgreed h
    → IsAgreed (remove_endpoint h name id).0
unfolding remove_endpoint
remove_endpoint-IsAgreed h name id w v = record {
  recorded = λ i j t.
      let (result, after) = tracked-remove_endpoint h.registry name i id j w in
      ground (
        arith,
        result,
        after,
        Result-cases (Registry.remove_endpoint h.registry name id).1,
        Option-cases (tracked h.registry name id),
        same_iff name i,
        same_iff id j,
        same_iff {A = EndpointKey} (name, id) (i, j),
        v.recorded i j,
        lookup-remove (name, id) (i, j) h.records,
      );
}

pub set_endpoint_state-IsAgreed :
    (h : UpstreamHealthRegistry) (name : UpstreamClusterName) (id : UpstreamEndpointId)
    (s : EndpointState)
    → IsAgreed h
    → IsAgreed (set_endpoint_state h name id s).0
unfolding set_endpoint_state
set_endpoint_state-IsAgreed h name id s v = record {
  recorded = λ i j t.
      let (after, result) = tracked-set_endpoint_state h.registry name i id j s in
      ground (
        arith,
        after,
        same_iff name i,
        same_iff id j,
        Option-cases (tracked h.registry name id),
        v.recorded i j,
      );
}

pub signal-IsAgreed :
    (h : UpstreamHealthRegistry) (name : UpstreamClusterName) (id : UpstreamEndpointId)
    (s : HealthSignal)
    → IsAgreed h
    → IsAgreed (note h name id s).0
unfolding note apply_signal
signal-IsAgreed h name id s v = record {
  recorded = λ i j t. elim (Option-cases (lookup (name, id) h.records)) [
    | inl k ↦ ground (arith, k, v.recorded i j)
    | inr (r, k) ↦
        let q = settle (record h { counters = count_signal s h.counters }) (name, id) s r in
        ground (arith, k, v.recorded i j, lookup-replace_at (name, id) (i, j) q r h.records k)
  ];
}

advance-has_record :
    (p : EndpointHealthPolicy) (elapsed : ℕ) (name : UpstreamClusterName) (id : UpstreamEndpointId)
    (m : Records)
    → has_record (advance_records p elapsed m).0 name id ≡ has_record m name id
unfolding advance_records lookup
advance-has_record p elapsed name id [] = refl
advance-has_record p elapsed name id ((key, r) ∷ m) =
    ground (arith, advance-has_record p elapsed name id m)

pub time-IsAgreed :
    (h : UpstreamHealthRegistry) (elapsed : ℕ) → IsAgreed h → IsAgreed (advance_time h elapsed)
unfolding advance_time
time-IsAgreed h elapsed v = record {
  recorded =
      λ i j t. ground (arith, v.recorded i j, advance-has_record h.policy elapsed i j h.records);
}
