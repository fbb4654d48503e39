-- ===== src/Upstream/Validation.antt =====
-- Valid clusters: what crates/net-core/src/upstream.rs accepts, under its operations.
use way_balancer.Base.{
  ◌≤◌, ◌<◌, ◌≡◌, refl, ◌↔◌, Bool, false, ◌||◌, List, [], ◌∷◌, ◌++◌, any, Option, none, some, arith,
  ok, All, All-append, Result-cases,
}
use Prim.Native.String.{String}
use way_balancer.Base.Order.{same, same_iff, list_ord, nat_ord}
use way_balancer.Base.Text.{Text, byte_len}
use way_balancer.Address.{is_unspecified}
use way_balancer.Upstream.{
  UpstreamEndpoint, UpstreamCluster, UpstreamClusterName, UpstreamEndpointId, EndpointState,
  max_metadata_value_len, validate_endpoint, validate_metadata, validate_metadata_field,
  validate_endpoint_address, validate_from, validate_endpoint_uniqueness, new_cluster,
  insert_endpoint, remove_endpoint, set_endpoint_state, take_first, update_first, with_state,
}

abbrev pub IsShort : Option Text → Type 0
IsShort none = Unit {0}
IsShort (some t) = byte_len t ≤ max_metadata_value_len

pub record IsValidEndpoint (e : UpstreamEndpoint) : Type 0 where
  pub port_positive : 0 < e.address.port
  pub addressed : is_unspecified e.address.ip ≡ false
  pub zone_short : IsShort e.metadata.zone
  pub locality_short : IsShort e.metadata.locality
  pub weight_positive : 0 < e.metadata.weight

abbrev pub has_id : UpstreamEndpointId → List UpstreamEndpoint → Bool
has_id id [] = false
has_id id (e ∷ es) = same e.id id || has_id id es

-- The identifiers are pairwise different.
abbrev pub IsDistinct : List UpstreamEndpoint → Type 0
IsDistinct [] = Unit {0}
IsDistinct (e ∷ es) = (has_id e.id es ≡ false) × IsDistinct es

pub record IsValidCluster (c : UpstreamCluster) : Type 0 where
  pub endpoints_valid : All IsValidEndpoint c.endpoints
  pub ids_distinct : IsDistinct c.endpoints

IsShort-iff : (f : String) (t : Option Text) → (validate_metadata_field f t ≡ ok tt) ↔ IsShort t
unfolding validate_metadata_field
IsShort-iff f none = (λ e. tt, λ h. refl)
IsShort-iff f (some t) = (λ e. ground arith, λ h. ground arith)

pub validate_endpoint_iff :
    (e : UpstreamEndpoint) → (validate_endpoint e ≡ ok tt) ↔ IsValidEndpoint e
unfolding validate_endpoint validate_metadata validate_endpoint_address
validate_endpoint_iff e = (
  λ h.
      ground
        (arith, IsShort-iff "zone" e.metadata.zone, IsShort-iff "locality" e.metadata.locality),
  λ v.
      ground
        (arith, IsShort-iff "zone" e.metadata.zone, IsShort-iff "locality" e.metadata.locality),
)

abbrev FreshFrom : List UpstreamEndpointId → List UpstreamEndpoint → Type 0
FreshFrom seen [] = Unit {0}
FreshFrom seen (e ∷ es) = (any (same e.id) seen ≡ false) × FreshFrom (e.id ∷ seen) es

validate_from_iff :
    (seen : List UpstreamEndpointId) (es : List UpstreamEndpoint)
    → (validate_from seen es ≡ ok tt) ↔ (All IsValidEndpoint es × FreshFrom seen es)
unfolding validate_from
validate_from_iff seen [] = (λ e. (tt, tt), λ h. refl)
validate_from_iff seen (e ∷ es) =
    let ih = validate_from_iff (e.id ∷ seen) es in
    (
      λ h. ground (arith, validate_endpoint_iff e, ih, Result-cases (validate_endpoint e)),
      λ v. ground (arith, (validate_endpoint_iff e).1 v.0.0, ih.1 (v.0.1, v.1.1)),
    )

Avoids : List UpstreamEndpointId → List UpstreamEndpoint → Type 0
Avoids seen es = All (λ e. any (same e.id) seen ≡ false) es

has_id-cons :
    (id : UpstreamEndpointId) (seen : List UpstreamEndpointId) (es : List UpstreamEndpoint)
    → Avoids (id ∷ seen) es ↔ ((has_id id es ≡ false) × Avoids seen es)
unfolding Avoids
has_id-cons id seen [] = (λ h. (refl, tt), λ h. tt)
has_id-cons id seen (e ∷ es) =
    let ih = has_id-cons id seen es in (λ h. ground (arith, ih), λ h. ground (arith, ih))

FreshFrom-iff :
    (seen : List UpstreamEndpointId) (es : List UpstreamEndpoint)
    → FreshFrom seen es ↔ (IsDistinct es × Avoids seen es)
unfolding Avoids
FreshFrom-iff seen [] = (λ h. (tt, tt), λ h. tt)
FreshFrom-iff seen (e ∷ es) =
    let ih = FreshFrom-iff (e.id ∷ seen) es in
    let split = has_id-cons e.id seen es in
    (
      λ h. let (d, a) = ih.0 h.1 in let (x, y) = split.0 a in ((x, d), (h.0, y)),
      λ h. (h.1.0, ih.1 (h.0.1, split.1 (h.0.0, h.1.1))),
    )

Avoids-nil : (es : List UpstreamEndpoint) → Avoids [] es
unfolding Avoids
Avoids-nil [] = tt
Avoids-nil (e ∷ es) = (refl, Avoids-nil es)

validate_iff :
    (es : List UpstreamEndpoint)
    → (validate_from [] es ≡ ok tt) ↔ (All IsValidEndpoint es × IsDistinct es)
validate_iff es =
    let v = validate_from_iff [] es in
    let f = FreshFrom-iff [] es in
    (λ h. let (a, b) = v.0 h in (a, (f.0 b).0), λ h. v.1 (h.0, f.1 (h.1, Avoids-nil es)))

new_cluster_cases :
    (name : UpstreamClusterName) (es : List UpstreamEndpoint) (c : UpstreamCluster)
    → new_cluster name es ≡ ok c
    → (validate_from [] es ≡ ok tt) × (c.name ≡ name) × (c.endpoints ≡ es)
unfolding new_cluster validate_endpoint_uniqueness
new_cluster_cases name es c h = (ground arith, ground arith, ground arith)

-- `UpstreamCluster::new` accepts exactly the lists of valid endpoints with pairwise different
-- identifiers, and keeps the name and the list.
pub new_cluster_iff :
    (name : UpstreamClusterName) (es : List UpstreamEndpoint) (c : UpstreamCluster)
    → (new_cluster name es ≡ ok c) ↔ (IsValidCluster c × (c.name ≡ name) × (c.endpoints ≡ es))
unfolding new_cluster validate_endpoint_uniqueness
new_cluster_iff name es c = (
  λ h.
      let (v, n, e) = new_cluster_cases name es c h in
      let (a, d) = (validate_iff es).0 v in
      (record { endpoints_valid = rw e a; ids_distinct = rw e d }, n, e),
  λ h.
      let v = (validate_iff es).1 (rw (← h.2) (h.0.endpoints_valid, h.0.ids_distinct)) in
      rw v (ground (arith, h.1, h.2)),
)

has_id-append :
    (id : UpstreamEndpointId) (es : List UpstreamEndpoint) (e : UpstreamEndpoint)
    → has_id id (es ++ e ∷ []) ≡ (has_id id es || same e.id id)
has_id-append id [] e = ground arith
has_id-append id (d ∷ es) e = ground (arith, has_id-append id es e)

pub any-has_id :
    (id : UpstreamEndpointId) (es : List UpstreamEndpoint)
    → any (λ (e : UpstreamEndpoint). same e.id id) es ≡ has_id id es
any-has_id id [] = refl
any-has_id id (e ∷ es) = ground (arith, any-has_id id es)

IsDistinct-append :
    (es : List UpstreamEndpoint) (e : UpstreamEndpoint)
    → IsDistinct es
    → has_id e.id es ≡ false
    → IsDistinct (es ++ e ∷ [])
IsDistinct-append [] e d h = (refl, tt)
IsDistinct-append (f ∷ es) e d h = ground (
  arith,
  has_id-append f.id es e,
  IsDistinct-append es e d.1,
  same_iff f.id e.id,
  same_iff e.id f.id,
)

take_first-has_id :
    (id i : UpstreamEndpointId) (es : List UpstreamEndpoint)
    → has_id i es ≡ false
    → has_id i (take_first id es).0 ≡ false
unfolding take_first
take_first-has_id id i [] h = refl
take_first-has_id id i (e ∷ es) h = ground (arith, take_first-has_id id i es)

take_first-valid :
    (id : UpstreamEndpointId) (es : List UpstreamEndpoint)
    → All IsValidEndpoint es
    → IsDistinct es
    → All IsValidEndpoint (take_first id es).0 × IsDistinct (take_first id es).0
unfolding take_first
take_first-valid id [] a d = (tt, tt)
take_first-valid id (e ∷ es) a d =
    ground (arith, take_first-valid id es a.1 d.1, take_first-has_id id e.id es d.0)

update_first-has_id :
    (id i : UpstreamEndpointId) (s : EndpointState) (es : List UpstreamEndpoint)
    → has_id i (update_first id s es).0 ≡ has_id i es
unfolding update_first
update_first-has_id id i s [] = refl
update_first-has_id id i s (e ∷ es) = ground (arith, update_first-has_id id i s es)

with_state-IsValid :
    (e : UpstreamEndpoint) (s : EndpointState)
    → IsValidEndpoint e
    → IsValidEndpoint (with_state e s)
with_state-IsValid e s v = record {
  port_positive = v.port_positive;
  addressed = v.addressed;
  zone_short = v.zone_short;
  locality_short = v.locality_short;
  weight_positive = v.weight_positive;
}

update_first-valid :
    (id : UpstreamEndpointId) (s : EndpointState) (es : List UpstreamEndpoint)
    → All IsValidEndpoint es
    → IsDistinct es
    → All IsValidEndpoint (update_first id s es).0 × IsDistinct (update_first id s es).0
unfolding update_first
update_first-valid id s [] a d = (tt, tt)
update_first-valid id s (e ∷ es) a d = ground (
  arith,
  update_first-valid id s es a.1 d.1,
  update_first-has_id id e.id s es,
  with_state-IsValid e s a.0,
)

pub insert-IsValidCluster :
    (c : UpstreamCluster) (e : UpstreamEndpoint)
    → IsValidCluster c
    → IsValidCluster (insert_endpoint c e).0
unfolding insert_endpoint
insert-IsValidCluster c e v = ground (
  arith,
  v.endpoints_valid,
  v.ids_distinct,
  validate_endpoint_iff e,
  any-has_id e.id c.endpoints,
  All-append IsValidEndpoint c.endpoints (e ∷ []) v.endpoints_valid,
  IsDistinct-append c.endpoints e v.ids_distinct,
  Result-cases (validate_endpoint e),
)

pub remove-IsValidCluster :
    (c : UpstreamCluster) (id : UpstreamEndpointId)
    → IsValidCluster c
    → IsValidCluster (remove_endpoint c id).0
unfolding remove_endpoint
remove-IsValidCluster c id v =
    let (a, d) = take_first-valid id c.endpoints v.endpoints_valid v.ids_distinct in
    record { endpoints_valid = a; ids_distinct = d }

pub set-IsValidCluster :
    (c : UpstreamCluster) (id : UpstreamEndpointId) (s : EndpointState)
    → IsValidCluster c
    → IsValidCluster (set_endpoint_state c id s).0
unfolding set_endpoint_state
set-IsValidCluster c id s v =
    let (a, d) = update_first-valid id s c.endpoints v.endpoints_valid v.ids_distinct in
    record { endpoints_valid = a; ids_distinct = d }

-- Inserting, removing and re-stating endpoints keep a cluster valid, whether they succeed or not.
pub operations-IsValidCluster :
    (c : UpstreamCluster) (e : UpstreamEndpoint) (id : UpstreamEndpointId) (s : EndpointState)
    → IsValidCluster c
    → IsValidCluster (insert_endpoint c e).0
      × IsValidCluster (remove_endpoint c id).0
      × IsValidCluster (set_endpoint_state c id s).0
operations-IsValidCluster c e id s v =
    (insert-IsValidCluster c e v, remove-IsValidCluster c id v, set-IsValidCluster c id s v)

pub insert-name :
    (c : UpstreamCluster) (e : UpstreamEndpoint) → (insert_endpoint c e).0.name ≡ c.name
unfolding insert_endpoint
insert-name c e = ground (arith, Result-cases (validate_endpoint e))

pub remove-name :
    (c : UpstreamCluster) (id : UpstreamEndpointId) → (remove_endpoint c id).0.name ≡ c.name
unfolding remove_endpoint
remove-name c id = refl

pub set-name :
    (c : UpstreamCluster) (id : UpstreamEndpointId) (s : EndpointState)
    → (set_endpoint_state c id s).0.name ≡ c.name
unfolding set_endpoint_state
set-name c id s = refl
