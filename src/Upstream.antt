-- ===== src/Upstream.antt =====
-- crates/net-core/src/upstream.rs: endpoints, their metadata, and clusters. Names and identifiers
-- are texts; `new_cluster_name` and `new_endpoint_id` are their checked constructors. A method on
-- `&mut self` takes the cluster and returns the new one with its result.
pub mod Clusters
pub mod Validation
pub mod Samples
mod Tests
use Prim.Native.String.{String}
use way_balancer.Base.{
  ℕ, Bool, true, false, ltb, ◌==◌, if◌then◌else◌, List, [], ◌∷◌, ◌++◌, length, any, find, count,
  is_empty, Option, none, some, Result, ok, err, reject, ◌>>=◌, ◌>>◌,
}
use way_balancer.Base.Order.{same, list_ord, nat_ord}
use way_balancer.Base.Text.{Text, trim, byte_len}
use way_balancer.Address.{SocketAddr, is_unspecified}

abbrev pub UpstreamClusterName : Type 0
UpstreamClusterName = Text

abbrev pub UpstreamEndpointId : Type 0
UpstreamEndpointId = Text

pub data UpstreamModelError : Type 0 where
  empty_cluster_name empty_endpoint_id : UpstreamModelError
  zero_port unspecified_address : SocketAddr → UpstreamModelError
  metadata_too_long : String → ℕ → UpstreamModelError
  zero_endpoint_weight : UpstreamModelError
  duplicate_endpoint_id : Text → UpstreamModelError

pub new_cluster_name : Text → Result UpstreamClusterName UpstreamModelError
new_cluster_name value = do reject (is_empty (trim value)) empty_cluster_name; ok value

pub new_endpoint_id : Text → Result UpstreamEndpointId UpstreamModelError
new_endpoint_id value = do reject (is_empty (trim value)) empty_endpoint_id; ok value

abbrev pub max_metadata_value_len : ℕ
max_metadata_value_len = 64

pub record EndpointMetadata : Type 0 where
  pub zone : Option Text
  pub locality : Option Text
  pub weight : ℕ  -- u16

pub data EndpointState : Type 0 where
  ready draining unavailable : EndpointState

abbrev pub is_ready : EndpointState → Bool
is_ready EndpointState.ready = true
is_ready _ = false

abbrev pub same_state : EndpointState → EndpointState → Bool
same_state EndpointState.ready EndpointState.ready = true
same_state EndpointState.draining EndpointState.draining = true
same_state EndpointState.unavailable EndpointState.unavailable = true
same_state _ _ = false

validate_metadata_field : String → Option Text → Result (Unit {0}) UpstreamModelError
validate_metadata_field field none = ok tt
validate_metadata_field field (some value) = do
  reject (ltb max_metadata_value_len (byte_len value))
      (metadata_too_long field max_metadata_value_len)
  ok tt

validate_metadata : EndpointMetadata → Result (Unit {0}) UpstreamModelError
unfolding validate_metadata_field
validate_metadata m = do
  validate_metadata_field "zone" m.zone
  validate_metadata_field "locality" m.locality
  reject (m.weight == 0) zero_endpoint_weight
  ok tt

validate_endpoint_address : SocketAddr → Result (Unit {0}) UpstreamModelError
validate_endpoint_address a = do
  reject (a.port == 0) (zero_port a)
  reject (is_unspecified a.ip) (unspecified_address a)
  ok tt

pub record UpstreamEndpoint : Type 0 where
  pub id : UpstreamEndpointId
  pub address : SocketAddr
  pub state : EndpointState
  pub metadata : EndpointMetadata

pub validate_endpoint : UpstreamEndpoint → Result (Unit {0}) UpstreamModelError
unfolding validate_endpoint_address validate_metadata
validate_endpoint e = do validate_endpoint_address e.address; validate_metadata e.metadata

pub new_endpoint :
    UpstreamEndpointId
    → SocketAddr
    → EndpointState
    → EndpointMetadata
    → Result UpstreamEndpoint UpstreamModelError
unfolding validate_endpoint_address validate_metadata
new_endpoint id address state metadata = do
  validate_endpoint_address address
  validate_metadata metadata
  ok (record { id = id; address = address; state = state; metadata = metadata })

abbrev pub with_state : UpstreamEndpoint → EndpointState → UpstreamEndpoint
with_state e s = record e { state = s }

pub data UpstreamClusterState : Type 0 where
  empty : UpstreamClusterState
  unavailable : ℕ → UpstreamClusterState
  ready : ℕ → ℕ → UpstreamClusterState

pub record UpstreamCluster : Type 0 where
  pub name : UpstreamClusterName
  pub endpoints : List UpstreamEndpoint

-- The loop with its set of identifiers seen so far.
pub validate_from :
    List UpstreamEndpointId → List UpstreamEndpoint → Result (Unit {0}) UpstreamModelError
validate_from seen [] = ok tt
validate_from seen (e ∷ es) = do
  validate_endpoint e
  reject (any (same e.id) seen) (duplicate_endpoint_id e.id)
  validate_from (e.id ∷ seen) es

pub validate_endpoint_uniqueness : List UpstreamEndpoint → Result (Unit {0}) UpstreamModelError
unfolding validate_from
validate_endpoint_uniqueness es = validate_from [] es

pub new_cluster :
    UpstreamClusterName → List UpstreamEndpoint → Result UpstreamCluster UpstreamModelError
new_cluster name endpoints = do
  validate_endpoint_uniqueness endpoints
  ok (record { name = name; endpoints = endpoints })

pub cluster_state : UpstreamCluster → UpstreamClusterState
cluster_state c =
    let total = length c.endpoints in
    let ready_endpoints = count (λ e. is_ready e.state) c.endpoints in
    if total == 0
    then empty
    else if ready_endpoints == 0
    then UpstreamClusterState.unavailable total
    else UpstreamClusterState.ready total ready_endpoints

pub insert_endpoint :
    UpstreamCluster → UpstreamEndpoint → UpstreamCluster × Result (Unit {0}) UpstreamModelError
insert_endpoint c e = elim (validate_endpoint e) [
  | err x ↦ (c, err x)
  | ok u ↦
      if any (λ old. same old.id e.id) c.endpoints
      then (c, err (duplicate_endpoint_id e.id))
      else (record c { endpoints = c.endpoints ++ e ∷ [] }, ok tt)
]

-- `position` and `Vec::remove`.
take_first :
    UpstreamEndpointId → List UpstreamEndpoint → List UpstreamEndpoint × Option UpstreamEndpoint
take_first id [] = ([], none)
take_first id (e ∷ es) =
    let (rest, found) = take_first id es in if same e.id id then (es, some e) else (e ∷ rest, found)

pub remove_endpoint :
    UpstreamCluster → UpstreamEndpointId → UpstreamCluster × Option UpstreamEndpoint
unfolding take_first
remove_endpoint c id =
    let (rest, found) = take_first id c.endpoints in (record c { endpoints = rest }, found)

pub endpoint : UpstreamCluster → UpstreamEndpointId → Option UpstreamEndpoint
endpoint c id = find (λ e. same e.id id) c.endpoints

restate : UpstreamEndpoint → EndpointState → UpstreamEndpoint × Bool
restate e s = if same_state e.state s then (e, false) else (with_state e s, true)

-- Writes the state of the first endpoint with the identifier, and tells whether it changed.
update_first :
    UpstreamEndpointId → EndpointState → List UpstreamEndpoint → List UpstreamEndpoint × Bool
unfolding restate
update_first id s [] = ([], false)
update_first id s (e ∷ es) =
    let (rest, changed) = update_first id s es in
    let (new, differed) = restate e s in
    if same e.id id then (new ∷ es, differed) else (e ∷ rest, changed)

pub set_endpoint_state :
    UpstreamCluster → UpstreamEndpointId → EndpointState → UpstreamCluster × Bool
unfolding update_first
set_endpoint_state c id s =
    let (rest, changed) = update_first id s c.endpoints in (record c { endpoints = rest }, changed)
