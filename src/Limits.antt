-- ===== src/Limits.antt =====
-- crates/runtime/src/local_limits.rs: scopes, contexts and the keys that shard the state of a limit.
-- Rate has the fixed-window limiter, Concurrency the limiter of operations in flight.
pub mod Keys
pub mod Rate
pub mod Concurrency
mod Tests
use way_balancer.Base.{
  ℕ, ◌-◌, Bool, true, false, not, ◌&&◌, ◌||◌, ◌==◌, if◌then◌else◌, List, [], ◌∷◌, ◌++◌, is_empty,
  Option, none, some, Result, ok, err, reject, ◌>>◌, ◌>>=◌, as_millis, u64_max, min,
}
use way_balancer.Base.Text.{Text, codes, trim, is_ascii_alphanumeric, to_ascii_lowercase}
use way_balancer.Address.{IpAddr}

pub data LocalLimitScope : Type 0 where
  listener route upstream_cluster : Text → LocalLimitScope
  route_destination : Text → Text → LocalLimitScope

pub data LocalLimitKeyKind : Type 0 where
  global source_ip route_name upstream_cluster : LocalLimitKeyKind

pub record LimitContext : Type 0 where
  pub source_ip : Option IpAddr
  pub route_name : Option Text
  pub upstream_cluster : Option Text

pub data LocalLimitError : Type 0 where
  empty_scope_name zero_rate_limit zero_rate_window zero_concurrency_limit : LocalLimitError
  zero_tracked_keys concurrency_limit_exceeded state_saturated : LocalLimitError

abbrev pub max_normalized_component_len : ℕ
max_normalized_component_len = 64

pub normalize_char : ℕ → ℕ
normalize_char c =
    if is_ascii_alphanumeric c || c == b'-' || c == b'_' || c == b'.' || c == b':'
    then to_ascii_lowercase c
    else b'_'

-- The loop, for what is left of the `room`. Each character that it pushes has one byte.
pub normalize_chars : ℕ → Text → Text
normalize_chars room [] = []
normalize_chars room (c ∷ cs) =
    let rest = normalize_chars (room - 1) cs in if room == 0 then [] else normalize_char c ∷ rest

pub normalize_component : Text → Text
normalize_component value =
    let normalized = normalize_chars max_normalized_component_len (trim value) in
    if is_empty normalized then codes "missing" else normalized

abbrev is_named : Text → Bool
is_named t = not (is_empty (normalize_component t))

pub validate_scope : LocalLimitScope → Result (Unit {0}) LocalLimitError
validate_scope (listener name) = if is_named name then ok tt else err empty_scope_name
validate_scope (route name) = if is_named name then ok tt else err empty_scope_name
validate_scope (LocalLimitScope.upstream_cluster name) =
    if is_named name then ok tt else err empty_scope_name
validate_scope (route_destination r u) =
    if is_named r && is_named u then ok tt else err empty_scope_name

pub scope_prefix : LocalLimitScope → Text
scope_prefix (listener name) = codes "listener:" ++ normalize_component name
scope_prefix (route name) = codes "route:" ++ normalize_component name
scope_prefix (route_destination r u) =
    codes "route-destination:" ++ normalize_component r ++ codes ":" ++ normalize_component u
scope_prefix (LocalLimitScope.upstream_cluster name) = codes "upstream:" ++ normalize_component name

-- `as_deref().map(normalize_component).unwrap_or("missing")`
abbrev pub component_or_missing : Option Text → Text
component_or_missing none = codes "missing"
component_or_missing (some t) = normalize_component t

abbrev pub address_or_missing : (IpAddr → Text) → Option IpAddr → Text
address_or_missing show_ip none = codes "missing"
address_or_missing show_ip (some a) = show_ip a

-- `show_ip` is the text that the standard library gives an address.
pub key_value : (IpAddr → Text) → LocalLimitKeyKind → LimitContext → Text
key_value show_ip global x = codes "global"
key_value show_ip source_ip x = address_or_missing show_ip x.source_ip
key_value show_ip route_name x = component_or_missing x.route_name
key_value show_ip LocalLimitKeyKind.upstream_cluster x = component_or_missing x.upstream_cluster

pub normalize_limit_key :
    (IpAddr → Text) → LocalLimitScope → LocalLimitKeyKind → LimitContext → Text
normalize_limit_key show_ip scope kind x =
    scope_prefix scope ++ (codes "|key:" ++ key_value show_ip kind x)

-- `as_millis().min(u64::MAX)`
abbrev pub duration_tick : ℕ → ℕ
duration_tick value = min (as_millis value) u64_max
