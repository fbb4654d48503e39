-- ===== src/Guards.antt =====
-- crates/runtime/src/source_guards.rs: the policies that protect a listener from abuse, and the key
-- under which the connections of a source are counted. Tracker has the counts, Handshakes the
-- semaphore, Listener both of them.
pub mod Keys
pub mod Tracker
pub mod Handshakes
pub mod Listener
mod Tests
use way_balancer.Base.{ℕ, ◌+◌, ◌/◌, ◌%◌, Bool, ltb, if◌then◌else◌, List, [], ◌∷◌, ◌++◌, Option}
use way_balancer.Base.Text.{Text, codes}
use way_balancer.Address.{IpAddr, v4, v6, canonicalize_ip}

pub data SourceAggregation : Type 0 where
  exact_ip ipv4_subnet24 ipv6_subnet64 : SourceAggregation

pub record SourceQuotaPolicy : Type 0 where
  pub aggregation : SourceAggregation
  pub max_active_per_source : ℕ  -- usize
  pub max_tracked_sources : ℕ  -- usize

pub record HandshakeGuardPolicy : Type 0 where
  pub max_inflight : ℕ  -- usize
  pub timeout : ℕ

pub record ListenerAbuseProtectionPolicy : Type 0 where
  pub source_quota : Option SourceQuotaPolicy
  pub handshake_guard : Option HandshakeGuardPolicy

pub data AbuseRejectionReason : Type 0 where
  source_quota_exceeded tracked_source_limit_reached handshake_limit_reached : AbuseRejectionReason

pub code : AbuseRejectionReason → Text
code source_quota_exceeded = codes "source_quota_exceeded"
code tracked_source_limit_reached = codes "tracked_source_limit_reached"
code handshake_limit_reached = codes "handshake_limit_reached"

pub detail : AbuseRejectionReason → Text
detail source_quota_exceeded = codes "source quota exhausted"
detail tracked_source_limit_reached = codes "bounded source state exhausted"
detail handshake_limit_reached = codes "handshake concurrency exhausted"

-- The digits of a u8.
pub show_u8 : ℕ → Text
show_u8 n =
    if ltb n 10
    then (48 + n) ∷ []
    else if ltb n 100
    then (48 + n / 10) ∷ (48 + n % 10) ∷ []
    else (48 + n / 100) ∷ (48 + n / 10 % 10) ∷ (48 + n % 10) ∷ []

-- `format!("{}.{}.{}.0/24")`
pub subnet24_key : ℕ → ℕ → ℕ → Text
subnet24_key a b c = show_u8 a ++ (b'.' ∷ (show_u8 b ++ (b'.' ∷ (show_u8 c ++ codes ".0/24"))))

pub key_of : (IpAddr → Text) → SourceAggregation → IpAddr → Text
key_of show_ip exact_ip ip = show_ip ip
key_of show_ip ipv4_subnet24 (v4 a b c d) = subnet24_key a b c
key_of show_ip ipv4_subnet24 (v6 a b c d e f g h) = show_ip (v6 a b c d e f g h)
key_of show_ip ipv6_subnet64 (v6 a b c d e f g h) = show_ip (v6 a b c d 0 0 0 0) ++ codes "/64"
key_of show_ip ipv6_subnet64 (v4 a b c d) = show_ip (v4 a b c d)

-- `show_ip` is the text that the standard library gives an address.
pub normalize_source_key : (IpAddr → Text) → IpAddr → SourceAggregation → Text
normalize_source_key show_ip ip aggregation = key_of show_ip aggregation (canonicalize_ip ip)
