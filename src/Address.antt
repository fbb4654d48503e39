-- ===== src/Address.antt =====
-- `std::net::{IpAddr, SocketAddr}` as the source uses them, and `canonicalize_ip` of
-- crates/net-core/src/lib.rs.
use way_balancer.Base.{ℕ, Bool, ◌&&◌, ◌==◌, if◌then◌else◌, ◌/◌, ◌%◌}

-- Four octets, or eight segments of 16 bits.
pub data IpAddr : Type 0 where
  v4 : ℕ → ℕ → ℕ → ℕ → IpAddr
  v6 : ℕ → ℕ → ℕ → ℕ → ℕ → ℕ → ℕ → ℕ → IpAddr

pub record SocketAddr : Type 0 where
  pub ip : IpAddr
  pub port : ℕ  -- u16

unfoldable pub is_unspecified : IpAddr → Bool
is_unspecified (v4 a b c d) = a == 0 && b == 0 && c == 0 && d == 0
is_unspecified (v6 a b c d e f g h) =
    a == 0 && b == 0 && c == 0 && d == 0 && e == 0 && f == 0 && g == 0 && h == 0

-- `::ffff:a.b.c.d` is the IPv4 address a.b.c.d.
unfoldable pub canonicalize_ip : IpAddr → IpAddr
canonicalize_ip (v4 a b c d) = v4 a b c d
canonicalize_ip (v6 a b c d e f g h) =
    if a == 0 && b == 0 && c == 0 && d == 0 && e == 0 && f == 0xffff
    then v4 (g / 256) (g % 256) (h / 256) (h % 256)
    else v6 a b c d e f g h
