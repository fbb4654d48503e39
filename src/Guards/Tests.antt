-- ===== src/Guards/Tests.antt =====
-- The laws of the source guards at concrete ones.
use way_balancer.Base.{
  ℕ, ◌+◌, ◌-◌, ◌≤◌, ◌≡◌, ◌↔◌, refl, true, ◌==◌, ltb, if◌then◌else◌, List, [], ◌∷◌, Option, none,
  some, ok, err, arith,
}
use way_balancer.Base.Text.{Text, codes}
use way_balancer.Address.{IpAddr, v4, v6, canonicalize_ip}
use way_balancer.Guards.{
  exact_ip, ipv4_subnet24, SourceQuotaPolicy, HandshakeGuardPolicy, normalize_source_key,
  handshake_limit_reached,
}
use way_balancer.Guards.Keys.{subnet24_iff}
use way_balancer.Guards.Tracker.{new, acquire_key, tracked_sources}
use way_balancer.Guards.Tracker.Leases.{
  connect, disconnect, Visit, visits, IsCounted, verdict, connections, connections-IsCounted,
}
use way_balancer.Guards.Handshakes
use way_balancer.Guards.Handshakes.{
  SemaphoreOps, IsSemaphore, HandshakePermit, try_acquire, active_handshakes,
}
use way_balancer.Guards.Handshakes.Inflight.{
  HandshakeCall, start, finish, in_flight, run, handshakes_bounded,
}

abbrev quota : SourceQuotaPolicy
quota = record { aggregation = exact_ip; max_active_per_source = 2; max_tracked_sources = 1 }

abbrev history : List Visit
history = connect (codes "a") ∷ connect (codes "a") ∷ connect (codes "b") ∷ disconnect 0 ∷ []

connections-IsCounted_example :
    let g = visits (record { tracker = new quota; held = [] }) history in
    IsCounted quota g
    × ((acquire_key g.tracker (codes "a")).1
        ≡ verdict quota (connections (codes "a") g.held) (tracked_sources g.tracker) (codes "a"))
connections-IsCounted_example = connections-IsCounted quota history (codes "a")

abbrev show_ip : IpAddr → Text
show_ip (v4 a b c d) = a ∷ b ∷ c ∷ d ∷ []
show_ip (v6 a b c d e f g h) = a ∷ b ∷ c ∷ d ∷ e ∷ f ∷ g ∷ h ∷ []

abbrev mapped : IpAddr
mapped = v6 0 0 0 0 0 0xffff 0xc0a8 0x0705

mapped_canonical : canonicalize_ip mapped ≡ v4 192 168 7 5
unfolding canonicalize_ip
mapped_canonical = refl

plain_canonical : canonicalize_ip (v4 192 168 7 9) ≡ v4 192 168 7 9
unfolding canonicalize_ip
plain_canonical = refl

abbrev seven : ℕ
seven = 7

subnet24_iff_example :
    (normalize_source_key show_ip mapped ipv4_subnet24
      ≡ normalize_source_key show_ip (v4 192 168 7 9) ipv4_subnet24)
    ↔ ((seven + 185 ≡ seven + 185) × (seven + 161 ≡ seven + 161) × (seven ≡ seven))
subnet24_iff_example =
    subnet24_iff show_ip mapped (v4 192 168 7 9) 192 168 7 5 192 168 7 9 mapped_canonical
      plain_canonical (omega arith, omega arith, omega arith)
      (omega arith, omega arith, omega arith)

-- A semaphore that counts.
abbrev take_one : ℕ → Option ℕ
take_one n = if n == 0 then none else some (n - 1)

abbrev counting : SemaphoreOps ℕ
counting = record {
  with_permits = λ n. n;
  take = take_one;
  give_back = λ n. n + 1;
  available_permits = λ n. n;
}

counting_laws : IsSemaphore counting
counting_laws = record {
  new_available = λ n. refl;
  take_none = λ s e. ground (arith, e);
  take_some = λ s t e. ground (arith, e);
  give_back_adds = λ s. refl;
}

abbrev two_at_once : HandshakeGuardPolicy
two_at_once = record { max_inflight = 2; timeout = 30 }

abbrev handshakes : List HandshakeCall
handshakes = start ∷ start ∷ start ∷ finish 0 ∷ finish 0 ∷ []

handshakes_bounded_example :
    let w = run counting (Handshakes.new counting two_at_once, []) handshakes in
    (active_handshakes counting w.0 ≡ in_flight w.1)
    × (in_flight w.1 ≤ 2)
    × ((try_acquire counting w.0).1 ≡ (
        if ltb (in_flight w.1) 2
        then ok (record { permit = true })
        else err handshake_limit_reached))
handshakes_bounded_example = handshakes_bounded counting counting_laws two_at_once handshakes
