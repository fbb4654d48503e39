-- ===== src/Guards/Listener.antt =====
-- `ListenerAbuseProtectionState` of crates/runtime/src/source_guards.rs: both guards of a listener,
-- with the counts of what they refuse.
use way_balancer.Base.{ℕ, ◌+◌, Option, none, some, Result, ok, err, wrap64}
use way_balancer.Base.Text.{Text}
use way_balancer.Address.{IpAddr, SocketAddr}
use way_balancer.Guards.{
  ListenerAbuseProtectionPolicy, AbuseRejectionReason, source_quota_exceeded,
  tracked_source_limit_reached, handshake_limit_reached,
}
use way_balancer.Guards.Tracker
use way_balancer.Guards.Tracker.{SourceQuotaTracker, SourceQuotaLease, tracked_sources}
use way_balancer.Guards.Handshakes
use way_balancer.Guards.Handshakes.{
  SemaphoreOps, HandshakeGuard, HandshakePermit, active_handshakes,
}

pub record ListenerAbuseProtectionSnapshot : Type 0 where
  pub source_quota_rejections : ℕ  -- u64
  pub tracked_source_limit_rejections : ℕ  -- u64
  pub handshake_guard_rejections : ℕ  -- u64
  pub tracked_sources : ℕ
  pub active_handshakes : ℕ

pub record ListenerAbuseProtectionState (S : Type 0) : Type 0 where
  pub source_quota : Option SourceQuotaTracker
  pub handshake_guard : Option (HandshakeGuard S)
  pub source_quota_rejections : ℕ  -- u64
  pub tracked_source_limit_rejections : ℕ  -- u64
  pub handshake_guard_rejections : ℕ  -- u64

-- A guard that is not configured lets everything through, without a lease.
abbrev pub Admission : Type 0 → Type 0
Admission A = Result (Option A) AbuseRejectionReason

module _ {S : Type 0} (ops : SemaphoreOps S) where
  abbrev State : Type 0
  State = ListenerAbuseProtectionState S

  pub new : ListenerAbuseProtectionPolicy → State
  new p = record {
    source_quota = elim p.source_quota [ none ↦ none | some q ↦ some (Tracker.new q) ];
    handshake_guard = elim p.handshake_guard [ none ↦ none | some q ↦ some (Handshakes.new ops q) ];
    source_quota_rejections = 0;
    tracked_source_limit_rejections = 0;
    handshake_guard_rejections = 0;
  }

  pub count_rejection : AbuseRejectionReason → State → State
  count_rejection source_quota_exceeded l = record l {
    source_quota_rejections = wrap64 (l.source_quota_rejections + 1);
  }
  count_rejection tracked_source_limit_reached l = record l {
    tracked_source_limit_rejections = wrap64 (l.tracked_source_limit_rejections + 1);
  }
  count_rejection handshake_limit_reached l = l

  pub try_acquire_source : (IpAddr → Text) → State → SocketAddr → State × Admission SourceQuotaLease
  try_acquire_source show_ip l peer_addr = elim l.source_quota [
    | none ↦ (l, ok none)
    | some tracker ↦
        let (t, r) = Tracker.try_acquire show_ip tracker peer_addr in
        let l' : State = record l { source_quota = some t } in
        elim r [ ok lease ↦ (l', ok (some lease)) | err e ↦ (count_rejection e l', err e) ]
  ]

  pub try_acquire_handshake : State → State × Admission HandshakePermit
  try_acquire_handshake l = elim l.handshake_guard [
    | none ↦ (l, ok none)
    | some guard ↦
        let (g, r) = Handshakes.try_acquire ops guard in
        let l' : State = record l { handshake_guard = some g } in
        elim r [
          | ok permit ↦ (l', ok (some permit))
          | err e ↦ (
            record l' { handshake_guard_rejections = wrap64 (l.handshake_guard_rejections + 1) },
            err e,
          )
        ]
  ]

  pub snapshot : State → ListenerAbuseProtectionSnapshot
  snapshot l = record {
    source_quota_rejections = l.source_quota_rejections;
    tracked_source_limit_rejections = l.tracked_source_limit_rejections;
    handshake_guard_rejections = l.handshake_guard_rejections;
    tracked_sources = elim l.source_quota [ none ↦ 0 | some t ↦ tracked_sources t ];
    active_handshakes = elim l.handshake_guard [ none ↦ 0 | some g ↦ active_handshakes ops g ];
  }

  pub handshake_timeout : State → Option ℕ
  handshake_timeout l = elim l.handshake_guard [ none ↦ none | some g ↦ some g.timeout ]
