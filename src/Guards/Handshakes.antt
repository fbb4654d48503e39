-- ===== src/Guards/Handshakes.antt =====
-- `HandshakeGuard` of crates/runtime/src/source_guards.rs: a bound on the handshakes in flight. The
-- semaphore is tokio's: an interface, with what its documentation promises as laws.
pub mod Inflight
use way_balancer.Base.{ℕ, ◌+◌, ◌-◌, ◌≡◌, Option, none, some, Result, ok, err, Bool, true, false}
use way_balancer.Guards.{HandshakeGuardPolicy, AbuseRejectionReason, handshake_limit_reached}

pub record SemaphoreOps (S : Type 0) : Type 0 where
  pub with_permits : ℕ → S
  pub take : S → Option S
  pub give_back : S → S
  pub available_permits : S → ℕ

-- A permit is taken exactly if one is available.
pub record IsSemaphore {S : Type 0} (ops : SemaphoreOps S) : Type 0 where
  pub new_available : (n : ℕ) → ops.available_permits (ops.with_permits n) ≡ n
  pub take_none : (s : S) → ops.take s ≡ none → ops.available_permits s ≡ 0
  pub take_some :
      (s t : S) → ops.take s ≡ some t → ops.available_permits s ≡ ops.available_permits t + 1
  pub give_back_adds :
      (s : S) → ops.available_permits (ops.give_back s) ≡ ops.available_permits s + 1

-- Whether the permit is still held.
pub record HandshakePermit : Type 0 where
  pub permit : Bool

pub record HandshakeGuard (S : Type 0) : Type 0 where
  pub semaphore : S
  pub max_inflight : ℕ
  pub timeout : ℕ

module _ {S : Type 0} (ops : SemaphoreOps S) where
  pub new : HandshakeGuardPolicy → HandshakeGuard S
  new p = record {
    semaphore = ops.with_permits p.max_inflight;
    max_inflight = p.max_inflight;
    timeout = p.timeout;
  }

  pub try_acquire :
      HandshakeGuard S → HandshakeGuard S × Result HandshakePermit AbuseRejectionReason
  try_acquire g = elim (ops.take g.semaphore) [
    | none ↦ (g, err handshake_limit_reached)
    | some s ↦ (record g { semaphore = s }, ok (record { permit = true }))
  ]

  pub active_handshakes : HandshakeGuard S → ℕ
  active_handshakes g = g.max_inflight - ops.available_permits g.semaphore

  -- `HandshakePermit::release`: what is taken out of the permit is dropped.
  pub release : HandshakeGuard S → HandshakePermit → HandshakeGuard S × HandshakePermit
  release g p = elim p.permit [
    | false ↦ (g, p)
    | true ↦ (record g { semaphore = ops.give_back g.semaphore }, record { permit = false })
  ]
