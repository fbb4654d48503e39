-- ===== src/Failure/Timeout/Precedence.antt =====
-- What a validated timeout hierarchy (crates/runtime/src/failure_management.rs) guarantees.
use way_balancer.Base.{ℕ, ◌≤◌, ◌<◌, ◌≡◌, ◌↔◌, ok, arith}
use way_balancer.Failure.Timeout.{
  TimeoutHierarchy, TimeoutCategory, request, attempt, connect, idle, validate, effective_timeout,
}

-- The order that the four timeouts should have.
pub record IsOrdered (t : TimeoutHierarchy) : Type 0 where
  pub connect_positive : 0 < t.connect_timeout
  pub idle_positive : 0 < t.idle_timeout
  pub connect_within : t.connect_timeout ≤ t.attempt_timeout
  pub idle_within : t.idle_timeout ≤ t.attempt_timeout
  pub attempt_within : t.attempt_timeout ≤ t.request_timeout

abbrev pub configured : TimeoutHierarchy → TimeoutCategory → ℕ
configured t request = t.request_timeout
configured t attempt = t.attempt_timeout
configured t connect = t.connect_timeout
configured t idle = t.idle_timeout

-- `validate` accepts exactly the hierarchies of positive timeouts with connect and idle within
-- attempt, and attempt within request.
pub validate_iff : (t : TimeoutHierarchy) → (validate t ≡ ok tt) ↔ IsOrdered t
unfolding validate
validate_iff t = (λ h. ground arith, λ v. ground arith)

-- In a validated hierarchy the effective timeout of every category is the configured one, is
-- positive, and never outlasts the request.
pub effective_timeout_bounds :
    (t : TimeoutHierarchy) (c : TimeoutCategory)
    → validate t ≡ ok tt
    → (effective_timeout t c ≡ configured t c)
      × (0 < effective_timeout t c)
      × (effective_timeout t c ≤ t.request_timeout)
unfolding effective_timeout
effective_timeout_bounds t request h = ground (arith, (validate_iff t).0 h)
effective_timeout_bounds t attempt h = ground (arith, (validate_iff t).0 h)
effective_timeout_bounds t connect h = ground (arith, (validate_iff t).0 h)
effective_timeout_bounds t idle h = ground (arith, (validate_iff t).0 h)
