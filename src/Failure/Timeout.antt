-- ===== src/Failure/Timeout.antt =====
-- `TimeoutHierarchy` of crates/runtime/src/failure_management.rs.
pub mod Precedence
mod Tests
use Prim.Native.Nat.{compare, Ordering}
use way_balancer.Base.{
  ℕ, Bool, ◌||◌, ltb, ◌==◌, min, Result, ok, err, reject, ◌>>=◌, ◌>>◌, arith, ◌≡◌, ◌↔◌,
}
use way_balancer.Base.Order.{Ord, compare_iff}
use way_balancer.Failure.{FailureManagementError, zero_timeout, invalid_timeout_order}

pub data TimeoutCategory : Type 0 where
  request attempt connect idle : TimeoutCategory

abbrev pub ordinal : TimeoutCategory → ℕ
ordinal request = 0
ordinal attempt = 1
ordinal connect = 2
ordinal idle = 3

pub ordinal_iff :
    (a b : TimeoutCategory) → (compare (ordinal a) (ordinal b) ≡ Ordering.eq) ↔ (a ≡ b)
ordinal_iff a b = ground arith

instance abbrev pub category_ord : Ord TimeoutCategory
category_ord = record { cmp = λ a b. compare (ordinal a) (ordinal b); cmp_iff = ordinal_iff }

pub record TimeoutHierarchy : Type 0 where
  pub request_timeout : ℕ
  pub attempt_timeout : ℕ
  pub connect_timeout : ℕ
  pub idle_timeout : ℕ

unfoldable pub validate : TimeoutHierarchy → Result (Unit {0}) FailureManagementError
validate t = do
  reject
      (t.request_timeout == 0
        || t.attempt_timeout == 0
        || t.connect_timeout == 0
        || t.idle_timeout == 0)
      zero_timeout
  reject
      (ltb t.request_timeout t.attempt_timeout
        || ltb t.attempt_timeout t.connect_timeout
        || ltb t.attempt_timeout t.idle_timeout)
      invalid_timeout_order
  ok tt

pub effective_timeout : TimeoutHierarchy → TimeoutCategory → ℕ
effective_timeout t request = t.request_timeout
effective_timeout t attempt = min t.attempt_timeout t.request_timeout
effective_timeout t connect = min t.connect_timeout t.attempt_timeout
effective_timeout t idle = min t.idle_timeout t.attempt_timeout
