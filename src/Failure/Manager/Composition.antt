-- ===== src/Failure/Manager/Composition.antt =====
-- Histories of the calls of a failure manager (crates/runtime/src/failure_management.rs), and the
-- timeouts that it counts.
use way_balancer.Base.{ℕ, ◌+◌, ◌≡◌, List, [], ◌∷◌, arith, if◌then◌else◌, wrap64, unwrap_or}
use way_balancer.Base.Order.{same, same_iff}
use way_balancer.Base.Map.{lookup, lookup-insert}
use way_balancer.Failure.{UpstreamFailureClass}
use way_balancer.Failure.Timeout.{TimeoutCategory, category_ord}
use way_balancer.Failure.Manager.{
  FailureManager, allow_retry, record_base_request, record_timeout, allow_request, record_success,
  record_failure, retry_budget_snapshot,
}

pub data Call : Type 0 where
  base_request : ℕ → Call
  retry : ℕ → UpstreamFailureClass → Call
  timed_out : TimeoutCategory → Call
  request : ℕ → Call
  succeeded : Call
  failed : ℕ → UpstreamFailureClass → Call
  budget_snapshot : ℕ → Call

unfoldable pub step : FailureManager → Call → FailureManager
step m (base_request now) = record_base_request m now
step m (retry now class) = (allow_retry m now class).0
step m (timed_out c) = record_timeout m c
step m (request now) = (allow_request m now).0
step m succeeded = record_success m
step m (failed now class) = record_failure m now class
step m (budget_snapshot now) = (retry_budget_snapshot m now).0

unfoldable pub run : FailureManager → List Call → FailureManager
run m [] = m
run m (c ∷ cs) = run (step m c) cs

-- How often a history reports a timeout of the category.
pub timeouts : TimeoutCategory → List Call → ℕ
timeouts c [] = 0
timeouts c (timed_out d ∷ cs) = (if same d c then 1 else 0) + timeouts c cs
timeouts c (_ ∷ cs) = timeouts c cs

pub counted : FailureManager → TimeoutCategory → ℕ
counted m c = unwrap_or (lookup c m.timeout_category_counts) 0

counted-step :
    (m : FailureManager) (c d : TimeoutCategory)
    → counted (record_timeout m d) c ≡ (if same d c then wrap64 (counted m c + 1) else counted m c)
unfolding counted record_timeout
counted-step m c d = ground (
  arith,
  same_iff d c,
  lookup-insert d c (wrap64 (unwrap_or (lookup d m.timeout_category_counts) 0 + 1))
      m.timeout_category_counts,
)

counted-allow_retry :
    (m : FailureManager) (now : ℕ) (class : UpstreamFailureClass) (c : TimeoutCategory)
    → counted (allow_retry m now class).0 c ≡ counted m c
unfolding counted allow_retry
counted-allow_retry m now class c = ground arith

-- The metric of a timeout category is the number of timeouts of that category in the history, modulo
-- 2^64, whatever other calls stand between them.
pub counted-run :
    (m : FailureManager) (cs : List Call) (c : TimeoutCategory)
    → wrap64 (counted (run m cs) c) ≡ wrap64 (counted m c + timeouts c cs)
unfolding run timeouts step counted record_base_request allow_request record_success record_failure
    retry_budget_snapshot
counted-run m [] c = omega arith
counted-run m (timed_out d ∷ cs) c =
    ground (arith, counted-step m c d, counted-run (record_timeout m d) cs c)
counted-run m (base_request now ∷ cs) c = counted-run (record_base_request m now) cs c
counted-run m (retry now class ∷ cs) c =
    omega (arith, counted-allow_retry m now class c, counted-run (allow_retry m now class).0 cs c)
counted-run m (request now ∷ cs) c = counted-run (allow_request m now).0 cs c
counted-run m (succeeded ∷ cs) c = counted-run (record_success m) cs c
counted-run m (failed now class ∷ cs) c = counted-run (record_failure m now class) cs c
counted-run m (budget_snapshot now ∷ cs) c = counted-run (retry_budget_snapshot m now).0 cs c
