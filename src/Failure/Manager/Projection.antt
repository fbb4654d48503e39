-- ===== src/Failure/Manager/Projection.antt =====
-- Each part of a failure manager (crates/runtime/src/failure_management.rs) sees the calls meant
-- for it.
use way_balancer.Base.{
  ℕ, ◌+◌, ◌≡◌, refl, sym, ap, ◌∙◌, Bool, true, false, inl, inr, Bool-cases, if◌then◌else◌, List, [],
  ◌∷◌, wrap64, arith,
}
use way_balancer.Failure.{UpstreamFailureClass, is_retryable}
use way_balancer.Failure.Retry
use way_balancer.Failure.Retry.{RetryBudget, RetryDecision}
use way_balancer.Failure.Retry.Budget
use way_balancer.Failure.Breaker
use way_balancer.Failure.Breaker.{CircuitBreaker}
use way_balancer.Failure.Breaker.Invariant
use way_balancer.Failure.Breaker.Invariant.{allow, success, failure}
use way_balancer.Failure.Timeout.{TimeoutCategory}
use way_balancer.Failure.Manager.{
  FailureManager, allow_retry, record_base_request, record_timeout, allow_request, record_success,
  record_failure, retry_budget_snapshot,
}
use way_balancer.Failure.Manager.Composition.{
  Call, base_request, retry, timed_out, request, succeeded, failed, budget_snapshot, step, run,
  timeouts, counted, counted-run,
}

-- The calls for the breaker.
pub breaker_calls : List Call → List Invariant.Call
breaker_calls [] = []
breaker_calls (request now ∷ cs) = allow now ∷ breaker_calls cs
breaker_calls (succeeded ∷ cs) = success ∷ breaker_calls cs
breaker_calls (failed now class ∷ cs) = failure now class ∷ breaker_calls cs
breaker_calls (base_request now ∷ cs) = breaker_calls cs
breaker_calls (retry now class ∷ cs) = breaker_calls cs
breaker_calls (timed_out c ∷ cs) = breaker_calls cs
breaker_calls (budget_snapshot now ∷ cs) = breaker_calls cs

-- The calls for the retry budget: it is not asked about failures that are not retried.
pub budget_calls : List Call → List (ℕ × Budget.Call)
budget_calls [] = []
budget_calls (base_request now ∷ cs) = (now, Budget.base) ∷ budget_calls cs
budget_calls (retry now class ∷ cs) =
    let rest = budget_calls cs in if is_retryable class then (now, Budget.retry) ∷ rest else rest
budget_calls (budget_snapshot now ∷ cs) = (now, Budget.observe) ∷ budget_calls cs
budget_calls (request now ∷ cs) = budget_calls cs
budget_calls (succeeded ∷ cs) = budget_calls cs
budget_calls (failed now class ∷ cs) = budget_calls cs
budget_calls (timed_out c ∷ cs) = budget_calls cs

-- What the manager answers to its requests, and what a breaker answers.
pub admissions : FailureManager → List Call → List Bool
admissions m [] = []
admissions m (request now ∷ cs) = (allow_request m now).1 ∷ admissions (step m (request now)) cs
admissions m (base_request now ∷ cs) = admissions (step m (base_request now)) cs
admissions m (retry now class ∷ cs) = admissions (step m (retry now class)) cs
admissions m (timed_out c ∷ cs) = admissions (step m (timed_out c)) cs
admissions m (succeeded ∷ cs) = admissions (step m succeeded) cs
admissions m (failed now class ∷ cs) = admissions (step m (failed now class)) cs
admissions m (budget_snapshot now ∷ cs) = admissions (step m (budget_snapshot now)) cs

pub breaker_admissions : CircuitBreaker → List Invariant.Call → List Bool
breaker_admissions b [] = []
breaker_admissions b (allow now ∷ cs) =
    (Breaker.allow_request b now).1 ∷ breaker_admissions (Breaker.allow_request b now).0 cs
breaker_admissions b (success ∷ cs) = breaker_admissions (Breaker.record_success b) cs
breaker_admissions b (failure now class ∷ cs) =
    breaker_admissions (Breaker.record_failure b now class) cs

-- The retries that the manager grants, one flag for each time it is asked, and those that it
-- should: of a failure that may be retried, as the budget decides, and of another none.
pub grants : FailureManager → List Call → List Bool
grants m [] = []
grants m (retry now class ∷ cs) =
    (allow_retry m now class).1.allowed ∷ grants (step m (retry now class)) cs
grants m (base_request now ∷ cs) = grants (step m (base_request now)) cs
grants m (request now ∷ cs) = grants (step m (request now)) cs
grants m (timed_out c ∷ cs) = grants (step m (timed_out c)) cs
grants m (succeeded ∷ cs) = grants (step m succeeded) cs
grants m (failed now class ∷ cs) = grants (step m (failed now class)) cs
grants m (budget_snapshot now ∷ cs) = grants (step m (budget_snapshot now)) cs

pub due_grants : RetryBudget → List Call → List Bool
due_grants b [] = []
due_grants b (base_request now ∷ cs) = due_grants (Budget.step b (now, Budget.base)).0 cs
due_grants b (retry now class ∷ cs) =
    let (b', granted) = Budget.step b (now, Budget.retry) in
    let asked = due_grants b' cs in
    let unasked = due_grants b cs in if is_retryable class then granted ∷ asked else false ∷ unasked
due_grants b (budget_snapshot now ∷ cs) = due_grants (Budget.step b (now, Budget.observe)).0 cs
due_grants b (request now ∷ cs) = due_grants b cs
due_grants b (succeeded ∷ cs) = due_grants b cs
due_grants b (failed now class ∷ cs) = due_grants b cs
due_grants b (timed_out c ∷ cs) = due_grants b cs

-- A history of the manager as histories of its parts.
abbrev pub IsByParts : FailureManager → List Call → Type 0
IsByParts m cs =
    ((run m cs).circuit_breaker ≡ Invariant.run m.circuit_breaker (breaker_calls cs))
    × ((run m cs).retry_budget ≡ Budget.run m.retry_budget (budget_calls cs))
    × ((run m cs).timeout_hierarchy ≡ m.timeout_hierarchy)
    × (admissions m cs ≡ breaker_admissions m.circuit_breaker (breaker_calls cs))
    × (grants m cs ≡ due_grants m.retry_budget cs)

-- A failure that may be retried is put to the budget, another one is not.
asked :
    (m : FailureManager) (now : ℕ) (class : UpstreamFailureClass)
    → is_retryable class ≡ true
    → allow_retry m now class ≡ (
      record m { retry_budget = (Retry.allow_retry m.retry_budget now).0 },
      (Retry.allow_retry m.retry_budget now).1,
    )
unfolding allow_retry
asked m now class e = rw e refl

unasked :
    (m : FailureManager) (now : ℕ) (class : UpstreamFailureClass)
    → is_retryable class ≡ false
    → allow_retry m now class ≡ (m, record { allowed = false; remaining_retry_tokens = 0 })
unfolding allow_retry
unasked m now class e = rw e refl

asked_calls :
    (now : ℕ) (class : UpstreamFailureClass) (cs : List Call)
    → is_retryable class ≡ true
    → budget_calls (retry now class ∷ cs) ≡ (now, Budget.retry) ∷ budget_calls cs
unfolding budget_calls
asked_calls now class cs e = rw (budget_calls, e) refl

asked-IsByParts :
    (m : FailureManager) (now : ℕ) (class : UpstreamFailureClass) (cs : List Call)
    → is_retryable class ≡ true
    → IsByParts (record m { retry_budget = (Retry.allow_retry m.retry_budget now).0 }) cs
    → IsByParts m (retry now class ∷ cs)
unfolding run step breaker_calls budget_calls admissions grants due_grants Budget.run Budget.step
asked-IsByParts m now class cs e (breaker, budget, hierarchy, admitted, granted) =
    let a = asked m now class e in
    (
      ground (arith, a, breaker),
      ap (λ x. (run x.0 cs).retry_budget) a
          ∙ (budget ∙ ap (Budget.run m.retry_budget) (sym (asked_calls now class cs e))),
      ground (arith, a, hierarchy),
      ground (arith, a, admitted),
      ground (arith, e, a, granted),
    )

unasked-IsByParts :
    (m : FailureManager) (now : ℕ) (class : UpstreamFailureClass) (cs : List Call)
    → is_retryable class ≡ false
    → IsByParts m cs
    → IsByParts m (retry now class ∷ cs)
unfolding run step breaker_calls budget_calls admissions grants due_grants
unasked-IsByParts m now class cs e (breaker, budget, hierarchy, admitted, granted) =
    let a = unasked m now class e in
    (
      ground (arith, a, breaker),
      ground (arith, e, a, budget),
      ground (arith, a, hierarchy),
      ground (arith, a, admitted),
      ground (arith, e, a, granted),
    )

run-IsByParts : (m : FailureManager) (cs : List Call) → IsByParts m cs
unfolding run step breaker_calls budget_calls admissions grants due_grants breaker_admissions
    Invariant.run Invariant.step Budget.run Budget.step record_base_request record_timeout
    allow_request record_success record_failure retry_budget_snapshot
run-IsByParts m [] = (refl, refl, refl, refl, refl)
run-IsByParts m (request now ∷ cs) =
    let (breaker, budget, hierarchy, admitted, granted) =
      run-IsByParts (allow_request m now).0 cs in
    (
      breaker,
      budget,
      hierarchy,
      ap (λ xs. (Breaker.allow_request m.circuit_breaker now).1 ∷ xs) admitted,
      granted,
    )
run-IsByParts m (retry now class ∷ cs) = elim (Bool-cases (is_retryable class)) [
  | inl e ↦
      asked-IsByParts m now class cs e
        (run-IsByParts (record m { retry_budget = (Retry.allow_retry m.retry_budget now).0 }) cs)
  | inr e ↦ unasked-IsByParts m now class cs e (run-IsByParts m cs)
]
run-IsByParts m (base_request now ∷ cs) = run-IsByParts (record_base_request m now) cs
run-IsByParts m (timed_out c ∷ cs) = run-IsByParts (record_timeout m c) cs
run-IsByParts m (succeeded ∷ cs) = run-IsByParts (record_success m) cs
run-IsByParts m (failed now class ∷ cs) = run-IsByParts (record_failure m now class) cs
run-IsByParts m (budget_snapshot now ∷ cs) = run-IsByParts (retry_budget_snapshot m now).0 cs

-- A manager composes its parts without letting one influence another. After any history of calls
-- its breaker is the breaker that saw the requests, successes and failures, its retry budget the
-- one that saw the base requests, the snapshots and the retries of failures that may be retried,
-- and its timeout hierarchy is as before. The requests are admitted as that breaker admits them; of
-- the retries, those of a failure that may be retried are granted as that budget grants them, and
-- no others. The metric of a timeout category has grown by the number of its timeouts, modulo 2^64.
pub by_parts :
    (m : FailureManager) (cs : List Call) (c : TimeoutCategory)
    → IsByParts m cs × (wrap64 (counted (run m cs) c) ≡ wrap64 (counted m c + timeouts c cs))
by_parts m cs c = (run-IsByParts m cs, counted-run m cs c)
