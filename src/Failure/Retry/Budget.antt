-- ===== src/Failure/Retry/Budget.antt =====
-- The bound that a retry budget (crates/runtime/src/failure_management.rs) keeps.
use way_balancer.Base.{
  ℕ, suc, ◌+◌, ◌-◌, ◌*◌, ◌/◌, ◌≤◌, ◌<◌, ◌≡◌, refl, ap, Bool, false, if◌then◌else◌, List, [], ◌∷◌,
  ◌++◌, length, arith, ◌∙◌, ok, sat_add64, u32_max,
}
use native.Mathlib.Nat.{add-zero, add-suc, suc-add}
use way_balancer.Failure.Retry.{
  RetryBudget, RetryBudgetPolicy, RetryBudgetState, new, record_base_request, allow_retry, snapshot,
  retry_capacity, reset_retry_window_if_needed,
}

pub data Call : Type 0 where
  base retry observe : Call

-- One locked call at a time; the flag tells whether a retry was granted.
unfoldable pub step : RetryBudget → ℕ × Call → RetryBudget × Bool
step b (now, base) = (record_base_request b now, false)
step b (now, retry) = let (b', d) = allow_retry b now in (b', d.allowed)
step b (now, observe) = ((snapshot b now).0, false)

unfoldable pub run : RetryBudget → List (ℕ × Call) → RetryBudget
run b [] = b
run b (c ∷ cs) = run (step b c).0 cs

-- Retries granted along a history.
pub granted : RetryBudget → List (ℕ × Call) → ℕ
granted b [] = 0
granted b (c ∷ cs) = (if (step b c).1 then 1 else 0) + granted (step b c).0 cs

-- The types of the fields.
pub record InRange (p : RetryBudgetPolicy) : Type 0 where
  pub tokens : p.min_retry_tokens ≤ u32_max
  pub percent : p.retry_percent ≤ 255

-- The share of the base requests and the floor, with no machine arithmetic.
abbrev pub allowance : RetryBudgetPolicy → ℕ → ℕ
allowance p requests = requests * p.retry_percent / 100 + p.min_retry_tokens

-- Histories short enough that the product stays below 2^64.
abbrev pub max_history : ℕ
max_history = 72057594037927936

record Inv (n : ℕ) (b : RetryBudget) : Type 0 where
  requests : b.state.base_request_count ≤ n
  retries : b.state.retry_count ≤ allowance b.policy b.state.base_request_count

product_bound : (a b : ℕ) → a ≤ max_history → b ≤ 255 → a * b ≤ 18374686479671623680
product_bound a b h k = grind arith

capacity-allowance :
    (p : RetryBudgetPolicy) (s : RetryBudgetState)
    → InRange p
    → s.base_request_count ≤ max_history
    → retry_capacity p s ≡ allowance p s.base_request_count
unfolding retry_capacity
capacity-allowance p s r h =
    omega (arith, product_bound s.base_request_count p.retry_percent h r.percent, r.tokens)

mul_mono : (a b c : ℕ) → a ≤ b → a * c ≤ b * c
mul_mono a b c h = grind arith

allowance_mono : (p : RetryBudgetPolicy) (a b : ℕ) → a ≤ b → allowance p a ≤ allowance p b
allowance_mono p a b h = omega (arith, mul_mono a b p.retry_percent h)

reset-Inv :
    (n now : ℕ) (b : RetryBudget)
    → Inv n b
    → Inv n (record b { state = reset_retry_window_if_needed b.policy now b.state })
unfolding reset_retry_window_if_needed
reset-Inv n now b v = ground (arith, v.requests, v.retries)

base-Inv :
    (n : ℕ) (b : RetryBudget) (s : RetryBudgetState)
    → n < max_history
    → Inv n (record b { state = s })
    → Inv
        (suc n)
        (record b { state = record s { base_request_count = sat_add64 s.base_request_count 1 } })
base-Inv n b s h v = record {
  requests = omega (arith, v.requests);
  retries = omega (
    arith,
    v.requests,
    v.retries,
    allowance_mono b.policy s.base_request_count (sat_add64 s.base_request_count 1)
        (omega (arith, v.requests)),
  );
}

retry-Inv :
    (n now : ℕ) (b : RetryBudget)
    → InRange b.policy
    → n < max_history
    → Inv n b
    → Inv (suc n) (allow_retry b now).0
unfolding allow_retry
retry-Inv n now b r h v =
    let s = reset_retry_window_if_needed b.policy now b.state in
    let w = reset-Inv n now b v in
    ground
      (arith, w.requests, w.retries, capacity-allowance b.policy s r (omega (arith, w.requests)))

step-Inv :
    (n : ℕ) (b : RetryBudget) (c : ℕ × Call)
    → InRange b.policy
    → n < max_history
    → Inv n b
    → Inv (suc n) (step b c).0
unfolding step record_base_request snapshot
step-Inv n b (now, base) r h v = base-Inv n b _ h (reset-Inv n now b v)
step-Inv n b (now, retry) r h v = retry-Inv n now b r h v
step-Inv n b (now, observe) r h v =
    let w = reset-Inv n now b v in
    record { requests = omega (arith, w.requests); retries = w.retries }

step-policy : (b : RetryBudget) (c : ℕ × Call) → (step b c).0.policy ≡ b.policy
unfolding step record_base_request snapshot allow_retry
step-policy b (now, base) = refl
step-policy b (now, retry) = ground arith
step-policy b (now, observe) = refl

run-policy : (b : RetryBudget) (cs : List (ℕ × Call)) → (run b cs).policy ≡ b.policy
unfolding run
run-policy b [] = refl
run-policy b (c ∷ cs) = run-policy (step b c).0 cs ∙ step-policy b c

run-Inv :
    (n : ℕ) (b : RetryBudget) (cs : List (ℕ × Call))
    → InRange b.policy
    → n + length cs ≤ max_history
    → Inv n b
    → Inv (n + length cs) (run b cs)
unfolding run
run-Inv n b [] r h v = rw add-zero v
run-Inv n b (c ∷ cs) r h v =
    rw (add-suc, ← suc-add)
      (run-Inv (suc n) (step b c).0 cs (rw (step-policy b c) r) (omega arith)
        (step-Inv n b c r (omega arith) v))

new-Inv : (p : RetryBudgetPolicy) (b : RetryBudget) → new p ≡ ok b → Inv 0 b × (b.policy ≡ p)
unfolding new
new-Inv p b e = ground arith

-- Whatever calls a new budget serves, at any times, the retries counted in its window never exceed
-- the given percentage of the base requests in it plus the minimum, for fields in the range of
-- their types and a history of at most 2^56 calls.
pub retries_within_allowance :
    (p : RetryBudgetPolicy) (b : RetryBudget) (cs : List (ℕ × Call))
    → InRange p
    → new p ≡ ok b
    → length cs ≤ max_history
    → let s = (run b cs).state in s.retry_count ≤ allowance p s.base_request_count
retries_within_allowance p b cs r e h =
    let (v, q) = new-Inv p b e in
    let w = run-Inv 0 b cs (rw q r) (omega arith) v in
    let s = (run b cs).state in
    omega (
      arith,
      w.retries,
      ap (λ (r : RetryBudgetPolicy). allowance r s.base_request_count) (run-policy b cs ∙ q),
    )

-- Calls made before a window of the given start and length runs out.
abbrev pub WithinWindow : ℕ → ℕ → List (ℕ × Call) → Type 0
WithinWindow start window [] = Unit {0}
WithinWindow start window ((now, c) ∷ cs) = (now - start < window) × WithinWindow start window cs

step-granted :
    (b : RetryBudget) (now : ℕ) (c : Call)
    → now - b.state.window_started < b.policy.window
    → (step b (now, c)).0.state.retry_count
      ≡ (if (step b (now, c)).1 then 1 else 0) + b.state.retry_count
unfolding step record_base_request snapshot allow_retry retry_capacity reset_retry_window_if_needed
step-granted b now base h = ground arith
step-granted b now retry h = ground arith
step-granted b now observe h = ground arith

step-window :
    (b : RetryBudget) (now : ℕ) (c : Call)
    → now - b.state.window_started < b.policy.window
    → (step b (now, c)).0.state.window_started ≡ b.state.window_started
unfolding step record_base_request snapshot allow_retry reset_retry_window_if_needed
step-window b now base h = ground arith
step-window b now retry h = ground arith
step-window b now observe h = ground arith

run-granted :
    (b : RetryBudget) (start window : ℕ) (cs : List (ℕ × Call))
    → b.state.window_started ≡ start
    → b.policy.window ≡ window
    → WithinWindow start window cs
    → (run b cs).state.retry_count ≡ granted b cs + b.state.retry_count
unfolding run granted
run-granted b start window [] e f w = omega arith
run-granted b start window ((now, c) ∷ cs) e f w =
    let h : now - b.state.window_started < b.policy.window = omega (arith, w.0) in
    let ih =
      run-granted (step b (now, c)).0 start window cs (step-window b now c h ∙ e)
        (ap (λ (p : RetryBudgetPolicy). p.window) (step-policy b (now, c)) ∙ f) w.1 in
    omega (arith, ih, step-granted b now c h)

run-append : (b : RetryBudget) (cs ds : List (ℕ × Call)) → run b (cs ++ ds) ≡ run (run b cs) ds
unfolding run
run-append b [] ds = refl
run-append b (c ∷ cs) ds = run-append (step b c).0 cs ds

-- After any history, the calls made before the open window runs out are together granted no more
-- retries than the percentage of the window's base requests plus the minimum, for fields in the
-- range of their types and at most 2^56 calls in all.
pub granted_within_allowance :
    (p : RetryBudgetPolicy) (b : RetryBudget) (past cs : List (ℕ × Call))
    → InRange p
    → new p ≡ ok b
    → length (past ++ cs) ≤ max_history
    → WithinWindow (run b past).state.window_started (run b past).policy.window cs
    → granted (run b past) cs ≤ allowance p (run (run b past) cs).state.base_request_count
granted_within_allowance p b past cs r e h w = omega (
  arith,
  run-granted (run b past) _ _ cs refl refl w,
  rw (run-append b past cs) at (retries_within_allowance p b (past ++ cs) r e h),
)
