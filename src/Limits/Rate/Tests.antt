-- ===== src/Limits/Rate/Tests.antt =====
-- The rate limiter at concrete histories.
use way_balancer.Base.{ℕ, ◌-◌, ◌≡◌, refl, inl, min, List, [], ◌∷◌, ok, arith}
use way_balancer.Base.Order.{list_ord, nat_ord}
use way_balancer.Base.Map.{lookup}
use way_balancer.Base.Text.{Text}
use way_balancer.Limits.{listener, global}
use way_balancer.Limits.Keys.{validate_scope_ok}
use way_balancer.Limits.Rate.{
  LocalRateLimitConfig, LocalRateLimiter, RateLimitDecision, RateWindowState, new, validate,
  check_key,
}
use way_balancer.Limits.Rate.Bounds.{Inv, run, check_stays_bounded}
use way_balancer.Limits.Rate.Quota.{grants, uses, IsRoomy, InWindow, tracked_after, grants_bounded}

abbrev two_a_window : LocalRateLimitConfig
two_a_window = record {
  scope = listener (97 ∷ []);
  key_kind = global;
  requests_per_window = 2;
  window = 100;
  max_tracked_keys = 1;
}

abbrev fresh : LocalRateLimiter
fresh = record { config = two_a_window; state = []; allowed_count = 0; rate_limited_count = 0 }

fresh-new : new two_a_window ≡ ok fresh
unfolding new validate
fresh-new = rw (validate_scope_ok (listener (97 ∷ []))) refl

abbrev calls : List (ℕ × Text)
calls = (5, 98 ∷ []) ∷ (6, 99 ∷ []) ∷ (7, 98 ∷ []) ∷ []

check_stays_bounded_example :
    Inv two_a_window (run fresh calls).state
    × (d : RateLimitDecision) × ((check_key (run fresh calls) 8 (98 ∷ [])).1 ≡ ok d)
check_stays_bounded_example = check_stays_bounded two_a_window fresh calls 8 (98 ∷ []) fresh-new

abbrev entry : RateWindowState
entry = record { window_started = 5; count = 1; last_seen_tick = 0 }

abbrev in_use : LocalRateLimiter
in_use = record fresh { state = (98 ∷ [], entry) ∷ [] }

abbrev own_calls : List (ℕ × Text)
own_calls = (6, 98 ∷ []) ∷ (7, 98 ∷ []) ∷ []

roomy : IsRoomy in_use own_calls
unfolding IsRoomy lookup
roomy = (inl refl, (inl (tracked_after in_use 6 (98 ∷ []) (inl refl)), tt))

in_window : InWindow (98 ∷ []) 5 100 own_calls
unfolding InWindow
in_window = (λ e. omega arith, (λ e. omega arith, tt))

grants_bounded_example : grants (98 ∷ []) in_use own_calls ≡ min (uses (98 ∷ []) own_calls) (2 - 1)
unfolding lookup
grants_bounded_example = grants_bounded (98 ∷ []) entry in_use own_calls refl in_window roomy
