-- ===== src/Overload/Manager/Shedding.antt =====
-- What the overload manager (crates/runtime/src/overload_management.rs) sheds as pressure grows.
use way_balancer.Base.{
  ℕ, ◌≤◌, ◌≡◌, sym, ◌∙◌, Bool, true, false, not, ◌&&◌, any, any-get_elem?, any-implied, get_elem?,
  some, ok, arith,
}
use way_balancer.Base.Order.{same, same_refl, list_ord, nat_ord}
use way_balancer.Base.Text.{Text}
use way_balancer.Overload.{
  TrafficClass, critical, default, best_effort, OverloadState, normal, constrained, shedding,
  brownout, OverloadPolicy, validate, classify_state,
}
use way_balancer.Overload.Brownout.{
  BrownoutFeature, BrownoutHookRegistry, should_disable_feature, disabled_features_for,
}
use way_balancer.Overload.Brownout.Features.{has_name, has_name-disabled}
use way_balancer.Overload.Manager.{allow, shed, action_in}

-- Classes by how long they are served.
abbrev pub rank : TrafficClass → ℕ
rank best_effort = 0
rank default = 1
rank critical = 2

abbrev pub level : OverloadState → ℕ
level normal = 0
level constrained = 1
level shedding = 2
level brownout = 3

level-classify :
    (p : OverloadPolicy) (n k : ℕ)
    → validate p ≡ ok tt
    → n ≤ k
    → level (classify_state p n) ≤ level (classify_state p k)
unfolding validate classify_state
level-classify p n k v h = ground arith

shed_more :
    (s t : OverloadState) (c d : TrafficClass)
    → level s ≤ level t
    → rank d ≤ rank c
    → action_in s c ≡ shed
    → action_in t d ≡ shed
unfolding action_in
shed_more s t c d h r e = ground arith

disable_more :
    (s t : OverloadState) (c d : TrafficClass)
    → level s ≤ level t
    → rank d ≤ rank c
    → should_disable_feature s c ≡ true
    → should_disable_feature t d ≡ true
unfolding should_disable_feature
disable_more s t c d h r e = ground arith

never_shed : (s : OverloadState) → action_in s critical ≡ allow
unfolding action_in
never_shed s = ground arith

abbrev pub is_critical : TrafficClass → Bool
is_critical critical = true
is_critical _ = false

uncritical :
    (s : OverloadState) (f : BrownoutFeature) (n : Text)
    → (same f.name n && should_disable_feature s f.priority) ≡ true
    → (same f.name n && not (is_critical f.priority)) ≡ true
unfolding should_disable_feature
uncritical s f n h = ground (arith, h)

-- What a state turns off of the features of a registry.
module _ (r : BrownoutHookRegistry) where
  -- A feature that serves no more important a class than one that is turned off is turned off too.
  lower_off :
      (s : OverloadState) (d : TrafficClass) (i : ℕ) (g : BrownoutFeature)
      → should_disable_feature s d ≡ true
      → rank g.priority ≤ rank d
      → get_elem? r.features i ≡ some g
      → has_name g.name (disabled_features_for r s) ≡ true
  lower_off s d i g e le at_i =
      has_name-disabled r s g.name
      ∙ any-get_elem? (λ f. same f.name g.name && should_disable_feature s f.priority) i g
          r.features
          (ground (arith, same_refl g.name, disable_more s s d g.priority (omega arith) le e)) at_i

  more_off :
      (s t : OverloadState) (n : Text)
      → level s ≤ level t
      → has_name n (disabled_features_for r s) ≡ true
      → has_name n (disabled_features_for r t) ≡ true
  more_off s t n l e =
      has_name-disabled r t n
      ∙ any-implied (λ f. same f.name n && should_disable_feature s f.priority)
          (λ f. same f.name n && should_disable_feature t f.priority) r.features
          (λ f h. ground (arith, h, disable_more s t f.priority f.priority l (omega arith)))
          (sym (has_name-disabled r s n) ∙ e)

  only_uncritical :
      (s : OverloadState) (n : Text)
      → has_name n (disabled_features_for r s) ≡ true
      → any (λ f. same f.name n && not (is_critical f.priority)) r.features ≡ true
  only_uncritical s n e =
      any-implied (λ f. same f.name n && should_disable_feature s f.priority)
        (λ f. same f.name n && not (is_critical f.priority)) r.features (λ f h. uncritical s f n h)
        (sym (has_name-disabled r s n) ∙ e)

-- Under a validated policy, a class that is shed at some number of signals is shed at every greater
-- one, and so is every class of lower rank; critical traffic is never shed. The names of the
-- features turned off at some number of signals are turned off at every greater one, together with
-- every feature of the registry whose class ranks at most as high as one whose features are turned
-- off; and only names of features that are not critical are ever turned off.
pub pressure_monotone :
    (p : OverloadPolicy) (r : BrownoutHookRegistry) (n k : ℕ) (c d : TrafficClass) (name : Text)
    (i : ℕ) (g : BrownoutFeature)
    → validate p ≡ ok tt
    → n ≤ k
    → rank d ≤ rank c
    → get_elem? r.features i ≡ some g
    → let before = classify_state p n in
      let after = classify_state p k in
      (action_in before c ≡ shed → action_in after d ≡ shed)
      × (action_in after critical ≡ allow)
      × (has_name name (disabled_features_for r before) ≡ true
          → has_name name (disabled_features_for r after) ≡ true)
      × (should_disable_feature before c ≡ true
          → rank g.priority ≤ rank c
          → has_name g.name (disabled_features_for r after) ≡ true)
      × (has_name name (disabled_features_for r after) ≡ true
          → any (λ f. same f.name name && not (is_critical f.priority)) r.features ≡ true)
pressure_monotone p r n k c d name i g v h le at_i =
    let l = level-classify p n k v h in
    let before = classify_state p n in
    let after = classify_state p k in
    (
      shed_more before after c d l le,
      never_shed after,
      more_off r before after name l,
      λ e q. lower_off r after c i g (disable_more before after c c l (omega arith) e) q at_i,
      only_uncritical r after name,
    )
