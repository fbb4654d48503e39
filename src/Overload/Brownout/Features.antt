-- ===== src/Overload/Brownout/Features.antt =====
-- Brownout features (crates/runtime/src/overload_management.rs): which lists are accepted, and which
-- names a state turns off.
use way_balancer.Base.{
  ◌≡◌, refl, ◌↔◌, Bool, false, ◌&&◌, ◌||◌, List, [], ◌∷◌, any, is_empty, ok, arith, Bool-cases,
  Result-cases, inl, inr,
}
use way_balancer.Base.Order.{same, same_iff, list_ord, nat_ord}
use way_balancer.Base.Text.{Text}
use way_balancer.Overload.{OverloadState}
use way_balancer.Overload.Brownout.{
  BrownoutFeature, BrownoutHookRegistry, NameSet, normalized, check_features, new,
  should_disable_feature, add_name, collect_disabled, disabled_features_for,
}

-- The normalized names are not empty and pairwise different, and none of them has been seen.
pub IsDistinct : List Text → List BrownoutFeature → Type 0
IsDistinct seen [] = Unit {0}
IsDistinct seen (f ∷ fs) =
    (is_empty (normalized f) ≡ false)
    × (any (same (normalized f)) seen ≡ false)
    × IsDistinct (normalized f ∷ seen) fs

check_iff :
    (seen : List Text) (fs : List BrownoutFeature)
    → (check_features seen fs ≡ ok tt) ↔ IsDistinct seen fs
unfolding check_features IsDistinct
check_iff seen [] = (λ e. tt, λ h. refl)
check_iff seen (f ∷ fs) =
    let ih = check_iff (normalized f ∷ seen) fs in
    (λ h. ground (arith, ih), λ v. ground (arith, ih.1 v.2))

-- A list of features is accepted exactly if the trimmed names, with upper-case letters made lower,
-- are not empty and pairwise different.
pub new_iff :
    (fs : List BrownoutFeature) → (new fs ≡ ok (record { features = fs })) ↔ IsDistinct [] fs
unfolding new
new_iff fs = (
  λ h. ground (arith, check_iff [] fs, Result-cases (check_features [] fs)),
  λ v. ground (arith, (check_iff [] fs).1 v),
)

abbrev pub has_name : Text → NameSet → Bool
has_name t us = any (λ u. same u t) us

has_name-add_name :
    (t u : Text) (us : NameSet) → has_name t (add_name u us) ≡ (same u t || has_name t us)
unfolding add_name
has_name-add_name t u [] = refl
has_name-add_name t u (v ∷ us) =
    ground (arith, has_name-add_name t u us, same_iff u v, same_iff u t, same_iff v t)

has_name-collect :
    (t : Text) (s : OverloadState) (disabled : NameSet) (fs : List BrownoutFeature)
    → has_name t (collect_disabled s disabled fs)
      ≡ (has_name t disabled || any (λ f. same f.name t && should_disable_feature s f.priority) fs)
unfolding collect_disabled
has_name-collect t s disabled [] = ground arith
has_name-collect t s disabled (f ∷ fs) = elim (Bool-cases (should_disable_feature s f.priority)) [
  | inl h ↦ rw h (
      ground (
        arith,
        h,
        has_name-collect t s (add_name f.name disabled) fs,
        has_name-add_name t f.name disabled,
      ))
  | inr h ↦ rw h (ground (arith, h, has_name-collect t s disabled fs))
]

-- A state turns off exactly the names of the features whose class it turns off.
pub has_name-disabled :
    (r : BrownoutHookRegistry) (s : OverloadState) (t : Text)
    → has_name t (disabled_features_for r s)
      ≡ any (λ f. same f.name t && should_disable_feature s f.priority) r.features
unfolding disabled_features_for
has_name-disabled r s t = has_name-collect t s [] r.features
