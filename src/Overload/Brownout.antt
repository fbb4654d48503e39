-- ===== src/Overload/Brownout.antt =====
-- `BrownoutHookRegistry` of crates/runtime/src/overload_management.rs: the features that overload
-- turns off, by the class of traffic that they serve.
pub mod Features
use way_balancer.Base.{
  ℕ, Bool, true, false, not, if◌then◌else◌, List, [], ◌∷◌, map, is_empty, length, any, Result, ok,
  err, reject, ◌>>◌, ◌>>=◌,
}
use way_balancer.Base.Order.{same, below, list_ord, nat_ord}
use way_balancer.Base.Text.{Text, trim, to_ascii_lowercase}
use way_balancer.Overload.{
  TrafficClass, critical, default, best_effort, OverloadState, normal, constrained, shedding,
  brownout, OverloadManagementError, empty_brownout_feature_name, duplicate_brownout_feature,
}

pub record BrownoutFeature : Type 0 where
  pub name : Text
  pub priority : TrafficClass

pub record BrownoutHookRegistry : Type 0 where
  pub features : List BrownoutFeature

pub normalized : BrownoutFeature → Text
normalized f = map to_ascii_lowercase (trim f.name)

-- The loop over the features, with the names seen so far.
pub check_features : List Text → List BrownoutFeature → Result (Unit {0}) OverloadManagementError
check_features seen [] = ok tt
check_features seen (f ∷ fs) = do
  reject (is_empty (normalized f)) empty_brownout_feature_name
  reject (any (same (normalized f)) seen) duplicate_brownout_feature
  check_features (normalized f ∷ seen) fs

pub new : List BrownoutFeature → Result BrownoutHookRegistry OverloadManagementError
new features = do check_features [] features; ok (record { features = features })

unfoldable pub should_disable_feature : OverloadState → TrafficClass → Bool
should_disable_feature normal c = false
should_disable_feature constrained c = false
should_disable_feature shedding best_effort = true
should_disable_feature shedding _ = false
should_disable_feature brownout critical = false
should_disable_feature brownout _ = true

-- `BTreeSet<String>`: names in order, each once.
abbrev pub NameSet : Type 0
NameSet = List Text

-- `BTreeSet::insert`
pub add_name : Text → NameSet → NameSet
add_name t [] = t ∷ []
add_name t (u ∷ us) =
    let rest = add_name t us in
    if same t u then u ∷ us else if below t u then t ∷ u ∷ us else u ∷ rest

pub collect_disabled : OverloadState → NameSet → List BrownoutFeature → NameSet
collect_disabled s disabled [] = disabled
collect_disabled s disabled (f ∷ fs) =
    collect_disabled s
      (if should_disable_feature s f.priority then add_name f.name disabled else disabled) fs

pub disabled_features_for : BrownoutHookRegistry → OverloadState → NameSet
disabled_features_for r s = collect_disabled s [] r.features

abbrev pub feature_count : BrownoutHookRegistry → ℕ
feature_count r = length r.features
