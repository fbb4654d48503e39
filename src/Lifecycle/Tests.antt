-- ===== src/Lifecycle/Tests.antt =====
-- The laws of the lifecycle at concrete machines.
use way_balancer.Base.{refl, List, [], ◌∷◌}
use way_balancer.Lifecycle.{
  Action, activates, drains, marks_drained, marks_removed, perform, perform_all, new_warming,
}
use way_balancer.Lifecycle.Progress.{Embeds, removed_in_order}

abbrev happy_path : List Action
happy_path = activates ∷ drains ∷ marks_drained ∷ marks_removed ∷ []

removed_in_order_example : Embeds (drains ∷ marks_drained ∷ marks_removed ∷ []) happy_path
unfolding perform_all perform
removed_in_order_example = removed_in_order happy_path new_warming refl
