-- ===== src/Lifecycle/Progress.antt =====
-- The order of the stages in the lifecycle (crates/runtime/src/lifecycle.rs).
use way_balancer.Base.{ℕ, ◌+◌, ◌≤◌, ◌≡◌, ◌⊎◌, inl, inr, List, [], ◌∷◌, arith, ok, err}
use way_balancer.Lifecycle.{
  LifecycleState, LifecycleStateMachine, Action, activates, drains, marks_drained, marks_removed,
  perform, perform_all,
}

-- The declaration order of the states.
abbrev pub rank : LifecycleState → ℕ
rank LifecycleState.warming = 0
rank LifecycleState.active = 1
rank LifecycleState.draining = 2
rank LifecycleState.drained = 3
rank LifecycleState.removed = 4

-- An action that fails leaves the machine as it was and reports the state and the action; one that
-- succeeds does not move back, and goes at most two stages ahead.
pub perform_cases :
    (a : Action) (m : LifecycleStateMachine)
    → (((perform a m).0 ≡ m) × ((perform a m).1 ≡ err (record { from = m.state; action = a })))
      ⊎ (((perform a m).1 ≡ ok tt)
          × (rank m.state ≤ rank (perform a m).0.state)
          × (rank (perform a m).0.state ≤ rank m.state + 2))
unfolding perform
perform_cases activates m = ground arith
perform_cases drains m = ground arith
perform_cases marks_drained m = ground arith
perform_cases marks_removed m = ground arith

-- Repeating an action that succeeded succeeds again and changes nothing.
pub perform_again :
    (a : Action) (m : LifecycleStateMachine)
    → (perform a m).1 ≡ ok tt
    → perform a (perform a m).0 ≡ ((perform a m).0, ok tt)
unfolding perform
perform_again activates m h = ground arith
perform_again drains m h = ground arith
perform_again marks_drained m h = ground arith
perform_again marks_removed m h = ground arith

-- `Embeds xs ys`: the actions `xs` occur in `ys`, in this order.
pub data Embeds : List Action → List Action → Type 0 where
  done : (ys : List Action) → Embeds [] ys
  keep : {x : Action} {xs ys : List Action} → Embeds xs ys → Embeds (x ∷ xs) (x ∷ ys)
  skip : {y : Action} {xs ys : List Action} → Embeds xs ys → Embeds xs (y ∷ ys)

-- What is still to be done to be removed.
abbrev pub remaining : LifecycleState → List Action
remaining LifecycleState.warming = drains ∷ marks_drained ∷ marks_removed ∷ []
remaining LifecycleState.active = drains ∷ marks_drained ∷ marks_removed ∷ []
remaining LifecycleState.draining = marks_drained ∷ marks_removed ∷ []
remaining LifecycleState.drained = marks_removed ∷ []
remaining LifecycleState.removed = []

remaining-perform :
    (a : Action) (m : LifecycleStateMachine)
    → (remaining m.state ≡ remaining (perform a m).0.state)
      ⊎ (remaining m.state ≡ a ∷ remaining (perform a m).0.state)
unfolding perform
remaining-perform activates m = ground arith
remaining-perform drains m = ground arith
remaining-perform marks_drained m = ground arith
remaining-perform marks_removed m = ground arith

-- A machine that ends up removed without `force_remove` went through every stage left to it: from
-- warming or active it was drained, marked drained and marked removed, in this order.
pub removed_in_order :
    (as' : List Action) (m : LifecycleStateMachine)
    → (perform_all as' m).state ≡ LifecycleState.removed
    → Embeds (remaining m.state) as'
unfolding perform_all
removed_in_order [] m h = rw h (done [])
removed_in_order (a ∷ as') m h = elim (remaining-perform a m) [
  | inl e ↦ rw e (skip (removed_in_order as' (perform a m).0 h))
  | inr e ↦ rw e (keep (removed_in_order as' (perform a m).0 h))
]
