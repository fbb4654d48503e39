-- ===== src/Limits/Tests.antt =====
-- The normalization of concrete names.
use way_balancer.Base.{◌≡◌, ◌≤◌, ok, false, is_empty, length}
use way_balancer.Base.Text.{Text, codes}
use way_balancer.Limits.{listener, normalize_component, validate_scope}
use way_balancer.Limits.Keys.{IsPlain, normalize_component_lem, validate_scope_ok}

abbrev shouted : Text
shouted = codes " Edge/1 "

normalize_component_lem_example :
    (is_empty (normalize_component shouted) ≡ false)
    × (length (normalize_component shouted) ≤ 64)
    × IsPlain (normalize_component shouted)
    × (normalize_component (normalize_component shouted) ≡ normalize_component shouted)
normalize_component_lem_example = normalize_component_lem shouted

validate_scope_ok_example : validate_scope (listener (codes "  ")) ≡ ok tt
validate_scope_ok_example = validate_scope_ok (listener (codes "  "))
