-- ===== src/Balancer/Affinity.antt =====
-- The affinity of crates/runtime/src/upstream_balancer.rs: `select_affinity_candidate`, the
-- endpoint with the best score for a key. The hash is the standard library's: `score` is
-- `affinity_score`, where an f64 is its place in the order of `total_cmp`.
use way_balancer.Base.{ℕ, ◌&&◌, ◌||◌, ltb, ◌==◌, if◌then◌else◌, List, [], ◌∷◌, Option, none, some}
use way_balancer.Base.Order.{below, list_ord, nat_ord}
use way_balancer.Base.Text.{Text}
use way_balancer.Health.Queries.{EndpointSelectionCandidate}

-- The place of `f64::NEG_INFINITY`: below it are the 2^52 - 1 NaNs with a sign.
abbrev pub neg_infinity : ℕ
neg_infinity = 4503599627370495

abbrev pub Score : Type 0
Score = Text → EndpointSelectionCandidate → ℕ

-- The loop over the candidates.
pub best_scored :
    (EndpointSelectionCandidate → ℕ)
    → List EndpointSelectionCandidate
    → EndpointSelectionCandidate
    → ℕ
    → EndpointSelectionCandidate
best_scored score [] best best_score = best
best_scored score (c ∷ cs) best best_score =
    let s = score c in
    let better = ltb best_score s || (s == best_score && below c.endpoint_id best.endpoint_id) in
    best_scored score cs (if better then c else best) (if better then s else best_score)

-- None where the source would index out of range.
pub select_affinity_candidate :
    Score → List EndpointSelectionCandidate → Text → Option EndpointSelectionCandidate
select_affinity_candidate score [] key = none
select_affinity_candidate score (c ∷ cs) key =
    some (best_scored (score key) (c ∷ cs) c neg_infinity)
