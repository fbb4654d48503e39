-- ===== src/Balancer/Weighted/Turns.antt =====
-- What a turn of weighted round robin (crates/runtime/src/upstream_balancer.rs) does to the credits.
use way_balancer.Base.{
  ℕ, zero, suc, ◌+◌, ◌≡◌, refl, ◌∙◌, Bool, true, false, List, [], ◌∷◌, any, get_elem?, some, arith,
  wrap64, some-injective,
}
use way_balancer.Base.Order.{same, same_iff, same_refl, list_ord, nat_ord}
use way_balancer.Base.Map.{lookup, insert, lookup-insert}
use way_balancer.Upstream.{UpstreamEndpointId}
use way_balancer.Health.Queries.{EndpointSelectionCandidate}
use way_balancer.Balancer.Weighted.{Credits, Best, credit_of, weight_of, heavier, credit_all}

abbrev pub Candidates : Type 0
Candidates = List EndpointSelectionCandidate

abbrev pub named : Candidates → UpstreamEndpointId → Bool
named ds id = any (λ (d : EndpointSelectionCandidate). same d.endpoint_id id) ds

-- No two candidates are the same endpoint.
abbrev pub IsDistinct : Candidates → Type 0
IsDistinct [] = Unit {0}
IsDistinct (d ∷ ds) = (named ds d.endpoint_id ≡ false) × IsDistinct ds

pub named_not :
    (ds : Candidates) (id : UpstreamEndpointId) (i : ℕ) (d : EndpointSelectionCandidate)
    → named ds id ≡ false
    → get_elem? ds i ≡ some d
    → same d.endpoint_id id ≡ false
named_not [] id i d n h = ground (arith, h)
named_not (c ∷ ds) id zero d n h = rw (← some-injective c d h) (ground (arith, n))
named_not (c ∷ ds) id (suc i) d n h = named_not ds id i d (ground (arith, n)) h

pub has-named :
    (ds : Candidates) (i : ℕ) (d : EndpointSelectionCandidate)
    → get_elem? ds i ≡ some d
    → named ds d.endpoint_id ≡ true
has-named [] i d h = ground (arith, h)
has-named (c ∷ ds) zero d h = rw (← some-injective c d h) (ground (arith, same_refl c.endpoint_id))
has-named (c ∷ ds) (suc i) d h = ground (arith, has-named ds i d h)

-- The loop changes nothing for other endpoints.
pub credit_all-other :
    (ds : Candidates) (m : Credits) (best : Best) (id : UpstreamEndpointId)
    → named ds id ≡ false
    → lookup id (credit_all ds m best).0 ≡ lookup id m
unfolding credit_all
credit_all-other [] m best id n = refl
credit_all-other (d ∷ ds) m best id n =
    let k = wrap64 (credit_of d.endpoint_id m + weight_of d) in
    credit_all-other ds (insert d.endpoint_id k m) (heavier best d k) id (ground (arith, n))
    ∙ ground (arith, n, lookup-insert d.endpoint_id id k m)

-- The loop gives each candidate its weight.
pub credit_all-credits :
    (ds : Candidates) (m : Credits) (best : Best) (i : ℕ) (d : EndpointSelectionCandidate)
    → IsDistinct ds
    → get_elem? ds i ≡ some d
    → lookup d.endpoint_id (credit_all ds m best).0
      ≡ some (wrap64 (credit_of d.endpoint_id m + weight_of d))
unfolding credit_all
credit_all-credits [] m best i d u h = ground (arith, h)
credit_all-credits (c ∷ ds) m best zero d u h =
    let k = wrap64 (credit_of c.endpoint_id m + weight_of c) in
    rw (← some-injective c d h) (
      credit_all-other ds (insert c.endpoint_id k m) (heavier best c k) c.endpoint_id u.0
      ∙ ground (arith, same_refl c.endpoint_id, lookup-insert c.endpoint_id c.endpoint_id k m))
credit_all-credits (c ∷ ds) m best (suc i) d u h =
    let k = wrap64 (credit_of c.endpoint_id m + weight_of c) in
    let apart = named_not ds c.endpoint_id i d u.0 h in
    credit_all-credits ds (insert c.endpoint_id k m) (heavier best c k) i d u.1 h
    ∙ ground (
      arith,
      apart,
      same_iff c.endpoint_id d.endpoint_id,
      same_iff d.endpoint_id c.endpoint_id,
      lookup-insert c.endpoint_id d.endpoint_id k m,
    )
