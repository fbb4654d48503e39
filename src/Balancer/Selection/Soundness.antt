-- ===== src/Balancer/Selection/Soundness.antt =====
-- What `select_endpoint` (crates/runtime/src/upstream_balancer.rs) returns.
use way_balancer.Base.{
  ◌<◌, ◌≡◌, refl, inl, inr, Bool, true, false, List, [], ◌∷◌, length, is_empty, Option, none, some,
  Result, ok, err, arith, Bool-cases, All-Has, Has,
}
use way_balancer.Base.Order.{list_ord, nat_ord}
use way_balancer.Upstream.{UpstreamClusterName}
use way_balancer.Health.Queries.{EndpointSelectionCandidate}
use way_balancer.Balancer.{UpstreamSelectionPolicy, SelectionContext}
use way_balancer.Balancer.Affinity.{Score}
use way_balancer.Balancer.Locality.{apply_locality_preference}
use way_balancer.Balancer.Eligible.{
  Candidates, UpstreamSelectionError, SelectedEndpoint, Views, eligible,
}
use way_balancer.Balancer.Locality.Preference.{preferred, preference_kept}
use way_balancer.Balancer.Sticky.{try_select_affinity_candidate}
use way_balancer.Balancer.Sticky.Preferred.{IsSticky, affinity-IsSticky}
use way_balancer.Balancer.Eligible.Found.{IsOffered, IsExplained, IsFound, eligible-IsFound}
use way_balancer.Balancer.Selection.{
  UpstreamBalancer, count_locality, balance, finish, deliver, select_among, select_endpoint,
}
use way_balancer.Balancer.Selection.Picks.{balance_picks}

positive-length {ℓ} : {A : Type ℓ} (xs : List A) → is_empty xs ≡ false → 0 < length xs
positive-length [] e = ground (arith, e)
positive-length (x ∷ xs) e = omega arith

preference-positive :
    (ds : Candidates) (policy : UpstreamSelectionPolicy) (x : SelectionContext)
    → is_empty ds ≡ false
    → 0 < length (apply_locality_preference ds policy x).0
preference-positive ds policy x e =
    rw (preference_kept ds policy x)
      (elim (Bool-cases (is_empty (preferred policy.locality ds x))) [
        | inl z ↦ rw z (positive-length ds e)
        | inr z ↦ rw z (positive-length (preferred policy.locality ds x) z)
      ])

offered-filled :
    (v : Views) (name : UpstreamClusterName) (policy : UpstreamSelectionPolicy) (ds : Candidates)
    (b : Bool)
    → IsOffered v name policy ds b
    → is_empty ds ≡ false
offered-filled v name policy ds false o = o.1
offered-filled v name policy ds true o = o.3

-- A result that is there, with its reason.
abbrev Returns :
    Views
    → UpstreamClusterName
    → UpstreamSelectionPolicy
    → SelectionContext
    → Option (Result SelectedEndpoint UpstreamSelectionError)
    → Type 0
Returns v name policy x o =
    (r : Result SelectedEndpoint UpstreamSelectionError) × (o ≡ some r)
    × IsExplained v name policy x r

module _ (score : Score) (v : Views) (name : UpstreamClusterName) (policy : UpstreamSelectionPolicy)
    (x : SelectionContext) (ds : Candidates) (f : Bool) (o : IsOffered v name policy ds f) where
  finished :
      (b : UpstreamBalancer) (c : EndpointSelectionCandidate)
      → Has (apply_locality_preference ds policy x).0 c
      → IsExplained v name policy x (ok (finish b f (apply_locality_preference ds policy x).1 c).1)
  unfolding finish
  finished b c i = (ds, f, c, o, i, refl)

  delivered :
      (b : UpstreamBalancer) (r : Result (Option EndpointSelectionCandidate) UpstreamSelectionError)
      → IsSticky (Has (apply_locality_preference ds policy x).0) v.affinity_view name r
      → let (near, matched) = apply_locality_preference ds policy x in
        Returns v name policy x (deliver b name policy.algorithm x.request_hash near matched f r).1
  unfolding deliver
  delivered b (err k) (e, is, q) = (err k, refl, rw is (inr (inr q)))
  delivered b (ok (some c)) i =
      (ok (finish b f (apply_locality_preference ds policy x).1 c).1, refl, finished b c i)
  delivered b (ok none) i =
      let (near, matched) = apply_locality_preference ds policy x in
      let b' = balance b policy.algorithm name near f x.request_hash in
      let (c, e, q) =
        balance_picks (Has near) b policy.algorithm name near f x.request_hash
          (preference-positive ds policy x (offered-filled v name policy ds f o)) (All-Has near) in
      (ok (finish b'.0 f matched c).1, rw (deliver, e) refl, finished b'.0 c q)

  among :
      (b : UpstreamBalancer)
      → Returns v name policy x (select_among score b v.affinity_view name policy x ds f).1
  unfolding select_among
  among b =
      let (near, matched) = apply_locality_preference ds policy x in
      let b1 = count_locality b matched in
      let a = try_select_affinity_candidate score b1.metrics v.affinity_view name policy x near in
      delivered (record b1 { metrics = a.0 }) a.1
        (affinity-IsSticky (Has near) v.affinity_view name policy x score near (All-Has near)
          b1.metrics)

from_found :
    (score : Score) (b : UpstreamBalancer) (v : Views) (name : UpstreamClusterName)
    (policy : UpstreamSelectionPolicy) (x : SelectionContext)
    (r : Result (Candidates × Bool) UpstreamSelectionError)
    → (eligible b.metrics v name policy).1 ≡ r
    → IsFound v name policy x r
    → Returns v name policy x (select_endpoint score b v name policy x).1
unfolding select_endpoint
from_found score b v name policy x (err e) k i = (err e, rw (select_endpoint, k) refl, i)
from_found score b v name policy x (ok (ds, f)) k i =
    let (r, is, why) =
      among score v name policy x ds f i
        (record b { metrics = (eligible b.metrics v name policy).0 }) in
    (r, rw (select_endpoint, k) is, why)

-- A selection always has a result: it never reaches an index that is out of range, whatever the
-- registry holds at each of its queries. An endpoint that it returns is one of the candidates in
-- traffic, or, only if there are none and the policy allows it, of those in a fallback that
-- includes the unhealthy, and is one that the locality preference keeps; it is described as in that
-- query. It fails as not eligible only if both have no candidates, or the first has none and the
-- policy has no fallback, and otherwise only with the error of a query.
pub selection-IsExplained :
    (score : Score) (b : UpstreamBalancer) (v : Views) (name : UpstreamClusterName)
    (policy : UpstreamSelectionPolicy) (x : SelectionContext)
    → (r : Result SelectedEndpoint UpstreamSelectionError) × ((select_endpoint score b v name policy
          x).1
        ≡ some r)
      × IsExplained v name policy x r
selection-IsExplained score b v name policy x =
    from_found score b v name policy x (eligible b.metrics v name policy).1 refl
      (eligible-IsFound v name policy x b.metrics)
