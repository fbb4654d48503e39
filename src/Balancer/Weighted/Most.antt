-- ===== src/Balancer/Weighted/Most.antt =====
-- The best of the loop of weighted round robin (crates/runtime/src/upstream_balancer.rs): the
-- candidate with the most credit.
use way_balancer.Base.{
  ℕ, zero, suc, ◌+◌, ◌≤◌, ◌<◌, ◌≡◌, refl, sym, ◌∙◌, ◌⊎◌, inl, inr, false, ◌==◌, ltb, ◌&&◌, ◌||◌, [],
  ◌∷◌, length, get_elem?, none, some, arith, Bool-cases, Has, wrap64, some-injective,
}
use way_balancer.Base.Order.{below, same_refl, list_ord, nat_ord}
use way_balancer.Base.Map.{insert, lookup-insert}
use way_balancer.Health.Queries.{EndpointSelectionCandidate}
use way_balancer.Balancer.Weighted.{Credits, Best, credit_of, weight_of, heavier, credit_all}
use way_balancer.Balancer.Weighted.Turns.{Candidates, named, IsDistinct, credit_all-other}

heavier_most :
    (b c : EndpointSelectionCandidate) (n k : ℕ)
    → ((heavier (some (b, n)) c k ≡ some (c, k)) × (n ≤ k))
      ⊎ ((heavier (some (b, n)) c k ≡ some (b, n)) × (k ≤ n))
unfolding heavier
heavier_most b c n k =
    elim (Bool-cases (ltb n k || (k == n && below c.endpoint_id b.endpoint_id))) [
      | inl h ↦ inl (rw h refl, ground (arith, h))
      | inr h ↦ inr (rw h refl, ground (arith, h))
    ]

-- No candidate has more than `w`.
abbrev pub AllBelow : Candidates → Credits → ℕ → Type 0
AllBelow ds m w =
    (i : ℕ) (d : EndpointSelectionCandidate)
    → get_elem? ds i ≡ some d
    → credit_of d.endpoint_id m ≤ w

with_head :
    (d : EndpointSelectionCandidate) (ds : Candidates) (m : Credits) (w : ℕ)
    → credit_of d.endpoint_id m ≤ w
    → AllBelow ds m w
    → AllBelow (d ∷ ds) m w
with_head d ds m w le f zero e h = rw (← some-injective d e h) le
with_head d ds m w le f (suc i) e h = f i e h

-- A candidate with the most credit.
abbrev pub IsMost : Candidates → Credits → EndpointSelectionCandidate → ℕ → Type 0
IsMost ds m c w = AllBelow ds m w × Has ds c × (w ≡ credit_of c.endpoint_id m)

-- The best after a loop that starts with one: still that one, or the most of the list.
abbrev Leads :
    Candidates → Credits → EndpointSelectionCandidate → ℕ → EndpointSelectionCandidate → ℕ → Type 0
Leads ds m b n c w = (n ≤ w) × (((c ≡ b) × (w ≡ n) × AllBelow ds m w) ⊎ IsMost ds m c w)

head_credit :
    (d : EndpointSelectionCandidate) (ds : Candidates) (m : Credits) (best : Best) (k : ℕ)
    → named ds d.endpoint_id ≡ false
    → credit_of d.endpoint_id (credit_all ds (insert d.endpoint_id k m) best).0 ≡ k
head_credit d ds m best k n = ground (
  arith,
  same_refl d.endpoint_id,
  credit_all-other ds (insert d.endpoint_id k m) best d.endpoint_id n,
  lookup-insert d.endpoint_id d.endpoint_id k m,
)

-- The head takes the lead.
head-Leads :
    (d : EndpointSelectionCandidate) (ds : Candidates) (m : Credits) (k : ℕ)
    (c : EndpointSelectionCandidate) (w : ℕ)
    → credit_of d.endpoint_id m ≡ k
    → Leads ds m d k c w
    → IsMost (d ∷ ds) m c w
head-Leads d ds m k c w hk (ge, inl (is, wk, each)) =
    rw is (with_head d ds m w (omega arith) each, (0, refl), wk ∙ sym hk)
head-Leads d ds m k c w hk (ge, inr (each, (i, at_i), credit)) =
    (with_head d ds m w (omega arith) each, (suc i, at_i), credit)

-- The lead stays where it was, since it is not less than that of the head.
head_follows :
    (b d : EndpointSelectionCandidate) (ds : Candidates) (m : Credits) (n k : ℕ)
    (c : EndpointSelectionCandidate) (w : ℕ)
    → credit_of d.endpoint_id m ≡ k
    → k ≤ n
    → Leads ds m b n c w
    → Leads (d ∷ ds) m b n c w
head_follows b d ds m n k c w hk le (ge, inl (is, wn, each)) =
    (ge, inl (is, wn, with_head d ds m w (omega arith) each))
head_follows b d ds m n k c w hk le (ge, inr (each, (i, at_i), credit)) =
    (ge, inr (with_head d ds m w (omega arith) each, (suc i, at_i), credit))

credit_all-Leads :
    (ds : Candidates) (m : Credits) (b : EndpointSelectionCandidate) (n : ℕ)
    → IsDistinct ds
    → (c : EndpointSelectionCandidate) × (w : ℕ) × ((credit_all ds m (some (b, n))).1 ≡ some (c, w))
      × Leads ds (credit_all ds m (some (b, n))).0 b n c w
unfolding credit_all
credit_all-Leads [] m b n u =
    (b, n, refl, (omega arith, inl (refl, refl, λ i d h. ground (arith, h))))
credit_all-Leads (d ∷ ds) m b n u =
    let k = wrap64 (credit_of d.endpoint_id m + weight_of d) in
    let m' = insert d.endpoint_id k m in
    elim (heavier_most b d n k) [
      | inl (e, le) ↦
          let (c, w, is, leads) = credit_all-Leads ds m' d k u.1 in
          let final = (credit_all ds m' (some (d, k))).0 in
          rw (credit_all, e)
            (
              c,
              w,
              is,
              (
                omega (arith, le, leads.0),
                inr (head-Leads d ds final k c w (head_credit d ds m (some (d, k)) k u.0) leads),
              ),
            )
      | inr (e, le) ↦
          let (c, w, is, leads) = credit_all-Leads ds m' b n u.1 in
          let final = (credit_all ds m' (some (b, n))).0 in
          rw (credit_all, e)
            (
              c,
              w,
              is,
              head_follows b d ds final n k c w (head_credit d ds m (some (b, n)) k u.0) le leads,
            )
    ]

-- The loop finds a candidate with the most credit.
pub credit_all-IsMost :
    (ds : Candidates) (m : Credits)
    → IsDistinct ds
    → 0 < length ds
    → (c : EndpointSelectionCandidate) × (w : ℕ) × ((credit_all ds m none).1 ≡ some (c, w))
      × IsMost ds (credit_all ds m none).0 c w
unfolding credit_all heavier
credit_all-IsMost [] m u p = ground (arith, p)
credit_all-IsMost (d ∷ ds) m u p =
    let k = wrap64 (credit_of d.endpoint_id m + weight_of d) in
    let m' = insert d.endpoint_id k m in
    let (c, w, is, leads) = credit_all-Leads ds m' d k u.1 in
    let final = (credit_all ds m' (some (d, k))).0 in
    (c, w, is, head-Leads d ds final k c w (head_credit d ds m (some (d, k)) k u.0) leads)
