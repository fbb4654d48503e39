-- ===== src/Balancer/RoundRobin/Rounds.antt =====
-- Histories of round robin (crates/runtime/src/upstream_balancer.rs).
use native.Mathlib.Nat.{mod-lt, mod-eq_of_lt, mod-add-mod, mod_self}
use way_balancer.Base.{
  ℕ, zero, suc, ◌+◌, ◌-◌, ◌%◌, ◌≤◌, ◌<◌, ◌≡◌, refl, ◌⊎◌, inl, inr, ap, ◌∙◌, true, false, ◌==◌, ltb,
  leb, if◌then◌else◌, List, [], ◌∷◌, length, get_elem?, Option, some, unwrap_or, arith, Bool-cases,
}
use way_balancer.Base.Order.{same, same_iff, same_refl, list_ord, nat_ord, pair_ord}
use way_balancer.Base.Map.{lookup, lookup-insert}
use way_balancer.Health.Queries.{EndpointSelectionCandidate}
use way_balancer.Balancer.{ClusterCursorKey, flag_ord}
use way_balancer.Balancer.RoundRobin.{Cursors, select_round_robin}

pub record Call : Type 0 where
  pub key : ClusterCursorKey
  pub candidates : List EndpointSelectionCandidate

-- What the calls with a key pick, in a history that also has calls with other keys.
pub picks : ClusterCursorKey → Cursors → List Call → List (Option EndpointSelectionCandidate)
picks key m [] = []
picks key m (c ∷ cs) =
    let (m', pick) = select_round_robin m c.key.0 c.candidates c.key.1 in
    let rest = picks key m' cs in if same c.key key then pick ∷ rest else rest

-- How many calls have the key.
unfoldable pub calls_with : ClusterCursorKey → List Call → ℕ
calls_with key [] = 0
calls_with key (c ∷ cs) = let rest = calls_with key cs in if same c.key key then suc rest else rest

-- The calls with the key all see the same candidates.
unfoldable pub IsSteady : ClusterCursorKey → List EndpointSelectionCandidate → List Call → Type 0
IsSteady key ds [] = Unit {0}
IsSteady key ds (c ∷ cs) = (same c.key key ≡ true → c.candidates ≡ ds) × IsSteady key ds cs

-- The cursor of a key, below the number of candidates.
abbrev pub position : ClusterCursorKey → Cursors → ℕ → ℕ
position key m n = unwrap_or (lookup key m) 0 % n

-- `k` picks in turn from `i` on, starting again after the last.
pub rotation : List EndpointSelectionCandidate → ℕ → ℕ → List (Option EndpointSelectionCandidate)
rotation ds i zero = []
rotation ds i (suc k) = get_elem? ds i ∷ rotation ds (if i + 1 == length ds then 0 else i + 1) k

Nat-compare : (a n : ℕ) → a ≤ n → (a ≡ n) ⊎ (a < n)
Nat-compare a n h = omega arith

next_position : (a n : ℕ) → 0 < n → (a + 1) % n % n ≡ (if a % n + 1 == n then 0 else a % n + 1)
next_position a n p = elim (Nat-compare (a % n + 1) n (omega (arith, mod-lt a p))) [
  | inl last ↦ ground (
    arith,
    last,
    mod-eq_of_lt (mod-lt (a + 1) p),
    mod-add-mod a n 1,
    ap (λ k. k % n) last,
    mod_self n,
  )
  | inr short ↦
      ground (arith, short, mod-eq_of_lt (mod-lt (a + 1) p), mod-add-mod a n 1, mod-eq_of_lt short)
]

-- The pick of a call and the position that it leaves.
step_picks :
    (key : ClusterCursorKey) (m : Cursors) (ds : List EndpointSelectionCandidate)
    → 0 < length ds
    → let (m', pick) = select_round_robin m key.0 ds key.1 in
      let i = position key m (length ds) in
      (pick ≡ get_elem? ds i)
      × (position key m' (length ds) ≡ (if i + 1 == length ds then 0 else i + 1))
unfolding select_round_robin
step_picks key m ds p =
    let n = length ds in
    let a = unwrap_or (lookup key m) 0 in
    (
      refl,
      ground (arith, next_position a n p, same_refl key, lookup-insert key key ((a + 1) % n) m),
    )

step_mine :
    (key : ClusterCursorKey) (m : Cursors) (ds : List EndpointSelectionCandidate) (c : Call)
    → 0 < length ds
    → same c.key key ≡ true
    → c.candidates ≡ ds
    → let (m', pick) = select_round_robin m c.key.0 c.candidates c.key.1 in
      let i = position key m (length ds) in
      (pick ≡ get_elem? ds i)
      × (position key m' (length ds) ≡ (if i + 1 == length ds then 0 else i + 1))
step_mine key m ds c p mine e = rw (e, (same_iff c.key key).0 mine) (step_picks key m ds p)

-- A call with another key leaves the position.
step_other :
    (key other : ClusterCursorKey) (m : Cursors) (ds : List EndpointSelectionCandidate) (n : ℕ)
    → same other key ≡ false
    → position key (select_round_robin m other.0 ds other.1).0 n ≡ position key m n
unfolding select_round_robin
step_other key other m ds n h =
    let a = unwrap_or (lookup other m) 0 in
    ground (arith, h, lookup-insert other key ((a + 1) % length ds) m)

-- Whatever calls with other keys come between, the calls with one key pick its candidates in turn,
-- from where its cursor stands on, starting again after the last.
pub picks-rotation :
    (key : ClusterCursorKey) (m : Cursors) (ds : List EndpointSelectionCandidate) (cs : List Call)
    → 0 < length ds
    → IsSteady key ds cs
    → picks key m cs ≡ rotation ds (position key m (length ds)) (calls_with key cs)
unfolding picks rotation calls_with IsSteady
picks-rotation key m ds [] p s = refl
picks-rotation key m ds (c ∷ cs) p s =
    let m' = (select_round_robin m c.key.0 c.candidates c.key.1).0 in
    let ih = picks-rotation key m' ds cs p s.1 in
    elim (Bool-cases (same c.key key)) [
      | inr other ↦ rw (other, ih, step_other key c.key m c.candidates (length ds) other) refl
      | inl mine ↦
          let (pick, next) = step_mine key m ds c p mine (s.0 mine) in
          rw (mine, ih, pick, next) refl
    ]

-- The index that comes `k` picks after index `i`.
abbrev turn : ℕ → ℕ → ℕ → ℕ
turn n i k = if ltb (i + k) n then i + k else i + k - n

get_elem?-rotation :
    (ds : List EndpointSelectionCandidate) (i k m : ℕ)
    → i < length ds
    → k < m
    → m ≤ length ds
    → get_elem? (rotation ds i m) k ≡ some (get_elem? ds (turn (length ds) i k))
unfolding rotation
get_elem?-rotation ds i k zero h l b = ground (arith, l)
get_elem?-rotation ds i zero (suc m) h l b = ground (arith, h)
get_elem?-rotation ds i (suc k) (suc m) h l b =
    let n = length ds in
    let i' = if i + 1 == n then 0 else i + 1 in
    let ih = get_elem?-rotation ds i' k m (ground arith) (omega arith) (omega arith) in
    let same_turn : turn n i' k ≡ turn n i (suc k) = ground arith in rw (← same_turn) ih

-- In any history with as many calls of one key as it has candidates, always the same ones, each of
-- these candidates is picked by one of those calls.
pub every_candidate_served :
    (key : ClusterCursorKey) (m : Cursors) (ds : List EndpointSelectionCandidate) (cs : List Call)
    (j : ℕ)
    → j < length ds
    → IsSteady key ds cs
    → calls_with key cs ≡ length ds
    → (k : ℕ) × (k < length ds) × (get_elem? (picks key m cs) k ≡ some (get_elem? ds j))
every_candidate_served key m ds cs j l s e =
    let n = length ds in
    let i = position key m n in
    let k = if leb i j then j - i else j + n - i in
    let below_n = mod-lt (unwrap_or (lookup key m) 0) {m = n} (omega arith) in
    let within : k < n = ground (arith, below_n) in
    let reached : turn n i k ≡ j = ground (arith, below_n) in
    (
      k,
      within,
      rw (picks-rotation key m ds cs (omega arith) s, e)
          (get_elem?-rotation ds i k n below_n within (omega arith)
            ∙ ap (λ x. some (get_elem? ds x)) reached),
    )
