-- ===== src/Limits/Rate/Bounds.antt =====
-- The bounds of the rate limiter (crates/runtime/src/local_limits.rs): its keys and its counts.
use way_balancer.Base.{
  ℕ, ◌+◌, ◌≤◌, ◌<◌, ◌≡◌, refl, ap, ◌∙◌, ◌⊎◌, inl, inr, true, leb, List, [], ◌∷◌, length, Option,
  none, some, ok, arith, Option-cases, Bool-cases,
}
use mathlib.Core.Path.{subst}
use way_balancer.Base.Order.{same_refl, list_ord, nat_ord}
use way_balancer.Base.Map.{
  lookup, contains_key, insert, lookup-insert, lookup-remove, length-insert, length-remove-lt,
}
use way_balancer.Base.Text.{Text}
use way_balancer.Limits.Rate.{
  LocalRateLimitConfig, LocalRateLimiter, RateWindowState, RateLimitDecision, Windows, oldest,
  evict_oldest_key, make_room, current_entry, admit, check_key, new, validate,
}

oldest_there :
    (m : Windows)
    → (m ≡ []) ⊎ ((k : Text) × (t : ℕ) × (oldest m ≡ some (k, t)) × (contains_key k m ≡ true))
unfolding oldest lookup
oldest_there [] = inl refl
oldest_there ((k, w) ∷ m) = inr (elim (oldest_there m) [
  | inl e ↦ (k, w.last_seen_tick, ground (arith, e), ground (arith, same_refl k))
  | inr (j, t, e, h) ↦ elim (Bool-cases (leb w.last_seen_tick t)) [
    | inl b ↦ (k, w.last_seen_tick, ground (arith, e, b), ground (arith, same_refl k))
    | inr b ↦ (j, t, ground (arith, e, b), ground (arith, h))
  ]
])

-- Evicting from a map that is not empty makes it shorter.
evict-lt : (m : Windows) → 0 < length m → length (evict_oldest_key m) < length m
unfolding evict_oldest_key
evict-lt m h = elim (oldest_there m) [
  | inl e ↦ ground (arith, e)
  | inr (k, t, e, c) ↦ ground (arith, e, length-remove-lt k m c)
]

pub make_room-lt :
    (c : LocalRateLimitConfig) (key : Text) (m : Windows)
    → 0 < c.max_tracked_keys
    → length m ≤ c.max_tracked_keys
    → (contains_key key (make_room c key m) ≡ true)
      ⊎ (length (make_room c key m) < c.max_tracked_keys)
unfolding make_room
make_room-lt c key m p h = ground (arith, evict-lt m, Bool-cases (contains_key key m))

pub make_room-le :
    (c : LocalRateLimitConfig) (key : Text) (m : Windows)
    → 0 < c.max_tracked_keys
    → length m ≤ c.max_tracked_keys
    → length (make_room c key m) ≤ c.max_tracked_keys
unfolding make_room
make_room-le c key m p h = ground (arith, evict-lt m, Bool-cases (contains_key key m))

make_room-lookup :
    (c : LocalRateLimitConfig) (key i : Text) (m : Windows) (w : RateWindowState)
    → lookup i (make_room c key m) ≡ some w
    → lookup i m ≡ some w
unfolding make_room evict_oldest_key
make_room-lookup c key i m w h = elim (Option-cases (oldest m)) [
  | inl e ↦ ground (arith, e, h)
  | inr ((k, t), e) ↦ ground (arith, e, h, lookup-remove k i m)
]

pub record Inv (c : LocalRateLimitConfig) (m : Windows) : Type 0 where
  pub keys_positive : 0 < c.max_tracked_keys
  pub keys_bounded : length m ≤ c.max_tracked_keys
  pub counts_bounded :
      (k : Text) (w : RateWindowState) → lookup k m ≡ some w → w.count ≤ c.requests_per_window

-- What `check` does to a limiter that keeps the invariant: it always decides.
pub check_decides :
    (l : LocalRateLimiter) (now : ℕ) (key : Text)
    → Inv l.config l.state
    → let room = make_room l.config key l.state in
      let (q, d) =
        admit (record l { state = room }) key now (current_entry l.config now (lookup key room)) in
      check_key l now key ≡ (q, ok d)
unfolding check_key
check_decides l now key v = ground (
  arith,
  make_room-lt l.config key l.state v.keys_positive v.keys_bounded,
  Bool-cases (contains_key key (make_room l.config key l.state)),
)

current_entry-count :
    (c : LocalRateLimitConfig) (now : ℕ) (found : Option RateWindowState) (n : ℕ)
    → ((w : RateWindowState) → found ≡ some w → w.count ≤ n)
    → (current_entry c now found).count ≤ n
unfolding current_entry
current_entry-count c now none n h = ground arith
current_entry-count c now (some w) n h = ground (arith, h w refl)

insert-Inv :
    (c : LocalRateLimitConfig) (m : Windows) (key : Text) (e : RateWindowState)
    → Inv c m
    → (contains_key key m ≡ true) ⊎ (length m < c.max_tracked_keys)
    → e.count ≤ c.requests_per_window
    → Inv c (insert key e m)
insert-Inv c m key e v room n = record {
  keys_positive = v.keys_positive;
  keys_bounded = ground (arith, v.keys_bounded, room, length-insert key e m);
  counts_bounded = λ k w h. ground (arith, n, h, v.counts_bounded k w, lookup-insert key k e m);
}

make_room-Inv :
    (c : LocalRateLimitConfig) (key : Text) (m : Windows) → Inv c m → Inv c (make_room c key m)
make_room-Inv c key m v = record {
  keys_positive = v.keys_positive;
  keys_bounded = make_room-le c key m v.keys_positive v.keys_bounded;
  counts_bounded = λ k w h. v.counts_bounded k w (make_room-lookup c key k m w h);
}

admit-Inv :
    (l : LocalRateLimiter) (key : Text) (now : ℕ) (e : RateWindowState)
    → Inv l.config l.state
    → (contains_key key l.state ≡ true) ⊎ (length l.state < l.config.max_tracked_keys)
    → e.count ≤ l.config.requests_per_window
    → Inv l.config (admit l key now e).0.state × ((admit l key now e).0.config ≡ l.config)
unfolding admit
admit-Inv l key now e v room n = elim (Bool-cases (leb l.config.requests_per_window e.count)) [
  | inl h ↦ rw h (insert-Inv l.config l.state key e v room n, refl)
  | inr h ↦ rw h (
    insert-Inv l.config l.state key (record e { count = e.count + 1 }) v room (ground (arith, h)),
    refl,
  )
]

pub check_key-Inv :
    (l : LocalRateLimiter) (now : ℕ) (key : Text)
    → Inv l.config l.state
    → Inv l.config (check_key l now key).0.state × ((check_key l now key).0.config ≡ l.config)
check_key-Inv l now key v =
    let room = make_room l.config key l.state in
    rw (check_decides l now key v) (
      admit-Inv (record l { state = room }) key now (current_entry l.config now (lookup key room))
        (make_room-Inv l.config key l.state v)
        (make_room-lt l.config key l.state v.keys_positive v.keys_bounded)
        (current_entry-count l.config now (lookup key room) l.config.requests_per_window
          (λ w h. v.counts_bounded key w (make_room-lookup l.config key key l.state w h))))

pub run : LocalRateLimiter → List (ℕ × Text) → LocalRateLimiter
run l [] = l
run l ((now, key) ∷ cs) = run (check_key l now key).0 cs

run-Inv :
    (l : LocalRateLimiter) (cs : List (ℕ × Text))
    → Inv l.config l.state
    → Inv l.config (run l cs).state × ((run l cs).config ≡ l.config)
unfolding run
run-Inv l [] v = (v, refl)
run-Inv l ((now, key) ∷ cs) v =
    let (w, e) = check_key-Inv l now key v in
    let (u, f) = run-Inv (check_key l now key).0 cs (rw e w) in
    (subst (λ c. Inv c (run (check_key l now key).0 cs).state) e u, f ∙ e)

new-Inv :
    (c : LocalRateLimitConfig) (l : LocalRateLimiter)
    → new c ≡ ok l
    → Inv l.config l.state × (l.config ≡ c)
unfolding new validate lookup
new-Inv c l e = (
  record {
    keys_positive = ground (arith, e);
    keys_bounded = ground (arith, e);
    counts_bounded = λ k w h. ground (arith, e, h);
  },
  ground (arith, e),
)

-- Whatever keys a limiter that `new` accepts has checked, at any times, it tracks at most as many
-- keys as configured, no key has used more than the requests of a window, and the next check of any
-- key decides: the state is never saturated.
pub check_stays_bounded :
    (c : LocalRateLimitConfig) (l : LocalRateLimiter) (cs : List (ℕ × Text)) (now : ℕ) (key : Text)
    → new c ≡ ok l
    → let q = run l cs in Inv c q.state × (d : RateLimitDecision) × ((check_key q now key).1 ≡ ok d)
check_stays_bounded c l cs now key e =
    let (v, same_config) = new-Inv c l e in
    let (w, kept) = run-Inv l cs v in
    (
      subst (λ k. Inv k (run l cs).state) same_config w,
      _,
      ap (λ r. r.1) (check_decides (run l cs) now key (rw kept w)),
    )
