-- ===== src/Limits/Rate/Quota.antt =====
-- How many requests of one key pass in one window of the rate limiter
-- (crates/runtime/src/local_limits.rs).
use way_balancer.Base.{
  ℕ, ◌+◌, ◌-◌, ◌≤◌, ◌<◌, ◌≡◌, refl, ◌⊎◌, inl, inr, Bool, true, false, ◌&&◌, leb, if◌then◌else◌,
  List, [], ◌∷◌, length, min, some, Result, ok, err, arith, Bool-cases,
}
use mathlib.Core.Path.{subst}
use way_balancer.Base.Order.{same, same_iff, same_refl, list_ord, nat_ord}
use way_balancer.Base.Map.{lookup, contains_key, lookup-insert}
use way_balancer.Base.Text.{Text}
use way_balancer.Limits.{LocalLimitError, duration_tick}
use way_balancer.Limits.Rate.{
  LocalRateLimitConfig, LocalRateLimiter, RateWindowState, RateLimitDecision, Windows, make_room,
  current_entry, admit, check_key,
}

abbrev is_allowed : Result RateLimitDecision LocalLimitError → Bool
is_allowed (ok d) = d.allowed
is_allowed (err e) = false

-- The calls of a key that are allowed.
pub grants : Text → LocalRateLimiter → List (ℕ × Text) → ℕ
grants k l [] = 0
grants k l ((now, j) ∷ cs) =
    let (q, r) = check_key l now j in (if same j k && is_allowed r then 1 else 0) + grants k q cs

abbrev pub uses : Text → List (ℕ × Text) → ℕ
uses k [] = 0
uses k ((now, j) ∷ cs) = (if same j k then 1 else 0) + uses k cs

-- No call evicts a key: its own key is tracked, or there is room for it.
unfoldable pub IsRoomy : LocalRateLimiter → List (ℕ × Text) → Type 0
IsRoomy l [] = Unit {0}
IsRoomy l ((now, j) ∷ cs) =
    ((contains_key j l.state ≡ true) ⊎ (length l.state < l.config.max_tracked_keys))
    × IsRoomy (check_key l now j).0 cs

-- The calls of the key come before the window that started then is over.
unfoldable pub InWindow : Text → ℕ → ℕ → List (ℕ × Text) → Type 0
InWindow k start window [] = Unit {0}
InWindow k start window ((now, j) ∷ cs) =
    (same j k ≡ true → now - start < window) × InWindow k start window cs

-- A key in a window, with what it has used.
record IsOpen (k : Text) (c : LocalRateLimitConfig) (start used : ℕ) (l : LocalRateLimiter)
    : Type 0 where
  entry : RateWindowState
  found : lookup k l.state ≡ some entry
  started : entry.window_started ≡ start
  counted : entry.count ≡ used
  configured : l.config ≡ c

make_room_idle :
    (c : LocalRateLimitConfig) (j : Text) (m : Windows)
    → (contains_key j m ≡ true) ⊎ (length m < c.max_tracked_keys)
    → make_room c j m ≡ m
unfolding make_room
make_room_idle c j m h = ground (arith, h, Bool-cases (contains_key j m))

check_roomy :
    (l : LocalRateLimiter) (now : ℕ) (j : Text)
    → (contains_key j l.state ≡ true) ⊎ (length l.state < l.config.max_tracked_keys)
    → check_key l now j
      ≡ (let (q, d) = admit l j now (current_entry l.config now (lookup j l.state)) in (q, ok d))
unfolding check_key
check_roomy l now j h =
    ground (arith, h, make_room_idle l.config j l.state h, Bool-cases (contains_key j l.state))

-- A key that was checked with no eviction is tracked.
pub tracked_after :
    (l : LocalRateLimiter) (now : ℕ) (j : Text)
    → (contains_key j l.state ≡ true) ⊎ (length l.state < l.config.max_tracked_keys)
    → contains_key j (check_key l now j).0.state ≡ true
unfolding admit
tracked_after l now j h =
    let e = current_entry l.config now (lookup j l.state) in
    ground (
      arith,
      check_roomy l now j h,
      same_refl j,
      lookup-insert j j e l.state,
      lookup-insert j j (record e { count = e.count + 1 }) l.state,
    )

other_step :
    (k j : Text) (c : LocalRateLimitConfig) (start used now : ℕ) (l : LocalRateLimiter)
    (e : RateWindowState)
    → same j k ≡ false
    → IsOpen k c start used l
    → IsOpen k c start used (admit l j now e).0
unfolding admit
other_step k j c start used now l e d v =
    let limit = l.config.requests_per_window in
    elim (Bool-cases (leb limit e.count)) [
      | inl h ↦ rw h (record {
        entry = v.entry;
        found = ground (arith, d, v.found, lookup-insert j k e l.state);
        started = v.started;
        counted = v.counted;
        configured = v.configured;
      })
      | inr h ↦ rw h (record {
        entry = v.entry;
        found =
            ground
              (arith, d, v.found, lookup-insert j k (record e { count = e.count + 1 }) l.state);
        started = v.started;
        counted = v.counted;
        configured = v.configured;
      })
    ]

own_step :
    (k : Text) (c : LocalRateLimitConfig) (start used now : ℕ) (l : LocalRateLimiter)
    → now - start < c.window
    → IsOpen k c start used l
    → let (q, d) = admit l k now (current_entry l.config now (lookup k l.state)) in
      ((d.allowed ≡ false) × (c.requests_per_window ≤ used) × IsOpen k c start used q)
      ⊎ ((d.allowed ≡ true) × (used < c.requests_per_window) × IsOpen k c start (used + 1) q)
unfolding admit current_entry
own_step k c start used now l h v =
    let e = record (v.entry) { last_seen_tick = duration_tick now } in
    let f = record e { count = e.count + 1 } in
    let current : current_entry l.config now (lookup k l.state) ≡ e =
      ground (arith, h, v.found, v.started, v.configured) in
    elim (Bool-cases (leb c.requests_per_window used)) [
      | inl over ↦
          let over' : leb l.config.requests_per_window e.count ≡ true =
            ground (arith, over, v.configured, v.counted) in
          inl (
            rw (current, over')
              (
                refl,
                ground (arith, over),
                record {
                  entry = e;
                  found = ground (arith, same_refl k, lookup-insert k k e l.state);
                  started = v.started;
                  counted = v.counted;
                  configured = v.configured;
                },
              ))
      | inr under ↦
          let under' : leb l.config.requests_per_window e.count ≡ false =
            ground (arith, under, v.configured, v.counted) in
          inr (
            rw (current, under')
              (
                refl,
                ground (arith, under),
                record {
                  entry = f;
                  found = ground (arith, same_refl k, lookup-insert k k f l.state);
                  started = v.started;
                  counted = ground (arith, v.counted);
                  configured = v.configured;
                },
              ))
    ]

own_case :
    (k : Text) (c : LocalRateLimitConfig) (start used now : ℕ) (l : LocalRateLimiter)
    (cs : List (ℕ × Text))
    → now - start < c.window
    → IsOpen k c start used l
    → (contains_key k l.state ≡ true) ⊎ (length l.state < l.config.max_tracked_keys)
    → ((u : ℕ)
        → IsOpen k c start u (check_key l now k).0
        → grants k (check_key l now k).0 cs ≡ min (uses k cs) (c.requests_per_window - u))
    → grants k l ((now, k) ∷ cs) ≡ min (uses k ((now, k) ∷ cs)) (c.requests_per_window - used)
unfolding grants
own_case k c start used now l cs h v room ih =
    let checked = check_roomy l now k room in
    elim (own_step k c start used now l h v) [
      | inl (refused, over, w) ↦
          ground (arith, same_refl k, checked, refused, over, ih used (rw checked w))
      | inr (granted, under, w) ↦
          ground (arith, same_refl k, checked, granted, under, ih (used + 1) (rw checked w))
    ]

open_grants :
    (k : Text) (c : LocalRateLimitConfig) (start used : ℕ) (l : LocalRateLimiter)
    (cs : List (ℕ × Text))
    → IsOpen k c start used l
    → InWindow k start c.window cs
    → IsRoomy l cs
    → grants k l cs ≡ min (uses k cs) (c.requests_per_window - used)
unfolding grants InWindow IsRoomy
open_grants k c start used l [] v w r = omega arith
open_grants k c start used l ((now, j) ∷ cs) v w r = elim (Bool-cases (same j k)) [
  | inr other ↦
      let checked = check_roomy l now j r.0 in
      let kept =
        other_step k j c start used now l (current_entry l.config now (lookup j l.state)) other v in
      let ih = open_grants k c start used (check_key l now j).0 cs (rw checked kept) w.1 r.1 in
      ground (arith, other, ih)
  | inl own ↦
      let p = (same_iff j k).0 own in
      let room =
        subst (λ i. (contains_key i l.state ≡ true) ⊎ (length l.state < l.config.max_tracked_keys))
          p r.0 in
      let roomy = subst (λ i. IsRoomy (check_key l now i).0 cs) p r.1 in
      rw p (
        own_case k c start used now l cs (w.0 own) v room
          (λ u x. open_grants k c start u (check_key l now k).0 cs x w.1 roomy))
]

-- While a key is tracked and its calls come before its window is over, and no call evicts a key,
-- exactly as many of its calls are allowed as it makes and as its window has requests left, whatever
-- calls of other keys come between.
pub grants_bounded :
    (k : Text) (e : RateWindowState) (l : LocalRateLimiter) (cs : List (ℕ × Text))
    → lookup k l.state ≡ some e
    → InWindow k e.window_started l.config.window cs
    → IsRoomy l cs
    → grants k l cs ≡ min (uses k cs) (l.config.requests_per_window - e.count)
grants_bounded k e l cs h w r =
    open_grants k l.config e.window_started e.count l cs
      (record { entry = e; found = h; started = refl; counted = refl; configured = refl }) w r
