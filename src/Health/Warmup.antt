-- ===== src/Health/Warmup.antt =====
-- `warmup_weight` of crates/runtime/src/upstream_health.rs: the weight of an endpoint under
-- slow start.
mod Tests
use native.Mathlib.Nat.{div-le_of_le-mul}
use way_balancer.Base.{
  ℕ, ◌+◌, ◌-◌, ◌*◌, ◌/◌, ◌%◌, ◌≤◌, ◌<◌, ◌≡◌, refl, ◌⊎◌, inl, inr, Bool, ◌||◌, leb, ◌==◌,
  if◌then◌else◌, min, max, sat_mul32, as_millis, u16_max, arith, Bool-cases,
}

-- The casts to u16 keep the last 16 bits.
abbrev as_u16 : ℕ → ℕ
as_u16 n = n % 65536

abbrev progressive_weight : ℕ → ℕ → ℕ → ℕ
progressive_weight nominal elapsed duration =
    as_u16 (nominal * as_millis elapsed / max (as_millis duration) 1)

abbrev min_weight : ℕ → ℕ → ℕ
min_weight nominal percent = as_u16 (max (sat_mul32 nominal (max percent 1) / 100) 1)

pub warmup_weight : ℕ → ℕ → ℕ → ℕ → ℕ
warmup_weight nominal elapsed duration percent =
    if duration == 0 || leb duration elapsed
    then nominal
    else min (max (progressive_weight nominal elapsed duration) (min_weight nominal percent))
        nominal

quotient_mono : (n a b d : ℕ) → a ≤ b → n * a / d ≤ n * b / d
quotient_mono n a b d h = grind arith

product_bound : (n p : ℕ) → n ≤ u16_max → p ≤ 100 → n * p ≤ n * 100
product_bound n p h k = grind arith

-- The share of the elapsed time never asks for more than the nominal weight.
progressive_bound : (n a b : ℕ) → a ≤ b → n * a / max b 1 ≤ n
progressive_bound n a b h = div-le_of_le-mul (max b 1) (share n a (max b 1) (omega arith))
  where
    share : (k x y : ℕ) → x ≤ y → k * x ≤ y * k
    share k x y le = grind arith

-- For a positive nominal weight in the range of u16 and a slow-start percentage of at most 100 the
-- weight is positive, is at most the nominal one, and is the nominal one once the warm-up is over.
pub warmup_weight_bounds :
    (nominal elapsed duration percent : ℕ)
    → 0 < nominal
    → nominal ≤ u16_max
    → percent ≤ 100
    → (0 < warmup_weight nominal elapsed duration percent)
      × (warmup_weight nominal elapsed duration percent ≤ nominal)
      × (duration ≤ elapsed → warmup_weight nominal elapsed duration percent ≡ nominal)
unfolding warmup_weight
warmup_weight_bounds nominal elapsed duration percent pos r h =
    let p = product_bound nominal (max percent 1) r (omega arith) in
    (ground arith, ground arith, λ done. ground arith)

millis_mono : (a b : ℕ) → a ≤ b → as_millis a ≤ as_millis b
millis_mono a b h = omega arith

-- For a nominal weight in the range of u16 and a slow-start percentage of at most 100 the weight does
-- not fall as the warm-up goes on.
pub warmup_weight_mono :
    (nominal elapsed later duration percent : ℕ)
    → nominal ≤ u16_max
    → percent ≤ 100
    → elapsed ≤ later
    → warmup_weight nominal elapsed duration percent ≤ warmup_weight nominal later duration percent
unfolding warmup_weight
warmup_weight_mono nominal elapsed later duration percent r h le =
    elim (Bool-cases (leb duration later)) [
      | inl done ↦ ground (arith, done)
      | inr early ↦ ground (
        arith,
        early,
        progressive_bound nominal (as_millis elapsed) (as_millis duration)
            (millis_mono elapsed duration (ground arith)),
        progressive_bound nominal (as_millis later) (as_millis duration)
            (millis_mono later duration (ground arith)),
        quotient_mono nominal (as_millis elapsed) (as_millis later) (max (as_millis duration) 1)
            (millis_mono elapsed later le),
      )
    ]
