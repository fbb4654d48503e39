-- ===== src/Limits/Keys.antt =====
-- The normalization of names in crates/runtime/src/local_limits.rs.
use mathlib.Core.List.{reverse, reverse-cons, reverse-reverse}
use way_balancer.Base.{
  ℕ, ◌-◌, ◌≤◌, ◌≡◌, refl, Bool, true, false, ◌||◌, ◌==◌, [], ◌∷◌, is_empty, length, All, All-append,
  ok, arith, Bool-cases, inl, inr,
}
use way_balancer.Base.Text.{Text, codes, trim, trim_start, is_whitespace, is_lower, is_digit}
use way_balancer.Limits.{
  LocalLimitScope, listener, route, route_destination, normalize_char, normalize_chars,
  normalize_component, validate_scope, max_normalized_component_len,
}

-- The characters of a normalized name.
abbrev pub is_plain : ℕ → Bool
is_plain c = is_lower c || is_digit c || c == b'-' || c == b'_' || c == b'.' || c == b':'

abbrev pub IsPlain : Text → Type 0
IsPlain t = All (λ c. is_plain c ≡ true) t

normalize_char-is_plain : (c : ℕ) → is_plain (normalize_char c) ≡ true
unfolding normalize_char
normalize_char-is_plain c = ground arith

normalize_char_fixed : (c : ℕ) → is_plain c ≡ true → normalize_char c ≡ c
unfolding normalize_char
normalize_char_fixed c h = ground arith

normalize_chars-IsPlain : (room : ℕ) (t : Text) → IsPlain (normalize_chars room t)
unfolding normalize_chars
normalize_chars-IsPlain room [] = tt
normalize_chars-IsPlain room (c ∷ cs) = elim (Bool-cases (room == 0)) [
  | inl h ↦ rw h tt
  | inr h ↦ rw h (normalize_char-is_plain c, normalize_chars-IsPlain (room - 1) cs)
]

length-normalize_chars : (room : ℕ) (t : Text) → length (normalize_chars room t) ≤ room
unfolding normalize_chars
length-normalize_chars room [] = omega arith
length-normalize_chars room (c ∷ cs) = ground (arith, length-normalize_chars (room - 1) cs)

normalize_chars_fixed :
    (room : ℕ) (t : Text) → IsPlain t → length t ≤ room → normalize_chars room t ≡ t
unfolding normalize_chars
normalize_chars_fixed room [] p h = refl
normalize_chars_fixed room (c ∷ cs) p h =
    ground
      (arith, normalize_char_fixed c p.0, normalize_chars_fixed (room - 1) cs p.1 (omega arith))

plain_visible : (c : ℕ) → is_plain c ≡ true → is_whitespace c ≡ false
unfolding is_whitespace
plain_visible c h = ground arith

trim_start_fixed : (t : Text) → IsPlain t → trim_start t ≡ t
unfolding trim_start
trim_start_fixed [] p = refl
trim_start_fixed (c ∷ cs) p = ground (arith, plain_visible c p.0)

reverse-IsPlain : (t : Text) → IsPlain t → IsPlain (reverse t)
reverse-IsPlain [] p = tt
reverse-IsPlain (c ∷ cs) p =
    rw (reverse-cons c cs) (All-append _ (reverse cs) (c ∷ []) (reverse-IsPlain cs p.1) (p.0, tt))

trim_fixed : (t : Text) → IsPlain t → trim t ≡ t
unfolding trim
trim_fixed t p =
    rw (trim_start_fixed t p, trim_start_fixed (reverse t) (reverse-IsPlain t p))
      (reverse-reverse t)

missing-IsPlain : IsPlain (codes "missing")
missing-IsPlain = ground arith

component_shape :
    (t : Text)
    → (is_empty (normalize_component t) ≡ false)
      × (length (normalize_component t) ≤ max_normalized_component_len)
      × IsPlain (normalize_component t)
unfolding normalize_component
component_shape t =
    let n = normalize_chars max_normalized_component_len (trim t) in
    elim (Bool-cases (is_empty n)) [
      | inl h ↦ rw h (refl, omega arith, missing-IsPlain)
      | inr h ↦ rw h (
        h,
        length-normalize_chars max_normalized_component_len (trim t),
        normalize_chars-IsPlain max_normalized_component_len (trim t),
      )
    ]

component_fixed :
    (t : Text)
    → is_empty t ≡ false
    → length t ≤ max_normalized_component_len
    → IsPlain t
    → normalize_component t ≡ t
unfolding normalize_component
component_fixed t n l p =
    ground (arith, trim_fixed t p, normalize_chars_fixed max_normalized_component_len t p l)

-- A normalized name is not empty, has at most 64 characters, all of them plain, and normalizing it
-- again leaves it as it is.
pub normalize_component_lem :
    (t : Text)
    → (is_empty (normalize_component t) ≡ false)
      × (length (normalize_component t) ≤ max_normalized_component_len)
      × IsPlain (normalize_component t)
      × (normalize_component (normalize_component t) ≡ normalize_component t)
normalize_component_lem t =
    let (n, l, p) = component_shape t in (n, l, p, component_fixed (normalize_component t) n l p)

-- Every scope is valid, also one whose names are blank: these are normalized to a name.
pub validate_scope_ok : (s : LocalLimitScope) → validate_scope s ≡ ok tt
unfolding validate_scope
validate_scope_ok (listener t) = ground (arith, normalize_component_lem t)
validate_scope_ok (route t) = ground (arith, normalize_component_lem t)
validate_scope_ok (LocalLimitScope.upstream_cluster t) = ground (arith, normalize_component_lem t)
validate_scope_ok (route_destination r u) =
    ground (arith, normalize_component_lem r, normalize_component_lem u)
