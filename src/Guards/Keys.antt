-- ===== src/Guards/Keys.antt =====
-- When two addresses have the same key (crates/runtime/src/source_guards.rs).
use way_balancer.Base.{
  ℕ, ◌+◌, ◌-◌, ◌*◌, ◌/◌, ◌%◌, ◌<◌, ◌≡◌, refl, ap, ◌∙◌, sym, ◌↔◌, inl, inr, true, false, ◌&&◌, leb,
  ltb, if◌then◌else◌, [], ◌∷◌, ◌++◌, arith, Bool-cases,
}
use way_balancer.Base.Text.{Text, codes}
use way_balancer.Address.{IpAddr, v4, canonicalize_ip}
use way_balancer.Guards.{ipv4_subnet24, show_u8, subnet24_key, key_of, normalize_source_key}

-- A reader of decimals: the number of the leading digits, and the text after the character that ends
-- them.
read_number : ℕ → Text → ℕ × Text
read_number n [] = (n, [])
read_number n (c ∷ cs) =
    let rest = read_number (n * 10 + (c - 48)) cs in if leb 48 c && leb c 57 then rest else (n, cs)

digit_then :
    (n d m : ℕ) (rest : Text)
    → d < 10
    → n * 10 + d ≡ m
    → read_number n ((48 + d) ∷ rest) ≡ read_number m rest
unfolding read_number
digit_then n d m rest h e = ground (arith, h, e)

dot_then : (n : ℕ) (rest : Text) → read_number n (b'.' ∷ rest) ≡ (n, rest)
unfolding read_number
dot_then n rest = refl

read_one :
    (n : ℕ) (rest : Text) → ltb n 10 ≡ true → read_number 0 (show_u8 n ++ (b'.' ∷ rest)) ≡ (n, rest)
unfolding show_u8
read_one n rest h =
    rw h (digit_then 0 n n (b'.' ∷ rest) (ground (arith, h)) (omega arith) ∙ dot_then n rest)

read_two :
    (n : ℕ) (rest : Text)
    → ltb n 10 ≡ false
    → ltb n 100 ≡ true
    → read_number 0 (show_u8 n ++ (b'.' ∷ rest)) ≡ (n, rest)
unfolding show_u8
read_two n rest h k =
    rw (h, k)
      (digit_then 0 (n / 10) (n / 10) ((48 + n % 10) ∷ b'.' ∷ rest) (ground (arith, k))
          (omega arith)
        ∙ (digit_then (n / 10) (n % 10) n (b'.' ∷ rest) (omega arith) (omega arith)
            ∙ dot_then n rest))

read_three :
    (n : ℕ) (rest : Text)
    → n < 256
    → ltb n 10 ≡ false
    → ltb n 100 ≡ false
    → read_number 0 (show_u8 n ++ (b'.' ∷ rest)) ≡ (n, rest)
unfolding show_u8
read_three n rest b h k =
    let last : Text = (48 + n % 10) ∷ b'.' ∷ rest in
    rw (h, k)
      (digit_then 0 (n / 100) (n / 100) ((48 + n / 10 % 10) ∷ last) (omega arith) (omega arith)
        ∙ (digit_then (n / 100) (n / 10 % 10) (n / 10) last (omega arith) (omega arith)
            ∙ (digit_then (n / 10) (n % 10) n (b'.' ∷ rest) (omega arith) (omega arith)
                ∙ dot_then n rest)))

read-show_u8 :
    (n : ℕ) (rest : Text) → n < 256 → read_number 0 (show_u8 n ++ (b'.' ∷ rest)) ≡ (n, rest)
read-show_u8 n rest b = elim (Bool-cases (ltb n 10)) [
  | inl h ↦ read_one n rest h
  | inr h ↦ elim (Bool-cases (ltb n 100)) [
    | inl k ↦ read_two n rest h k
    | inr k ↦ read_three n rest b h k
  ]
]

-- Two octets, each before a dot, that are written alike.
show_u8-inj :
    (a b : ℕ) (s t : Text)
    → a < 256
    → b < 256
    → show_u8 a ++ (b'.' ∷ s) ≡ show_u8 b ++ (b'.' ∷ t)
    → (a ≡ b) × (s ≡ t)
show_u8-inj a b s t p q e =
    let alike = sym (read-show_u8 a s p) ∙ ap (read_number 0) e ∙ read-show_u8 b t q in
    (ap (λ (x : ℕ × Text). x.0) alike, ap (λ (x : ℕ × Text). x.1) alike)

subnet24_key_iff :
    (a b c a' b' c' : ℕ)
    → (a < 256) × (b < 256) × (c < 256)
    → (a' < 256) × (b' < 256) × (c' < 256)
    → (subnet24_key a b c ≡ subnet24_key a' b' c') ↔ ((a ≡ a') × (b ≡ b') × (c ≡ c'))
unfolding subnet24_key
subnet24_key_iff a b c a' b' c' (pa, pb, pc) (qa, qb, qc) = (
  λ e.
      let (ea, e1) =
        show_u8-inj a a' (show_u8 b ++ (b'.' ∷ (show_u8 c ++ codes ".0/24")))
          (show_u8 b' ++ (b'.' ∷ (show_u8 c' ++ codes ".0/24"))) pa qa e in
      let (eb, e2) =
        show_u8-inj b b' (show_u8 c ++ codes ".0/24") (show_u8 c' ++ codes ".0/24") pb qb e1 in
      let (ec, e3) = show_u8-inj c c' (codes "0/24") (codes "0/24") pc qc e2 in (ea, eb, ec),
  λ e. rw (e.0, e.1, e.2) refl,
)

-- With the aggregation by /24, two addresses that are IPv4, also those mapped into IPv6, are
-- counted under the same key exactly if they are in the same /24, that is, agree in their first
-- three octets.
pub subnet24_iff :
    (show_ip : IpAddr → Text) (ip ip' : IpAddr) (a b c d a' b' c' d' : ℕ)
    → canonicalize_ip ip ≡ v4 a b c d
    → canonicalize_ip ip' ≡ v4 a' b' c' d'
    → (a < 256) × (b < 256) × (c < 256)
    → (a' < 256) × (b' < 256) × (c' < 256)
    → (normalize_source_key show_ip ip ipv4_subnet24
        ≡ normalize_source_key show_ip ip' ipv4_subnet24)
      ↔ ((a ≡ a') × (b ≡ b') × (c ≡ c'))
unfolding normalize_source_key key_of
subnet24_iff show_ip ip ip' a b c d a' b' c' d' e e' p q =
    rw (e, e') (subnet24_key_iff a b c a' b' c' p q)
