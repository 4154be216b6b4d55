-- ===== src/Work/Bit.antt =====
-- Setting a bit of the quotient adds its weight, as long as the bits below are still clear.
use zkpow.Prelude.{ℕ, zero, suc, ◌+◌, ◌-◌, ◌*◌, ◌^◌, ◌≤◌, ◌<◌, ◌≡◌, sym, ap, ◌∙◌, arith, bit_or}
use zkpow.Prelude.{◌%◌, ◌/◌}
use zkpow.U256.{U256, IsU256, value}
use zkpow.Work.{set_bit}
use zkpow.Prelude.Bits.{bit_or_bit}
use native.Mathlib.Nat.{pow-succ', one-le-pow, mul-le-mul_right}
use native.Mathlib.Decide.{dec_lt}

pow_add : (j k : ℕ) → 2 ^ (j + k) ≡ 2 ^ j * 2 ^ k
pow_add zero k = let e : zero + k ≡ k = omega arith in rw e (omega arith)
pow_add (suc j) k =
    let e : suc j + k ≡ suc (j + k) = omega arith in
    rw e
      (omega (arith, pow-succ' 2 (j + k), pow_add j k, ap (λ (t : ℕ). t * 2 ^ k) (pow-succ' 2 j)))

-- A multiple of `p` that is `l` and a multiple of `p * r` makes `l` a multiple of `p`.
multiple : (p r l rest c : ℕ) → 0 < p → l + p * r * rest ≡ c * p → l ≡ (c - r * rest) * p
multiple p r l rest c hp e = elim (dec_lt c (r * rest)) [
  | yes h ↦ absurd (omega (arith, mul-le-mul_right p h))
  | no h ↦
      let back : c ≡ (c - r * rest) + r * rest = omega arith in
      omega (arith, ap (λ (t : ℕ). t * p) back)
]

below : (p r q : ℕ) → q * p < p * r → q * p + p ≤ p * r
below p r q h = elim (dec_lt q r) [
  | yes k ↦ omega (arith, mul-le-mul_right p k)
  | no k ↦ let le : r ≤ q = omega arith in absurd (omega (arith, mul-le-mul_right p le))
]

pow_split : (j : ℕ) → j < 64 → 2 ^ suc j * 2 ^ (63 - j) ≡ 2 ^ 64
pow_split j h =
    let e : suc j + (63 - j) ≡ 64 = omega arith in
    sym (pow_add (suc j) (63 - j)) ∙ ap (λ (k : ℕ). 2 ^ k) e

-- A limb with the part of the number above it, whose bits up to `j` are clear.
limb_bit :
    (j l rest c : ℕ)
    → j < 64
    → l < 2 ^ 64
    → l + 2 ^ 64 * rest ≡ c * 2 ^ suc j
    → (bit_or l (2 ^ j) ≡ l + 2 ^ j) × (l + 2 ^ j < 2 ^ 64)
limb_bit j l rest c hj hl e = limb_bit_at (2 ^ (63 - j)) (pow_split j hj)
  where
    limb_bit_at :
        (r : ℕ) → 2 ^ suc j * r ≡ 2 ^ 64 → (bit_or l (2 ^ j) ≡ l + 2 ^ j) × (l + 2 ^ j < 2 ^ 64)
    limb_bit_at r pr =
        let pos : 0 < 2 ^ suc j = one-le-pow (suc j) 2 (omega arith) in
        let e' : l + 2 ^ suc j * r * rest ≡ c * 2 ^ suc j = rw pr e in
        let lq : l ≡ (c - r * rest) * 2 ^ suc j = multiple (2 ^ suc j) r l rest c pos e' in
        let small : (c - r * rest) * 2 ^ suc j + 2 ^ suc j ≤ 2 ^ suc j * r =
          below (2 ^ suc j) r (c - r * rest) (rw (pr, ← lq) hl) in
        (
          rw lq (bit_or_bit j (c - r * rest)),
          omega (arith, lq, small, pr, pow-succ' 2 j, one-le-pow j 2 (omega arith)),
        )

-- The weight of bit `m` as a bit of the limb that starts at bit `k`.
bit_weight :
    (k m : ℕ)
    → m ≡ k + m % 64
    → (2 ^ m ≡ 2 ^ k * 2 ^ (m % 64)) × (2 ^ suc m ≡ 2 ^ k * 2 ^ suc (m % 64))
bit_weight k m e =
    let e' : suc m ≡ k + suc (m % 64) = omega arith in
    (
      ap (λ (t : ℕ). 2 ^ t) e ∙ pow_add k (m % 64),
      ap (λ (t : ℕ). 2 ^ t) e' ∙ pow_add k (suc (m % 64)),
    )

module _ (q : U256) (m c : ℕ) (h : IsU256 q) (e : value q ≡ c * 2 ^ suc m) where
  abbrev Set : Type 0
  Set = IsU256 (set_bit q m) × (value (set_bit q m) ≡ value q + 2 ^ m)

  set_bit_0 : m / 64 ≡ 0 → Set
  unfolding value set_bit
  set_bit_0 k =
      let (w, w') = bit_weight 0 m (omega arith) in
      let b =
        limb_bit (m % 64) q.limb0 (q.limb1 + 2 ^ 64 * q.limb2 + 2 ^ 128 * q.limb3) c (omega arith)
          h.fits0 (omega (arith, ap (λ (t : ℕ). c * t) w')) in
      ground (arith, b, w)

  set_bit_1 : m / 64 ≡ 1 → Set
  unfolding value set_bit
  set_bit_1 k =
      let (w, w') = bit_weight 64 m (omega arith) in
      let b =
        limb_bit (m % 64) q.limb1 (q.limb2 + 2 ^ 64 * q.limb3) c (omega arith) h.fits1
          (omega (arith, ap (λ (t : ℕ). c * t) w')) in
      ground (arith, b, w)

  set_bit_2 : m / 64 ≡ 2 → Set
  unfolding value set_bit
  set_bit_2 k =
      let (w, w') = bit_weight 128 m (omega arith) in
      let b =
        limb_bit (m % 64) q.limb2 q.limb3 c (omega arith) h.fits2
          (omega (arith, ap (λ (t : ℕ). c * t) w')) in
      ground (arith, b, w)

  set_bit_3 : m / 64 ≡ 3 → Set
  unfolding value set_bit
  set_bit_3 k =
      let (w, w') = bit_weight 192 m (omega arith) in
      let b =
        limb_bit (m % 64) q.limb3 0 c (omega arith) h.fits3
          (omega (arith, ap (λ (t : ℕ). c * t) w')) in
      ground (arith, b, w)

-- Setting bit `m` adds 2^m to a number that is a multiple of 2^(m + 1).
pub set_bit_lem :
    (q : U256) (m c : ℕ)
    → IsU256 q
    → value q ≡ c * 2 ^ suc m
    → m < 256
    → IsU256 (set_bit q m) × (value (set_bit q m) ≡ value q + 2 ^ m)
set_bit_lem q m c h e b = elim (dec_lt (m / 64) 2) [
  | yes low ↦ elim (dec_lt (m / 64) 1) [
    | yes k ↦ set_bit_0 q m c h e (omega arith)
    | no k ↦ set_bit_1 q m c h e (omega arith)
  ]
  | no high ↦ elim (dec_lt (m / 64) 3) [
    | yes k ↦ set_bit_2 q m c h e (omega arith)
    | no k ↦ set_bit_3 q m c h e (omega arith)
  ]
]
