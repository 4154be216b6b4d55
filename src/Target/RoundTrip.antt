-- ===== src/Target/RoundTrip.antt =====
-- The round trip of a target through its compact form.
use zkpow.Prelude.{
  ℕ, zero, suc, ◌+◌, ◌-◌, ◌*◌, ◌/◌, ◌%◌, ◌^◌, ◌≤◌, ◌<◌, ◌≡◌, refl, sym, ap, ◌∙◌, arith, ltb, true,
  false, if◌then◌else◌,
}
use zkpow.U256.{U256, IsU256, value}
use zkpow.U256.Arith.{value-lt}
use zkpow.Target.{target_to_bits, target_from_bits}
use zkpow.Target.Digits.{div-lt, pow_pos}
use zkpow.Target.Expand.{value-target_from_bits, expand}
use native.Mathlib.Decide.{dec_lt}
use native.Mathlib.Nat.{div-div-eq-div-mul, pow-succ', pow-suc, div-mul-le_self}
use zkpow.Target.Compact.{
  mantissa, packed, mantissa_bounds, pow_suc_three, target_to_bits_lem, target_to_bits-zero,
}
use zkpow.Target.Digits.{byte_length}
use zkpow.Target.Expand.{target_from_bits-IsU256}
use zkpow.Prelude.{◌⊎◌, inl, inr}
use native.Mathlib.Nat.{div-eq_of_eq-mul_left, mul-le-mul_right, div-add-mod', mod-lt}

-- The bytes that the compact form of a number of `suc k` bytes gives up.
abbrev pub dropped : ℕ → ℕ → ℕ
dropped k x = if ltb (mantissa (suc k) x) (2 ^ 23) then k - 2 else k - 1

expand-packed :
    (n m : ℕ)
    → n ≤ 32
    → m < 2 ^ 24
    → expand (packed n m / 2 ^ 24) (packed n m % 2 ^ 23)
      ≡ (if ltb m (2 ^ 23) then expand n m else expand (n + 1) (m / 256))
expand-packed n m hn hm = elim (dec_lt m (2 ^ 23)) [
  | yes a ↦
      let e : packed n m ≡ n * 2 ^ 24 + m = ground arith in
      let size : (n * 2 ^ 24 + m) / 2 ^ 24 ≡ n = omega arith in
      let rest : (n * 2 ^ 24 + m) % 2 ^ 23 ≡ m = omega arith in
      let test : ltb m (2 ^ 23) ≡ true = ground arith in rw (e, size, rest, test)
  | no a ↦
      let e : packed n m ≡ (n + 1) * 2 ^ 24 + m / 256 = ground arith in
      let size : ((n + 1) * 2 ^ 24 + m / 256) / 2 ^ 24 ≡ n + 1 = omega arith in
      let rest : ((n + 1) * 2 ^ 24 + m / 256) % 2 ^ 23 ≡ m / 256 = omega arith in
      let test : ltb m (2 ^ 23) ≡ false = ground arith in rw (e, size, rest, test)
]

abbrev Truncates : ℕ → ℕ → Type 0
Truncates k x =
    (if ltb (mantissa (suc k) x) (2 ^ 23)
      then expand (suc k) (mantissa (suc k) x)
      else expand (suc k + 1) (mantissa (suc k) x / 256))
    ≡ x / 256 ^ dropped k x * 256 ^ dropped k x

next : (j x : ℕ) → x / 256 ^ suc (suc j) ≡ x / 256 ^ suc j / 256
next j x = rw (pow-suc 256 (suc j)) (sym (div-div-eq-div-mul x (256 ^ suc j) 256))

Truncates-long :
    (j x : ℕ) → x < 2 ^ 256 → x / 256 ^ suc j < 2 ^ 24 → Truncates (suc (suc (suc j))) x
Truncates-long j x hx hm = elim (dec_lt (x / 256 ^ suc j) (2 ^ 23)) [
  | yes a ↦ ground (arith, e0, e2, below)
  | no a ↦ ground (arith, e0, e1, e3, below', next j x)
]
  where
    e0 : suc (suc (suc (suc j))) - 3 ≡ suc j
    e0 = omega arith

    e1 : suc (suc (suc (suc j))) + 1 - 3 ≡ suc (suc j)
    e1 = omega arith

    e2 : suc (suc (suc j)) - 2 ≡ suc j
    e2 = omega arith

    e3 : suc (suc (suc j)) - 1 ≡ suc (suc j)
    e3 = omega arith

    below : x / 256 ^ suc j * 256 ^ suc j ≤ x
    below = div-mul-le_self x (256 ^ suc j)

    below' : x / 256 ^ suc (suc j) * 256 ^ suc (suc j) ≤ x
    below' = div-mul-le_self x (256 ^ suc (suc j))

truncates : (k x : ℕ) → 256 ^ k ≤ x → x < 256 ^ suc k → x < 2 ^ 256 → Truncates k x
truncates zero x lo hi hx = ground arith
truncates (suc zero) x lo hi hx = ground arith
truncates (suc (suc zero)) x lo hi hx = ground arith
truncates (suc (suc (suc j))) x lo hi hx =
    Truncates-long j x hx
      (div-lt x (256 ^ suc j) (2 ^ 24) (pow_pos (suc j)) (omega (arith, (pow_suc_three j).1)))

-- The compact form of a number of `suc k` bytes, expanded again.
pub value-target_from_bits-target_to_bits :
    (t : U256) (k : ℕ)
    → IsU256 t
    → 256 ^ k ≤ value t
    → value t < 256 ^ suc k
    → k < 32
    → let d = dropped k (value t) in
      value (target_from_bits (target_to_bits t)) ≡ value t / 256 ^ d * 256 ^ d
value-target_from_bits-target_to_bits t k h lo hi b =
    ap (λ (c : ℕ). value (target_from_bits c)) (target_to_bits_lem t k h lo hi b)
    ∙ value-target_from_bits (packed (suc k) (mantissa (suc k) (value t)))
    ∙ expand-packed (suc k) (mantissa (suc k) (value t)) b (mantissa_bounds k (value t) lo hi).1
    ∙ truncates k (value t) lo hi (value-lt t h)

-- The three top bytes of a longer number.
top_bounds :
    (j x : ℕ)
    → 256 ^ suc (suc (suc j)) ≤ x
    → x < 256 ^ suc (suc (suc (suc j)))
    → (2 ^ 16 ≤ x / 256 ^ suc j) × (x / 256 ^ suc j < 2 ^ 24)
top_bounds j x lo hi =
    let e : suc (suc (suc (suc j))) - 3 ≡ suc j = omega arith in
    ground (arith, e, mantissa_bounds (suc (suc (suc j))) x lo hi)

-- Either nothing is given up, or at least 15 bits of the number stay.
dropped_lem :
    (k x : ℕ) → 256 ^ k ≤ x → x < 256 ^ suc k → (dropped k x ≡ 0) ⊎ (2 ^ 15 ≤ x / 256 ^ dropped k x)
dropped_lem zero x lo hi = inl (ground arith)
dropped_lem (suc zero) x lo hi = inl (ground arith)
dropped_lem (suc (suc zero)) x lo hi = ground arith
dropped_lem (suc (suc (suc j))) x lo hi =
    inr (ground (arith, e0, e2, e3, top_bounds j x lo hi, next j x))
  where
    e0 : suc (suc (suc (suc j))) - 3 ≡ suc j
    e0 = omega arith

    e2 : suc (suc (suc j)) - 2 ≡ suc j
    e2 = omega arith

    e3 : suc (suc (suc j)) - 1 ≡ suc (suc j)
    e3 = omega arith

cut_bounds :
    (x w : ℕ) → 0 < w → 2 ^ 15 ≤ x / w → (x / w * w ≤ x) × ((x - x / w * w) * 2 ^ 15 ≤ x / w * w)
cut_bounds x w hw h = omega (arith, div-add-mod' x w, mod-lt x hw, mul-le-mul_right w h)

-- For every target of 64-bit limbs, the round trip through the compact form never raises it, and
-- lowers it by at most one part in 2^15 of the result.
pub target_round_trip_bounds :
    (t : U256)
    → IsU256 t
    → let v = value (target_from_bits (target_to_bits t)) in
      (v ≤ value t) × ((value t - v) * 2 ^ 15 ≤ v)
target_round_trip_bounds t h = elim (dec_lt 0 (value t)) [
  | yes pos ↦
      let (k, b, lo, hi) = byte_length 32 (value t) pos (value-lt t h) in
      let d : ℕ = dropped k (value t) in
      let e = value-target_from_bits-target_to_bits t k h lo hi b in
      elim (dropped_lem k (value t) lo hi) [
        | inl none ↦
            let same : value t / 256 ^ d * 256 ^ d ≡ value t = rw none (omega arith) in
            rw (e, same) (omega arith)
        | inr kept ↦ rw e (cut_bounds (value t) (256 ^ d) (pow_pos d) kept)
      ]
  | no none_left ↦
      let nothing : value t ≡ 0 = omega arith in
      rw (target_to_bits-zero t h nothing, value-target_from_bits 0) (omega arith)
]

-- What the compact form keeps has the same length and the same compact form.
abbrev Stable : ℕ → ℕ → Type 0
Stable k x =
    let v = x / 256 ^ dropped k x * 256 ^ dropped k x in
    (256 ^ k ≤ v) × (packed (suc k) (mantissa (suc k) v) ≡ packed (suc k) (mantissa (suc k) x))

quotient_mul : (q j : ℕ) → q * 256 ^ suc j / 256 ^ suc j ≡ q
quotient_mul q j = div-eq_of_eq-mul_left (pow_pos (suc j)) refl

Stable-long :
    (j x : ℕ) → 2 ^ 16 ≤ x / 256 ^ suc j → x / 256 ^ suc j < 2 ^ 24 → Stable (suc (suc (suc j))) x
Stable-long j x lo hi = elim (dec_lt (x / 256 ^ suc j) (2 ^ 23)) [
  | yes a ↦ ground (arith, e0, e2, e3, four, quotient_mul (x / 256 ^ suc j) j, low)
  | no a ↦
      ground (arith, e0, e2, e3, four, shape, quotient_mul (x / 256 ^ suc j / 256 * 256) j, low')
]
  where
    e0 : suc (suc (suc (suc j))) - 3 ≡ suc j
    e0 = omega arith

    e2 : suc (suc (suc j)) - 2 ≡ suc j
    e2 = omega arith

    e3 : suc (suc (suc j)) - 1 ≡ suc (suc j)
    e3 = omega arith

    four : 256 ^ suc (suc (suc j)) ≡ 2 ^ 16 * 256 ^ suc j
    four = (pow_suc_three j).0

    low : 2 ^ 16 * 256 ^ suc j ≤ x / 256 ^ suc j * 256 ^ suc j
    low = mul-le-mul_right (256 ^ suc j) lo

    low' : 2 ^ 16 * 256 ^ suc j ≤ x / 256 ^ suc j / 256 * 256 * 256 ^ suc j
    low' = mul-le-mul_right (256 ^ suc j) (omega arith)

    shape : x / 256 ^ suc (suc j) * 256 ^ suc (suc j) ≡ x / 256 ^ suc j / 256 * 256 * 256 ^ suc j
    shape = rw (next j x, pow-succ' 256 (suc j)) (omega arith)

stable : (k x : ℕ) → 256 ^ k ≤ x → x < 256 ^ suc k → Stable k x
stable zero x lo hi = ground arith
stable (suc zero) x lo hi = ground arith
stable (suc (suc zero)) x lo hi = ground arith
stable (suc (suc (suc j))) x lo hi = let (a, b) = top_bounds j x lo hi in Stable-long j x a b

-- For every target of 64-bit limbs, the compact form of its expanded compact form is that compact
-- form.
pub target_to_bits-target_from_bits-target_to_bits :
    (t : U256) → IsU256 t → target_to_bits (target_from_bits (target_to_bits t)) ≡ target_to_bits t
target_to_bits-target_from_bits-target_to_bits t h = elim (dec_lt 0 (value t)) [
  | yes pos ↦
      let (k, b, lo, hi) = byte_length 32 (value t) pos (value-lt t h) in
      let e = value-target_from_bits-target_to_bits t k h lo hi b in
      let (lo', same) = stable k (value t) lo hi in
      let back : U256 = target_from_bits (target_to_bits t) in
      let below = (target_round_trip_bounds t h).0 in
      target_to_bits_lem back k (target_from_bits-IsU256 (target_to_bits t)) (rw e lo')
        (omega (arith, below)) b
      ∙ ap (λ (v : ℕ). packed (suc k) (mantissa (suc k) v)) e
      ∙ same
      ∙ sym (target_to_bits_lem t k h lo hi b)
  | no none_left ↦
      let nothing : value t ≡ 0 = omega arith in
      let none : target_to_bits t ≡ 0 = target_to_bits-zero t h nothing in
      rw none (
        target_to_bits-zero (target_from_bits 0) (target_from_bits-IsU256 0)
          (value-target_from_bits 0))
]
