-- ===== src/Target/Retarget.antt =====
-- The difficulty rule: what `calculate_next_target_required` computes on the numbers.
use zkpow.Prelude.{ℕ, ◌+◌, ◌-◌, ◌*◌, ◌/◌, ◌%◌, ◌^◌, ◌≤◌, ◌<◌, ◌≡◌, refl, sym, ap, ◌∙◌, arith, min}
use zkpow.Prelude.Bits.{bit_or_sum}
use zkpow.U256.{U256, IsU256, value, min_u256, mul_u32}
use zkpow.U256.Arith.{value-lt, value-mul_u32, mul_u32-IsU256}
use zkpow.U256.Order.{value-min_u256, min_u256-IsU256}
use zkpow.Target.{
  clamped_timespan, min_epoch_timespan, max_epoch_timespan, expected_epoch_timespan, div_limb,
  div_timespan, genesis_target, target_to_bits, target_from_bits, calculate_next_target_required,
}
use zkpow.Target.Expand.{target_from_bits-IsU256}
use zkpow.Target.RoundTrip.{
  target_round_trip_bounds, target_to_bits-target_from_bits-target_to_bits,
}
use zkpow.Target.Compact.{mantissa_bounds, target_to_bits_lem, target_to_bits-zero}
use zkpow.Target.Digits.{byte_length}
use native.Mathlib.Decide.{dec_lt}
use native.Mathlib.Nat.{mul-le-mul_left, div-le_of_le-mul}

pub clamped_timespan_bounds :
    (start previous : ℕ)
    → let span = clamped_timespan start previous in
      (min_epoch_timespan ≤ span) × (span ≤ max_epoch_timespan)
unfolding clamped_timespan
clamped_timespan_bounds start previous = omega arith

-- One limb of the division: the dividend is the remainder and the limb.
div_limb_lem :
    (r limb : ℕ)
    → r < expected_epoch_timespan
    → limb < 2 ^ 64
    → let (q, r') = div_limb r limb in
      (q * expected_epoch_timespan + r' ≡ r * 2 ^ 64 + limb)
      × (r' < expected_epoch_timespan)
      × (q < 2 ^ 64)
div_limb_lem r limb hr hl =
    let e : r * 2 ^ 64 % 2 ^ 128 ≡ r * 2 ^ 64 = omega arith in
    rw (e, bit_or_sum 64 r limb hl) (omega arith)

pub div_timespan_lem :
    (x : U256)
    → IsU256 x
    → IsU256 (div_timespan x) × (value (div_timespan x) ≡ value x / expected_epoch_timespan)
unfolding value div_timespan
div_timespan_lem x h =
    let d3 = div_limb_lem 0 x.limb3 (omega arith) h.fits3 in
    let d2 = div_limb_lem (div_limb 0 x.limb3).1 x.limb2 d3.1 h.fits2 in
    let d1 = div_limb_lem (div_limb (div_limb 0 x.limb3).1 x.limb2).1 x.limb1 d2.1 h.fits1 in
    let d0 =
      div_limb_lem (div_limb (div_limb (div_limb 0 x.limb3).1 x.limb2).1 x.limb1).1 x.limb0 d1.1
        h.fits0 in
    omega (arith, d3, d2, d1, d0)

genesis_target-IsU256 : IsU256 genesis_target
genesis_target-IsU256 = omega arith

pub value-genesis_target : value genesis_target ≡ 0xffff_0000 * 2 ^ 192
unfolding value
value-genesis_target = refl

-- The target before it is normalised: scaled by the timespan, and capped.
abbrev pub capped_target : U256 → ℕ → ℕ → ℕ
capped_target old start previous =
    min (value old * clamped_timespan start previous / expected_epoch_timespan)
      (value genesis_target)

-- Below the cap the product fits 256 bits.
scaled_lem :
    (old : U256) (span : ℕ)
    → span ≤ max_epoch_timespan
    → value old ≤ value genesis_target
    → value (mul_u32 old span) ≡ value old * span
scaled_lem old span hs ho =
    let p : value old * span ≤ value old * max_epoch_timespan = mul-le-mul_left (value old) hs in
    value-mul_u32 old span ∙ omega (arith, p, ho, value-genesis_target)

-- The limbs that the code normalises are those of the capped target.
clamped_lem :
    (old : U256) (start previous : ℕ)
    → value old ≤ value genesis_target
    → let raw = div_timespan (mul_u32 old (clamped_timespan start previous)) in
      IsU256 (min_u256 raw genesis_target)
      × (value (min_u256 raw genesis_target) ≡ capped_target old start previous)
clamped_lem old start previous ho =
    let span : ℕ = clamped_timespan start previous in
    let scaled : U256 = mul_u32 old span in
    let (fits, quotient) = div_timespan_lem scaled (mul_u32-IsU256 old span) in
    let product = scaled_lem old span (clamped_timespan_bounds start previous).1 ho in
    (
      min_u256-IsU256 (div_timespan scaled) genesis_target fits genesis_target-IsU256,
      value-min_u256 (div_timespan scaled) genesis_target fits genesis_target-IsU256
          ∙ ap (λ (q : ℕ). min q (value genesis_target))
              (quotient ∙ ap (λ (p : ℕ). p / expected_epoch_timespan) product),
    )

-- From a target up to the limit of the network, the new target is in range, is at most the capped
-- target, lies below it by at most one part in 2^15 of itself, and is the expansion of the compact
-- form beside it, which is its own compact form.
pub calculate_next_target_required_lem :
    (old : U256) (start previous : ℕ)
    → value old ≤ value genesis_target
    → let (bits, new) = calculate_next_target_required old start previous in
      let capped = capped_target old start previous in
      IsU256 new
      × (value new ≤ capped)
      × ((capped - value new) * 2 ^ 15 ≤ value new)
      × (new ≡ target_from_bits bits)
      × (bits ≡ target_to_bits new)
unfolding calculate_next_target_required
calculate_next_target_required_lem old start previous ho =
    let clamped : U256 =
      min_u256 (div_timespan (mul_u32 old (clamped_timespan start previous))) genesis_target in
    let (fits, e) = clamped_lem old start previous ho in
    let (below, near) = target_round_trip_bounds clamped fits in
    (
      target_from_bits-IsU256 (target_to_bits clamped),
      rw (← e) below,
      rw (← e) near,
      refl,
      sym (target_to_bits-target_from_bits-target_to_bits clamped fits),
    )

-- From a target up to the limit of the network, a retarget keeps the target up to the limit, and
-- at most multiplies it by four.
pub next_target-le :
    (old : U256) (start previous : ℕ)
    → value old ≤ value genesis_target
    → let new = (calculate_next_target_required old start previous).1 in
      (value new ≤ value genesis_target) × (value new ≤ 4 * value old)
next_target-le old start previous ho =
    let (fits, below, near, a, b) = calculate_next_target_required_lem old start previous ho in
    let span : ℕ = clamped_timespan start previous in
    let top = mul-le-mul_left (value old) (clamped_timespan_bounds start previous).1 in
    let raised : value old * span / expected_epoch_timespan ≤ 4 * value old =
      div-le_of_le-mul expected_epoch_timespan (omega (arith, top)) in
    (omega (arith, below), omega (arith, below, raised))

-- The compact form is a `u32`.
pub target_to_bits-lt : (t : U256) → IsU256 t → target_to_bits t < 2 ^ 32
target_to_bits-lt t h = elim (dec_lt 0 (value t)) [
  | no none ↦ rw (target_to_bits-zero t h (omega arith)) (omega arith)
  | yes pos ↦
      let (k, b, lo, hi) = byte_length 32 (value t) pos (value-lt t h) in
      let small = (mantissa_bounds k (value t) lo hi).1 in
      rw (target_to_bits_lem t k h lo hi b) (ground arith)
]

pub next_bits-lt :
    (old : U256) (start previous : ℕ)
    → value old ≤ value genesis_target
    → (calculate_next_target_required old start previous).0 < 2 ^ 32
next_bits-lt old start previous ho =
    let (fits, _, _, _, same) = calculate_next_target_required_lem old start previous ho in
    rw same (target_to_bits-lt (calculate_next_target_required old start previous).1 fits)
