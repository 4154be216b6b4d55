-- ===== src/U256/Arith.antt =====
-- The limb loops compute on the numbers: sums, products, differences, increments and shifts.
use zkpow.Prelude.{
  ℕ, ◌+◌, ◌-◌, ◌*◌, ◌/◌, ◌%◌, ◌^◌, ◌<◌, ◌≡◌, arith, ok, err, false, if◌then◌else◌, Bool, ◌≢◌, inl,
  inr, Result-cases,
}
use zkpow.Prelude.Bits.{bit_or_sum}
use zkpow.U256.{
  U256, IsU256, value, add, mul_u32, sub_limb, sub_assign, increment_target, TargetError,
  target_too_large, shl1_with_carry, shl1_limb,
}

pub value-lt : (x : U256) → IsU256 x → value x < 2 ^ 256
unfolding value
value-lt x h = omega arith

-- A number has one form in limbs.
pub value-injective : (x y : U256) → IsU256 x → IsU256 y → value x ≡ value y → x ≡ y
unfolding value
value-injective x y hx hy e = ground arith

-- The sum of the limbs is the sum of the numbers modulo 2^256.
pub value-add : (a b : U256) → value (add a b) ≡ (value a + value b) % 2 ^ 256
unfolding value add
value-add a b = omega arith

pub add-IsU256 : (a b : U256) → IsU256 (add a b)
unfolding add
add-IsU256 a b = omega arith

-- The product of the limbs with a number is the product modulo 2^256.
pub value-mul_u32 : (x : U256) (m : ℕ) → value (mul_u32 x m) ≡ value x * m % 2 ^ 256
unfolding value mul_u32
value-mul_u32 x m = omega arith

pub mul_u32-IsU256 : (x : U256) (m : ℕ) → IsU256 (mul_u32 x m)
unfolding mul_u32
mul_u32-IsU256 x m = omega arith

-- One limb of the subtraction, with the borrow out as a number.
sub_limb_lem :
    (a b : ℕ) (borrow : Bool)
    → a < 2 ^ 64
    → b < 2 ^ 64
    → let (d, out) = sub_limb a b borrow in
      (d < 2 ^ 64) × (d + b + (if borrow then 1 else 0) ≡ a + 2 ^ 64 * (if out then 1 else 0))
unfolding sub_limb
sub_limb_lem a b borrow ha hb = ground arith

bit-lt : (b : Bool) → (if b then 1 else 0) < 2
bit-lt b = ground arith

pub sub_assign-IsU256 : (x y : U256) → IsU256 (sub_assign x y).0
unfolding sub_assign sub_limb
sub_assign-IsU256 x y = omega arith

-- For limbs of 64 bits, the difference of the limbs is the difference of the numbers modulo 2^256.
pub value-sub_assign :
    (x y : U256)
    → IsU256 x
    → IsU256 y
    → value (sub_assign x y).0 ≡ (value x + 2 ^ 256 - value y) % 2 ^ 256
unfolding value sub_assign
value-sub_assign x y hx hy =
    let b0 = (sub_limb x.limb0 y.limb0 false).1 in
    let b1 = (sub_limb x.limb1 y.limb1 b0).1 in
    let b2 = (sub_limb x.limb2 y.limb2 b1).1 in
    omega (
      arith,
      sub_limb_lem x.limb0 y.limb0 false hx.fits0 hy.fits0,
      sub_limb_lem x.limb1 y.limb1 b0 hx.fits1 hy.fits1,
      sub_limb_lem x.limb2 y.limb2 b1 hx.fits2 hy.fits2,
      sub_limb_lem x.limb3 y.limb3 b2 hx.fits3 hy.fits3,
      bit-lt (sub_limb x.limb3 y.limb3 b2).1,
    )

-- The increment is exact, and fails at the largest number alone.
increment_target-value :
    (t d : U256) → IsU256 t → increment_target t ≡ ok d → IsU256 d × (value d ≡ value t + 1)
unfolding value increment_target
increment_target-value t d h e = ground arith

pub increment_target_err :
    (t : U256) → IsU256 t → value t + 1 ≡ 2 ^ 256 → increment_target t ≡ err target_too_large
unfolding value increment_target
increment_target_err t h e = ground arith

increment_target-ne-err :
    (t : U256) (x : TargetError) → value t + 1 < 2 ^ 256 → increment_target t ≢ err x
unfolding value increment_target
increment_target-ne-err t x h e = ground arith

pub increment_target_ok :
    (t : U256)
    → IsU256 t
    → value t + 1 < 2 ^ 256
    → (d : U256) × (increment_target t ≡ ok d) × IsU256 d × (value d ≡ value t + 1)
increment_target_ok t h b = elim (Result-cases (increment_target t)) [
  | inl (d, e) ↦ let v = increment_target-value t d h e in (d, e, v.0, v.1)
  | inr (x, e) ↦ absurd (increment_target-ne-err t x b e)
]

shl1_limb_lem : (x c : ℕ) → x < 2 ^ 64 → c < 2 → shl1_limb x c + 2 ^ 64 * (x / 2 ^ 63) ≡ 2 * x + c
shl1_limb_lem x c hx hc =
    let e : x * 2 % 2 ^ 64 ≡ x % 2 ^ 63 * 2 ^ 1 = omega arith in
    rw (e, bit_or_sum 1 (x % 2 ^ 63) c hc) (omega arith)

-- For limbs of 64 bits, a shift doubles, and the flag is the bit that does not fit.
pub shl1_with_carry_lem :
    (x : U256)
    → IsU256 x
    → let (y, carry) = shl1_with_carry x in
      IsU256 y × (value y + 2 ^ 256 * (if carry then 1 else 0) ≡ 2 * value x)
unfolding value shl1_with_carry
shl1_with_carry_lem x h = ground (
  arith,
  shl1_limb_lem x.limb0 0 h.fits0,
  shl1_limb_lem x.limb1 (x.limb0 / 2 ^ 63) h.fits1,
  shl1_limb_lem x.limb2 (x.limb1 / 2 ^ 63) h.fits2,
  shl1_limb_lem x.limb3 (x.limb2 / 2 ^ 63) h.fits3,
)
