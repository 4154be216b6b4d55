-- ===== src/Work.antt =====
-- `work_from_target` of crates/core/src/lib.rs: the work of one block, by binary long division.
pub mod Bit
pub mod LongDivision
use zkpow.Prelude.{
  ℕ, zero, suc, ◌+◌, ◌/◌, ◌%◌, ◌^◌, Bool, ◌||◌, Result, ok, err, ltb, ◌==◌, if◌then◌else◌, bit_or,
}
use zkpow.U256.{U256, zero_u256, TargetError, increment_target, shl1_with_carry, sub_assign, le}

-- `quotient[bit / 64] |= 1 << (bit % 64)`; `bit` is below 256.
unfoldable pub set_bit : U256 → ℕ → U256
set_bit q bit =
    let mask = 2 ^ (bit % 64) in
    if bit / 64 == 0
    then record q { limb0 = bit_or q.limb0 mask }
    else if bit / 64 == 1
    then record q { limb1 = bit_or q.limb1 mask }
    else if bit / 64 == 2
    then record q { limb2 = bit_or q.limb2 mask }
    else record q { limb3 = bit_or q.limb3 mask }

-- The loop's variables.
pub record Division : Type 0 where
  pub remainder : U256
  pub quotient : U256

-- The body of the loop at `bit`: the dividend 2^256 has its one bit at 256.
unfoldable pub div_step : U256 → ℕ → Division → Division
div_step divisor bit s =
    let (shifted, carry) = shl1_with_carry s.remainder in
    let remainder =
      if bit == 256 then record shifted { limb0 = bit_or shifted.limb0 1 } else shifted in
    if carry || le divisor remainder
    then record {
      remainder = (sub_assign remainder divisor).0;
      quotient = if ltb bit 256 then set_bit s.quotient bit else s.quotient;
    }
    else record { remainder = remainder; quotient = s.quotient }

-- `for bit in (0..=256).rev()`: `count` bits are left, the next is `count - 1`.
unfoldable pub div_loop : U256 → ℕ → Division → Division
unfolding div_step
div_loop divisor zero s = s
div_loop divisor (suc bit) s = div_loop divisor bit (div_step divisor bit s)

unfoldable pub work_from_target : U256 → Result TargetError U256
work_from_target target = elim (increment_target target) [
  | ok divisor ↦
      ok (div_loop divisor 257 (record { remainder = zero_u256; quotient = zero_u256 })).quotient
  | err e ↦ err e
]
