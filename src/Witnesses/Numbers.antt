-- ===== src/Witnesses/Numbers.antt =====
-- The theorems on 256-bit numbers, targets and work at concrete numbers.
use zkpow.Prelude.{
  ◌+◌, ◌-◌, ◌*◌, ◌/◌, ◌%◌, ◌^◌, ◌≤◌, ◌<◌, ◌≡◌, ◌↔◌, refl, arith, true, ok, err, if◌then◌else◌,
}
use zkpow.U256.{
  U256, IsU256, value, le, from_limbs, add, mul_u32, sub_assign, shl1_with_carry, target_too_large,
  base,
}
use zkpow.U256.Arith.{value-add, value-mul_u32, value-sub_assign, shl1_with_carry_lem}
use zkpow.U256.Order.{le_iff}
use zkpow.Work.{work_from_target}
use zkpow.Work.LongDivision.{work_from_target_ok, work_from_target_err}
use zkpow.Target.{
  genesis_target, genesis_nbits, calculate_next_target_required, target_to_bits, target_from_bits,
}
use zkpow.Target.Expand.{expand, value-target_from_bits}
use zkpow.Target.RoundTrip.{
  target_round_trip_bounds, target_to_bits-target_from_bits-target_to_bits,
}
use zkpow.Target.Retarget.{capped_target, calculate_next_target_required_lem, next_target-le}

abbrev largest : U256
largest = from_limbs (base - 1) (base - 1) (base - 1) (base - 1)

largest-IsU256 : IsU256 largest
largest-IsU256 = record {
  fits0 = omega arith;
  fits1 = omega arith;
  fits2 = omega arith;
  fits3 = omega arith;
}

limit-IsU256 : IsU256 genesis_target
limit-IsU256 = record {
  fits0 = omega arith;
  fits1 = omega arith;
  fits2 = omega arith;
  fits3 = omega arith;
}

limit-small : value genesis_target + 1 < 2 ^ 256
unfolding value
limit-small = omega arith

largest-value : value largest + 1 ≡ 2 ^ 256
unfolding value
largest-value = refl

value-add_example :
    value (add largest genesis_target) ≡ (value largest + value genesis_target) % 2 ^ 256
value-add_example = value-add largest genesis_target

value-mul_u32_example :
    value (mul_u32 genesis_target 302400) ≡ value genesis_target * 302400 % 2 ^ 256
value-mul_u32_example = value-mul_u32 genesis_target 302400

value-sub_assign_example :
    value (sub_assign genesis_target largest).0
    ≡ (value genesis_target + 2 ^ 256 - value largest) % 2 ^ 256
value-sub_assign_example = value-sub_assign genesis_target largest limit-IsU256 largest-IsU256

shl1_with_carry_lem_example :
    let (y, carry) = shl1_with_carry largest in
    IsU256 y × (value y + 2 ^ 256 * (if carry then 1 else 0) ≡ 2 * value largest)
shl1_with_carry_lem_example = shl1_with_carry_lem largest largest-IsU256

le_iff_example : (le genesis_target largest ≡ true) ↔ (value genesis_target ≤ value largest)
le_iff_example = le_iff genesis_target largest limit-IsU256 largest-IsU256

work_from_target_ok_example :
    (w : U256) × (work_from_target genesis_target ≡ ok w)
    × IsU256 w
    × (value w ≡ 2 ^ 256 / (value genesis_target + 1) % 2 ^ 256)
work_from_target_ok_example = work_from_target_ok genesis_target limit-IsU256 limit-small

work_from_target_err_example : work_from_target largest ≡ err target_too_large
work_from_target_err_example = work_from_target_err largest largest-IsU256 largest-value

value-target_from_bits_example :
    value (target_from_bits genesis_nbits)
    ≡ expand (genesis_nbits / 2 ^ 24) (genesis_nbits % 2 ^ 23)
value-target_from_bits_example = value-target_from_bits genesis_nbits

target_round_trip_bounds_example :
    let v = value (target_from_bits (target_to_bits genesis_target)) in
    (v ≤ value genesis_target) × ((value genesis_target - v) * 2 ^ 15 ≤ v)
target_round_trip_bounds_example = target_round_trip_bounds genesis_target limit-IsU256

target_to_bits-target_from_bits-target_to_bits_example :
    target_to_bits (target_from_bits (target_to_bits largest)) ≡ target_to_bits largest
target_to_bits-target_from_bits-target_to_bits_example =
    target_to_bits-target_from_bits-target_to_bits largest largest-IsU256

calculate_next_target_required_lem_example :
    let (bits, new) = calculate_next_target_required genesis_target 0 302400 in
    let capped = capped_target genesis_target 0 302400 in
    IsU256 new
    × (value new ≤ capped)
    × ((capped - value new) * 2 ^ 15 ≤ value new)
    × (new ≡ target_from_bits bits)
    × (bits ≡ target_to_bits new)
calculate_next_target_required_lem_example =
    calculate_next_target_required_lem genesis_target 0 302400 (omega arith)

next_target-le_example :
    let new = (calculate_next_target_required genesis_target 0 302400).1 in
    (value new ≤ value genesis_target) × (value new ≤ 4 * value genesis_target)
next_target-le_example = next_target-le genesis_target 0 302400 (omega arith)
