-- ===== src/Target.antt =====
-- The compact form of a target, and the difficulty rule: `target_to_bits`, `target_from_bits`,
-- `check_proof_of_work` and `calculate_next_target_required` of crates/core/src/lib.rs.
pub mod Expand
pub mod Digits
pub mod Compact
pub mod RoundTrip
pub mod Retarget
use zkpow.Prelude.{
  ℕ, zero, suc, ◌+◌, ◌-◌, ◌*◌, ◌/◌, ◌%◌, ◌^◌, Bool, List, not, leb, ltb, ◌==◌, if◌then◌else◌,
  bit_and, bit_or, min, max, get_or, set, replicate,
}
use zkpow.Bytes.{le_bytes, put_slice}
use zkpow.U256.{U256, base, from_limbs, from_le_bytes, to_le_bytes, le, min_u256, mul_u32}

-- `while nbytes > 0 && bytes[nbytes - 1] == 0 { nbytes -= 1 }`
unfoldable pub significant_bytes : List ℕ → ℕ → ℕ
significant_bytes bytes zero = 0
significant_bytes bytes (suc n) = if get_or bytes n 0 == 0 then significant_bytes bytes n else suc n

-- `for i in (0..count).rev() { value = (value << 8) | bytes[i] }`
unfoldable pub join_bytes : List ℕ → ℕ → ℕ → ℕ
join_bytes bytes zero value = value
join_bytes bytes (suc i) value =
    join_bytes bytes i (bit_or (value * 2 ^ 8 % 2 ^ 32) (get_or bytes i 0))

-- The first value of `compact`: the three top bytes, padded with zeros if there are fewer.
unfoldable pub top_bytes : List ℕ → ℕ → ℕ
unfolding join_bytes
top_bytes bytes nbytes =
    if leb nbytes 3
    then join_bytes bytes nbytes 0 * 2 ^ (8 * (3 - nbytes)) % 2 ^ 32
    else bit_or
        (bit_or (get_or bytes (nbytes - 1) 0 * 2 ^ 16) (get_or bytes (nbytes - 2) 0 * 2 ^ 8))
        (get_or bytes (nbytes - 3) 0)

-- The sign bit of the mantissa stays clear: the mantissa gives up a byte to the exponent.
unfoldable pub pack_bits : ℕ → ℕ → ℕ
pack_bits nbytes compact =
    if bit_and compact 0x0080_0000 == 0
    then bit_or (nbytes * 2 ^ 24 % 2 ^ 32) (bit_and compact 0x007f_ffff)
    else bit_or ((nbytes + 1) * 2 ^ 24 % 2 ^ 32) (bit_and (compact / 2 ^ 8) 0x007f_ffff)

unfoldable pub target_to_bits : U256 → ℕ
target_to_bits target =
    let bytes = to_le_bytes target in
    let nbytes = significant_bytes bytes 32 in
    if nbytes == 0 then 0 else pack_bits nbytes (top_bytes bytes nbytes)

-- `if index < 32 { bytes[index] = byte }`
abbrev pub put_byte : ℕ → ℕ → List ℕ → List ℕ
put_byte index byte bytes = if ltb index 32 then set bytes index byte else bytes

-- `[0u8; 32]`
unfoldable pub zero_bytes : List ℕ
zero_bytes = replicate 32 0

-- The array that `target_from_bits` fills.
unfoldable pub expanded_bytes : ℕ → ℕ → List ℕ
expanded_bytes size mantissa =
    if leb size 3
    then put_slice 0 (le_bytes 4 (mantissa / 2 ^ (8 * (3 - size)))) zero_bytes
    else let offset = size - 3 in
      put_byte (offset + 2) (bit_and (mantissa / 2 ^ 16) 0xff) (
        put_byte (offset + 1) (bit_and (mantissa / 2 ^ 8) 0xff)
          (put_byte offset (bit_and mantissa 0xff) zero_bytes))

unfoldable pub target_from_bits : ℕ → U256
target_from_bits bits = from_le_bytes (expanded_bytes (bits / 2 ^ 24) (bit_and bits 0x007f_ffff))

unfoldable pub check_proof_of_work : List ℕ → U256 → Bool
check_proof_of_work hash target = le (from_le_bytes hash) target

abbrev pub epoch_length : ℕ
epoch_length = 2016

abbrev pub target_block_time : ℕ
target_block_time = 600

abbrev pub expected_epoch_timespan : ℕ
expected_epoch_timespan = epoch_length * target_block_time

abbrev pub min_epoch_timespan : ℕ
min_epoch_timespan = expected_epoch_timespan / 4

abbrev pub max_epoch_timespan : ℕ
max_epoch_timespan = expected_epoch_timespan * 4

abbrev pub genesis_nbits : ℕ
genesis_nbits = 0x1d00_ffff

abbrev pub genesis_target : U256
genesis_target = from_limbs 0 0 0 0x0000_0000_ffff_0000

-- The signed difference of the timestamps, clamped: where it is negative, so is the difference on
-- ℕ zero, and both are raised to the minimum.
unfoldable pub clamped_timespan : ℕ → ℕ → ℕ
clamped_timespan epoch_start previous =
    max min_epoch_timespan (min max_epoch_timespan (previous - epoch_start))

-- One limb of the division, from the most significant down: the quotient limb and the remainder.
abbrev pub div_limb : ℕ → ℕ → ℕ × ℕ
div_limb remainder limb =
    let dividend = bit_or (remainder * 2 ^ 64 % 2 ^ 128) limb in
    (dividend / expected_epoch_timespan % base, dividend % expected_epoch_timespan)

-- The loop that divides the four limbs by `EXPECTED_EPOCH_TIMESPAN`.
unfoldable pub div_timespan : U256 → U256
div_timespan x =
    let (q3, r3) = div_limb 0 x.limb3 in
    let (q2, r2) = div_limb r3 x.limb2 in
    let (q1, r1) = div_limb r2 x.limb1 in
    let (q0, r0) = div_limb r1 x.limb0 in from_limbs q0 q1 q2 q3

-- The compact form and the normalised full target of the next epoch.
unfoldable pub calculate_next_target_required : U256 → ℕ → ℕ → ℕ × U256
calculate_next_target_required old_target epoch_start previous =
    let scaled = mul_u32 old_target (clamped_timespan epoch_start previous) in
    let clamped = min_u256 (div_timespan scaled) genesis_target in
    let compact = target_to_bits clamped in (compact, target_from_bits compact)
