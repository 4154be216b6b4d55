-- ===== src/U256.antt =====
-- `u256` of crates/core/src/types.rs, a number of 256 bits in four little-endian limbs of 64 bits,
-- with the arithmetic on it of crates/core/src/lib.rs. `Target` and `ChainWork` are `u256` behind
-- the wrapper of crates/core/src/brand.rs, which has no content at run time.
pub mod Arith
pub mod Order
pub mod Bytes
use zkpow.Prelude.{
  ℕ, ◌+◌, ◌-◌, ◌*◌, ◌/◌, ◌%◌, ◌^◌, ◌<◌, Bool, true, false, ◌&&◌, ◌||◌, List, [], ◌∷◌, Result, ok,
  err, ltb, ◌==◌, if◌then◌else◌, compare, Ordering, bit_or, replicate,
}
use zkpow.Bytes.{le_bytes, from_le, slice, put_all, concat}

pub record U256 : Type 0 where
  pub limb0 : ℕ
  pub limb1 : ℕ
  pub limb2 : ℕ
  pub limb3 : ℕ

-- The modulus of a limb, `u64::MAX + 1`.
abbrev pub base : ℕ
base = 2 ^ 64

abbrev pub from_limbs : ℕ → ℕ → ℕ → ℕ → U256
from_limbs a b c d = record { limb0 = a; limb1 = b; limb2 = c; limb3 = d }

abbrev pub zero_u256 : U256
zero_u256 = from_limbs 0 0 0 0

-- Each limb is a `u64`.
pub record IsU256 (x : U256) : Type 0 where
  pub fits0 : x.limb0 < 2 ^ 64
  pub fits1 : x.limb1 < 2 ^ 64
  pub fits2 : x.limb2 < 2 ^ 64
  pub fits3 : x.limb3 < 2 ^ 64

-- The number that the limbs stand for.
unfoldable pub value : U256 → ℕ
value x = x.limb0 + 2 ^ 64 * x.limb1 + 2 ^ 128 * x.limb2 + 2 ^ 192 * x.limb3

unfoldable pub from_le_bytes : List ℕ → U256
from_le_bytes bytes =
    from_limbs (from_le (slice 0 8 bytes)) (from_le (slice 8 16 bytes))
      (from_le (slice 16 24 bytes)) (from_le (slice 24 32 bytes))

-- The bytes of the limbs side by side: the value in memory on the little-endian targets that the
-- crate is limited to, as `to_le_bytes_slice` and `copy_to_bytes` read it.
abbrev pub limb_bytes : U256 → List (List ℕ)
limb_bytes x =
    le_bytes 8 x.limb0 ∷ le_bytes 8 x.limb1 ∷ le_bytes 8 x.limb2 ∷ le_bytes 8 x.limb3 ∷ []

unfoldable pub memory : U256 → List ℕ
memory x = concat (limb_bytes x)

-- The slices that `to_le_bytes` writes, each at its offset.
abbrev pub limb_fields : U256 → List (ℕ × List ℕ)
limb_fields x =
    (0, le_bytes 8 x.limb0)
    ∷ (8, le_bytes 8 x.limb1)
    ∷ (16, le_bytes 8 x.limb2)
    ∷ (24, le_bytes 8 x.limb3)
    ∷ []

unfoldable pub to_le_bytes : U256 → List ℕ
to_le_bytes x = put_all (limb_fields x) (replicate 32 0)

-- `Ord::cmp`: the most significant limb that differs decides.
unfoldable pub cmp : U256 → U256 → Ordering
cmp x y = elim (compare x.limb3 y.limb3) [
  | Ordering.eq ↦ elim (compare x.limb2 y.limb2) [
    | Ordering.eq ↦ elim (compare x.limb1 y.limb1) [ Ordering.eq ↦ compare x.limb0 y.limb0 | o ↦ o ]
    | o ↦ o
  ]
  | o ↦ o
]

unfoldable pub le : U256 → U256 → Bool
unfolding cmp
le x y = elim (cmp x y) [ Ordering.gt ↦ false | _ ↦ true ]

-- `Ord::min`
unfoldable pub min_u256 : U256 → U256 → U256
unfolding le
min_u256 x y = if le x y then x else y

-- The derived `PartialEq`.
unfoldable pub eq_u256 : U256 → U256 → Bool
eq_u256 x y = x.limb0 == y.limb0 && x.limb1 == y.limb1 && x.limb2 == y.limb2 && x.limb3 == y.limb3

-- `ChainWork + ChainWork`: each round keeps 64 bits of the sum and carries the rest.
unfoldable pub add : U256 → U256 → U256
add a b =
    let sum0 = a.limb0 + b.limb0 + 0 in
    let sum1 = a.limb1 + b.limb1 + sum0 / base in
    let sum2 = a.limb2 + b.limb2 + sum1 / base in
    let sum3 = a.limb3 + b.limb3 + sum2 / base in
    from_limbs (sum0 % base) (sum1 % base) (sum2 % base) (sum3 % base)

-- `ChainWork * u32`, and the multiplication in `calculate_next_target_required`.
unfoldable pub mul_u32 : U256 → ℕ → U256
mul_u32 x multiplier =
    let product0 = x.limb0 * multiplier + 0 in
    let product1 = x.limb1 * multiplier + product0 / base in
    let product2 = x.limb2 * multiplier + product1 / base in
    let product3 = x.limb3 * multiplier + product2 / base in
    from_limbs (product0 % base) (product1 % base) (product2 % base) (product3 % base)

-- `u64::overflowing_sub`
abbrev pub overflowing_sub : ℕ → ℕ → ℕ × Bool
overflowing_sub a b = ((a + base - b) % base, ltb a b)

-- One limb of `sub_assign`: the borrow goes in and out as 0 or 1.
unfoldable pub sub_limb : ℕ → ℕ → Bool → ℕ × Bool
sub_limb lhs rhs borrow =
    let (a, b1) = overflowing_sub lhs rhs in
    let (a', b2) = overflowing_sub a (if borrow then 1 else 0) in (a', b1 || b2)

unfoldable pub sub_assign : U256 → U256 → U256 × Bool
sub_assign lhs rhs =
    let (a0, borrow0) = sub_limb lhs.limb0 rhs.limb0 false in
    let (a1, borrow1) = sub_limb lhs.limb1 rhs.limb1 borrow0 in
    let (a2, borrow2) = sub_limb lhs.limb2 rhs.limb2 borrow1 in
    let (a3, borrow3) = sub_limb lhs.limb3 rhs.limb3 borrow2 in (from_limbs a0 a1 a2 a3, borrow3)

pub data TargetError : Type 0 where
  target_too_large : TargetError

-- The loop of `increment_target`, limb by limb: it stops at the first limb that can take the one.
unfoldable pub increment_target : U256 → Result TargetError U256
increment_target t =
    if ltb t.limb0 (base - 1)
    then ok (from_limbs (t.limb0 + 1) t.limb1 t.limb2 t.limb3)
    else if ltb t.limb1 (base - 1)
    then ok (from_limbs 0 (t.limb1 + 1) t.limb2 t.limb3)
    else if ltb t.limb2 (base - 1)
    then ok (from_limbs 0 0 (t.limb2 + 1) t.limb3)
    else if ltb t.limb3 (base - 1)
    then ok (from_limbs 0 0 0 (t.limb3 + 1))
    else err target_too_large

-- One limb shifted left by one bit with the carry of the limb below: `(limb << 1) | carry`.
abbrev pub shl1_limb : ℕ → ℕ → ℕ
shl1_limb limb carry = bit_or (limb * 2 % base) carry

-- The new value, and whether a bit was lost at the top.
unfoldable pub shl1_with_carry : U256 → U256 × Bool
shl1_with_carry x =
    let carry0 = x.limb0 / 2 ^ 63 in
    let carry1 = x.limb1 / 2 ^ 63 in
    let carry2 = x.limb2 / 2 ^ 63 in
    let carry3 = x.limb3 / 2 ^ 63 in
    (
      from_limbs (shl1_limb x.limb0 0) (shl1_limb x.limb1 carry0) (shl1_limb x.limb2 carry1)
          (shl1_limb x.limb3 carry2),
      ltb 0 carry3,
    )
