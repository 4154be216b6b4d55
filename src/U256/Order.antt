-- ===== src/U256/Order.antt =====
-- The comparison of limbs is that of the numbers.
use zkpow.Prelude.{◌≤◌, ◌<◌, ◌≡◌, arith, true, false, ◌↔◌, min}
use zkpow.U256.{U256, IsU256, value, le, min_u256, eq_u256}

-- For limbs of 64 bits, the comparison from the top limb down is that of the numbers.
pub le_iff : (x y : U256) → IsU256 x → IsU256 y → (le x y ≡ true) ↔ (value x ≤ value y)
unfolding value le
le_iff x y hx hy = ground arith

pub lt_of_not-le : (x y : U256) → IsU256 x → IsU256 y → le x y ≡ false → value y < value x
unfolding value le
lt_of_not-le x y hx hy e = ground arith

pub value-min_u256 :
    (x y : U256) → IsU256 x → IsU256 y → value (min_u256 x y) ≡ min (value x) (value y)
unfolding min_u256
value-min_u256 x y hx hy = ground (arith, (le_iff x y hx hy).0, lt_of_not-le x y hx hy)

pub eq_u256_iff : (x y : U256) → (eq_u256 x y ≡ true) ↔ (x ≡ y)
unfolding eq_u256
eq_u256_iff x y = ground arith

pub min_u256-IsU256 : (x y : U256) → IsU256 x → IsU256 y → IsU256 (min_u256 x y)
unfolding min_u256
min_u256-IsU256 x y hx hy = ground arith
