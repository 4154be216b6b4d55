-- ===== src/Prelude/Bits.antt =====
-- The binary operations on native numbers as arithmetic, at every width.
use Prim.Native.Nat.{
  ℕ, zero, suc, ◌+◌, ◌-◌, ◌*◌, ◌/◌, ◌%◌, ◌^◌, ◌≤◌, ◌<◌, min, max, bit_and, bit_or, digits, bitwise,
  bit_and-bitwise, bit_or-bitwise,
}
use mathlib.Core.Path.{◌≡◌, refl, ap, ◌∙◌}
use native.Mathlib.Omega.{arith}
use native.Mathlib.Decide.{dec_lt}
use native.Mathlib.Nat.{pow-suc, one-le-pow, pow-succ', div-div-eq-div-mul}
use mathlib.Core.WellFounded.{Acc, WellFounded}
use mathlib.Core.WellFounded as WF

Acc-below : (k n : ℕ) → n < k → Acc ◌<◌ n
Acc-below zero n h = elim h [ ]
Acc-below (suc k) n h = Acc.intro n (λ m hm. Acc-below k m (omega arith))

lt_wf : WellFounded ◌<◌
lt_wf = record { apply = λ n. Acc-below (suc n) n (omega arith) }

-- The native operations recurse on digits with the first number as their fuel. One unit more than
-- enough changes nothing, so any fuel that is enough will do.
module _ (rest : ℕ → ℕ) (join : ℕ → ℕ → ℕ) where
  spare_fuel : (n x y : ℕ) → x ≤ n → digits rest join (suc n) x y ≡ digits rest join n x y
  spare_fuel n zero y h = fuel_zero n y
    where
      fuel_zero : (k w : ℕ) → digits rest join (suc k) 0 w ≡ digits rest join k 0 w
      fuel_zero zero w = refl
      fuel_zero (suc k) w = refl
  spare_fuel zero (suc x) y h = absurd (omega arith)
  spare_fuel (suc n) (suc x) y h =
      ap (λ (t : ℕ). t * 2 + join (suc x % 2) (y % 2))
        (spare_fuel n (suc x / 2) (y / 2) (omega arith))

  enough_fuel : (n x y : ℕ) → x ≤ n → digits rest join n x y ≡ bitwise rest join x y
  enough_fuel zero zero y h = refl
  enough_fuel zero (suc x) y h = absurd (omega arith)
  enough_fuel (suc n) x y h = elim (dec_lt n x) [
    | yes full ↦ let e : suc n ≡ x = omega arith in ap (λ (k : ℕ). digits rest join k x y) e
    | no less ↦ spare_fuel n x y (omega arith) ∙ enough_fuel n x y (omega arith)
  ]

  lowest_digit :
      (x y : ℕ)
      → bitwise rest join (suc x) y
        ≡ join (suc x % 2) (y % 2) + 2 * bitwise rest join (suc x / 2) (y / 2)
  lowest_digit x y = omega (arith, enough_fuel x (suc x / 2) (y / 2) (omega arith))

bit_or-halves : (x y : ℕ) → bit_or x y ≡ max (x % 2) (y % 2) + 2 * bit_or (x / 2) (y / 2)
bit_or-halves x y = rw (bit_or-bitwise, bit_or-bitwise) (by_digit x)
  where
    by_digit :
        (n : ℕ)
        → bitwise (λ t. t) max n y ≡ max (n % 2) (y % 2) + 2 * bitwise (λ t. t) max (n / 2) (y / 2)
    by_digit zero = omega arith
    by_digit (suc n) = lowest_digit (λ t. t) max n y

bit_and-halves : (x y : ℕ) → bit_and x y ≡ min (x % 2) (y % 2) + 2 * bit_and (x / 2) (y / 2)
bit_and-halves x y = rw (bit_and-bitwise, bit_and-bitwise) (by_digit x)
  where
    by_digit :
        (n : ℕ)
        → bitwise (λ t. 0) min n y ≡ min (n % 2) (y % 2) + 2 * bitwise (λ t. 0) min (n / 2) (y / 2)
    by_digit zero = omega arith
    by_digit (suc n) = lowest_digit (λ t. 0) min n y

pub bit_or-zero : (a : ℕ) → bit_or a 0 ≡ a
bit_or-zero a = WF.induction lt_wf {C = λ n. bit_or n 0 ≡ n} a (elim [
  | zero ↦ λ ih. refl
  | suc n ↦ λ ih. omega (arith, bit_or-halves (suc n) 0, ih (suc n / 2) (omega arith))
])

bit_and-zero : (a : ℕ) → bit_and a 0 ≡ 0
bit_and-zero a = WF.induction lt_wf {C = λ n. bit_and n 0 ≡ 0} a (elim [
  | zero ↦ λ ih. refl
  | suc n ↦ λ ih. omega (arith, bit_and-halves (suc n) 0, ih (suc n / 2) (omega arith))
])

-- A shift by one more place.
shift_suc : (k high : ℕ) → 2 * (high * 2 ^ k) ≡ high * 2 ^ suc k
shift_suc k high = omega (arith, ap (λ (t : ℕ). high * t) (pow-suc 2 k))

-- `(high << k) | low` is a sum when `low` fits `k` bits.
pub bit_or_sum : (k high low : ℕ) → low < 2 ^ k → bit_or (high * 2 ^ k) low ≡ high * 2 ^ k + low
bit_or_sum zero high low small = ground (arith, bit_or-zero high)
bit_or_sum (suc k) high low small =
    let upper = bit_or_sum k high (low / 2) (omega arith) in
    ground (arith, shift_suc k high, upper, bit_or-halves (high * 2 ^ suc k) low)

bit_and_low : (k high low : ℕ) → low < 2 ^ k → bit_and (high * 2 ^ k + low) (2 ^ k - 1) ≡ low
bit_and_low zero high low small = rw bit_and-zero (omega arith)
bit_and_low (suc k) high low small =
    let upper = bit_and_low k high (low / 2) (omega arith) in
    let halves = bit_and-halves (high * 2 ^ suc k + low) (2 ^ suc k - 1) in
    ground (arith, pow-suc 2 k, shift_suc k high, halves, upper)

-- A mask of `k` low bits is the remainder by `2 ^ k`.
pub bit_and_mask : (k a : ℕ) → bit_and a (2 ^ k - 1) ≡ a % 2 ^ k
bit_and_mask k a = ground (arith, one-le-pow k 2, bit_and_low k (a / 2 ^ k) (a % 2 ^ k))

-- A mask of one bit reads that bit.
pub bit_and_bit : (k a : ℕ) → bit_and a (2 ^ k) ≡ a / 2 ^ k % 2 * 2 ^ k
bit_and_bit zero a = omega (arith, bit_and-halves a 1, bit_and-zero (a / 2))
bit_and_bit (suc k) a = ground (
  arith,
  bit_and-halves a (2 ^ suc k),
  bit_and_bit k (a / 2),
  pow-succ' 2 k,
  div-div-eq-div-mul a 2 (2 ^ k),
  shift_suc k (a / 2 ^ suc k % 2),
)

-- Setting a bit that is clear adds it: `x` has no bit below `2 ^ suc k`.
pub bit_or_bit : (k q : ℕ) → bit_or (q * 2 ^ suc k) (2 ^ k) ≡ q * 2 ^ suc k + 2 ^ k
bit_or_bit k q = bit_or_sum (suc k) q (2 ^ k) (omega (arith, pow-suc 2 k, one-le-pow k 2))
