-- ===== src/Work/LongDivision.antt =====
-- The division loop computes 2^256 / (target + 1).
use zkpow.Prelude.{
  ℕ, zero, suc, ◌+◌, ◌*◌, ◌/◌, ◌%◌, ◌^◌, ◌≤◌, ◌<◌, ◌≡◌, refl, ap, ◌∙◌, arith, true, false, ◌||◌,
  Bool, Bool-cases, inl, inr, if◌then◌else◌, ok, err,
}
use zkpow.U256.{
  U256, IsU256, value, zero_u256, shl1_with_carry, sub_assign, le, target_too_large, from_limbs,
}
use zkpow.U256.Arith.{
  value-lt, shl1_with_carry_lem, value-sub_assign, sub_assign-IsU256, increment_target_ok,
  increment_target_err,
}
use zkpow.U256.Order.{le_iff, lt_of_not-le}
use zkpow.Work.{set_bit, Division, div_step, div_loop, work_from_target}
use zkpow.Work.Bit.{set_bit_lem}
use native.Mathlib.Nat.{pow-succ', div-eq_of_lt-le}

module _ (divisor : U256) (top : ℕ) where
  -- What holds with `n` bits left. `top` is the bit of weight 2^256 of the true quotient, which
  -- the code does not keep.
  record IsDividing (n : ℕ) (s : Division) : Type 0 where
    remainder_fits : IsU256 s.remainder
    quotient_fits : IsU256 s.quotient
    reduced : value s.remainder < value divisor
    clear : (c : ℕ) × (value s.quotient ≡ c * 2 ^ n)
    divides :
        (value s.quotient + top * 2 ^ 256) * value divisor + value s.remainder * 2 ^ n ≡ 2 ^ 256

-- The shifted remainder, and the bit that left it.
abbrev shifted : U256 → U256
shifted r = (shl1_with_carry r).0

abbrev carry : U256 → Bool
carry r = (shl1_with_carry r).1

module _ (r d : U256) (hr : IsU256 r) (hd : IsU256 d) (reduced : value r < value d) where
  subtract_lem :
      (carry r || le d (shifted r)) ≡ true
      → value (sub_assign (shifted r) d).0 + value d ≡ 2 * value r
  subtract_lem e =
      let (fits, twice) = shl1_with_carry_lem r hr in
      ground (
        arith,
        twice,
        value-sub_assign (shifted r) d fits hd,
        (le_iff d (shifted r) hd fits).0,
        value-lt (shifted r) fits,
        value-lt d hd,
      )

  keep_lem :
      (carry r || le d (shifted r)) ≡ false
      → (value (shifted r) ≡ 2 * value r) × (value (shifted r) < value d)
  keep_lem e =
      let (fits, twice) = shl1_with_carry_lem r hr in
      ground (arith, twice, lt_of_not-le d (shifted r) hd fits)

-- The step below bit 256, on each branch.
module _ (divisor : U256) (bit : ℕ) (s : Division) (hb : bit < 256) where
  div_step-true :
      (carry s.remainder || le divisor (shifted s.remainder)) ≡ true
      → div_step divisor bit s ≡ record {
        remainder = (sub_assign (shifted s.remainder) divisor).0;
        quotient = set_bit s.quotient bit;
      }
  unfolding div_step
  div_step-true e = ground arith

  div_step-false :
      (carry s.remainder || le divisor (shifted s.remainder)) ≡ false
      → div_step divisor bit s ≡ record { remainder = shifted s.remainder; quotient = s.quotient }
  unfolding div_step
  div_step-false e = ground arith

-- The equation of the invariant, in numbers: the step either subtracts `d` or does not.
divides_true :
    (q t d r n p k : ℕ)
    → n + d ≡ 2 * r
    → (q + t) * d + r * (2 * p) ≡ k
    → (q + p + t) * d + n * p ≡ k
divides_true q t d r n p k e h = omega (arith, ap (λ (x : ℕ). x * p) e)

clear_true : (c p : ℕ) → c * (2 * p) + p ≡ (2 * c + 1) * p
clear_true c p = omega arith

-- One step keeps the invariant.
div_step-IsDividing :
    (divisor : U256) (top bit : ℕ) (s : Division)
    → IsU256 divisor
    → bit < 256
    → IsDividing divisor top (suc bit) s
    → IsDividing divisor top bit (div_step divisor bit s)
div_step-IsDividing divisor top bit s hd hb inv =
    elim (Bool-cases (carry s.remainder || le divisor (shifted s.remainder))) [
      | inl e ↦ rw (div_step-true divisor bit s hb e) (subtracted e)
      | inr e ↦ rw (div_step-false divisor bit s hb e) (kept e)
    ]
  where
    double : 2 ^ suc bit ≡ 2 * 2 ^ bit
    double = pow-succ' 2 bit

    before :
        (value s.quotient + top * 2 ^ 256) * value divisor + value s.remainder * (2 * 2 ^ bit)
        ≡ 2 ^ 256
    before = rw (← double) inv.divides

    subtracted :
        (carry s.remainder || le divisor (shifted s.remainder)) ≡ true
        → IsDividing divisor top bit (record {
          remainder = (sub_assign (shifted s.remainder) divisor).0;
          quotient = set_bit s.quotient bit;
        })
    subtracted e =
        let (c, q) = inv.clear in
        let (fits, added) = set_bit_lem s.quotient bit c inv.quotient_fits q hb in
        let less = subtract_lem s.remainder divisor inv.remainder_fits hd inv.reduced e in
        record {
          remainder_fits = sub_assign-IsU256 (shifted s.remainder) divisor;
          quotient_fits = fits;
          reduced = omega (arith, less, inv.reduced);
          clear = (2 * c + 1, added ∙ rw (q, double) (clear_true c (2 ^ bit)));
          divides = rw added (
              divides_true (value s.quotient) (top * 2 ^ 256) (value divisor) (value s.remainder) _
                (2 ^ bit) _ less before);
        }

    kept :
        (carry s.remainder || le divisor (shifted s.remainder)) ≡ false
        → IsDividing divisor top bit
            (record { remainder = shifted s.remainder; quotient = s.quotient })
    kept e =
        let (c, q) = inv.clear in
        let (twice, small) = keep_lem s.remainder divisor inv.remainder_fits hd inv.reduced e in
        record {
          remainder_fits = (shl1_with_carry_lem s.remainder inv.remainder_fits).0;
          quotient_fits = inv.quotient_fits;
          reduced = small;
          clear = (2 * c, q ∙ rw double (omega arith));
          divides = rw twice (omega (arith, before));
        }

div_loop-IsDividing :
    (divisor : U256) (top bit : ℕ) (s : Division)
    → IsU256 divisor
    → bit ≤ 256
    → IsDividing divisor top bit s
    → IsDividing divisor top 0 (div_loop divisor bit s)
unfolding div_loop
div_loop-IsDividing divisor top zero s hd hb inv = inv
div_loop-IsDividing divisor top (suc bit) s hd hb inv =
    div_loop-IsDividing divisor top bit (div_step divisor bit s) hd (omega arith)
      (div_step-IsDividing divisor top bit s hd hb inv)

-- The first step, at bit 256, brings the dividend's one bit into the remainder.
abbrev start : Division
start = record { remainder = zero_u256; quotient = zero_u256 }

abbrev one_u256 : U256
one_u256 = from_limbs 1 0 0 0

first_step_lem :
    (divisor : U256)
    → div_step divisor 256 start ≡ (
        if le divisor one_u256
        then record { remainder = (sub_assign one_u256 divisor).0; quotient = zero_u256 }
        else record { remainder = one_u256; quotient = zero_u256 })
unfolding div_step shl1_with_carry
first_step_lem divisor = refl

value-zero_u256 : value zero_u256 ≡ 0
unfolding value
value-zero_u256 = refl

value-one_u256 : value one_u256 ≡ 1
unfolding value
value-one_u256 = refl

first_step :
    (divisor : U256)
    → IsU256 divisor
    → 0 < value divisor
    → (top : ℕ) × IsDividing divisor top 256 (div_step divisor 256 start)
first_step divisor hd pos = elim (Bool-cases (le divisor one_u256)) [
  | inl e ↦ (1, rw (first_step_lem divisor, e) (by_one e))
  | inr e ↦ (0, rw (first_step_lem divisor, e) (by_more e))
]
  where
    one-IsU256 : IsU256 one_u256
    one-IsU256 = omega arith

    zero-IsU256 : IsU256 zero_u256
    zero-IsU256 = omega arith

    by_one :
        le divisor one_u256 ≡ true
        → IsDividing divisor 1 256
            (record { remainder = (sub_assign one_u256 divisor).0; quotient = zero_u256 })
    by_one e =
        let d : value divisor ≡ 1 =
          omega (arith, (le_iff divisor one_u256 hd one-IsU256).0 e, value-one_u256) in
        let none_left : value (sub_assign one_u256 divisor).0 ≡ 0 =
          value-sub_assign one_u256 divisor one-IsU256 hd ∙ rw (d, value-one_u256) in
        record {
          remainder_fits = sub_assign-IsU256 one_u256 divisor;
          quotient_fits = zero-IsU256;
          reduced = omega (arith, none_left);
          clear = (0, value-zero_u256);
          divides = rw (value-zero_u256, d, none_left);
        }

    by_more :
        le divisor one_u256 ≡ false
        → IsDividing divisor 0 256 (record { remainder = one_u256; quotient = zero_u256 })
    by_more e = record {
      remainder_fits = one-IsU256;
      quotient_fits = zero-IsU256;
      reduced = lt_of_not-le divisor one_u256 hd one-IsU256 e;
      clear = (0, value-zero_u256);
      divides = rw (value-zero_u256, value-one_u256) (omega arith);
    }

-- Division with remainder is unique.
quotient_unique : (q d r n : ℕ) → q * d + r ≡ n → r < d → n / d ≡ q
quotient_unique q d r n e h = div-eq_of_lt-le {k = q} d {m = n} (omega arith) (omega arith)

-- What the whole loop leaves as the quotient.
div_loop_lem :
    (divisor : U256)
    → IsU256 divisor
    → 0 < value divisor
    → let w = (div_loop divisor 257 start).quotient in
      IsU256 w × (value w ≡ 2 ^ 256 / value divisor % 2 ^ 256)
unfolding div_loop
div_loop_lem divisor hd pos =
    let (top, inv) = first_step divisor hd pos in
    finish top (div_loop divisor 256 (div_step divisor 256 start))
      (div_loop-IsDividing divisor top 256 (div_step divisor 256 start) hd (omega arith) inv)
  where
    finish :
        (top : ℕ) (s : Division)
        → IsDividing divisor top 0 s
        → IsU256 s.quotient × (value s.quotient ≡ 2 ^ 256 / value divisor % 2 ^ 256)
    finish top s inv =
        let e : 2 ^ 256 / value divisor ≡ value s.quotient + top * 2 ^ 256 =
          quotient_unique (value s.quotient + top * 2 ^ 256) (value divisor) (value s.remainder)
            (2 ^ 256) (omega (arith, inv.divides)) inv.reduced in
        (inv.quotient_fits, omega (arith, e, value-lt s.quotient inv.quotient_fits))

-- For every target but the largest number of 256 bits, there is a work in range, and it is 2^256 /
-- (target + 1), cut to 256 bits.
pub work_from_target_ok :
    (target : U256)
    → IsU256 target
    → value target + 1 < 2 ^ 256
    → (w : U256) × (work_from_target target ≡ ok w)
      × IsU256 w
      × (value w ≡ 2 ^ 256 / (value target + 1) % 2 ^ 256)
unfolding work_from_target
work_from_target_ok target h b =
    let (d, e, hd, v) = increment_target_ok target h b in
    let (fits, q) = div_loop_lem d hd (omega arith) in
    ((div_loop d 257 start).quotient, rw (e, work_from_target), fits, rw v at q)

-- For the largest number of 256 bits as the target there is no work: `target_too_large`.
pub work_from_target_err :
    (target : U256)
    → IsU256 target
    → value target + 1 ≡ 2 ^ 256
    → work_from_target target ≡ err target_too_large
unfolding work_from_target
work_from_target_err target h e = rw (increment_target_err target h e, work_from_target)
